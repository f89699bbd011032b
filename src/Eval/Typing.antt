-- ===== src/Eval/Typing.antt =====
-- A type discipline for expressions, under which executor/eval.go never fails.
use aura_sql.Prelude.{
  ◌≡◌, refl, ℕ, zero, suc, Bool, true, false, ◌⊎◌, inl, inr, List, [], ◌∷◌, Option, none, some,
  arith, get_elem?, GoString, str_eq, Bool-cases, if◌then◌else◌,
}
use aura_sql.Errors.{Result, ok, err, Returns, ◌>>=◌}
use aura_sql.Core.{
  ColumnType, type_int, type_text, type_bool, Value, Column, Schema, index_of, column_index, Row,
  BinOp, op_and, op_or, op_add, op_sub, Expr, star, column_ref, literal, binary, compare_value,
}
use aura_sql.Eval.{eval_binary, eval_comparison, eval_column, eval, as_test, eval_where}

-- The value is NULL or of type `t`.
abbrev pub HasType : ColumnType → Value → Type 0
HasType t v = (v.null ≡ true) ⊎ (v.type ≡ t)

-- One value for each column, of its type.
abbrev pub Conforms : List Column → List Value → Type 0
Conforms [] [] = Unit
Conforms (c ∷ cs) (v ∷ vs) = HasType c.type v × Conforms cs vs
Conforms _ _ = ⊥

unfoldable pub column_type : List Column → GoString → Option ColumnType
column_type [] name = none
column_type (c ∷ cs) name = if str_eq c.name name then some c.type else column_type cs name

abbrev pub result_type : BinOp → ColumnType → ColumnType → Option ColumnType
result_type op_and type_bool type_bool = some type_bool
result_type op_or type_bool type_bool = some type_bool
result_type op_add type_int type_int = some type_int
result_type op_sub type_int type_int = some type_int
result_type op_and _ _ = none
result_type op_or _ _ = none
result_type op_add _ _ = none
result_type op_sub _ _ = none
result_type op type_int type_int = some type_bool
result_type op type_text type_text = some type_bool
result_type op type_bool type_bool = some type_bool
result_type op _ _ = none

abbrev pub both_types : BinOp → Option ColumnType → Option ColumnType → Option ColumnType
both_types op (some s) (some t) = result_type op s t
both_types op _ _ = none

unfoldable pub type_of : Expr → Schema → Option ColumnType
unfolding column_type
type_of star schema = none
type_of (column_ref table name) schema = column_type schema.columns name
type_of (literal v) schema = some v.type
type_of (binary op l r) schema = both_types op (type_of l schema) (type_of r schema)

-- Where a column has a type, a conforming row holds a value of it there.
pub index_of-Conforms :
    (cs : List Column) (vs : List Value) (name : GoString) (t : ColumnType)
    → Conforms cs vs
    → column_type cs name ≡ some t
    → (i : ℕ) × (v : Value) × (index_of cs name ≡ some i) × (get_elem? vs i ≡ some v) × HasType t v
unfolding index_of column_type
index_of-Conforms [] vs name t h e = cc
index_of-Conforms (c ∷ cs) [] name t h e = absurd h
index_of-Conforms (c ∷ cs) (v ∷ vs) name t h e = elim (Bool-cases (str_eq c.name name)) [
  | inl same ↦ (zero, v, rw same, refl, ground arith)
  | inr other ↦
      let (i, w, ei, ew, hw) = index_of-Conforms cs vs name t h.1 (rw other at e) in
      (suc i, w, rw (other, ei), ew, hw)
]

eval_column_sound :
    (name : GoString) (row : Row) (schema : Schema) (t : ColumnType)
    → Conforms schema.columns row.values
    → column_type schema.columns name ≡ some t
    → Returns (HasType t) (eval_column name row schema)
unfolding eval_column column_index
eval_column_sound name row schema t h e =
    let (i, v, ei, ev, hv) = index_of-Conforms schema.columns row.values name t h e in
    rw (ei, eval_column) (rw (ev, eval_column) hv)

eval_binary_sound :
    (op : BinOp) (l r : Value) (s t u : ColumnType)
    → HasType s l
    → HasType t r
    → result_type op s t ≡ some u
    → Returns (HasType u) (eval_binary op l r)
unfolding eval_binary eval_comparison compare_value
eval_binary_sound op_and l r s t u hl hr e = ground arith
eval_binary_sound op_or l r s t u hl hr e = ground arith
eval_binary_sound op_add l r s t u hl hr e = ground arith
eval_binary_sound op_sub l r s t u hl hr e = ground arith
eval_binary_sound op l r s t u hl hr e = ground arith

Returns-bind :
    {A B : Type 0} {P : A → Type 0} (Q : B → Type 0) (m : Result A) (f : A → Result B)
    → Returns P m
    → ((a : A) → m ≡ ok a → P a → Returns Q (f a))
    → Returns Q (m >>= f)
Returns-bind Q (ok a) f h k = k a refl h
Returns-bind Q (err e) f h k = absurd h

-- The operands of a well-typed binary expression are well typed.
pub both_types-some :
    (op : BinOp) (a b : Option ColumnType) (u : ColumnType)
    → both_types op a b ≡ some u
    → (s : ColumnType) × (t : ColumnType) × (a ≡ some s)
      × (b ≡ some t)
      × (result_type op s t ≡ some u)
both_types-some op (some s) (some t) u e = (s, t, refl, refl, e)
both_types-some op none b u e = cc
both_types-some op (some s) none u e = cc

-- A well-typed expression never fails on a row that conforms to the schema, and its value has the
-- expression's type or is NULL.
pub eval_sound :
    (e : Expr) (row : Row) (schema : Schema) (t : ColumnType)
    → Conforms schema.columns row.values
    → type_of e schema ≡ some t
    → Returns (HasType t) (eval e row schema)
unfolding eval type_of
eval_sound star row schema t h typed = cc
eval_sound (column_ref table name) row schema t h typed =
    eval_column_sound name row schema t h typed
eval_sound (literal v) row schema t h typed = ground arith
eval_sound (binary op l r) row schema t h typed =
    let (s, u, el, er, e) = both_types-some op (type_of l schema) (type_of r schema) t typed in
    Returns-bind (HasType t) (eval l row schema) _ (eval_sound l row schema s h el) λ a _ ha.
      Returns-bind (HasType t) (eval r row schema) _ (eval_sound r row schema u h er)
        λ b _ hb. eval_binary_sound op a b s u t ha hb e

-- A WHERE clause of type BOOL is decided on every row that conforms to the schema.
pub eval_where_total :
    (e : Expr) (row : Row) (schema : Schema)
    → Conforms schema.columns row.values
    → type_of e schema ≡ some type_bool
    → (b : Bool) × (eval_where (some e) row schema ≡ ok b)
unfolding eval_where
eval_where_total e row schema h typed =
    decide (eval e row schema) (eval_sound e row schema type_bool h typed)
  where
    decide :
        (r : Result Value) → Returns (HasType type_bool) r → (b : Bool) × ((r >>= as_test) ≡ ok b)
    decide (ok v) hv = (if v.null then false else v.bool, ground arith)
    decide (err x) hv = absurd hv
