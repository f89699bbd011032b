-- ===== src/Executor/Equality.antt =====
-- What `equalityColumnLiteral` recognises, as a test of one column's value.
use mathlib.Core.Path.{ap₂}
use aura_sql.Prelude.{
  ℕ, zero, suc, ◌≡◌, refl, sym, ap, subst, ◌∙◌, List, [], ◌∷◌, some, arith, ◌⊎◌, inl, inr,
  Bool-cases, Option-cases, GoString, str_eq, get_elem?, Ordering, flip,
}
use aura_sql.Errors.{Error, Result, ok, err, ◌>>=◌}
use aura_sql.Core.{
  ColumnType, type_int, type_text, type_bool, Value, Column, Schema, index_of, column_index,
  compare_value, is_equal, compares_equal, Row, op_eq, Expr, column_ref, literal, binary,
}
use aura_sql.Core.Order.{compare_value-flip}
use aura_sql.Eval.{eval, eval_binary, eval_comparison, eval_column, eval_where, as_test}
use aura_sql.Eval.Typing.{
  Conforms, HasType, column_type, result_type, both_types-some, type_of, index_of-Conforms,
}
use aura_sql.Executor.AccessPath.{
  IndexedEquality, names_table, column_literal, equality_column_literal,
}
use aura_sql.Executor.Terms.{passes, test_value, IsTest}

-- The two forms of the test.
data IsEquality (equality : IndexedEquality) : Expr → Type 0 where
  column_first :
      (table : GoString)
      → IsEquality equality
          (binary op_eq (column_ref table equality.column) (literal equality.value))
  column_last :
      (table : GoString)
      → IsEquality equality
          (binary op_eq (literal equality.value) (column_ref table equality.column))

some_injective : {A : Type 0} {a b : A} → some a ≡ some b → a ≡ b
some_injective h = cc

column_literal-some :
    (l r : Expr) (table : GoString) (equality : IndexedEquality)
    → column_literal l r table ≡ some equality
    → (t : GoString) × (l ≡ column_ref t equality.column) × (r ≡ literal equality.value)
unfolding column_literal
column_literal-some (column_ref t name) (literal v) table equality h =
    elim (Bool-cases (names_table t table)) [
      | inl here ↦
          let same = some_injective (rw (here, column_literal) at h) in
          (t, ap (λ q. column_ref t q.column) same, ap (λ q. literal q.value) same)
      | inr other ↦ absurd (let h' = rw (other, column_literal) at h in cc)
    ]
column_literal-some _ _ table equality h = cc

IsEquality-form :
    (term : Expr) (table : GoString) (equality : IndexedEquality)
    → equality_column_literal term table ≡ some equality
    → IsEquality equality term
unfolding equality_column_literal
IsEquality-form (binary op_eq l r) table equality h =
    elim (Option-cases (column_literal l r table)) [
      | inl not_first ↦
          let h' = rw (not_first, equality_column_literal) at h in
          let (t, er, el) = column_literal-some r l table equality h' in
          subst (IsEquality equality) (sym (ap₂ (binary op_eq) el er)) (column_last t)
      | inr (q, first) ↦
          let same = rw (first, equality_column_literal) at h in
          let (t, el, er) = column_literal-some l r table equality (first ∙ same) in
          subst (IsEquality equality) (sym (ap₂ (binary op_eq) el er)) (column_first t)
    ]
IsEquality-form _ table equality h = cc

Result-cases : {A : Type 0} (m : Result A) → ((a : A) × (m ≡ ok a)) ⊎ ((e : Error) × (m ≡ err e))
Result-cases (ok a) = inl (a, refl)
Result-cases (err e) = inr (e, refl)

compares_equal_comm : (v w : Value) → compares_equal v w ≡ compares_equal w v
compares_equal_comm v w = elim (Result-cases (compare_value v w)) [
  | inl (c, eq) ↦ rw (eq, compare_value-flip v w c eq) (flipped c)
  | inr (e, eq) ↦ elim (Result-cases (compare_value w v)) [
    | inl (c, qe) ↦ absurd (let back = compare_value-flip w v c qe in cc)
    | inr (f, qe) ↦ rw (eq, qe) refl
  ]
]
  where
    flipped : (c : Ordering) → is_equal (ok c) ≡ is_equal (ok (flip c))
    flipped c = ground arith

-- `=` on operands of one type passes where they compare equal; NULL does not.
equals_value :
    (t : ColumnType) (v w : Value)
    → HasType t v
    → HasType t w
    → test_value (eval_binary op_eq v w >>= as_test) ≡ compares_equal v w
unfolding eval_binary eval_comparison compare_value as_test
equals_value t v w hv hw = ground arith

column_index-typed :
    (cs : List Column) (name : GoString) (t : ColumnType)
    → column_type cs name ≡ some t
    → (i : ℕ) × (index_of cs name ≡ some i)
unfolding index_of column_type
column_index-typed [] name t h = cc
column_index-typed (c ∷ cs) name t h = elim (Bool-cases (str_eq c.name name)) [
  | inl same ↦ (zero, rw same refl)
  | inr other ↦
      let (i, at) = column_index-typed cs name t (rw other at h) in (suc i, rw (other, at) refl)
]

same_type : (s t : ColumnType) → result_type op_eq s t ≡ some type_bool → s ≡ t
same_type type_int type_int h = refl
same_type type_text type_text h = refl
same_type type_bool type_bool h = refl
same_type type_int type_text h = cc
same_type type_int type_bool h = cc
same_type type_text type_int h = cc
same_type type_text type_bool h = cc
same_type type_bool type_int h = cc
same_type type_bool type_text h = cc

-- The recognised term has a column of the literal's type.
IsEquality-typed :
    (schema : Schema) (equality : IndexedEquality) (term : Expr)
    → IsEquality equality term
    → IsTest schema term
    → column_type schema.columns equality.column ≡ some equality.value.type
unfolding type_of
IsEquality-typed schema equality term (column_first table) h =
    let (s, t, es, et, typed) =
      both_types-some op_eq (column_type schema.columns equality.column) (some equality.value.type)
        type_bool h in
    es ∙ ap some (same_type s t typed) ∙ sym et
IsEquality-typed schema equality term (column_last table) h =
    let (s, t, es, et, typed) =
      both_types-some op_eq (some equality.value.type) (column_type schema.columns equality.column)
        type_bool h in
    et ∙ ap some (sym (same_type s t typed)) ∙ sym es

eval_column-at :
    (name : GoString) (row : Row) (schema : Schema) (i : ℕ) (v : Value)
    → column_index schema name ≡ some i
    → get_elem? row.values i ≡ some v
    → eval_column name row schema ≡ ok v
unfolding eval_column
eval_column-at name row schema i v ei ev = rw (ei, eval_column) (rw (ev, eval_column) refl)

-- The value of the column that the term tests.
abbrev pub TestedAt : Expr → Value → Row → Schema → ℕ → Type 0
TestedAt term key row schema idx =
    (v : Value) × (get_elem? row.values idx ≡ some v)
    × (passes term row schema ≡ compares_equal v key)

IsEquality-passes :
    (schema : Schema) (equality : IndexedEquality) (term : Expr) (row : Row) (v : Value)
    → IsEquality equality term
    → eval_column equality.column row schema ≡ ok v
    → HasType equality.value.type v
    → passes term row schema ≡ compares_equal v equality.value
unfolding eval_where eval
IsEquality-passes schema q term row v (column_first table) at hv =
    rw at (equals_value q.value.type v q.value hv (inr refl))
IsEquality-passes schema q term row v (column_last table) at hv =
    rw at (equals_value q.value.type q.value v (inr refl) hv ∙ compares_equal_comm q.value v)

-- The column of the recognised test is in the schema.
pub equality-index :
    (schema : Schema) (equality : IndexedEquality) (term : Expr) (table : GoString)
    → equality_column_literal term table ≡ some equality
    → IsTest schema term
    → (idx : ℕ) × (column_index schema equality.column ≡ some idx)
unfolding column_index
equality-index schema equality term table h test =
    column_index-typed schema.columns equality.column equality.value.type
      (IsEquality-typed schema equality term (IsEquality-form term table equality h) test)

-- A row that conforms passes the test where its value compares equal to the literal.
pub equality-TestedAt :
    (schema : Schema) (equality : IndexedEquality) (term : Expr) (table : GoString) (row : Row)
    (idx : ℕ)
    → equality_column_literal term table ≡ some equality
    → IsTest schema term
    → Conforms schema.columns row.values
    → column_index schema equality.column ≡ some idx
    → TestedAt term equality.value row schema idx
unfolding column_index
equality-TestedAt schema equality term table row idx h test fits at =
    let form = IsEquality-form term table equality h in
    let (i, v, ei, ev, hv) =
      index_of-Conforms schema.columns row.values equality.column equality.value.type fits
        (IsEquality-typed schema equality term form test) in
    let same = some_injective (sym ei ∙ at) in
    (
      v,
      subst (λ k. get_elem? row.values k ≡ some v) same ev,
      IsEquality-passes schema equality term row v form
          (eval_column-at equality.column row schema i v ei ev) hv,
    )
