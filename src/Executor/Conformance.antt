-- ===== src/Executor/Conformance.antt =====
-- The rows that INSERT and UPDATE hand to the engine fit the table's columns.
use aura_sql.Prelude.{
  ℕ, zero, suc, ◌≡◌, sym, subst, true, List, [], ◌∷◌, some, arith, inl, inr, Bool-cases,
  Option-cases, length, get_elem?, set,
}
use aura_sql.Errors.{OnOk}
use aura_sql.Core.{
  ColumnType, type_eq, Value, Column, Schema, column_index, Row, row_of, Expr, Assignment,
}
use aura_sql.Eval.{eval}
use aura_sql.Eval.Typing.{Conforms, HasType}
use aura_sql.Executor.Dml.{
  fits, empty_schema, insert_values, apply_assignment, apply_update_assignments,
}
use aura_sql.Executor.Effects.{Result-cases}

some_injective : {A : Type 0} {a b : A} → some a ≡ some b → a ≡ b
some_injective h = cc

type_eq-eq : (s t : ColumnType) → type_eq s t ≡ true → s ≡ t
unfolding type_eq
type_eq-eq s t h = ground arith

fits-HasType : (v : Value) (t : ColumnType) → fits v t ≡ true → HasType t v
unfolding type_eq
fits-HasType v t h = elim (Bool-cases v.null) [
  | inl null ↦ inl null
  | inr filled ↦ inr (type_eq-eq v.type t (rw filled at h))
]

-- The values of an INSERT that is not refused are one for each column, NULL or of its type.
pub insert_values-Conforms :
    (es : List Expr) (cs : List Column)
    → length es ≡ length cs
    → OnOk (Conforms cs) (insert_values es cs)
unfolding insert_values
insert_values-Conforms [] [] same = tt
insert_values-Conforms [] (c ∷ cs) same = absurd (omega arith)
insert_values-Conforms (e ∷ es) [] same = tt
insert_values-Conforms (e ∷ es) (c ∷ cs) same =
    let rest = insert_values-Conforms es cs (omega arith) in
    elim (Result-cases (eval e (row_of []) empty_schema)) [
      | inr (x, failed) ↦ rw (failed, insert_values) tt
      | inl (v, made) ↦ elim (Bool-cases (fits v c.type)) [
        | inr refused ↦ rw (made, insert_values) (rw refused tt)
        | inl fit ↦ elim (Result-cases (insert_values es cs)) [
          | inr (x, failed) ↦ rw (made, insert_values) (rw fit (rw failed tt))
          | inl (vs, others) ↦
              rw (made, insert_values)
                (rw fit (rw others (fits-HasType v c.type fit, rw others at rest)))
        ]
      ]
    ]

set-Conforms :
    (cs : List Column) (vs : List Value) (i : ℕ) (c : Column) (v : Value)
    → Conforms cs vs
    → get_elem? cs i ≡ some c
    → HasType c.type v
    → Conforms cs (set vs i v)
set-Conforms [] [] i c v h at hv = tt
set-Conforms [] (w ∷ vs) i c v h at hv = absurd h
set-Conforms (d ∷ cs) [] i c v h at hv = absurd h
set-Conforms (d ∷ cs) (w ∷ vs) zero c v h at hv =
    (subst (λ k. HasType k.type v) (sym (some_injective at)) hv, h.1)
set-Conforms (d ∷ cs) (w ∷ vs) (suc i) c v h at hv = (h.0, set-Conforms cs vs i c v h.1 at hv)

apply_assignment-Conforms :
    (a : Assignment) (row : Row) (schema : Schema)
    → Conforms schema.columns row.values
    → OnOk (λ r. Conforms schema.columns r.values) (apply_assignment a row schema)
unfolding apply_assignment
apply_assignment-Conforms a row schema h = elim (Option-cases (column_index schema a.column)) [
  | inl missing ↦ rw (missing, apply_assignment) tt
  | inr (idx, at) ↦ elim (Option-cases (get_elem? schema.columns idx)) [
    | inl absent ↦ rw (at, apply_assignment) (rw absent tt)
    | inr (c, there) ↦ elim (Result-cases (eval a.value row schema)) [
      | inr (x, failed) ↦ rw (at, apply_assignment) (rw there (rw failed tt))
      | inl (v, made) ↦
          let stored = λ (fit : fits v c.type ≡ true).
            set-Conforms schema.columns row.values idx c v h there (fits-HasType v c.type fit) in
          rw (at, apply_assignment) (rw there (rw made (ground arith)))
    ]
  ]
]

-- A row that fits the table's columns still fits them after the assignments of an UPDATE that is not
-- refused, whatever their expressions.
pub apply_update_assignments-Conforms :
    (assigns : List Assignment) (row : Row) (schema : Schema)
    → Conforms schema.columns row.values
    → OnOk (λ r. Conforms schema.columns r.values) (apply_update_assignments assigns row schema)
unfolding apply_update_assignments
apply_update_assignments-Conforms [] row schema h = h
apply_update_assignments-Conforms (a ∷ assigns) row schema h =
    elim (Result-cases (apply_assignment a row schema)) [
      | inr (x, failed) ↦ rw (failed, apply_update_assignments) tt
      | inl (changed, made) ↦
          rw (made, apply_update_assignments)
            (apply_update_assignments-Conforms assigns changed schema
              (rw made at (apply_assignment-Conforms a row schema h)))
    ]
