-- ===== src/Executor/Dml.antt =====
-- executor/executor.go: INSERT, UPDATE and DELETE, which change the engine's state statement by
-- statement and leave what was done before an error.
use aura_sql.Prelude.{
  ℕ, Bool, true, List, [], ◌∷◌, Option, none, some, length, get_elem?, set, ltb, ◌==◌, GoString,
  if◌then◌else◌,
}
use aura_sql.Errors.{Result, ok, err, errorf, wrapped, panic, ◌>>=◌, wrapping}
use aura_sql.Core.{
  ColumnType, type_eq, Value, Column, Schema, column_index, Row, row_of, Expr, Assignment,
}
use aura_sql.Core.Engine.{StorageEngine, Stream, done, failed, next}
use aura_sql.Eval.{eval, eval_where}

-- `core.Result`, whose zero value goes with every error.
pub record Output : Type 0 where
  pub schema : Schema
  pub rows : List Row
  pub rows_affected : ℕ

abbrev pub affected : ℕ → Output
affected n = record { schema = record { columns = [] }; rows = []; rows_affected = n }

abbrev pub empty_schema : Schema
empty_schema = record { columns = [] }

-- NULL fits every column.
abbrev pub fits : Value → ColumnType → Bool
fits v t = if v.null then true else type_eq v.type t

-- The values of an INSERT, whose number is that of the columns.
unfoldable pub insert_values : List Expr → List Column → Result (List Value)
unfolding type_eq
insert_values [] cs = ok []
insert_values (e ∷ es) [] = err panic
insert_values (e ∷ es) (c ∷ cs) = do
  v ← wrapping "insert into %q value for column %q: %w" (eval e (row_of []) empty_schema)
  if fits v c.type
      then (do vs ← insert_values es cs; ok (v ∷ vs))
      else err (errorf "insert into %q column %q expects %s, got %s")

-- `newRow := row` shares the slice of values, so each expression sees the assignments before it.
unfoldable pub apply_assignment : Assignment → Row → Schema → Result Row
unfolding type_eq
apply_assignment a row schema = elim (column_index schema a.column) [
  | none ↦ err (errorf "column %q does not exist")
  | some idx ↦ elim (get_elem? schema.columns idx) [
    | none ↦ err panic
    | some c ↦ do
      v ← wrapping "evaluate assignment for %q: %w" (eval a.value row schema)
      if fits v c.type
          then if ltb idx (length row.values)
            then ok (record row { values = set row.values idx v })
            else err panic
          else err (errorf "type mismatch for column %q: expected %s, got %s")
  ]
]

unfoldable pub apply_update_assignments : List Assignment → Row → Schema → Result Row
unfolding apply_assignment
apply_update_assignments [] row schema = ok row
apply_update_assignments (a ∷ assigns) row schema = do
  changed ← apply_assignment a row schema
  apply_update_assignments assigns changed schema

-- The rows that UPDATE and DELETE act on, read before the first change.
unfoldable pub matching_rows : Option Expr → Schema → Stream (ℕ × Row) → Result (List (ℕ × Row))
matching_rows filter schema done = ok []
matching_rows filter schema (failed e) = err (wrapped "scan next: %w" e)
matching_rows filter schema (next (id, row) rest) = do
  matches ← wrapping "where clause: %w" (eval_where filter row schema)
  others ← matching_rows filter schema rest
  ok (if matches then (id, row) ∷ others else others)

module _ {S : Type 0} (eng : StorageEngine S) (txn : ℕ) where
  unfoldable pub execute_insert : GoString → List Expr → S → S × Result Output
  unfolding insert_values
  execute_insert table es s = elim (eng.get_schema s table) [
    | none ↦ (s, err (errorf "table %q does not exist"))
    | some schema ↦
        if length es == length schema.columns
        then elim (insert_values es schema.columns) [
          | err e ↦ (s, err e)
          | ok vs ↦
              let (s', id) = eng.insert txn table (row_of vs) s in
              (s', wrapping "insert into %q: %w" id >>= λ _. ok (affected 1))
        ]
        else (s, err (errorf "insert into %q has %d values for %d columns"))
  ]

  -- The rows to change: the table's schema and what of its scan passes the WHERE clause.
  unfoldable pub materialize : GoString → Option Expr → S → Result (Schema × List (ℕ × Row))
  unfolding matching_rows
  materialize table filter s = elim (eng.get_schema s table) [
    | none ↦ err (errorf "table %q does not exist")
    | some schema ↦ do
      iter ← wrapping "scan table %q: %w" (eng.scan s txn table)
      rows ← matching_rows filter schema iter
      ok (schema, rows)
  ]

  unfoldable pub update_rows :
      GoString → List Assignment → Schema → List (ℕ × Row) → S → S × Result (Unit {0})
  unfolding apply_update_assignments
  update_rows table assigns schema [] s = (s, ok tt)
  update_rows table assigns schema ((id, row) ∷ rows) s =
      elim (apply_update_assignments assigns row schema) [
        | err e ↦ (s, err (wrapped "apply assignments for row %d: %w" e))
        | ok changed ↦
            let (s', updated) = eng.update txn table id changed s in
            elim updated [
              | err e ↦ (s', err (wrapped "update row %d: %w" e))
              | ok _ ↦ update_rows table assigns schema rows s'
            ]
      ]

  unfoldable pub execute_update : GoString → List Assignment → Option Expr → S → S × Result Output
  unfolding materialize update_rows
  execute_update table assigns filter s = elim (materialize table filter s) [
    | err e ↦ (s, err e)
    | ok (schema, rows) ↦
        let (s', updated) = update_rows table assigns schema rows s in
        (s', updated >>= λ _. ok (affected (length rows)))
  ]

  unfoldable pub delete_rows : GoString → List (ℕ × Row) → S → S × Result (Unit {0})
  delete_rows table [] s = (s, ok tt)
  delete_rows table ((id, row) ∷ rows) s =
      let (s', deleted) = eng.delete txn table id s in
      elim deleted [
        | err e ↦ (s', err (wrapped "delete row %d: %w" e))
        | ok _ ↦ delete_rows table rows s'
      ]

  unfoldable pub execute_delete : GoString → Option Expr → S → S × Result Output
  unfolding materialize delete_rows
  execute_delete table filter s = elim (materialize table filter s) [
    | err e ↦ (s, err e)
    | ok (schema, rows) ↦
        let (s', deleted) = delete_rows table rows s in
        (s', deleted >>= λ _. ok (affected (length rows)))
  ]
