-- ===== src/Executor/Effects.antt =====
-- What INSERT, UPDATE and DELETE do to an engine is what its row operations do, one after the other.
use aura_sql.Prelude.{
  ℕ, ◌≡◌, ◌⊎◌, refl, List, [], ◌∷◌, Option, GoString, inl, inr, Option-cases, Bool-cases, length,
  ◌==◌,
}
use aura_sql.Errors.{Result, ok, err, Error}
use aura_sql.Core.{
  Schema, Row, row_of, Expr, Assignment, SelectStmt, Statement, insert, select, update, delete,
}
use aura_sql.Core.Engine.{StorageEngine}
use aura_sql.Executor.Dml.{
  insert_values, apply_update_assignments, execute_insert, materialize, update_rows, execute_update,
  delete_rows, execute_delete,
}
use aura_sql.Executor.{execute}

-- The statements that read or write rows.
pub data IsRowStatement : Statement → Type 0 where
  inserts : (table : GoString) (values : List Expr) → IsRowStatement (insert table values)
  selects : (q : SelectStmt) → IsRowStatement (select q)
  updates :
      (table : GoString) (assigns : List Assignment) (f : Option Expr)
      → IsRowStatement (update table assigns f)
  deletes : (table : GoString) (f : Option Expr) → IsRowStatement (delete table f)

pub Result-cases :
    {A : Type 0} (m : Result A) → ((a : A) × (m ≡ ok a)) ⊎ ((e : Error) × (m ≡ err e))
Result-cases (ok a) = inl (a, refl)
Result-cases (err e) = inr (e, refl)

module _ {S : Type 0} (eng : StorageEngine S) (x : ℕ) (R : S → S → Type 0)
    (R_refl : (s : S) → R s s) (R_trans : (a b c : S) → R a b → R b c → R a c)
    (inserted : (table : GoString) (row : Row) (s : S) → R s (eng.insert x table row s).0)
    (updated : (table : GoString) (id : ℕ) (row : Row) (s : S)
      → R s (eng.update x table id row s).0)
    (deleted : (table : GoString) (id : ℕ) (s : S) → R s (eng.delete x table id s).0) where
  update_rows-R :
      (table : GoString) (assigns : List Assignment) (schema : Schema) (rows : List (ℕ × Row))
      (s : S)
      → R s (update_rows eng x table assigns schema rows s).0
  unfolding update_rows
  update_rows-R table assigns schema [] s = R_refl s
  update_rows-R table assigns schema ((id, row) ∷ rows) s =
      elim (Result-cases (apply_update_assignments assigns row schema)) [
        | inr (e, failed) ↦ rw (failed, update_rows) (R_refl s)
        | inl (changed, made) ↦
            let one = updated table id changed s in
            let rest =
              update_rows-R table assigns schema rows (eng.update x table id changed s).0 in
            elim (Result-cases (eng.update x table id changed s).1) [
              | inr (e, failed) ↦ rw (made, update_rows) (rw failed one)
              | inl (u, done) ↦ rw (made, update_rows) (rw done (R_trans _ _ _ one rest))
            ]
      ]

  delete_rows-R :
      (table : GoString) (rows : List (ℕ × Row)) (s : S) → R s (delete_rows eng x table rows s).0
  unfolding delete_rows
  delete_rows-R table [] s = R_refl s
  delete_rows-R table ((id, row) ∷ rows) s =
      let one = deleted table id s in
      let rest = delete_rows-R table rows (eng.delete x table id s).0 in
      elim (Result-cases (eng.delete x table id s).1) [
        | inr (e, failed) ↦ rw (failed, delete_rows) one
        | inl (u, done) ↦ rw (done, delete_rows) (R_trans _ _ _ one rest)
      ]

  execute_insert-R :
      (table : GoString) (es : List Expr) (s : S) → R s (execute_insert eng x table es s).0
  unfolding execute_insert
  execute_insert-R table es s = elim (Option-cases (eng.get_schema s table)) [
    | inl gone ↦ rw (gone, execute_insert) (R_refl s)
    | inr (schema, at) ↦ elim (Bool-cases (length es == length schema.columns)) [
      | inr differ ↦ rw (at, execute_insert) (rw differ (R_refl s))
      | inl agree ↦ elim (Result-cases (insert_values es schema.columns)) [
        | inr (e, failed) ↦ rw (at, execute_insert) (rw agree (rw failed (R_refl s)))
        | inl (vs, made) ↦
            rw (at, execute_insert) (rw agree (rw made (inserted table (row_of vs) s)))
      ]
    ]
  ]

  execute_update-R :
      (table : GoString) (assigns : List Assignment) (f : Option Expr) (s : S)
      → R s (execute_update eng x table assigns f s).0
  unfolding execute_update
  execute_update-R table assigns f s = elim (Result-cases (materialize eng x table f s)) [
    | inr (e, failed) ↦ rw (failed, execute_update) (R_refl s)
    | inl ((schema, rows), found) ↦
        rw (found, execute_update) (update_rows-R table assigns schema rows s)
  ]

  execute_delete-R :
      (table : GoString) (f : Option Expr) (s : S) → R s (execute_delete eng x table f s).0
  unfolding execute_delete
  execute_delete-R table f s = elim (Result-cases (materialize eng x table f s)) [
    | inr (e, failed) ↦ rw (failed, execute_delete) (R_refl s)
    | inl ((schema, rows), found) ↦ rw (found, execute_delete) (delete_rows-R table rows s)
  ]

  -- What the row operations keep, the statement keeps.
  pub execute-R : (stmt : Statement) (s : S) → IsRowStatement stmt → R s (execute eng x stmt s).0
  unfolding execute
  execute-R _ s (inserts table values) = execute_insert-R table values s
  execute-R _ s (selects q) = R_refl s
  execute-R _ s (updates table assigns f) = execute_update-R table assigns f s
  execute-R _ s (deletes table f) = execute_delete-R table f s
