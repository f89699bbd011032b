-- ===== src/Session/Atomic.antt =====
-- Autocommit over the engine in memory: a statement happens as a whole or not at all.
use aura_sql.Prelude.{ℕ, ◌+◌, ◌%◌, ◌^◌, ◌≡◌, ◌∙◌, refl, ap, some, GoString, List, Option}
use aura_sql.Errors.{Result, ok, err}
use aura_sql.Core.{Expr, SelectStmt, Statement, insert, select, delete}
use aura_sql.Executor.{execute}
use aura_sql.Executor.Dml.{Output}
use aura_sql.Executor.Effects.{IsRowStatement, execute-R}
use aura_sql.Memstore.{Memstore, PendingChange, row_put, row_gone, begin}
use aura_sql.Memstore.Contract.{memstore_engine}
use aura_sql.Memstore.View.{committed, seen, Written, insert_seen, update_seen, delete_seen}
use aura_sql.Memstore.Invariant.{insert-IsMemstore, update-IsMemstore, delete-IsMemstore}
use aura_sql.Memstore.Sortedness.{IsMemstore}

-- The statements that write into no row of a cursor. UPDATE does, and the rows of this engine's
-- cursors are its own.
pub data IsUnshared : Statement → Type 0 where
  inserts : (table : GoString) (values : List Expr) → IsUnshared (insert table values)
  selects : (q : SelectStmt) → IsUnshared (select q)
  deletes : (table : GoString) (f : Option Expr) → IsUnshared (delete table f)

row_statement : (stmt : Statement) → IsUnshared stmt → IsRowStatement stmt
row_statement _ (inserts table values) = IsRowStatement.inserts table values
row_statement _ (selects q) = IsRowStatement.selects q
row_statement _ (deletes table f) = IsRowStatement.deletes table f

abbrev SameCommitted : Memstore → Memstore → Type 0
SameCommitted e e' = (m : GoString) → committed m e' ≡ committed m e

Written-SameCommitted :
    {A : Type 0} (x : ℕ) (name : GoString) (c : A → PendingChange) (e e' : Memstore) (r : Result A)
    → Written x name c e (e', r)
    → SameCommitted e e'
Written-SameCommitted x name c e e' (ok a) h m = h.3 m
Written-SameCommitted x name c e e' (err f) h m = ap (committed m) h

-- Such a statement in a transaction does not touch what is committed.
pub execute-SameCommitted :
    (x : ℕ) (stmt : Statement) (e : Memstore)
    → IsUnshared stmt
    → SameCommitted e (execute memstore_engine x stmt e).0
unfolding memstore_engine
execute-SameCommitted x stmt e unshared =
    execute-R memstore_engine x SameCommitted (λ e m. refl) (λ a b c h k m. k m ∙ h m)
      (λ name row e.
        Written-SameCommitted x name (λ id. row_put id row) e _ _ (insert_seen x name row e))
      (λ name id row e.
        Written-SameCommitted x name (λ _. row_put id row) e _ _ (update_seen x name id row e))
      (λ name id e. Written-SameCommitted x name (λ _. row_gone id) e _ _ (delete_seen x name id e))
      stmt e (row_statement stmt unshared)

abbrev KeepsInvariant : Memstore → Memstore → Type 0
KeepsInvariant e e' = IsMemstore e → IsMemstore e'

pub execute-IsMemstore :
    (x : ℕ) (stmt : Statement) (e : Memstore)
    → IsUnshared stmt
    → IsMemstore e
    → IsMemstore (execute memstore_engine x stmt e).0
unfolding memstore_engine
execute-IsMemstore x stmt e unshared =
    execute-R memstore_engine x KeepsInvariant (λ e h. h) (λ a b c f g h. g (f h))
      (λ name row e. insert-IsMemstore (some x) name row e)
      (λ name id row e. update-IsMemstore (some x) name id row e)
      (λ name id e. delete-IsMemstore (some x) name id e) stmt e (row_statement stmt unshared)

-- The transaction that the session opens for the statement, and the engine once the statement has run.
abbrev pub own_txn : Memstore → ℕ
own_txn e = (e.next_tx + 1) % 2 ^ 64

abbrev pub after_statement : Statement → Memstore → Memstore
after_statement stmt e = (execute memstore_engine (own_txn e) stmt (begin e).0).0

-- What is committed after a statement that ends in the given way.
abbrev pub AllOrNothing : Statement → Memstore → Memstore → Result Output → Type 0
AllOrNothing stmt e e' (ok out) =
    (m : GoString) → committed m e' ≡ seen (own_txn e) m (after_statement stmt e)
AllOrNothing stmt e e' (err x) = (m : GoString) → committed m e' ≡ committed m e
