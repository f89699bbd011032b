-- ===== src/Executor.antt =====
-- executor/executor.go: a statement over a storage engine, with SELECT as a tree of operators.
pub mod Operators
pub mod AccessPath
pub mod Dml
pub mod Terms
pub mod Equality
pub mod Pushdown
pub mod Cursors
pub mod Selection
pub mod Effects
pub mod Conformance
pub mod Joins
use aura_sql.Prelude.{ℕ, List, [], ◌∷◌, Option, none, some, GoString}
use aura_sql.Errors.{Result, ok, err, errorf, wrap, wrapped, ◌>>=◌, wrapping}
use aura_sql.Core.{
  Schema, Row, Expr, JoinClause, SelectStmt, Statement, create_table, create_index, insert, select,
  update, delete, begin, commit, rollback, explain, analyze,
}
use aura_sql.Core.Engine.{StorageEngine, Stream, done, failed, next}
use aura_sql.Executor.Operators.{
  Operator, new_filter_op, new_project_op, nested_loop_join, new_scan_op, new_index_scan_op,
  indexed_nested_loop_join,
}
use aura_sql.Executor.AccessPath.{IndexedEquality, find_indexed_equality, indexed_join_equality}
use aura_sql.Executor.Dml.{Output, affected, execute_insert, execute_update, execute_delete}

-- The loop of `executeSelect` that drains the root.
unfoldable pub drain : Stream Row → Result (List Row)
drain done = ok []
drain (failed e) = err (wrapped "execute plan: %w" e)
drain (next row rest) = do rows ← drain rest; ok (row ∷ rows)

abbrev pub with_filter : Operator → Option Expr → Operator
with_filter root none = root
with_filter root (some e) = new_filter_op root e

module _ {S : Type 0} (eng : StorageEngine S) (txn : ℕ) (s : S) where
  -- The scan for what `findIndexedEquality` has found, and the terms that remain.
  unfoldable pub open_path :
      GoString
      → Option Expr
      → Option IndexedEquality × Option Expr
      → Result (Operator × Option Expr)
  open_path table filter (some indexed, remaining) = do
    scan ← new_index_scan_op eng s txn table indexed.column indexed.value
    ok (scan, remaining)
  open_path table filter (none, remaining) = do
    scan ← new_scan_op eng s txn table
    ok (scan, filter)

  unfoldable pub build_base_access_path : GoString → Option Expr → Result (Operator × Option Expr)
  unfolding open_path
  build_base_access_path table filter =
      open_path table filter (find_indexed_equality eng s table filter)

  unfoldable pub build_join_plan : Operator → JoinClause → Result Operator
  build_join_plan left join = elim (indexed_join_equality eng s left.schema join.table join.on) [
    | some indexed ↦ wrapping "create indexed join: %w" (
        indexed_nested_loop_join eng s txn left join.table indexed.right_column indexed.left_column
          join.on)
    | none ↦ do
      right ← wrapping "join table %q: %w" (new_scan_op eng s txn join.table)
      ok (nested_loop_join left right join.on)
  ]

  unfoldable pub build_joins : Operator → List JoinClause → Result Operator
  unfolding build_join_plan
  build_joins root [] = ok root
  build_joins root (join ∷ joins) = do joined ← build_join_plan root join; build_joins joined joins

  unfoldable pub build_select_plan : SelectStmt → Result Operator
  unfolding build_base_access_path build_joins
  build_select_plan q = do
    (base, remaining) ← build_base_access_path q.from q.where_expr
    root ← build_joins base q.joins
    wrapping "create projection: %w" (new_project_op (with_filter root remaining) q.projection)

  unfoldable pub execute_select : SelectStmt → Result Output
  unfolding build_select_plan drain
  execute_select q = do
    root ← wrapping "build plan for %q: %w" (build_select_plan q)
    rows ← drain root.rows
    ok (record { schema = root.schema; rows = rows; rows_affected = 0 })

-- The tests for a nil engine, transaction or statement have no counterpart.
unfoldable pub execute :
    {S : Type 0} (eng : StorageEngine S) → ℕ → Statement → S → S × Result Output
unfolding execute_select
execute eng txn (create_table table columns) s =
    let (s', made) = eng.create_table txn table (record { columns = columns }) s in
    (s', wrapping "create table %q: %w" made >>= λ _. ok (affected 0))
execute eng txn (create_index name table column) s =
    let (s', made) = eng.create_index txn table column s in
    (s', wrapping "create index on %q.%q: %w" made >>= λ _. ok (affected 0))
execute eng txn (insert table values) s = execute_insert eng txn table values s
execute eng txn (select q) s = (s, execute_select eng txn s q)
execute eng txn (update table assigns filter) s = execute_update eng txn table assigns filter s
execute eng txn (delete table filter) s = execute_delete eng txn table filter s
execute eng txn _ s = (s, err (errorf "unsupported statement type %T"))
