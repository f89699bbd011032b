-- ===== src/Executor/Operators.antt =====
-- executor/operator.go and executor/join.go: an operator tree as the stream of the rows it yields.
use aura_sql.Prelude.{
  ℕ, suc, ◌+◌, Bool, true, false, List, [], ◌∷◌, ◌++◌, none, some, get_elem?, GoString, bytes,
  decimal, if◌then◌else◌,
}
use aura_sql.Errors.{Result, ok, err, errorf, wrapped, ◌>>=◌, wrapping}
use aura_sql.Core.{
  type_int, type_bool, Value, Column, Schema, column_index, Row, row_of, BinOp, op_add, op_sub,
  Expr, star, column_ref, literal, binary,
}
use aura_sql.Core.Engine.{StorageEngine, Stream, done, failed, next}
use aura_sql.Eval.{eval, eval_where}

pub record Operator : Type 0 where
  pub schema : Schema
  pub rows : Stream Row

-- `ScanOp.Next`.
unfoldable pub scan_rows : Stream (ℕ × Row) → Stream Row
scan_rows done = done
scan_rows (failed e) = failed (wrapped "scan next: %w" e)
scan_rows (next (id, row) rest) = next row (scan_rows rest)

-- `FilterOp.Next`.
unfoldable pub filter_rows : Expr → Schema → Stream Row → Stream Row
filter_rows p schema done = done
filter_rows p schema (failed e) = failed (wrapped "filter next: %w" e)
filter_rows p schema (next row rest) =
    let others = filter_rows p schema rest in
    elim (eval_where (some p) row schema) [
      | err e ↦ failed (wrapped "filter predicate: %w" e)
      | ok true ↦ next row others
      | ok false ↦ others
    ]

abbrev pub new_filter_op : Operator → Expr → Operator
new_filter_op child p = record {
  schema = child.schema;
  rows = filter_rows p child.schema child.rows;
}

unfoldable pub project_values : List Expr → Row → Schema → Result (List Value)
project_values [] row schema = ok []
project_values (e ∷ es) row schema = do
  v ← wrapping "project eval %d: %w" (eval e row schema)
  vs ← project_values es row schema
  ok (v ∷ vs)

-- `ProjectOp.Next` where the projection is not `*`.
unfoldable pub project_rows : List Expr → Schema → Stream Row → Stream Row
unfolding project_values
project_rows es schema done = done
project_rows es schema (failed e) = failed (wrapped "project next: %w" e)
project_rows es schema (next row rest) =
    let others = project_rows es schema rest in
    elim (project_values es row schema) [ err e ↦ failed e | ok vs ↦ next (row_of vs) others ]

-- `ProjectOp.Next` where it is `*`.
unfoldable pub pass_rows : Stream Row → Stream Row
pass_rows done = done
pass_rows (failed e) = failed (wrapped "project next: %w" e)
pass_rows (next row rest) = next row (pass_rows rest)

abbrev pub is_arithmetic : BinOp → Bool
is_arithmetic op_add = true
is_arithmetic op_sub = true
is_arithmetic _ = false

-- `fmt.Sprintf("expr%d", n)`.
abbrev pub label : ℕ → GoString
label n = bytes "expr" ++ decimal n

unfoldable pub projection_column : Expr → ℕ → Schema → Result Column
projection_column star i schema = err (errorf "unsupported projection expression type %T")
projection_column (column_ref table name) i schema = elim (column_index schema name) [
  | none ↦ err (errorf "column %q does not exist")
  | some idx ↦ elim (get_elem? schema.columns idx) [
    | none ↦ err (errorf "column %q does not exist")
    | some c ↦ ok (record { name = name; type = c.type })
  ]
]
projection_column (literal v) i schema = ok (record { name = label (i + 1); type = v.type })
projection_column (binary op l r) i schema =
    ok (record { name = label (i + 1); type = if is_arithmetic op then type_int else type_bool })

unfoldable pub projection_columns : List Expr → ℕ → Schema → Result (List Column)
unfolding projection_column
projection_columns [] i schema = ok []
projection_columns (e ∷ es) i schema = do
  c ← wrapping "projection %d: %w" (projection_column e i schema)
  cs ← projection_columns es (suc i) schema
  ok (c ∷ cs)

unfoldable pub new_project_op : Operator → List Expr → Result Operator
unfolding projection_columns
new_project_op child (star ∷ []) =
    ok (record { schema = child.schema; rows = pass_rows child.rows })
new_project_op child es = do
  cs ← projection_columns es 0 child.schema
  ok (record { schema = record { columns = cs }; rows = project_rows es child.schema child.rows })

-- `NestedLoopJoinOp`: the right side is read whole at the first `Next`.
unfoldable pub materialize_right : Stream Row → Result (List Row)
materialize_right done = ok []
materialize_right (failed e) = err (wrapped "materialize right: %w" (wrapped "right scan: %w" e))
materialize_right (next row rest) = do rows ← materialize_right rest; ok (row ∷ rows)

abbrev pub combine : Row → Row → Row
combine l r = row_of (l.values ++ r.values)

-- The inner loop for one left row; `others` is what the rows on its left go on with.
unfoldable pub join_inner : Expr → Schema → Row → List Row → Stream Row → Stream Row
join_inner on schema l [] others = others
join_inner on schema l (r ∷ rs) others =
    let rest = join_inner on schema l rs others in
    elim (eval_where (some on) (combine l r) schema) [
      | err e ↦ failed (wrapped "join condition: %w" e)
      | ok true ↦ next (combine l r) rest
      | ok false ↦ rest
    ]

unfoldable pub join_outer : Expr → Schema → Stream Row → List Row → Stream Row
unfolding join_inner
join_outer on schema done rights = done
join_outer on schema (failed e) rights = failed (wrapped "left next: %w" e)
join_outer on schema (next l ls) rights =
    join_inner on schema l rights (join_outer on schema ls rights)

abbrev pub join_schema : Schema → Schema → Schema
join_schema l r = record { columns = l.columns ++ r.columns }

unfoldable pub nested_loop_join : Operator → Operator → Expr → Operator
unfolding materialize_right join_outer
nested_loop_join left right on = record {
  schema = join_schema left.schema right.schema;
  rows = elim (materialize_right right.rows) [
    | err e ↦ failed e
    | ok rights ↦ join_outer on (join_schema left.schema right.schema) left.rows rights
  ];
}

-- `IndexedNestedLoopJoinOp`: the rows that the index gives for one left row.
unfoldable pub probe_inner : Expr → Schema → Row → Stream (ℕ × Row) → Stream Row → Stream Row
probe_inner on schema l done others = others
probe_inner on schema l (failed e) others = failed (wrapped "right index next: %w" e)
probe_inner on schema l (next (id, r) rs) others =
    let rest = probe_inner on schema l rs others in
    elim (eval_where (some on) (combine l r) schema) [
      | err e ↦ failed (wrapped "join condition: %w" e)
      | ok true ↦ next (combine l r) rest
      | ok false ↦ rest
    ]

unfoldable pub probe_outer :
    (Value → Result (Stream (ℕ × Row)))
    → GoString
    → Expr
    → Schema
    → Schema
    → Stream Row
    → Stream Row
unfolding probe_inner
probe_outer seek column on left_schema schema done = done
probe_outer seek column on left_schema schema (failed e) = failed (wrapped "left next: %w" e)
probe_outer seek column on left_schema schema (next l ls) =
    let others = probe_outer seek column on left_schema schema ls in
    elim (eval (column_ref (bytes "") column) l left_schema) [
      | err e ↦ failed (wrapped "left key: %w" e)
      | ok key ↦ elim (seek key) [
        | err e ↦ failed (wrapped "seek right index %q.%q: %w" e)
        | ok rights ↦ probe_inner on schema l rights others
      ]
    ]

module _ {S : Type 0} (eng : StorageEngine S) (s : S) (txn : ℕ) where
  unfoldable pub new_scan_op : GoString → Result Operator
  new_scan_op table = elim (eng.get_schema s table) [
    | none ↦ err (errorf "table %q does not exist")
    | some schema ↦ do
      iter ← wrapping "scan table %q: %w" (eng.scan s txn table)
      ok (record { schema = schema; rows = scan_rows iter })
  ]

  unfoldable pub new_index_scan_op : GoString → GoString → Value → Result Operator
  new_index_scan_op table column key = elim (eng.get_schema s table) [
    | none ↦ err (errorf "table %q does not exist")
    | some schema ↦ do
      iter ← wrapping "seek index %q.%q: %w" (eng.seek_index s txn table column key)
      ok (record { schema = schema; rows = scan_rows iter })
  ]

  unfoldable pub indexed_nested_loop_join :
      Operator → GoString → GoString → GoString → Expr → Result Operator
  unfolding probe_outer
  indexed_nested_loop_join left right_table right_column left_column on =
      elim (eng.get_schema s right_table) [
        | none ↦ err (errorf "table %q does not exist")
        | some right_schema ↦
            let schema = join_schema left.schema right_schema in
            let seek = eng.seek_index s txn right_table right_column in
            ok (record {
              schema = schema;
              rows = probe_outer seek left_column on left.schema schema left.rows;
            })
      ]
