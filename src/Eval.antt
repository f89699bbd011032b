-- ===== src/Eval.antt =====
-- executor/eval.go: the value of an expression over a row, with SQL's NULL.
pub mod Logic
pub mod Typing
pub mod Range
use aura_sql.Prelude.{
  Bool, true, false, not, ◌&&◌, ◌||◌, List, [], ◌∷◌, Option, none, some, Ordering, get_elem?,
  GoString, if◌then◌else◌,
}
use aura_sql.Prelude.Int.{add_i64, sub_i64}
use aura_sql.Errors.{Result, ok, err, errorf, ◌>>=◌}
use aura_sql.Core.{
  ColumnType, type_int, type_bool, type_eq, Value, new_int, new_bool, null_value, compare_value,
  Schema, column_index, Row, BinOp, op_eq, op_ne, op_lt, op_le, op_gt, op_ge, op_and, op_or, op_add,
  op_sub, Expr, star, column_ref, literal, binary,
}

-- The tests of a comparison's result against 0.
abbrev pub holds : BinOp → Ordering → Bool
holds op_eq Ordering.eq = true
holds op_ne Ordering.lt = true
holds op_ne Ordering.gt = true
holds op_lt Ordering.lt = true
holds op_le Ordering.lt = true
holds op_le Ordering.eq = true
holds op_gt Ordering.gt = true
holds op_ge Ordering.gt = true
holds op_ge Ordering.eq = true
holds _ _ = false

abbrev pub is_comparison : BinOp → Bool
is_comparison op_and = false
is_comparison op_or = false
is_comparison op_add = false
is_comparison op_sub = false
is_comparison _ = true

unfoldable pub eval_comparison : BinOp → Value → Value → Result Value
eval_comparison op left right = do
  cmp ← compare_value left right
  if is_comparison op
      then ok (new_bool (holds op cmp))
      else err (errorf "unsupported comparison operator %d")

unfoldable pub bool_operands : Value → Value → Result (Bool × Bool)
unfolding type_eq
bool_operands left right =
    if left.null || right.null
    then err (errorf "operator %d requires non-null boolean operands")
    else if type_eq left.type type_bool && type_eq right.type type_bool
    then ok (left.bool, right.bool)
    else err (errorf "operator %d requires boolean operands, got %s and %s")

abbrev int_operands : Value → Value → Bool
int_operands left right = type_eq left.type type_int && type_eq right.type type_int

-- The value is the non-null boolean `b`.
abbrev is_bool : Bool → Value → Bool
is_bool b v = not v.null && (type_eq v.type type_bool && (if b then v.bool else not v.bool))

-- The branch of `evalBinary` where an operand is NULL.
unfoldable pub eval_null : BinOp → Value → Value → Value
unfolding type_eq
eval_null op_and left right =
    if is_bool false left
    then new_bool false
    else if is_bool false right
    then new_bool false
    else null_value type_bool
eval_null op_or left right =
    if is_bool true left
    then new_bool true
    else if is_bool true right
    then new_bool true
    else null_value type_bool
eval_null op left right = null_value type_bool

-- The switch on the operator, for operands that are not NULL.
unfoldable pub eval_op : BinOp → Value → Value → Result Value
unfolding type_eq bool_operands
eval_op op_and left right = do (l, r) ← bool_operands left right; ok (new_bool (l && r))
eval_op op_or left right = do (l, r) ← bool_operands left right; ok (new_bool (l || r))
eval_op op_add left right =
    if int_operands left right
    then ok (new_int (add_i64 left.int right.int))
    else err (errorf "+ requires integer operands, got %s and %s")
eval_op op_sub left right =
    if int_operands left right
    then ok (new_int (sub_i64 left.int right.int))
    else err (errorf "- requires integer operands, got %s and %s")
eval_op op left right = eval_comparison op left right

-- `evalBinary` once both operands are evaluated.
unfoldable pub eval_binary : BinOp → Value → Value → Result Value
unfolding eval_null eval_op
eval_binary op left right =
    if left.null || right.null then ok (eval_null op left right) else eval_op op left right

-- The table of the reference is not looked at.
unfoldable pub eval_column : GoString → Row → Schema → Result Value
eval_column name row schema = elim (column_index schema name) [
  | none ↦ err (errorf "column %q does not exist")
  | some idx ↦ elim (get_elem? row.values idx) [
    | none ↦ err (errorf "column %q is not present in row")
    | some v ↦ ok v
  ]
]

unfoldable pub eval : Expr → Row → Schema → Result Value
unfolding eval_column eval_binary
eval star row schema = err (errorf "unsupported expression type %T")
eval (column_ref table name) row schema = eval_column name row schema
eval (literal v) row schema = ok v
eval (binary op l r) row schema = do
  left ← eval l row schema
  right ← eval r row schema
  eval_binary op left right

-- The value of a WHERE clause as a test; NULL does not pass.
unfoldable pub as_test : Value → Result Bool
unfolding type_eq
as_test v =
    if v.null
    then ok false
    else if type_eq v.type type_bool
    then ok v.bool
    else err (errorf "WHERE must evaluate to boolean, got %s")

unfoldable pub eval_where : Option Expr → Row → Schema → Result Bool
unfolding eval as_test
eval_where none row schema = ok true
eval_where (some e) row schema = do v ← eval e row schema; as_test v
