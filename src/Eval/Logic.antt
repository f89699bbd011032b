-- ===== src/Eval/Logic.antt =====
-- AND, OR and the comparisons of executor/eval.go against three-valued logic.
use aura_sql.Prelude.{◌≡◌, ℕ, zero, suc, true, false, not, ◌⊎◌, arith, min, max, if◌then◌else◌}
use aura_sql.Errors.{Result, ok, err}
use aura_sql.Core.{
  Value, type_bool, new_bool, null_value, BinOp, op_eq, op_ne, op_lt, op_le, op_gt, op_ge, op_and,
  op_or,
}
use aura_sql.Core.Order.{compare_value_swap}
use aura_sql.Eval.{eval_binary, is_comparison, eval_comparison}

-- Kleene's order on the truth values: false is 0, NULL is 1, true is 2.
abbrev pub rank : Value → ℕ
rank v = if v.null then 1 else if v.bool then 2 else 0

abbrev pub of_rank : ℕ → Value
of_rank zero = new_bool false
of_rank (suc zero) = null_value type_bool
of_rank (suc (suc n)) = new_bool true

-- The value is NULL or a boolean.
abbrev pub IsTruth : Value → Type 0
IsTruth v = (v.null ≡ true) ⊎ (v.type ≡ type_bool)

-- On truth values AND never fails and is the minimum in Kleene's order.
pub eval_and :
    (l r : Value)
    → IsTruth l
    → IsTruth r
    → eval_binary op_and l r ≡ ok (of_rank (min (rank l) (rank r)))
unfolding eval_binary
eval_and l r hl hr = ground arith

-- On truth values OR never fails and is the maximum in Kleene's order.
pub eval_or :
    (l r : Value)
    → IsTruth l
    → IsTruth r
    → eval_binary op_or l r ≡ ok (of_rank (max (rank l) (rank r)))
unfolding eval_binary
eval_or l r hl hr = ground arith

-- The comparison that holds when `op` does not.
abbrev pub negate : BinOp → BinOp
negate op_eq = op_ne
negate op_ne = op_eq
negate op_lt = op_ge
negate op_le = op_gt
negate op_gt = op_le
negate op_ge = op_lt
negate op = op

-- The comparison that holds of swapped operands.
abbrev pub mirror : BinOp → BinOp
mirror op_lt = op_gt
mirror op_le = op_ge
mirror op_gt = op_lt
mirror op_ge = op_le
mirror op = op

abbrev pub complement : Result Value → Result Value
complement (ok v) = ok (if v.null then v else new_bool (not v.bool))
complement (err e) = err e

-- `!=` negates `=`, `>=` negates `<` and `>` negates `<=`, on all operands: NULL stays NULL and an
-- error stays that error.
pub eval_binary-negate :
    (op : BinOp) (l r : Value)
    → is_comparison op ≡ true
    → eval_binary (negate op) l r ≡ complement (eval_binary op l r)
unfolding eval_binary eval_comparison
eval_binary-negate op_eq l r h = ground arith
eval_binary-negate op_ne l r h = ground arith
eval_binary-negate op_lt l r h = ground arith
eval_binary-negate op_le l r h = ground arith
eval_binary-negate op_gt l r h = ground arith
eval_binary-negate op_ge l r h = ground arith
eval_binary-negate op l r h = cc

-- Swapping the operands and mirroring the comparison changes nothing, on all operands.
pub eval_binary-mirror :
    (op : BinOp) (l r : Value)
    → is_comparison op ≡ true
    → eval_binary (mirror op) r l ≡ eval_binary op l r
unfolding eval_binary eval_comparison
eval_binary-mirror op_eq l r h = ground (arith, compare_value_swap l r)
eval_binary-mirror op_ne l r h = ground (arith, compare_value_swap l r)
eval_binary-mirror op_lt l r h = ground (arith, compare_value_swap l r)
eval_binary-mirror op_le l r h = ground (arith, compare_value_swap l r)
eval_binary-mirror op_gt l r h = ground (arith, compare_value_swap l r)
eval_binary-mirror op_ge l r h = ground (arith, compare_value_swap l r)
eval_binary-mirror op l r h = cc
