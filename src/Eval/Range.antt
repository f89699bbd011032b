-- ===== src/Eval/Range.antt =====
-- The integers of executor/eval.go stay in int64, and sums that fit are exact.
use aura_sql.Prelude.{◌≡◌, false, List, [], ◌∷◌, Option, none, some, arith}
use aura_sql.Prelude.Int.{IsI64, ◌+ℤ◌, ◌-ℤ◌, add_i64-exact, sub_i64-exact}
use aura_sql.Errors.{Result, ok, OnOk}
use aura_sql.Core.{
  Value, new_int, type_int, op_add, op_sub, Expr, star, column_ref, literal, binary,
}
use aura_sql.Eval.{eval_binary}

abbrev pub AllI64 : List Value → Type 0
AllI64 [] = Unit
AllI64 (v ∷ vs) = IsI64 v.int × AllI64 vs

-- Every literal of the expression is an int64.
abbrev pub LiteralsI64 : Expr → Type 0
LiteralsI64 star = Unit
LiteralsI64 (column_ref table name) = Unit
LiteralsI64 (literal v) = IsI64 v.int
LiteralsI64 (binary op l r) = LiteralsI64 l × LiteralsI64 r

abbrev IntInRange : Result Value → Type 0
IntInRange = OnOk (λ v. IsI64 v.int)

abbrev ElemInRange : Option Value → Type 0
ElemInRange none = Unit
ElemInRange (some v) = IsI64 v.int

-- A non-null integer.
abbrev pub IsInt : Value → Type 0
IsInt v = (v.null ≡ false) × (v.type ≡ type_int) × IsI64 v.int

-- `+` and `-` on integers give the true sum and difference wherever those fit int64.
pub eval_arithmetic_exact :
    (l r : Value)
    → IsInt l
    → IsInt r
    → (IsI64 (l.int +ℤ r.int) → eval_binary op_add l r ≡ ok (new_int (l.int +ℤ r.int)))
      × (IsI64 (l.int -ℤ r.int) → eval_binary op_sub l r ≡ ok (new_int (l.int -ℤ r.int)))
unfolding eval_binary
eval_arithmetic_exact l r hl hr = (
  λ fits. ground (arith, add_i64-exact l.int r.int hl.2 hr.2 fits),
  λ fits. ground (arith, sub_i64-exact l.int r.int hl.2 hr.2 fits),
)
