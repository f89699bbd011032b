-- ===== src/Parser/Print/Numbers.antt =====
-- A printed number is read back.
use aura_sql.Prelude.{
  ℕ, zero, suc, ◌+◌, ◌-◌, ◌*◌, ◌/◌, ◌%◌, ◌^◌, ◌<◌, ◌≤◌, ◌≡◌, refl, arith, [], ◌∷◌, ◌++◌, GoString,
  decimal, decimal_rounds, some, ltb, lt→ltb, ltb→lt, length, length-append, Bool-cases, inl, inr,
  ◌⊎◌,
}
use aura_sql.Prelude.Int.{pos}
use aura_sql.Errors.{ok}
use aura_sql.Parser.Grammar.{digits_value, parse_int}

digits_value-append :
    (s : GoString) (acc d n : ℕ)
    → d < 10
    → digits_value acc s ≡ some n
    → digits_value acc (s ++ ((48 + d) ∷ [])) ≡ some (10 * n + d)
unfolding digits_value
digits_value-append [] acc d n small h = ground arith
digits_value-append (c ∷ s) acc d n small h =
    ground (arith, digits_value-append s (10 * acc + (c - 48)) d n small)

compare-cases : (n k : ℕ) → (n < k) ⊎ (k ≤ n)
compare-cases n k = elim (Bool-cases (ltb n k)) [
  | inl h ↦ inl (ltb→lt n k h)
  | inr h ↦ inr (ground arith)
]

digits :
    (rounds n : ℕ)
    → n < suc rounds
    → (n / 10 < rounds → digits_value 0 (decimal_rounds rounds (n / 10)) ≡ some (n / 10))
    → digits_value 0 (decimal_rounds (suc rounds) n) ≡ some n
unfolding decimal_rounds digits_value
digits rounds n h front = elim (compare-cases n 10) [
  | inl less ↦ ground arith
  | inr more ↦
      let last =
        digits_value-append (decimal_rounds rounds (n / 10)) 0 (n % 10) (n / 10) (omega arith)
          (front (omega arith)) in
      ground (arith)
]

digits_value-decimal_rounds :
    (rounds n : ℕ) → n < rounds → digits_value 0 (decimal_rounds rounds n) ≡ some n
unfolding decimal_rounds digits_value
digits_value-decimal_rounds zero n h = absurd (omega arith)
digits_value-decimal_rounds (suc rounds) n h =
    digits rounds n h (digits_value-decimal_rounds rounds (n / 10))

pub decimal_pos : (n : ℕ) → 0 < length (decimal n)
unfolding decimal decimal_rounds
decimal_pos n = elim (compare-cases n 10) [
  | inl less ↦ ground arith
  | inr more ↦
      let whole = length-append (decimal_rounds n (n / 10)) ((48 + n % 10) ∷ []) in ground arith
]

parse_int_digits :
    (s : GoString) (n : ℕ)
    → 0 < length s
    → digits_value 0 s ≡ some n
    → n < 2 ^ 63
    → parse_int s ≡ ok (pos n)
unfolding parse_int
parse_int_digits [] n some_digit h small = absurd (omega arith)
parse_int_digits (c ∷ s) n some_digit h small = rw (h, lt→ltb n (2 ^ 63) small) refl

pub parse_int-decimal : (n : ℕ) → n < 2 ^ 63 → parse_int (decimal n) ≡ ok (pos n)
unfolding decimal
parse_int-decimal n small =
    parse_int_digits (decimal n) n (decimal_pos n)
      (digits_value-decimal_rounds (suc n) n (omega arith)) small
