-- ===== src/Prelude/Int.antt =====
-- Go's int64 as a signed integer over the native numbers, and its two's complement bit pattern.
-- `pos n` is n and `negsuc n` is -(n + 1).
use aura_sql.Prelude.{
  ℕ, suc, ◌+◌, ◌-◌, ◌%◌, ◌^◌, ◌<◌, ◌≡◌, compare, Ordering, arith, ltb, leb, if◌then◌else◌,
}

pub data ℤ : Type 0 where
  pos : ℕ → ℤ
  negsuc : ℕ → ℤ

abbrev pub pos_part : ℤ → ℕ
pos_part (pos n) = n
pos_part (negsuc n) = 0

abbrev pub neg_part : ℤ → ℕ
neg_part (pos n) = 0
neg_part (negsuc n) = suc n

-- a - b, as an integer.
abbrev pub sub_ℕ : ℕ → ℕ → ℤ
sub_ℕ a b = if leb b a then pos (a - b) else negsuc (b - a - 1)

infixl 65 ◌+ℤ◌ ◌-ℤ◌
unfoldable pub ◌+ℤ◌ : ℤ → ℤ → ℤ
a +ℤ b = sub_ℕ (pos_part a + pos_part b) (neg_part a + neg_part b)

unfoldable pub ◌-ℤ◌ : ℤ → ℤ → ℤ
a -ℤ b = sub_ℕ (pos_part a + neg_part b) (neg_part a + pos_part b)

abbrev pub compare_ℤ : ℤ → ℤ → Ordering
compare_ℤ a b = compare (pos_part a + neg_part b) (pos_part b + neg_part a)

-- -2^63 ≤ a < 2^63
abbrev pub IsI64 : ℤ → Type 0
IsI64 (pos n) = n < 2 ^ 63
IsI64 (negsuc n) = n < 2 ^ 63

-- `uint64(v)` and `int64(w)`.
unfoldable pub to_u64 : ℤ → ℕ
to_u64 (pos n) = n % 2 ^ 64
to_u64 (negsuc n) = 2 ^ 64 - 1 - n % 2 ^ 64

unfoldable pub of_u64 : ℕ → ℤ
of_u64 w = if ltb w (2 ^ 63) then pos w else negsuc (2 ^ 64 - 1 - w)

-- `a + b` and `a - b` on int64 wrap around.
unfoldable pub add_i64 : ℤ → ℤ → ℤ
unfolding to_u64 of_u64
add_i64 a b = of_u64 ((to_u64 a + to_u64 b) % 2 ^ 64)

unfoldable pub sub_i64 : ℤ → ℤ → ℤ
unfolding to_u64 of_u64
sub_i64 a b = of_u64 ((to_u64 a + 2 ^ 64 - to_u64 b) % 2 ^ 64)

pub to_u64-lt : (a : ℤ) → to_u64 a < 2 ^ 64
unfolding to_u64
to_u64-lt (pos n) = omega arith
to_u64-lt (negsuc n) = omega arith

pub of_u64-to_u64 : (a : ℤ) → IsI64 a → of_u64 (to_u64 a) ≡ a
unfolding to_u64 of_u64
of_u64-to_u64 (pos n) h = ground arith
of_u64-to_u64 (negsuc n) h = ground arith

pub of_u64-IsI64 : (w : ℕ) → w < 2 ^ 64 → IsI64 (of_u64 w)
unfolding of_u64
of_u64-IsI64 w h = ground arith

pub add_i64-IsI64 : (a b : ℤ) → IsI64 (add_i64 a b)
unfolding add_i64
add_i64-IsI64 a b = of_u64-IsI64 _ (omega arith)

pub sub_i64-IsI64 : (a b : ℤ) → IsI64 (sub_i64 a b)
unfolding sub_i64
sub_i64-IsI64 a b = of_u64-IsI64 _ (omega arith)

-- Where the true result fits, the wrapped one is it.
pub add_i64-exact : (a b : ℤ) → IsI64 a → IsI64 b → IsI64 (a +ℤ b) → add_i64 a b ≡ a +ℤ b
unfolding add_i64 ◌+ℤ◌
add_i64-exact (pos a) (pos b) ha hb h = ground arith
add_i64-exact (pos a) (negsuc b) ha hb h = ground arith
add_i64-exact (negsuc a) (pos b) ha hb h = ground arith
add_i64-exact (negsuc a) (negsuc b) ha hb h = ground arith

pub sub_i64-exact : (a b : ℤ) → IsI64 a → IsI64 b → IsI64 (a -ℤ b) → sub_i64 a b ≡ a -ℤ b
unfolding sub_i64 ◌-ℤ◌
sub_i64-exact (pos a) (pos b) ha hb h = ground arith
sub_i64-exact (pos a) (negsuc b) ha hb h = ground arith
sub_i64-exact (negsuc a) (pos b) ha hb h = ground arith
sub_i64-exact (negsuc a) (negsuc b) ha hb h = ground arith

pub compare_ℤ-eq : (a b : ℤ) → compare_ℤ a b ≡ Ordering.eq → a ≡ b
compare_ℤ-eq a b h = ground arith
