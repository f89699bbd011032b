-- ===== src/Prelude/Bits.antt =====
-- `|` and `&` on unsigned words, where one operand is a mask or the bits do not meet.
use Prim.Native.Nat.{bit_and, bit_or, digits, bit_and-bitwise, bit_or-bitwise}
use native.Mathlib.Nat.{pow-suc}
use aura_sql.Prelude.{ℕ, zero, suc, ◌+◌, ◌*◌, ◌/◌, ◌%◌, ◌^◌, ◌≤◌, ◌<◌, ◌≡◌, refl, min, max, arith}

-- An operation on the binary digits: `tail` ends the recursion and `join` combines two digits.
module _ (tail : ℕ → ℕ) (join : ℕ → ℕ → ℕ) where
  -- Any two counts of steps that are not below the number serve alike.
  steps_agree : (a b k n : ℕ) → a ≤ k → a ≤ n → digits tail join k a b ≡ digits tail join n a b
  steps_agree (suc a) b (suc k) (suc n) low high =
      let rest = steps_agree (suc a / 2) (b / 2) k n (omega arith) (omega arith) in
      omega (arith, rest)
  steps_agree (suc a) b zero n low high = elim low [ ]
  steps_agree (suc a) b (suc k) zero low high = elim high [ ]
  steps_agree zero b zero zero low high = refl
  steps_agree zero b zero (suc n) low high = refl
  steps_agree zero b (suc k) zero low high = refl
  steps_agree zero b (suc k) (suc n) low high = refl

  module _ (op : ℕ → ℕ → ℕ) (law : (x y : ℕ) → op x y ≡ digits tail join x x y) where
    -- The lowest digit of the result, and the others.
    low_digit : (a b : ℕ) → op (suc a) b ≡ op (suc a / 2) (b / 2) * 2 + join (suc a % 2) (b % 2)
    low_digit a b =
        let halves = steps_agree (suc a / 2) (b / 2) a (suc a / 2) (omega arith) (omega arith) in
        omega (arith, law (suc a) b, law (suc a / 2) (b / 2), halves)

and_digit : (a b : ℕ) → bit_and a b ≡ bit_and (a / 2) (b / 2) * 2 + min (a % 2) (b % 2)
and_digit (suc a) b = low_digit _ min bit_and bit_and-bitwise a b
and_digit zero b = omega (arith, bit_and-bitwise 0 b, bit_and-bitwise 0 (b / 2))

or_digit : (a b : ℕ) → bit_or a b ≡ bit_or (a / 2) (b / 2) * 2 + max (a % 2) (b % 2)
or_digit (suc a) b = low_digit _ max bit_or bit_or-bitwise a b
or_digit zero b = omega (arith, bit_or-bitwise 0 b, bit_or-bitwise 0 (b / 2))

-- An operation that halves its first operand, with the second 0, is determined by its digits.
both_with_zero : (n a : ℕ) → a ≤ n → (bit_and a 0 ≡ 0) × (bit_or a 0 ≡ a)
both_with_zero n zero low = (refl, refl)
both_with_zero zero (suc a) low = elim low [ ]
both_with_zero (suc n) (suc a) low =
    let (none_kept, all_kept) = both_with_zero n (suc a / 2) (omega arith) in
    (omega (arith, and_digit (suc a) 0, none_kept), omega (arith, or_digit (suc a) 0, all_kept))

half_lt : (l p : ℕ) → l < p * 2 → l / 2 < p
half_lt l p h = omega arith

-- `(h << k) | l` is a sum where `l` has at most `k` bits.
pub bit_or-shift : (k h l : ℕ) → l < 2 ^ k → bit_or (h * 2 ^ k) l ≡ h * 2 ^ k + l
bit_or-shift zero h l p =
    let none_left : l ≡ 0 = omega arith in
    rw none_left (omega (arith, (both_with_zero (h * 1) (h * 1) (omega arith)).1))
bit_or-shift (suc k) h l p =
    let half : h * (2 ^ k * 2) / 2 ≡ h * 2 ^ k = omega arith in
    rw pow-suc (
      omega (
        arith,
        rw half at (or_digit (h * (2 ^ k * 2)) l),
        bit_or-shift k h (l / 2) (half_lt l (2 ^ k) (rw pow-suc at p)),
      ))

low_bit : (a : ℕ) → bit_and a 1 ≡ a % 2
low_bit a = omega (arith, and_digit a 1, (both_with_zero (a / 2) (a / 2) (omega arith)).0)

nibble : (a : ℕ) → bit_and a 15 ≡ a % 16
nibble a =
    omega
      (arith, and_digit a 15, and_digit (a / 2) 7, and_digit (a / 2 / 2) 3, low_bit (a / 2 / 2 / 2))

mask_8 : (a : ℕ) → bit_and a 255 ≡ a % 256
mask_8 a = omega (
  arith,
  and_digit a 255,
  and_digit (a / 2) 127,
  and_digit (a / 2 / 2) 63,
  and_digit (a / 2 / 2 / 2) 31,
  nibble (a / 2 / 2 / 2 / 2),
)

mask_12 : (a : ℕ) → bit_and a 4095 ≡ a % 4096
mask_12 a = omega (
  arith,
  and_digit a 4095,
  and_digit (a / 2) 2047,
  and_digit (a / 2 / 2) 1023,
  and_digit (a / 2 / 2 / 2) 511,
  mask_8 (a / 2 / 2 / 2 / 2),
)

-- `a & 0xFFFF` is the remainder by `2 ^ 16`.
pub bit_and-mask_16 : (a : ℕ) → bit_and a 0xffff ≡ a % 2 ^ 16
bit_and-mask_16 a = omega (
  arith,
  and_digit a 65535,
  and_digit (a / 2) 32767,
  and_digit (a / 2 / 2) 16383,
  and_digit (a / 2 / 2 / 2) 8191,
  mask_12 (a / 2 / 2 / 2 / 2),
)
