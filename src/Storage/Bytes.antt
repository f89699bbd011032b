-- ===== src/Storage/Bytes.antt =====
-- Byte arrays: `encoding/binary`'s little-endian numbers, slices and `copy` into a slice.
pub mod Apart
use aura_sql.Prelude.{
  ℕ, zero, suc, ◌+◌, ◌*◌, ◌/◌, ◌%◌, ◌^◌, ◌≤◌, ◌<◌, ◌≡◌, refl, ap, List, [], ◌∷◌, ◌++◌, length,
  arith,
}
use native.Mathlib.Nat.{pow-suc}

-- The `n` low bytes of `w`, lowest first.
unfoldable pub le_bytes : ℕ → ℕ → List ℕ
le_bytes zero w = []
le_bytes (suc n) w = w % 256 ∷ le_bytes n (w / 256)

unfoldable pub le_value : List ℕ → ℕ
le_value [] = 0
le_value (b ∷ bs) = b + 256 * le_value bs

pub length-le_bytes : (n w : ℕ) → length (le_bytes n w) ≡ n
unfolding le_bytes
length-le_bytes zero w = refl
length-le_bytes (suc n) w = ap suc (length-le_bytes n (w / 256))

pub le_value-le_bytes : (n w : ℕ) → w < 256 ^ n → le_value (le_bytes n w) ≡ w
unfolding le_value le_bytes
le_value-le_bytes zero w h = omega arith
le_value-le_bytes (suc n) w h =
    omega (arith, le_value-le_bytes n (w / 256) (quotient_lt w (256 ^ n) (rw pow-suc at h)))
  where
    quotient_lt : (w p : ℕ) → w < p * 256 → w / 256 < p
    quotient_lt w p h = omega arith

-- `d[off : off + n]`, cut short where the array ends.
unfoldable pub slice : List ℕ → ℕ → ℕ → List ℕ
slice d zero zero = []
slice [] off n = []
slice (x ∷ d) zero (suc n) = x ∷ slice d zero n
slice (x ∷ d) (suc off) n = slice d off n

pub slice_zero : (d : List ℕ) (off : ℕ) → slice d off 0 ≡ []
unfolding slice
slice_zero [] zero = refl
slice_zero [] (suc off) = refl
slice_zero (x ∷ d) zero = refl
slice_zero (x ∷ d) (suc off) = slice_zero d off

-- `copy(d[off : off + len(bs)], bs)`.
unfoldable pub write : List ℕ → ℕ → List ℕ → List ℕ
write [] off bs = []
write (x ∷ d) zero [] = x ∷ d
write (x ∷ d) zero (b ∷ bs) = b ∷ write d zero bs
write (x ∷ d) (suc off) bs = x ∷ write d off bs

pub length-write : (d : List ℕ) (off : ℕ) (bs : List ℕ) → length (write d off bs) ≡ length d
unfolding write
length-write [] off bs = refl
length-write (x ∷ d) zero [] = refl
length-write (x ∷ d) zero (b ∷ bs) = ap suc (length-write d zero bs)
length-write (x ∷ d) (suc off) bs = ap suc (length-write d off bs)

pub slice-write_self :
    (d : List ℕ) (off : ℕ) (bs : List ℕ)
    → off + length bs ≤ length d
    → slice (write d off bs) off (length bs) ≡ bs
unfolding slice write
slice-write_self [] zero [] h = refl
slice-write_self [] zero (b ∷ bs) h = absurd (omega arith)
slice-write_self [] (suc off) bs h = absurd (omega arith)
slice-write_self (x ∷ d) zero [] h = refl
slice-write_self (x ∷ d) zero (b ∷ bs) h = ap (◌∷◌ b) (slice-write_self d zero bs (omega arith))
slice-write_self (x ∷ d) (suc off) bs h = slice-write_self d off bs (omega arith)

pub slice-write_before :
    (d : List ℕ) (off : ℕ) (bs : List ℕ) (a n : ℕ)
    → a + n ≤ off
    → slice (write d off bs) a n ≡ slice d a n
unfolding slice write
slice-write_before [] off bs a n h = refl
slice-write_before (x ∷ d) zero bs zero zero h = refl
slice-write_before (x ∷ d) zero bs zero (suc n) h = absurd (omega arith)
slice-write_before (x ∷ d) zero bs (suc a) n h = absurd (omega arith)
slice-write_before (x ∷ d) (suc off) bs zero zero h = refl
slice-write_before (x ∷ d) (suc off) bs zero (suc n) h =
    ap (◌∷◌ x) (slice-write_before d off bs zero n (omega arith))
slice-write_before (x ∷ d) (suc off) bs (suc a) n h = slice-write_before d off bs a n (omega arith)

pub slice-write_after :
    (d : List ℕ) (off : ℕ) (bs : List ℕ) (a n : ℕ)
    → off + length bs ≤ a
    → slice (write d off bs) a n ≡ slice d a n
unfolding slice write
slice-write_after [] off bs a n h = refl
slice-write_after (x ∷ d) zero [] a n h = refl
slice-write_after (x ∷ d) zero (b ∷ bs) zero n h = absurd (omega arith)
slice-write_after (x ∷ d) zero (b ∷ bs) (suc a) n h = slice-write_after d zero bs a n (omega arith)
slice-write_after (x ∷ d) (suc off) bs zero n h = absurd (omega arith)
slice-write_after (x ∷ d) (suc off) bs (suc a) n h = slice-write_after d off bs a n (omega arith)

-- The little-endian uint16 at `off`, and its store.
unfoldable pub u16_at : List ℕ → ℕ → ℕ
u16_at d off = le_value (slice d off 2)

unfoldable pub put_u16 : List ℕ → ℕ → ℕ → List ℕ
put_u16 d off v = write d off (le_bytes 2 (v % 2 ^ 16))
