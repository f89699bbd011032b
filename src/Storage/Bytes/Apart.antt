-- ===== src/Storage/Bytes/Apart.antt =====
-- Reads of a byte array that a write elsewhere leaves alone.
use aura_sql.Prelude.{ℕ, ◌+◌, ◌%◌, ◌^◌, ◌≤◌, ◌<◌, ◌≡◌, ap, ◌∙◌, ◌⊎◌, inl, inr, List, length, arith}
use aura_sql.Storage.Bytes.{
  le_bytes, le_value, slice, write, length-write, slice-write_self, slice-write_before,
  slice-write_after, le_value-le_bytes, u16_at, put_u16,
}

-- Two stretches of bytes that do not meet.
abbrev pub Apart : ℕ → ℕ → ℕ → ℕ → Type 0
Apart a m b n = (a + m ≤ b) ⊎ (b + n ≤ a)

pub slice-write-Apart :
    (d : List ℕ) (off : ℕ) (bs : List ℕ) (a n : ℕ)
    → Apart a n off (length bs)
    → slice (write d off bs) a n ≡ slice d a n
slice-write-Apart d off bs a n h = elim h [
  | inl p ↦ slice-write_before d off bs a n p
  | inr p ↦ slice-write_after d off bs a n p
]

pub length-put_u16 : (d : List ℕ) (off v : ℕ) → length (put_u16 d off v) ≡ length d
unfolding put_u16
length-put_u16 d off v = length-write d off (le_bytes 2 (v % 2 ^ 16))

pub slice-put_u16 :
    (d : List ℕ) (off v a n : ℕ) → Apart a n off 2 → slice (put_u16 d off v) a n ≡ slice d a n
unfolding put_u16 le_bytes
slice-put_u16 d off v a n h = slice-write-Apart d off (le_bytes 2 (v % 2 ^ 16)) a n h

pub u16_at-put_u16 :
    (d : List ℕ) (off v : ℕ) → off + 2 ≤ length d → v < 2 ^ 16 → u16_at (put_u16 d off v) off ≡ v
unfolding u16_at put_u16 le_bytes
u16_at-put_u16 d off v h fits =
    let back : slice (write d off (le_bytes 2 (v % 2 ^ 16))) off 2 ≡ le_bytes 2 (v % 2 ^ 16) =
      slice-write_self d off (le_bytes 2 (v % 2 ^ 16)) h in
    ap le_value back ∙ (le_value-le_bytes 2 (v % 2 ^ 16) (omega arith) ∙ omega arith)

-- The uint16 at `a` is read from the two bytes there alone.
pub u16_at-slice : (d e : List ℕ) (a : ℕ) → slice d a 2 ≡ slice e a 2 → u16_at d a ≡ u16_at e a
unfolding u16_at
u16_at-slice d e a h = ap le_value h

pub u16_at-put_u16-Apart :
    (d : List ℕ) (off v a : ℕ) → Apart a 2 off 2 → u16_at (put_u16 d off v) a ≡ u16_at d a
u16_at-put_u16-Apart d off v a h = u16_at-slice (put_u16 d off v) d a (slice-put_u16 d off v a 2 h)
