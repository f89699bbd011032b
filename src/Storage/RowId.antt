-- ===== src/Storage/RowId.antt =====
-- storage/heapfile.go: a RowID packs a page number and a slot into a uint64.
use Prim.Native.Nat.{bit_and, bit_or}
use aura_sql.Prelude.{ℕ, ◌*◌, ◌/◌, ◌%◌, ◌^◌, ◌<◌, ◌≡◌, ◌∙◌, ◌+◌, arith}
use mathlib.Core.Path.{ap₂}
use aura_sql.Prelude.Bits.{bit_or-shift, bit_and-mask_16}

unfoldable pub encode_row_id : ℕ → ℕ → ℕ
encode_row_id page_id slot_index = bit_or (page_id * 2 ^ 16 % 2 ^ 64) (slot_index % 2 ^ 64)

unfoldable pub decode_row_id : ℕ → ℕ × ℕ
decode_row_id id = (id / 2 ^ 16, bit_and id 0xffff)

encode_sum :
    (page_id slot_index : ℕ)
    → page_id < 2 ^ 48
    → slot_index < 2 ^ 16
    → encode_row_id page_id slot_index ≡ page_id * 2 ^ 16 + slot_index
unfolding encode_row_id
encode_sum page_id slot_index hp hs =
    let page : page_id * 2 ^ 16 % 2 ^ 64 ≡ page_id * 2 ^ 16 = omega arith in
    let slot : slot_index % 2 ^ 64 ≡ slot_index = omega arith in
    rw page (rw slot (bit_or-shift 16 page_id slot_index hs))

-- Decoding gives back the page and the slot, for every 48-bit page number and 16-bit slot.
pub decode_row_id-encode_row_id :
    (page_id slot_index : ℕ)
    → page_id < 2 ^ 48
    → slot_index < 2 ^ 16
    → decode_row_id (encode_row_id page_id slot_index) ≡ (page_id, slot_index)
unfolding decode_row_id
decode_row_id-encode_row_id page_id slot_index hp hs =
    rw (encode_sum page_id slot_index hp hs)
      (ap₂ (λ a b. (a, b)) (omega arith) (bit_and-mask_16 _ ∙ omega arith))

-- Every uint64 is the RowID of the page and slot that it decodes to.
pub encode_row_id-decode_row_id :
    (id : ℕ) → id < 2 ^ 64 → encode_row_id (decode_row_id id).0 (decode_row_id id).1 ≡ id
unfolding decode_row_id
encode_row_id-decode_row_id id h =
    rw (bit_and-mask_16 id)
      (encode_sum (id / 2 ^ 16) (id % 2 ^ 16) (omega arith) (omega arith) ∙ omega arith)
