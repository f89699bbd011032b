-- ===== src/Storage/Page/Layout.antt =====
-- The layout that every page operation keeps, and what it gives to a reader.
use aura_sql.Prelude.{
  ℕ, suc, inl, ◌∙◌, length-replicate, ◌+◌, ◌≤◌, ◌<◌, ◌≡◌, ◌≢◌, refl, ◌⊎◌, length, arith,
}
use aura_sql.Errors.{ok}
use aura_sql.Storage.Bytes.{slice, le_value, u16_at}
use aura_sql.Storage.Bytes.Apart.{
  Apart, u16_at-slice, slice-put_u16, u16_at-put_u16, length-put_u16,
}
use aura_sql.Storage.Page.{
  Page, page_size, slot_count, free_space, slot_offset, data_offset, data_length, get, zero_bytes,
  new_page,
}

-- The slot is a tombstone, or its row stands above the free-space pointer; both end in the page.
pub record IsSlot (p : Page) (i : ℕ) : Type 0 where
  pub ends_in_page : data_offset p i + data_length p i ≤ page_size
  pub above_free :
      ((data_offset p i ≡ 0) × (data_length p i ≡ 0)) ⊎ (free_space p ≤ data_offset p i)

pub record IsPage (p : Page) : Type 0 where
  pub size : length p.bytes ≡ page_size
  pub free_in_page : free_space p ≤ page_size
  pub slots_below_free : slot_offset (slot_count p) ≤ free_space p
  pub slots : (i : ℕ) → i < slot_count p → IsSlot p i
  pub rows_apart :
      (i j : ℕ)
      → i < slot_count p
      → j < slot_count p
      → i ≢ j
      → Apart (data_offset p i) (data_length p i) (data_offset p j) (data_length p j)

-- On a laid out page `Get` finds every slot below the count.
pub get-IsPage :
    (p : Page) (i : ℕ)
    → IsPage p
    → i < slot_count p
    → get p i ≡ ok (slice p.bytes (data_offset p i) (data_length p i))
unfolding get
get-IsPage p i h lt =
    ground (arith, (h.slots i lt).ends_in_page, h.slots_below_free, h.free_in_page)

zero_bytes-u16 : (n : ℕ) → u16_at (zero_bytes (suc (suc n))) 0 ≡ 0
unfolding zero_bytes u16_at slice le_value
zero_bytes-u16 n = refl

length-zero_bytes : (n : ℕ) → length (zero_bytes n) ≡ n
unfolding zero_bytes
length-zero_bytes n = length-replicate n 0

pub slot_count-new_page : slot_count new_page ≡ 0
unfolding new_page
slot_count-new_page =
    u16_at-slice _ _ 0 (slice-put_u16 (zero_bytes page_size) 2 page_size 0 2 (inl (omega arith)))
    ∙ zero_bytes-u16 4094

pub free_space-new_page : free_space new_page ≡ page_size
unfolding new_page
free_space-new_page =
    u16_at-put_u16 (zero_bytes page_size) 2 page_size (omega (arith, length-zero_bytes page_size))
      (omega arith)

-- A fresh page is laid out, and has no slot.
pub new_page-IsPage : IsPage new_page × (slot_count new_page ≡ 0)
new_page-IsPage = (
  record {
    size =
        unfold new_page in
        (length-put_u16 (zero_bytes page_size) 2 page_size ∙ length-zero_bytes page_size);
    free_in_page = omega (arith, free_space-new_page);
    slots_below_free = omega (arith, free_space-new_page, slot_count-new_page);
    slots = λ i lt. absurd (omega (arith, slot_count-new_page));
    rows_apart = λ i j lt. absurd (omega (arith, slot_count-new_page));
  },
  slot_count-new_page,
)
