-- ===== src/Storage/Page/Update.antt =====
-- `Page.Update` replaces the row of one slot, where the new row is no longer than the old.
use mathlib.Core.Path.{ap₂}
use native.Mathlib.Decide.{ℕ_discrete, dec_le}
use aura_sql.Prelude.{
  ℕ, ◌+◌, ◌≤◌, ◌<◌, ◌≡◌, ◌≢◌, refl, ◌∙◌, sym, ap, ◌⊎◌, inl, inr, [], ◌∷◌, List, length, arith,
}
use aura_sql.Errors.{ok, err, errorf}
use aura_sql.Storage.Bytes.{slice, write, u16_at, length-write, slice-write_self, slice_zero}
use aura_sql.Storage.Bytes.Apart.{
  Apart, slice-write-Apart, slice-put_u16, length-put_u16, u16_at-put_u16, u16_at-put_u16-Apart,
  u16_at-slice,
}
use aura_sql.Storage.Page.{
  Page, page_size, slot_count, free_space, slot_offset, data_offset, data_length, with_update,
  update, get,
}
use aura_sql.Storage.Page.Layout.{IsPage, IsSlot, get-IsPage}

length-zero : (row : List ℕ) → length row ≡ 0 → row ≡ []
length-zero [] e = refl
length-zero (x ∷ row) e = absurd (omega arith)

module _ (p : Page) (i : ℕ) (row : List ℕ) (h : IsPage p) (lt : i < slot_count p)
    (small : length row ≤ data_length p i) where
  q : Page
  q = with_update p i row

  written_size : length (write p.bytes (data_offset p i) row) ≡ page_size
  written_size = length-write p.bytes (data_offset p i) row ∙ h.size

  entry_low : slot_offset i + 4 ≤ free_space p
  entry_low = omega (arith, h.slots_below_free)

  -- The header and the entries lie below every row.
  low-Apart : (a : ℕ) → a + 2 ≤ free_space p → Apart a 2 (data_offset p i) (length row)
  low-Apart a low = elim (h.slots i lt).above_free [
    | inl (at, none_there) ↦ inr (omega arith)
    | inr above ↦ inl (omega arith)
  ]

  low_kept :
      (a : ℕ)
      → a + 2 ≤ free_space p
      → Apart a 2 (slot_offset i + 2) 2
      → u16_at q.bytes a ≡ u16_at p.bytes a
  unfolding q
  low_kept a low entry =
      u16_at-put_u16-Apart _ (slot_offset i + 2) (length row) a entry
      ∙ u16_at-slice _ p.bytes a
          (slice-write-Apart p.bytes (data_offset p i) row a 2 (low-Apart a low))

  size-q : length q.bytes ≡ page_size
  unfolding q
  size-q = length-put_u16 _ (slot_offset i + 2) (length row) ∙ written_size

  slot_count-q : slot_count q ≡ slot_count p
  slot_count-q = low_kept 0 (omega (arith, entry_low)) (inl (omega arith))

  free_space-q : free_space q ≡ free_space p
  free_space-q = low_kept 2 (omega (arith, entry_low)) (inl (omega arith))

  data_length-q : data_length q i ≡ length row
  unfolding q
  data_length-q =
      u16_at-put_u16 _ (slot_offset i + 2) (length row)
        (omega (arith, written_size, entry_low, h.free_in_page))
        (omega (arith, (h.slots i lt).ends_in_page))

  data_offset_kept : (j : ℕ) → j < slot_count p → data_offset q j ≡ data_offset p j
  data_offset_kept j lj = low_kept (slot_offset j) (omega (arith, h.slots_below_free)) (omega arith)

  data_length_kept : (j : ℕ) → j < slot_count p → j ≢ i → data_length q j ≡ data_length p j
  data_length_kept j lj ne =
      low_kept (slot_offset j + 2) (omega (arith, h.slots_below_free)) (omega arith)

  -- A stretch of row bytes that the new row does not meet.
  high_kept :
      (a n : ℕ)
      → (n ≡ 0) ⊎ (free_space p ≤ a)
      → Apart a n (data_offset p i) (length row)
      → slice q.bytes a n ≡ slice p.bytes a n
  unfolding q
  high_kept a n place apart = elim place [
    | inl none_there ↦ rw none_there (slice_zero _ a ∙ sym (slice_zero _ a))
    | inr above ↦
        slice-put_u16 _ (slot_offset i + 2) (length row) a n (inr (omega (arith, entry_low)))
        ∙ slice-write-Apart p.bytes (data_offset p i) row a n apart
  ]

  place : (j : ℕ) → j < slot_count p → (data_length p j ≡ 0) ⊎ (free_space p ≤ data_offset p j)
  place j lj = elim (h.slots j lj).above_free [
    | inl (at, none_there) ↦ inl none_there
    | inr above ↦ inr above
  ]

  bytes_kept :
      (j : ℕ)
      → j < slot_count p
      → j ≢ i
      → slice q.bytes (data_offset p j) (data_length p j)
        ≡ slice p.bytes (data_offset p j) (data_length p j)
  bytes_kept j lj ne =
      high_kept (data_offset p j) (data_length p j) (place j lj)
        (omega (arith, h.rows_apart j i lj lt ne))

  row_stored : slice q.bytes (data_offset p i) (length row) ≡ row
  unfolding q
  row_stored = elim (place i lt) [
    | inl none_there ↦
        let nothing : length row ≡ 0 = omega arith in
        rw nothing (slice_zero _ (data_offset p i)) ∙ sym (length-zero row nothing)
    | inr above ↦
        slice-put_u16 _ (slot_offset i + 2) (length row) (data_offset p i) (length row)
          (inr (omega (arith, entry_low)))
        ∙ slice-write_self p.bytes (data_offset p i) row
            (omega (arith, h.size, (h.slots i lt).ends_in_page))
  ]

  data_length_le : (j : ℕ) → j < slot_count p → data_length q j ≤ data_length p j
  data_length_le j lj = elim (ℕ_discrete j i) [
    | yes same ↦ rw same (omega (arith, data_length-q))
    | no other ↦ omega (arith, data_length_kept j lj other)
  ]

  slots-q : (j : ℕ) → j < slot_count p → IsSlot q j
  slots-q j lj = record {
    ends_in_page =
        omega (arith, data_offset_kept j lj, data_length_le j lj, (h.slots j lj).ends_in_page);
    above_free = elim (h.slots j lj).above_free [
      | inl (at, none_there) ↦
          inl (omega (arith, data_offset_kept j lj), omega (arith, data_length_le j lj))
      | inr above ↦ inr (omega (arith, data_offset_kept j lj, free_space-q))
    ];
  }

  rows-Apart-q :
      (j k : ℕ)
      → j < slot_count p
      → k < slot_count p
      → j ≢ k
      → Apart (data_offset q j) (data_length q j) (data_offset q k) (data_length q k)
  rows-Apart-q j k lj lk ne = omega (
    arith,
    h.rows_apart j k lj lk ne,
    data_offset_kept j lj,
    data_offset_kept k lk,
    data_length_le j lj,
    data_length_le k lk,
  )

  q-IsPage : IsPage q
  q-IsPage = record {
    size = size-q;
    free_in_page = omega (arith, free_space-q, h.free_in_page);
    slots_below_free = omega (arith, slot_count-q, free_space-q, h.slots_below_free);
    slots = λ j lj. slots-q j (rw slot_count-q at lj);
    rows_apart = λ j k lj lk. rows-Apart-q j k (rw slot_count-q at lj) (rw slot_count-q at lk);
  }

  get_kept : (j : ℕ) → j < slot_count p → j ≢ i → get q j ≡ get p j
  get_kept j lj ne =
      get-IsPage q j q-IsPage (omega (arith, slot_count-q))
      ∙ (ap ok (
            ap₂ (slice q.bytes) (data_offset_kept j lj) (data_length_kept j lj ne)
            ∙ bytes_kept j lj ne)
          ∙ sym (get-IsPage p j h lj))

  get_new : get q i ≡ ok row
  get_new =
      get-IsPage q i q-IsPage (omega (arith, slot_count-q))
      ∙ ap ok (ap₂ (slice q.bytes) (data_offset_kept i lt) data_length-q ∙ row_stored)

-- What a successful `Update` of slot `i` does to a page.
pub record Updated (p : Page) (i : ℕ) (row : List ℕ) (q : Page) : Type 0 where
  pub same_count : slot_count q ≡ slot_count p
  pub laid_out : IsPage q
  pub reads_back : get q i ≡ ok row
  pub others_kept : (j : ℕ) → j < slot_count p → j ≢ i → get q j ≡ get p j

-- On a laid out page, `Update` of a slot below the count with a row no longer than the old one
-- succeeds: the slot reads back the row, every other slot reads as before and the page is laid out
-- again. A longer row is refused.
pub update_lem :
    (p : Page) (i : ℕ) (row : List ℕ)
    → IsPage p
    → i < slot_count p
    → ((length row ≤ data_length p i) × ((q : Page) × (update p i row ≡ ok q) × Updated p i row q))
      ⊎ ((data_length p i < length row) × (update p i row ≡ err (errorf "row too large")))
unfolding update
update_lem p i row h lt = elim (dec_le (length row) (data_length p i)) [
  | yes small ↦ inl (
    small,
    (
      with_update p i row,
      ground (arith, h.slots_below_free, h.free_in_page, (h.slots i lt).ends_in_page),
      record {
        same_count = unfold q in slot_count-q p i row h lt small;
        laid_out = unfold q in q-IsPage p i row h lt small;
        reads_back = unfold q in get_new p i row h lt small;
        others_kept = unfold q in get_kept p i row h lt small;
      },
    ),
  )
  | no large ↦ inr (omega arith, ground (arith, h.slots_below_free, h.free_in_page))
]
