-- ===== src/Storage/Page/Insert.antt =====
-- `Page.Insert` keeps the layout, stores the row and leaves every other slot alone.
use mathlib.Core.Path.{ap₂}
use aura_sql.Prelude.{
  ℕ, refl, subst, true, Bool-cases, ◌+◌, ◌-◌, ◌^◌, ◌≤◌, ◌<◌, ◌≡◌, ◌≢◌, ◌∙◌, sym, ap, false, ◌⊎◌,
  inl, inr, List, length, arith,
}
use aura_sql.Errors.{ok, err, errorf}
use aura_sql.Storage.Bytes.{slice, write, u16_at, length-write, slice-write_self, slice_zero}
use aura_sql.Storage.Bytes.Apart.{Apart, slice-write-Apart, slice-put_u16, u16_at-slice}
use aura_sql.Storage.Page.{
  Page, page_size, slot_count, free_space, slot_offset, data_offset, data_length, lacks_room,
  with_row, insert, get,
}
use aura_sql.Storage.Page.Header.{fourth_size, count_field, free_field, length_field, offset_field}
use aura_sql.Storage.Page.Layout.{IsPage, IsSlot, get-IsPage}

module _ (p : Page) (row : List ℕ) (h : IsPage p) (room : lacks_room p row ≡ false) where
  fits : slot_offset (slot_count p) + (length row + 4) ≤ free_space p
  fits = ground arith

  q : Page
  q = with_row p row

  -- What the header, the new entry and the new row do not touch.
  kept :
      (a n : ℕ)
      → 4 ≤ a
      → Apart a n (slot_offset (slot_count p)) 4
      → Apart a n (free_space p - length row) (length row)
      → slice q.bytes a n ≡ slice p.bytes a n
  unfolding q
  kept a n high entry body =
      slice-put_u16 _ _ _ a n (inr (omega arith))
      ∙ (slice-put_u16 _ _ _ a n (inr (omega arith))
          ∙ (slice-put_u16 _ _ _ a n (omega arith)
              ∙ (slice-put_u16 _ _ _ a n (omega arith) ∙ slice-write-Apart _ _ row a n body)))

  u16_kept :
      (a : ℕ)
      → 4 ≤ a
      → Apart a 2 (slot_offset (slot_count p)) 4
      → Apart a 2 (free_space p - length row) (length row)
      → u16_at q.bytes a ≡ u16_at p.bytes a
  u16_kept a high entry body = u16_at-slice q.bytes p.bytes a (kept a 2 high entry body)

  row_kept : slice q.bytes (free_space p - length row) (length row) ≡ row
  unfolding q
  row_kept =
      slice-put_u16 _ _ _ (free_space p - length row) (length row) (inr (omega (arith, fits)))
      ∙ (slice-put_u16 _ _ _ (free_space p - length row) (length row) (inr (omega (arith, fits)))
          ∙ (slice-put_u16 _ _ _ (free_space p - length row) (length row)
                (inr (omega (arith, fits)))
              ∙ (slice-put_u16 _ _ _ (free_space p - length row) (length row)
                    (inr (omega (arith, fits)))
                  ∙ slice-write_self p.bytes (free_space p - length row) row
                      (omega (arith, fits, h.size, h.free_in_page)))))

  copied_size : length (write p.bytes (free_space p - length row) row) ≡ page_size
  copied_size = length-write p.bytes (free_space p - length row) row ∙ h.size

  entry_high : slot_offset (slot_count p) + 4 ≤ page_size
  entry_high = omega (arith, fits, h.free_in_page)

  count_fits : slot_count p + 1 < 2 ^ 16
  count_fits = omega (arith, fits, h.free_in_page)

  low : 4 ≤ slot_offset (slot_count p)
  low = omega arith

  free_fits : free_space p - length row < 2 ^ 16
  free_fits = omega (arith, h.free_in_page)

  length_fits : length row < 2 ^ 16
  length_fits = omega (arith, fits, h.free_in_page)

  body_ends : free_space p - length row + length row ≡ free_space p
  body_ends = omega (arith, fits)

  size-q : length q.bytes ≡ page_size
  unfolding q
  size-q = fourth_size _ copied_size _ _ _ _ low entry_high free_fits length_fits count_fits

  slot_count-q : slot_count q ≡ slot_count p + 1
  unfolding q
  slot_count-q = count_field _ copied_size _ _ _ _ low entry_high free_fits length_fits count_fits

  free_space-q : free_space q ≡ free_space p - length row
  unfolding q
  free_space-q = free_field _ copied_size _ _ _ _ low entry_high free_fits length_fits count_fits

  data_length-q : data_length q (slot_count p) ≡ length row
  unfolding q
  data_length-q = length_field _ copied_size _ _ _ _ low entry_high free_fits length_fits count_fits

  data_offset-q : data_offset q (slot_count p) ≡ free_space p - length row
  unfolding q
  data_offset-q = offset_field _ copied_size _ _ _ _ low entry_high free_fits length_fits count_fits

  module _ (i : ℕ) (lt : i < slot_count p) where
    data_offset_kept : data_offset q i ≡ data_offset p i
    data_offset_kept =
        u16_kept (slot_offset i) (omega arith) (inl (omega arith)) (inl (omega (arith, fits)))

    data_length_kept : data_length q i ≡ data_length p i
    data_length_kept =
        u16_kept (slot_offset i + 2) (omega arith) (inl (omega arith)) (inl (omega (arith, fits)))

    -- The row of a slot lies above the new one; a tombstone has no bytes.
    bytes_kept :
        IsSlot p i
        → slice q.bytes (data_offset p i) (data_length p i)
          ≡ slice p.bytes (data_offset p i) (data_length p i)
    bytes_kept slot = elim slot.above_free [
      | inl (_, none_there) ↦
          rw none_there
            (slice_zero q.bytes (data_offset p i) ∙ sym (slice_zero p.bytes (data_offset p i)))
      | inr above ↦
          kept (data_offset p i) (data_length p i) (omega (arith, h.slots_below_free))
            (inr (omega (arith, fits))) (inr (omega (arith, body_ends)))
    ]

    IsSlot-kept : IsSlot p i → IsSlot q i
    IsSlot-kept slot = record {
      ends_in_page = rw data_offset_kept (rw data_length_kept slot.ends_in_page);
      above_free =
          rw data_offset_kept (rw data_length_kept (rw free_space-q (lower slot.above_free)));
    }
      where
        lower :
            ((data_offset p i ≡ 0) × (data_length p i ≡ 0)) ⊎ (free_space p ≤ data_offset p i)
            → ((data_offset p i ≡ 0) × (data_length p i ≡ 0))
              ⊎ (free_space p - length row ≤ data_offset p i)
        lower (inl t) = inl t
        lower (inr a) = inr (omega arith)

    new_row-Apart :
        IsSlot p i
        → Apart (data_offset p i) (data_length p i) (free_space p - length row) (length row)
    new_row-Apart slot = elim slot.above_free [
      | inl (a, b) ↦ inl (omega arith)
      | inr above ↦ inr (omega (arith, body_ends))
    ]

  new-IsSlot : IsSlot q (slot_count p)
  new-IsSlot = record {
    ends_in_page = omega (arith, data_offset-q, data_length-q, body_ends, h.free_in_page);
    above_free = inr (omega (arith, data_offset-q, free_space-q));
  }

  slot-q : (i : ℕ) → i < slot_count q → (i < slot_count p) ⊎ (i ≡ slot_count p)
  slot-q i lt = omega (arith, slot_count-q)

  slots-q : (i : ℕ) → i < slot_count q → IsSlot q i
  slots-q i lt = elim (slot-q i lt) [
    | inl old ↦ IsSlot-kept i old (h.slots i old)
    | inr new ↦ subst (λ k. IsSlot q k) (sym new) new-IsSlot
  ]

  abbrev RowsApart : ℕ → ℕ → Type 0
  RowsApart i j = Apart (data_offset q i) (data_length q i) (data_offset q j) (data_length q j)

  old_new : (i : ℕ) → i < slot_count p → RowsApart i (slot_count p)
  old_new i old = omega (
    arith,
    new_row-Apart i old (h.slots i old),
    data_offset_kept i old,
    data_length_kept i old,
    data_offset-q,
    data_length-q,
  )

  rows-Apart-q : (i j : ℕ) → i < slot_count q → j < slot_count q → i ≢ j → RowsApart i j
  rows-Apart-q i j li lj ne = elim (slot-q i li) [
    | inl oi ↦ elim (slot-q j lj) [
      | inl oj ↦ omega (
        arith,
        h.rows_apart i j oi oj ne,
        data_offset_kept i oi,
        data_length_kept i oi,
        data_offset_kept j oj,
        data_length_kept j oj,
      )
      | inr nj ↦ subst (λ k. RowsApart i k) (sym nj) (old_new i oi)
    ]
    | inr ni ↦ elim (slot-q j lj) [
      | inl oj ↦ subst (λ k. RowsApart k j) (sym ni) (omega (arith, old_new j oj))
      | inr nj ↦ absurd (ne (ni ∙ sym nj))
    ]
  ]

  q-IsPage : IsPage q
  q-IsPage = record {
    size = size-q;
    free_in_page = omega (arith, free_space-q, h.free_in_page);
    slots_below_free = omega (arith, slot_count-q, free_space-q, fits);
    slots = slots-q;
    rows_apart = rows-Apart-q;
  }

  -- A slot of the page reads as before.
  get_kept : (i : ℕ) → i < slot_count p → get q i ≡ get p i
  get_kept i lt =
      get-IsPage q i q-IsPage (omega (arith, slot_count-q))
      ∙ (ap ok (
            ap₂ (slice q.bytes) (data_offset_kept i lt) (data_length_kept i lt)
            ∙ bytes_kept i lt (h.slots i lt))
          ∙ sym (get-IsPage p i h lt))

  get_new : get q (slot_count p) ≡ ok row
  get_new =
      get-IsPage q (slot_count p) q-IsPage (omega (arith, slot_count-q))
      ∙ ap ok (ap₂ (slice q.bytes) data_offset-q data_length-q ∙ row_kept)

-- What a successful `Insert` does to a page.
pub record Inserted (p : Page) (row : List ℕ) (q : Page) : Type 0 where
  pub counted : slot_count q ≡ slot_count p + 1
  pub laid_out : IsPage q
  pub reads_back : get q (slot_count p) ≡ ok row
  pub others_kept : (j : ℕ) → j < slot_count p → get q j ≡ get p j

pub with_row-Inserted :
    (p : Page) (row : List ℕ)
    → IsPage p
    → lacks_room p row ≡ false
    → Inserted p row (with_row p row)
with_row-Inserted p row h room = record {
  counted = unfold q in slot_count-q p row h room;
  laid_out = unfold q in q-IsPage p row h room;
  reads_back = unfold q in get_new p row h room;
  others_kept = unfold q in get_kept p row h room;
}

-- On a laid out page with room for the row and its slot, `Insert` succeeds: it takes the next slot,
-- the slot reads back the row, every other slot reads as before, and the page is laid out again.
-- Without that room it fails.
pub insert_lem :
    (p : Page) (row : List ℕ)
    → IsPage p
    → ((lacks_room p row ≡ false)
        × ((q : Page) × (insert p row ≡ ok (slot_count p, q)) × Inserted p row q))
      ⊎ ((lacks_room p row ≡ true) × (insert p row ≡ err (errorf "page is full")))
unfolding insert
insert_lem p row h = elim (Bool-cases (lacks_room p row)) [
  | inl full ↦ inr (full, rw full refl)
  | inr room ↦ inl (room, (with_row p row, ground arith, with_row-Inserted p row h room))
]
