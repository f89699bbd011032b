-- ===== src/Storage/Page/Delete.antt =====
-- `Page.Delete` turns one slot into a tombstone.
use mathlib.Core.Path.{ap₂}
use native.Mathlib.Decide.{ℕ_discrete}
use aura_sql.Prelude.{ℕ, ◌+◌, ◌≤◌, ◌<◌, ◌≡◌, ◌≢◌, ◌∙◌, sym, ap, inl, inr, [], length, arith}
use aura_sql.Errors.{ok}
use aura_sql.Storage.Bytes.{slice, u16_at, slice_zero}
use aura_sql.Storage.Bytes.Apart.{
  Apart, slice-put_u16, length-put_u16, u16_at-put_u16, u16_at-put_u16-Apart,
}
use aura_sql.Storage.Page.{
  Page, page_size, slot_count, free_space, slot_offset, data_offset, data_length, with_tombstone,
  delete, get,
}
use aura_sql.Storage.Page.Layout.{IsPage, IsSlot, get-IsPage}

module _ (p : Page) (i : ℕ) (h : IsPage p) (lt : i < slot_count p) where
  q : Page
  q = with_tombstone p i

  entry_low : slot_offset i + 4 ≤ page_size
  entry_low = omega (arith, h.slots_below_free, h.free_in_page)

  low_kept : (a : ℕ) → Apart a 2 (slot_offset i) 4 → u16_at q.bytes a ≡ u16_at p.bytes a
  unfolding q
  low_kept a apart =
      u16_at-put_u16-Apart _ (slot_offset i + 2) 0 a (omega arith)
      ∙ u16_at-put_u16-Apart p.bytes (slot_offset i) 0 a (omega arith)

  size-q : length q.bytes ≡ page_size
  unfolding q
  size-q =
      length-put_u16 _ (slot_offset i + 2) 0 ∙ (length-put_u16 p.bytes (slot_offset i) 0 ∙ h.size)

  slot_count-q : slot_count q ≡ slot_count p
  slot_count-q = low_kept 0 (inl (omega arith))

  free_space-q : free_space q ≡ free_space p
  free_space-q = low_kept 2 (inl (omega arith))

  data_length-q : data_length q i ≡ 0
  unfolding q
  data_length-q =
      u16_at-put_u16 _ (slot_offset i + 2) 0
        (omega (arith, length-put_u16 p.bytes (slot_offset i) 0, h.size, entry_low)) (omega arith)

  data_offset-q : data_offset q i ≡ 0
  unfolding q
  data_offset-q =
      u16_at-put_u16-Apart _ (slot_offset i + 2) 0 (slot_offset i) (inl (omega arith))
      ∙ u16_at-put_u16 p.bytes (slot_offset i) 0 (omega (arith, h.size, entry_low)) (omega arith)

  data_offset_kept : (j : ℕ) → j ≢ i → data_offset q j ≡ data_offset p j
  data_offset_kept j ne = low_kept (slot_offset j) (omega arith)

  data_length_kept : (j : ℕ) → j ≢ i → data_length q j ≡ data_length p j
  data_length_kept j ne = low_kept (slot_offset j + 2) (omega arith)

  bytes_kept :
      (j : ℕ)
      → j < slot_count p
      → slice q.bytes (data_offset p j) (data_length p j)
        ≡ slice p.bytes (data_offset p j) (data_length p j)
  unfolding q
  bytes_kept j lj = elim (h.slots j lj).above_free [
    | inl (at, none_there) ↦
        rw none_there (slice_zero _ (data_offset p j) ∙ sym (slice_zero _ (data_offset p j)))
    | inr above ↦
        slice-put_u16 _ (slot_offset i + 2) 0 (data_offset p j) (data_length p j)
          (inr (omega (arith, h.slots_below_free)))
        ∙ slice-put_u16 p.bytes (slot_offset i) 0 (data_offset p j) (data_length p j)
            (inr (omega (arith, h.slots_below_free)))
  ]

  slots-q : (j : ℕ) → j < slot_count p → IsSlot q j
  slots-q j lj = elim (ℕ_discrete j i) [
    | yes same ↦ rw same (record {
      ends_in_page = omega (arith, data_offset-q, data_length-q);
      above_free = inl (data_offset-q, data_length-q);
    })
    | no other ↦ record {
      ends_in_page =
          omega (
            arith,
            data_offset_kept j other,
            data_length_kept j other,
            (h.slots j lj).ends_in_page,
          );
      above_free = elim (h.slots j lj).above_free [
        | inl (at, none_there) ↦
            inl (data_offset_kept j other ∙ at, data_length_kept j other ∙ none_there)
        | inr above ↦ inr (omega (arith, data_offset_kept j other, free_space-q))
      ];
    }
  ]

  rows-Apart-q :
      (j k : ℕ)
      → j < slot_count p
      → k < slot_count p
      → j ≢ k
      → Apart (data_offset q j) (data_length q j) (data_offset q k) (data_length q k)
  rows-Apart-q j k lj lk ne = elim (ℕ_discrete j i) [
    | yes same ↦ inl (rw same (omega (arith, data_offset-q, data_length-q)))
    | no other ↦ elim (ℕ_discrete k i) [
      | yes same ↦ inr (rw same (omega (arith, data_offset-q, data_length-q)))
      | no other' ↦ omega (
        arith,
        h.rows_apart j k lj lk ne,
        data_offset_kept j other,
        data_offset_kept k other',
        data_length_kept j other,
        data_length_kept k other',
      )
    ]
  ]

  q-IsPage : IsPage q
  q-IsPage = record {
    size = size-q;
    free_in_page = omega (arith, free_space-q, h.free_in_page);
    slots_below_free = omega (arith, slot_count-q, free_space-q, h.slots_below_free);
    slots = λ j lj. slots-q j (rw slot_count-q at lj);
    rows_apart = λ j k lj lk. rows-Apart-q j k (rw slot_count-q at lj) (rw slot_count-q at lk);
  }

  get_kept : (j : ℕ) → j < slot_count p → j ≢ i → get q j ≡ get p j
  get_kept j lj ne =
      get-IsPage q j q-IsPage (omega (arith, slot_count-q))
      ∙ (ap ok
            (ap₂ (slice q.bytes) (data_offset_kept j ne) (data_length_kept j ne) ∙ bytes_kept j lj)
          ∙ sym (get-IsPage p j h lj))

  get_deleted : get q i ≡ ok []
  get_deleted =
      get-IsPage q i q-IsPage (omega (arith, slot_count-q))
      ∙ ap ok (ap₂ (slice q.bytes) data_offset-q data_length-q ∙ slice_zero q.bytes 0)

-- What a successful `Delete` of slot `i` does to a page.
pub record Deleted (p : Page) (i : ℕ) (q : Page) : Type 0 where
  pub same_count : slot_count q ≡ slot_count p
  pub laid_out : IsPage q
  pub emptied : get q i ≡ ok []
  pub others_kept : (j : ℕ) → j < slot_count p → j ≢ i → get q j ≡ get p j

-- On a laid out page, `Delete` of a slot below the count succeeds: the slot reads back no bytes and
-- no error, every other slot reads as before and the page is laid out again.
pub delete_lem :
    (p : Page) (i : ℕ)
    → IsPage p
    → i < slot_count p
    → (q : Page) × (delete p i ≡ ok q) × Deleted p i q
unfolding delete
delete_lem p i h lt = (
  with_tombstone p i,
  ground (arith, entry_low p i h lt),
  record {
    same_count = unfold q in slot_count-q p i h lt;
    laid_out = unfold q in q-IsPage p i h lt;
    emptied = unfold q in get_deleted p i h lt;
    others_kept = unfold q in get_kept p i h lt;
  },
)
