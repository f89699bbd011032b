-- ===== src/Storage/Scan.antt =====
-- storage/engine.go: the iterator over a table's heap, `Scan` and `heapFileIterator.Next`. `e` is the
-- transaction state and `x` the reader; `raw` switches the test of visibility off. `turns` gives the
-- turn of the eviction for each page that is fetched.
pub mod Slots
pub mod Next
use aura_sql.Prelude.{
  ℕ, zero, suc, ◌+◌, ◌-◌, Bool, true, false, List, Option, none, some, ◌==◌, ◌||◌, leb,
  if◌then◌else◌,
}
use aura_sql.Errors.{Result, ok, err, panic, ◌>>=◌}
use aura_sql.Core.{Row}
use aura_sql.Storage.Bytes.{slice}
use aura_sql.Storage.Page.{Page, page_size, slot_count, entry_in_page, data_offset, data_length}
use aura_sql.Storage.RowId.{encode_row_id}
use aura_sql.Storage.RowCodec.{deserialize}
use aura_sql.Storage.Mvcc.{Txns, is_visible}
use aura_sql.Storage.BufferPool.{Pool, page_count, fetch_page}

abbrev pub row_of_bytes : List ℕ → Result (Option Row)
row_of_bytes bytes = do row ← deserialize bytes; ok (some row)

-- The row in a slot; a deleted one has no length.
abbrev pub row_in : Page → ℕ → Result (Option Row)
row_in page i =
    if entry_in_page i
    then if data_length page i == 0
      then ok none
      else if leb (data_offset page i + data_length page i) page_size
      then row_of_bytes (slice page.bytes (data_offset page i) (data_length page i))
      else err panic
    else err panic

-- Where the iterator is: `currPage` and `currSlot`.
abbrev pub Cursor : Type 0
Cursor = ℕ × ℕ

module _ (e : Txns) (x : ℕ) (raw : Bool) where
  abbrev pub is_shown : Row → Bool
  is_shown row = raw || is_visible e x row.xmin row.xmax

  abbrev pub met_row :
      ℕ → Result (Option (ℕ × Row)) → Result (Option Row) → Result (Option (ℕ × Row))
  met_row i rest (ok (some row)) = if is_shown row then ok (some (i, row)) else rest
  met_row i rest (ok none) = rest
  met_row i rest (err broken) = err broken

  -- The loop over the slots from `i` on, of which `n` are left.
  unfoldable pub next_slot : Page → ℕ → ℕ → Result (Option (ℕ × Row))
  unfolding deserialize slice is_visible
  next_slot page zero i = ok none
  next_slot page (suc n) i = met_row i (next_slot page n (suc i)) (row_in page i)

  abbrev pub leave_page :
      Cursor
      → Pool
      → (Pool → (Pool × Cursor) × Result (Option (ℕ × Row)))
      → Result (Option (ℕ × Row))
      → (Pool × Cursor) × Result (Option (ℕ × Row))
  leave_page at p go_on (ok none) = go_on p
  leave_page at p go_on (ok (some (i, row))) =
      ((p, (at.0, suc i)), ok (some (encode_row_id at.0 i, row)))
  leave_page at p go_on (err broken) = ((p, at), err broken)

  abbrev pub walk_page :
      Cursor
      → (Pool → (Pool × Cursor) × Result (Option (ℕ × Row)))
      → Pool × Result Page
      → (Pool × Cursor) × Result (Option (ℕ × Row))
  walk_page at go_on (p, ok page) =
      leave_page at p go_on (next_slot page (slot_count page - at.1) at.1)
  walk_page at go_on (p, err broken) = ((p, at), err broken)

  -- The loop over the pages from `id` on, of which `n` are left.
  unfoldable pub next_page :
      (ℕ → ℕ) → ℕ → ℕ → ℕ → Pool → (Pool × Cursor) × Result (Option (ℕ × Row))
  unfolding fetch_page next_slot encode_row_id
  next_page turns zero id i p = ((p, (id, i)), ok none)
  next_page turns (suc n) id i p =
      walk_page (id, i) (next_page turns n (suc id) 0) (fetch_page (turns id) id p)

  -- `Next`, for an iterator over `count` pages.
  unfoldable pub next : (ℕ → ℕ) → ℕ → Cursor → Pool → (Pool × Cursor) × Result (Option (ℕ × Row))
  unfolding next_page
  next turns count at p = next_page turns (count - at.0) at.0 at.1 p
