-- ===== src/Storage/Scan/Next.antt =====
-- What an iterator's `Next` returns, and what it passes over.
use aura_sql.Prelude.{ℕ, suc, ◌≤◌, ◌<◌, ◌≡◌, ◌⊎◌, Bool, Option, none, some}
use aura_sql.Errors.{Result, OnOk}
use aura_sql.Core.{Row}
use aura_sql.Storage.Page.{Page, page_size, entry_in_page, data_offset, data_length}
use aura_sql.Storage.Page
use aura_sql.Storage.RowId.{encode_row_id}
use aura_sql.Storage.Mvcc.{Txns}
use aura_sql.Storage.BufferPool.{Pool}
use aura_sql.Storage.BufferPool.View.{Shows}
use aura_sql.Storage.HeapFile.Rows.{cell}
use aura_sql.Storage.Scan.{Cursor}
use aura_sql.Storage.Scan.Slots.{Wanted, Unwanted}

-- The position is at the cursor or after it.
abbrev pub From : Cursor → Cursor → Type 0
From at pos = (at.0 < pos.0) ⊎ ((at.0 ≡ pos.0) × (at.1 ≤ pos.1))

module _ (e : Txns) (x : ℕ) (raw : Bool) where
  -- What `Next` found from the cursor on: the first position with a wanted row, or none.
  abbrev pub NextIs : Pool → Cursor → ℕ → Cursor → Option (ℕ × Row) → Type 0
  NextIs p at count now none =
      (pos : Cursor) → From at pos → pos.0 < count → Unwanted e x raw (cell p pos)
  NextIs p at count now (some (id, row)) =
      (pos : Cursor) × (id ≡ encode_row_id pos.0 pos.1)
      × (now ≡ (pos.0, suc pos.1))
      × From at pos
      × (pos.0 < count)
      × Wanted e x raw (cell p pos) row
      × ((before : Cursor)
          → From at before
          → From (before.0, suc before.1) pos
          → Unwanted e x raw (cell p before))

  -- The pool shows what it showed before.
  abbrev pub Outcome : Pool → Cursor → ℕ → (Pool × Cursor) × Result (Option (ℕ × Row)) → Type 0
  Outcome p at count r = Shows p r.0.0 × OnOk (NextIs p at count r.0.1) r.1
