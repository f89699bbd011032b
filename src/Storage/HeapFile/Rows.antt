-- ===== src/Storage/HeapFile/Rows.antt =====
-- The rows of a heap file, read through the pool: what a fetch keeps, and what a page stores.
pub mod Writes
pub mod Insert
pub mod Change
use aura_sql.Prelude.{
  ℕ, zero, suc, ◌+◌, ◌<◌, ◌≤◌, ◌≡◌, ◌≢◌, ◌⊎◌, inl, inr, refl, sym, ap, ◌∙◌, subst, compare, arith,
  Bool, true, false, not, List, [], ◌∷◌, Option, none, some, leb, length, Bool-cases, Option-cases,
  filter, if◌then◌else◌,
}
use aura_sql.Errors.{Error, Result, ok, err, errorf, OnOk}
use aura_sql.Storage.Bytes.{slice, u16_at, le_value}
use aura_sql.Storage.Page.{
  Page, page_size, zero_bytes, zero_page, slot_count, free_space, lacks_room,
}
use aura_sql.Storage.Page
use aura_sql.Storage.Page.Layout.{IsPage, IsSlot}
use aura_sql.Storage.RowId.{decode_row_id}
use aura_sql.Prelude.Maps.{lookup}
use aura_sql.Storage.BufferPool.{
  write_block, read_page, write_page, page_count, Pool, is_dirty, set_page, flush_cached, flush,
  ids_of, met_first, dropped, evict_dirty, evict_from, evict_page, loaded, load_page, fetch_missing,
  fetch_page,
}
use aura_sql.Storage.BufferPool.View.{view, IsPool}
use aura_sql.Storage.BufferPool.Fetch.{fetch_page-Fetched}

-- A page of those bytes, as the file gives it.
abbrev pub page_with : List ℕ → Page
page_with b = record zero_page { bytes = b }

-- The row that the heap holds under a RowID.
abbrev pub cell : Pool → ℕ × ℕ → Result (List ℕ)
cell p at = Page.get (page_with (view p at.0)) at.1

unfoldable pub row_at : Pool → ℕ → Result (List ℕ)
unfolding decode_row_id
row_at p id = cell p (decode_row_id id)

abbrev pub blank : List ℕ
blank = zero_bytes page_size

-- Every page is laid out or blank, and blank from number `total` on, which the file has reached.
pub record HoldsPages (total : ℕ) (p : Pool) : Type 0 where
  pub pool : IsPool p
  pub pages : (id : ℕ) → IsPage (page_with (view p id)) ⊎ (view p id ≡ blank)
  pub beyond : (id : ℕ) → total ≤ id → view p id ≡ blank
  pub reached : total ≤ page_count p.file

-- A coherent pool over a heap file.
abbrev pub IsHeap : Pool → Type 0
IsHeap p = HoldsPages (page_count p.file) p

pub HoldsPages-IsHeap : (total : ℕ) (p : Pool) → HoldsPages total p → IsHeap p
HoldsPages-IsHeap total p h = record {
  pool = h.pool;
  pages = h.pages;
  beyond = λ id far. h.beyond id (omega (arith, h.reached));
  reached = omega arith;
}

-- No operation of the pool shortens the file.
pub length-write_block :
    (bs : List (List ℕ)) (id : ℕ) (b : List ℕ)
    → (length bs ≤ length (write_block bs id b)) × (id < length (write_block bs id b))
unfolding write_block
length-write_block [] zero b = (omega arith, omega arith)
length-write_block [] (suc id) b = omega (arith, length-write_block [] id b)
length-write_block (x ∷ xs) zero b = (omega arith, omega arith)
length-write_block (x ∷ xs) (suc id) b = omega (arith, length-write_block xs id b)

abbrev pub Reaches : ℕ → Pool → Type 0
Reaches total p = total ≤ page_count p.file

flush_cached-Reaches :
    (total id : ℕ) (p : Pool) (cached : Option Page)
    → Reaches total p
    → Reaches total (flush_cached id p cached).0
unfolding write_page
flush_cached-Reaches total id p none h = h
flush_cached-Reaches total id p (some page) h = elim (Option-cases (p.file.write_error id)) [
  | inl fine ↦ rw (fine, write_page) (omega (arith, length-write_block p.file.blocks id page.bytes))
  | inr (e, failing) ↦ rw (failing, write_page) h
]

flush-Reaches : (total id : ℕ) (p : Pool) → Reaches total p → Reaches total (flush id p).0
unfolding flush
flush-Reaches total id p h = elim (Bool-cases (is_dirty p id)) [
  | inr clean ↦ rw (clean, flush) h
  | inl wet ↦ rw (wet, flush) (flush_cached-Reaches total id p (lookup compare id p.pages) h)
]

dropped-Reaches :
    (total id : ℕ) (r : Pool × Result (Unit {0}))
    → Reaches total r.0
    → Reaches total (dropped id r).0
dropped-Reaches total id (q, ok done) h = h
dropped-Reaches total id (q, err e) h = h

evict_page-Reaches :
    (total turn : ℕ) (p : Pool) → Reaches total p → Reaches total (evict_page turn p).0
unfolding evict_page
evict_page-Reaches total turn p h =
    from (met_first turn (filter (λ id. not (is_dirty p id)) (ids_of p.pages)))
  where
    from_dirty : (target : Option ℕ) → Reaches total (evict_dirty p target).0
    from_dirty none = h
    from_dirty (some id) = dropped-Reaches total id (flush id p) (flush-Reaches total id p h)

    from : (target : Option ℕ) → Reaches total (evict_from turn p target).0
    from none = from_dirty (met_first turn (ids_of p.pages))
    from (some id) = h

fetch_page-Reaches :
    (total turn id : ℕ) (p : Pool) → Reaches total p → Reaches total (fetch_page turn id p).0
unfolding fetch_page set_page
fetch_page-Reaches total turn id p h = missing (lookup compare id p.pages)
  where
    from_load : (q : Pool) (r : Result Page) → Reaches total q → Reaches total (loaded id q r).0
    from_load q (ok page) k = k
    from_load q (err e) k = k

    from_room :
        (r : Pool × Result (Unit {0})) → Reaches total r.0 → Reaches total (load_page id r).0
    from_room (q, ok done) k = from_load q (read_page q.file id) k
    from_room (q, err e) k = k

    missing : (cached : Option Page) → Reaches total (fetch_missing turn id p cached).0
    missing (some page) = h
    missing none = elim (Bool-cases (leb p.capacity (length p.pages))) [
      | inl full ↦ rw full (from_room (evict_page turn p) (evict_page-Reaches total turn p h))
      | inr room ↦ rw room (from_room (p, ok tt) h)
    ]

-- A fetch keeps the heap.
pub fetch_page-HoldsPages :
    (total turn id : ℕ) (p : Pool) → HoldsPages total p → HoldsPages total (fetch_page turn id p).0
fetch_page-HoldsPages total turn id p h =
    let (shown, found) = fetch_page-Fetched turn id p h.pool in
    record {
      pool = shown.0;
      pages = λ j. rw (shown.1 j) (h.pages j);
      beyond = λ j far. shown.1 j ∙ h.beyond j far;
      reached = fetch_page-Reaches total turn id p h.reached;
    }

-- The layout is one of the bytes.
pub IsPage-page_with : (p : Page) → IsPage (page_with p.bytes) → IsPage p
IsPage-page_with p h = record {
  size = h.size;
  free_in_page = h.free_in_page;
  slots_below_free = h.slots_below_free;
  slots = λ i lt. record {
    ends_in_page = IsSlot.ends_in_page (h.slots i lt);
    above_free = IsSlot.above_free (h.slots i lt);
  };
  rows_apart = h.rows_apart;
}

pub page_with-IsPage : (p : Page) → IsPage p → IsPage (page_with p.bytes)
page_with-IsPage p h = record {
  size = h.size;
  free_in_page = h.free_in_page;
  slots_below_free = h.slots_below_free;
  slots = λ i lt. record {
    ends_in_page = IsSlot.ends_in_page (h.slots i lt);
    above_free = IsSlot.above_free (h.slots i lt);
  };
  rows_apart = h.rows_apart;
}

-- A blank page has no slot, and no room for one.
pub slot_count-blank : u16_at blank 0 ≡ 0
unfolding zero_bytes u16_at slice le_value
slot_count-blank = refl

free_space-blank : u16_at blank 2 ≡ 0
unfolding zero_bytes u16_at slice le_value
free_space-blank = refl

pub insert-blank :
    (page : Page) (row : List ℕ)
    → page.bytes ≡ blank
    → Page.insert page row ≡ err (errorf "page is full")
unfolding Page.insert
insert-blank page row same =
    let none_free : free_space page ≡ 0 = rw same free_space-blank in
    let full : lacks_room page row ≡ true = ground arith in rw (full, Page.insert) refl

pub get-blank : (slot : ℕ) → Page.get (page_with blank) slot ≡ err (errorf "invalid slot index")
unfolding Page.get
get-blank slot = let no_slot : slot_count (page_with blank) ≡ 0 = slot_count-blank in ground arith
