-- ===== src/Storage/BufferPool.antt =====
-- storage/bufferpool.go, and the page reads and writes of storage/heapfile.go: the cache of pages
-- over a file. The file holds whole pages, as every write to it is of one page; what the operating
-- system may refuse are the reads and writes of the pages that the file's record names.
-- The range over a map takes its keys in an unspecified order: `turn` says which key it meets first.
pub mod View
pub mod Fetch
pub mod FlushAll
pub mod Works
use aura_sql.Prelude.{
  ℕ, zero, suc, ◌%◌, compare, Bool, true, false, not, List, [], ◌∷◌, Option, none, some, leb,
  length, get_or, if◌then◌else◌, filter,
}
use aura_sql.Prelude.Maps.{Map, lookup, put, remove}
use aura_sql.Errors.{Error, Result, ok, err, errorf}
use aura_sql.Storage.Page.{Page, page_size, zero_bytes, zero_page}

pub record File : Type 0 where
  pub blocks : List (List ℕ)
  pub read_error : ℕ → Option Error
  pub write_error : ℕ → Option Error

-- What the file has at a page's place: zeros beyond its end.
abbrev pub block : File → ℕ → List ℕ
block f id = get_or f.blocks id (zero_bytes page_size)

-- A write beyond the end leaves zeros in between.
unfoldable pub write_block : List (List ℕ) → ℕ → List ℕ → List (List ℕ)
write_block [] zero b = b ∷ []
write_block [] (suc id) b = zero_bytes page_size ∷ write_block [] id b
write_block (x ∷ xs) zero b = b ∷ xs
write_block (x ∷ xs) (suc id) b = x ∷ write_block xs id b

unfoldable pub read_page : File → ℕ → Result Page
unfolding zero_page
read_page f id = elim (f.read_error id) [
  | none ↦ ok (record zero_page { bytes = block f id })
  | some e ↦ err e
]

unfoldable pub write_page : ℕ → Page → File → File × Result (Unit {0})
unfolding write_block
write_page id page f = elim (f.write_error id) [
  | none ↦ (record f { blocks = write_block f.blocks id page.bytes }, ok tt)
  | some e ↦ (f, err e)
]

abbrev pub page_count : File → ℕ
page_count f = length f.blocks

pub record Pool : Type 0 where
  pub file : File
  pub pages : Map ℕ Page
  pub dirty : Map ℕ Bool
  pub capacity : ℕ

-- `bp.dirty[id]`
abbrev pub marked : Option Bool → Bool
marked none = false
marked (some b) = b

abbrev pub is_dirty : Pool → ℕ → Bool
is_dirty p id = marked (lookup compare id p.dirty)

unfoldable pub mark_dirty : ℕ → Pool → Pool
unfolding put
mark_dirty id p = record p { dirty = put compare id true p.dirty }

-- A page that the cache holds is written in place, through the pointer that `FetchPage` returned.
unfoldable pub set_page : ℕ → Page → Pool → Pool
unfolding put
set_page id page p = record p { pages = put compare id page p.pages }

abbrev pub written : ℕ → Pool → File × Result (Unit {0}) → Pool × Result (Unit {0})
written id p (f, ok done) = (record p { file = f; dirty = remove compare id p.dirty }, ok tt)
written id p (f, err e) = (record p { file = f }, err e)

abbrev pub flush_cached : ℕ → Pool → Option Page → Pool × Result (Unit {0})
flush_cached id p none = (p, err (errorf "cannot flush: page not in cache"))
flush_cached id p (some page) = written id p (write_page id page p.file)

unfoldable pub flush : ℕ → Pool → Pool × Result (Unit {0})
unfolding lookup remove write_page
flush id p = if is_dirty p id then flush_cached id p (lookup compare id p.pages) else (p, ok tt)

-- In the order of the range.
unfoldable pub flush_all : List ℕ → Pool → Pool × Result (Unit {0})
flush_all [] p = (p, ok tt)
flush_all (id ∷ order) p =
    let (q, r) = flush id p in
    let rest = flush_all order q in elim r [ ok done ↦ rest | err e ↦ (q, err e) ]

abbrev pub ids_of : Map ℕ Page → List ℕ
ids_of [] = []
ids_of ((id, page) ∷ m) = id ∷ ids_of m

-- The key that the range meets first.
unfoldable pub met_first : ℕ → List ℕ → Option ℕ
met_first turn [] = none
met_first turn (id ∷ ids) = some (get_or (id ∷ ids) (turn % suc (length ids)) id)

abbrev pub drop_page : ℕ → Pool → Pool
drop_page id p = record p { pages = remove compare id p.pages; dirty = remove compare id p.dirty }

abbrev pub dropped : ℕ → Pool × Result (Unit {0}) → Pool × Result (Unit {0})
dropped id (p, ok done) = (drop_page id p, ok tt)
dropped id (p, err e) = (p, err e)

-- No page is clean. With no page at all the target stays -1, which nothing marks or holds.
abbrev pub evict_dirty : Pool → Option ℕ → Pool × Result (Unit {0})
evict_dirty p none = (p, ok tt)
evict_dirty p (some id) = dropped id (flush id p)

abbrev pub evict_from : ℕ → Pool → Option ℕ → Pool × Result (Unit {0})
evict_from turn p (some id) = (drop_page id p, ok tt)
evict_from turn p none = evict_dirty p (met_first turn (ids_of p.pages))

unfoldable pub evict_page : ℕ → Pool → Pool × Result (Unit {0})
unfolding flush met_first remove
evict_page turn p =
    evict_from turn p (met_first turn (filter (λ id. not (is_dirty p id)) (ids_of p.pages)))

abbrev pub loaded : ℕ → Pool → Result Page → Pool × Result Page
loaded id p (ok page) = (set_page id page p, ok page)
loaded id p (err e) = (p, err e)

-- After the eviction, if there was one.
abbrev pub load_page : ℕ → Pool × Result (Unit {0}) → Pool × Result Page
load_page id (p, ok done) = loaded id p (read_page p.file id)
load_page id (p, err e) = (p, err e)

abbrev pub fetch_missing : ℕ → ℕ → Pool → Option Page → Pool × Result Page
fetch_missing turn id p (some page) = (p, ok page)
fetch_missing turn id p none =
    let room = evict_page turn p in
    load_page id (if leb p.capacity (length p.pages) then room else (p, ok tt))

unfoldable pub fetch_page : ℕ → ℕ → Pool → Pool × Result Page
unfolding lookup evict_page read_page set_page
fetch_page turn id p = fetch_missing turn id p (lookup compare id p.pages)
