-- ===== src/Storage/BufferPool/Works.antt =====
-- When the file can be read and written, every fetch succeeds.
use aura_sql.Prelude.{
  ℕ, compare, Option-cases, ◌≡◌, inl, inr, refl, not, Option, none, some, leb, length, Bool-cases,
  filter,
}
use aura_sql.Errors.{Result, ok, err}
use aura_sql.Storage.Page.{Page}
use aura_sql.Storage.BufferPool.FlushAll.{Writes, flush-Flushed}
use aura_sql.Prelude.Maps.{lookup}
use aura_sql.Storage.BufferPool.{
  read_page, write_page, Pool, is_dirty, set_page, flush_cached, flush, ids_of, met_first, dropped,
  evict_dirty, evict_from, evict_page, load_page, fetch_missing, fetch_page,
}
use aura_sql.Storage.BufferPool.View.{IsPool}

abbrev pub Reads : Pool → Type 0
Reads p = (id : ℕ) → p.file.read_error id ≡ none

-- The call succeeds, and reads still do.
abbrev Fine : {A : Type 0} → Pool × Result A → Type 0
Fine r = Reads r.0 × ((a : _) × (r.1 ≡ ok a))

flush_cached-Reads :
    (id : ℕ) (p : Pool) (cached : Option Page) → Reads p → Reads (flush_cached id p cached).0
unfolding write_page
flush_cached-Reads id p none h = h
flush_cached-Reads id p (some page) h = elim (Option-cases (p.file.write_error id)) [
  | inl fine ↦ rw (fine, write_page) h
  | inr (e, failing) ↦ rw (failing, write_page) h
]

flush-Reads : (id : ℕ) (p : Pool) → Reads p → Reads (flush id p).0
unfolding flush
flush-Reads id p h = elim (Bool-cases (is_dirty p id)) [
  | inr clean ↦ rw (clean, flush) h
  | inl wet ↦ rw (wet, flush) (flush_cached-Reads id p (lookup compare id p.pages) h)
]

dropped-Fine :
    (id : ℕ) (r : Pool × Result (Unit {0})) → Reads r.0 → r.1 ≡ ok tt → Fine (dropped id r)
dropped-Fine id (q, ok done) h fine = (h, (tt, refl))
dropped-Fine id (q, err e) h fine = cc

evict_page-Fine : (turn : ℕ) (p : Pool) → IsPool p → Writes p → Reads p → Fine (evict_page turn p)
unfolding evict_page
evict_page-Fine turn p h writes reads =
    from (met_first turn (filter (λ id. not (is_dirty p id)) (ids_of p.pages)))
  where
    from_dirty : (target : Option ℕ) → Fine (evict_dirty p target)
    from_dirty none = (reads, (tt, refl))
    from_dirty (some id) =
        dropped-Fine id (flush id p) (flush-Reads id p reads) (flush-Flushed id p h writes).0

    from : (target : Option ℕ) → Fine (evict_from turn p target)
    from none = from_dirty (met_first turn (ids_of p.pages))
    from (some id) = (reads, (tt, refl))

load_page-Fine : (id : ℕ) (r : Pool × Result (Unit {0})) → Fine r → Fine (load_page id r)
unfolding read_page set_page
load_page-Fine id (q, err e) (reads, done) = absurd (let at = done.1 in cc)
load_page-Fine id (q, ok done) (reads, at) = rw (reads id, read_page) (reads, (_, refl))

-- When the file can be read and written, fetching any page succeeds.
pub fetch_page-Fine :
    (turn id : ℕ) (p : Pool)
    → IsPool p
    → ((j : ℕ) → p.file.write_error j ≡ none)
    → ((j : ℕ) → p.file.read_error j ≡ none)
    → (page : Page) × ((fetch_page turn id p).1 ≡ ok page)
unfolding fetch_page
fetch_page-Fine turn id p h writes reads = (missing (lookup compare id p.pages)).1
  where
    missing : (cached : Option Page) → Fine (fetch_missing turn id p cached)
    missing (some page) = (reads, (page, refl))
    missing none = elim (Bool-cases (leb p.capacity (length p.pages))) [
      | inl full ↦
          rw full (load_page-Fine id (evict_page turn p) (evict_page-Fine turn p h writes reads))
      | inr room ↦ rw room (load_page-Fine id (p, ok tt) (reads, (tt, refl)))
    ]
