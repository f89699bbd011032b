-- ===== src/Storage/BufferPool/Fetch.antt =====
-- What eviction and fetching keep.
use aura_sql.Prelude.{
  ℕ, zero, suc, ◌≡◌, inl, inr, refl, sym, ◌∙◌, subst, compare, arith, Bool, true, false, not, List,
  [], ◌∷◌, Option, none, some, leb, length, get_or, filter, Bool-cases, Option-cases, ◌%◌, All,
}
use aura_sql.Prelude.Maps.{
  lookup, lookup-put_self, lookup-remove_self, lookup-remove_ne, compare-eq_iff,
}
use aura_sql.Errors.{Result, ok, err, OnOk}
use aura_sql.Storage.Page.{Page}
use aura_sql.Storage.BufferPool.{block, Pool, is_dirty, drop_page}
use aura_sql.Storage.BufferPool.{File, write_page, set_page, flush_cached, flush}
use aura_sql.Storage.BufferPool.{
  read_page, ids_of, met_first, dropped, evict_dirty, evict_from, evict_page, loaded,
}
use aura_sql.Storage.BufferPool.{load_page, fetch_missing, fetch_page}
use aura_sql.Storage.BufferPool.View.{
  view, IsPool, Shows, ℕ-cases, Shows-refl, Shows-trans, drop_page-Shows, loaded-Shows, flush-Shows,
}

-- A flush that succeeds leaves the page clean.
flush_cached-clean :
    (id : ℕ) (p : Pool) (cached : Option Page)
    → (flush_cached id p cached).1 ≡ ok tt
    → is_dirty (flush_cached id p cached).0 id ≡ false
unfolding write_page
flush_cached-clean id p none done = cc
flush_cached-clean id p (some page) done = elim (Option-cases (p.file.write_error id)) [
  | inl fine ↦
      rw (fine, write_page) (rw (lookup-remove_self compare compare-eq_iff id p.dirty) refl)
  | inr (e, failing) ↦ absurd (let done' = rw (failing, write_page) at done in cc)
]

pub flush-clean : (id : ℕ) (p : Pool) → (flush id p).1 ≡ ok tt → is_dirty (flush id p).0 id ≡ false
unfolding flush
flush-clean id p done = elim (Bool-cases (is_dirty p id)) [
  | inr clean ↦ rw (clean, flush) clean
  | inl wet ↦
      rw (wet, flush)
        (flush_cached-clean id p (lookup compare id p.pages) (rw (wet, flush) at done))
]

dropped-Shows :
    (p : Pool) (id : ℕ) (r : Pool × Result (Unit {0}))
    → Shows p r.0
    → (r.1 ≡ ok tt → is_dirty r.0 id ≡ false)
    → Shows p (dropped id r).0
dropped-Shows p id (q, ok done) h clean =
    Shows-trans p q (drop_page id q) h (drop_page-Shows q id h.0 (clean refl))
dropped-Shows p id (q, err e) h clean = h

filter-true :
    {A : Type 0} (test : A → Bool) (xs : List A) → All (λ x. test x ≡ true) (filter test xs)
filter-true test [] = tt
filter-true test (x ∷ xs) = ground (arith, filter-true test xs)

get_or-All :
    {A : Type 0} (P : A → Type 0) (xs : List A) (i : ℕ) (d : A) → All P xs → P d → P (get_or xs i d)
get_or-All P [] i d h k = k
get_or-All P (x ∷ xs) zero d h k = h.0
get_or-All P (x ∷ xs) (suc i) d h k = get_or-All P xs i d h.1 k

some_injective : {A : Type 0} {a b : A} → some a ≡ some b → a ≡ b
some_injective h = cc

met_first-All :
    (P : ℕ → Type 0) (turn : ℕ) (ids : List ℕ) {id : ℕ}
    → All P ids
    → met_first turn ids ≡ some id
    → P id
unfolding met_first
met_first-All P turn [] h at = cc
met_first-All P turn (x ∷ xs) h at =
    subst P (some_injective at) (get_or-All P (x ∷ xs) (turn % suc (length xs)) x h h.0)

evict_dirty-Shows : (p : Pool) (target : Option ℕ) → IsPool p → Shows p (evict_dirty p target).0
evict_dirty-Shows p none h = Shows-refl p h
evict_dirty-Shows p (some id) h =
    dropped-Shows p id (flush id p) (flush-Shows id p h) (flush-clean id p)

-- Whichever page the eviction takes, nothing that the pool shows changes.
pub evict_page-Shows : (turn : ℕ) (p : Pool) → IsPool p → Shows p (evict_page turn p).0
unfolding evict_page
evict_page-Shows turn p h =
    from (met_first turn (filter (λ id. not (is_dirty p id)) (ids_of p.pages))) refl
  where
    from :
        (target : Option ℕ)
        → met_first turn (filter (λ id. not (is_dirty p id)) (ids_of p.pages)) ≡ target
        → Shows p (evict_from turn p target).0
    from none at = evict_dirty-Shows p (met_first turn (ids_of p.pages)) h
    from (some id) at =
        let calm =
          met_first-All (λ i. not (is_dirty p i) ≡ true) turn _
            (filter-true (λ i. not (is_dirty p i)) (ids_of p.pages)) at in
        drop_page-Shows p id h (ground arith)

-- The result of a fetch: the page that the pool shows at `id`, now cached.
abbrev pub Fetched : Pool → ℕ → Pool × Result Page → Type 0
Fetched p id r =
    Shows p r.0
    × OnOk (λ page. (page.bytes ≡ view p id) × (lookup compare id r.0.pages ≡ some page)) r.1

loaded-Fetched :
    (p : Pool) (id : ℕ) (r : Result Page)
    → IsPool p
    → lookup compare id p.pages ≡ none
    → OnOk (λ page. page.bytes ≡ block p.file id) r
    → Fetched p id (loaded id p r)
unfolding set_page
loaded-Fetched p id (ok page) h absent same = (
  loaded-Shows p id page h absent same,
  (rw (absent) same, lookup-put_self compare compare-eq_iff id page p.pages),
)
loaded-Fetched p id (err e) h absent same = (Shows-refl p h, tt)

read_page-block : (f : File) (id : ℕ) → OnOk (λ page. page.bytes ≡ block f id) (read_page f id)
unfolding read_page
read_page-block f id = elim (Option-cases (f.read_error id)) [
  | inl fine ↦ rw (fine, read_page) refl
  | inr (e, failing) ↦ rw (failing, read_page) tt
]

-- What is not cached stays so.
abbrev Absent : ℕ → Pool → Type 0
Absent id p = lookup compare id p.pages ≡ none

drop_page-Absent : (id j : ℕ) (p : Pool) → Absent j p → Absent j (drop_page id p)
drop_page-Absent id j p h = elim (ℕ-cases j id) [
  | inl same ↦
      subst (λ k. Absent k (drop_page id p)) (sym same)
        (lookup-remove_self compare compare-eq_iff id p.pages)
  | inr differ ↦ lookup-remove_ne compare compare-eq_iff j id p.pages differ ∙ h
]

flush_cached-Absent :
    (id j : ℕ) (p : Pool) (cached : Option Page)
    → Absent j p
    → Absent j (flush_cached id p cached).0
unfolding write_page
flush_cached-Absent id j p none h = h
flush_cached-Absent id j p (some page) h = elim (Option-cases (p.file.write_error id)) [
  | inl fine ↦ rw (fine, write_page) h
  | inr (e, failing) ↦ rw (failing, write_page) h
]

flush-Absent : (id j : ℕ) (p : Pool) → Absent j p → Absent j (flush id p).0
unfolding flush
flush-Absent id j p h = elim (Bool-cases (is_dirty p id)) [
  | inr clean ↦ rw (clean, flush) h
  | inl wet ↦ rw (wet, flush) (flush_cached-Absent id j p (lookup compare id p.pages) h)
]

dropped-Absent :
    (id j : ℕ) (r : Pool × Result (Unit {0})) → Absent j r.0 → Absent j (dropped id r).0
dropped-Absent id j (q, ok done) h = drop_page-Absent id j q h
dropped-Absent id j (q, err e) h = h

evict_page-Absent : (turn j : ℕ) (p : Pool) → Absent j p → Absent j (evict_page turn p).0
unfolding evict_page
evict_page-Absent turn j p h =
    from (met_first turn (filter (λ id. not (is_dirty p id)) (ids_of p.pages)))
  where
    from_dirty : (target : Option ℕ) → Absent j (evict_dirty p target).0
    from_dirty none = h
    from_dirty (some id) = dropped-Absent id j (flush id p) (flush-Absent id j p h)

    from : (target : Option ℕ) → Absent j (evict_from turn p target).0
    from none = from_dirty (met_first turn (ids_of p.pages))
    from (some id) = drop_page-Absent id j p h

load_page-Fetched :
    (p : Pool) (id : ℕ) (r : Pool × Result (Unit {0}))
    → Shows p r.0
    → Absent id r.0
    → Fetched p id (load_page id r)
load_page-Fetched p id (q, err e) h absent = (h, tt)
load_page-Fetched p id (q, ok done) h absent =
    onward (loaded id q (read_page q.file id))
      (loaded-Fetched q id (read_page q.file id) h.0 absent (read_page-block q.file id))
  where
    onward : (r : Pool × Result Page) → Fetched q id r → Fetched p id r
    onward (r, ok page) f = (Shows-trans p q r h f.0, (f.1.0 ∙ h.1 id, f.1.1))
    onward (r, err e) f = (Shows-trans p q r h f.0, tt)

-- Fetching a page keeps the pool coherent and changes nothing that it shows, whichever pages are
-- evicted or flushed and whether it succeeds or fails; on success it returns the page that the pool
-- shows there, and that page is cached.
pub fetch_page-Fetched : (turn id : ℕ) (p : Pool) → IsPool p → Fetched p id (fetch_page turn id p)
unfolding fetch_page
fetch_page-Fetched turn id p h = missing (lookup compare id p.pages) refl
  where
    missing :
        (cached : Option Page)
        → lookup compare id p.pages ≡ cached
        → Fetched p id (fetch_missing turn id p cached)
    missing (some page) at = (Shows-refl p h, (rw at refl, at))
    missing none at = elim (Bool-cases (leb p.capacity (length p.pages))) [
      | inl full ↦ rw full (
          load_page-Fetched p id (evict_page turn p) (evict_page-Shows turn p h)
            (evict_page-Absent turn id p at))
      | inr room ↦ rw room (load_page-Fetched p id (p, ok tt) (Shows-refl p h) at)
    ]
