-- ===== src/Storage/BufferPool/FlushAll.antt =====
-- After `FlushAll` the file holds all that the pool shows.
use aura_sql.Prelude.{
  ℕ, ◌≡◌, ◌≢◌, ◌⊎◌, inl, inr, refl, sym, ◌∙◌, subst, compare, true, false, List, [], ◌∷◌, none,
  some, Bool-cases,
}
use aura_sql.Prelude.Maps.{lookup-remove_ne, compare-eq_iff}
use aura_sql.Errors.{Result, ok}
use aura_sql.Storage.Page.{Page}
use aura_sql.Storage.BufferPool.{block, write_page, Pool, is_dirty, flush_cached, flush, flush_all}
use aura_sql.Storage.BufferPool.View.{view, IsPool, Shows, Shows-refl, Shows-trans, flush-Shows}
use aura_sql.Storage.BufferPool.View.{ℕ-cases}
use aura_sql.Storage.BufferPool.Fetch.{flush-clean}

-- The range meets the page.
abbrev pub Meets : ℕ → List ℕ → Type 0
Meets id [] = ⊥
Meets id (x ∷ xs) = (id ≡ x) ⊎ Meets id xs

abbrev pub Writes : Pool → Type 0
Writes p = (id : ℕ) → p.file.write_error id ≡ none

-- The flush of one page, when the file can be written.
abbrev pub Flushed : ℕ → Pool → Pool × Result (Unit {0}) → Type 0
Flushed id p r = (r.1 ≡ ok tt) × Writes r.0 × ((j : ℕ) → j ≢ id → is_dirty r.0 j ≡ is_dirty p j)

flush_cached-Flushed :
    (id : ℕ) (p : Pool) (page : Page) → Writes p → Flushed id p (flush_cached id p (some page))
unfolding write_page
flush_cached-Flushed id p page writes =
    rw (writes id, write_page)
      (refl, writes, λ j ne. rw (lookup-remove_ne compare compare-eq_iff j id p.dirty ne) refl)

pub flush-Flushed : (id : ℕ) (p : Pool) → IsPool p → Writes p → Flushed id p (flush id p)
unfolding flush
flush-Flushed id p h writes = elim (Bool-cases (is_dirty p id)) [
  | inr clean ↦ rw (clean, flush) (refl, writes, λ j ne. refl)
  | inl wet ↦
      let (page, cached) = (h id).1 wet in
      rw (wet, flush) (rw cached (flush_cached-Flushed id p page writes))
]

abbrev Covered : List ℕ → Pool → Type 0
Covered order p = (id : ℕ) → is_dirty p id ≡ true → Meets id order

abbrev Durable : Pool → Pool × Result (Unit {0}) → Type 0
Durable p r = (r.1 ≡ ok tt) × Shows p r.0 × ((id : ℕ) → is_dirty r.0 id ≡ false)

flush_all-Durable :
    (order : List ℕ) (p : Pool)
    → IsPool p
    → Writes p
    → Covered order p
    → Durable p (flush_all order p)
unfolding flush_all
flush_all-Durable [] p h writes covered = (
  refl,
  Shows-refl p h,
  λ id. elim (Bool-cases (is_dirty p id)) [ inl wet ↦ absurd (covered id wet) | inr clean ↦ clean ],
)
flush_all-Durable (id ∷ order) p h writes covered =
    let (done, still, others) = flush-Flushed id p h writes in
    let shown = flush-Shows id p h in
    let (all_done, rest, clean) = flush_all-Durable order (flush id p).0 shown.0 still remaining in
    rw (done, flush_all)
      (all_done, Shows-trans p (flush id p).0 (flush_all order (flush id p).0).0 shown rest, clean)
  where
    remaining : Covered order (flush id p).0
    remaining j wet =
        let (done, still, others) = flush-Flushed id p h writes in
        elim (ℕ-cases j id) [
          | inl same ↦ absurd (
              let wet' = subst (λ k. is_dirty (flush id p).0 k ≡ true) same wet in
              let clean = flush-clean id p done in cc)
          | inr differ ↦ elim (covered j (sym (others j differ) ∙ wet)) [
            | inl same ↦ absurd (differ same)
            | inr later ↦ later
          ]
        ]

-- When the file can be written and the range meets every dirty page, `FlushAll` succeeds in whatever
-- order it goes, and the file then holds every page that the pool showed before.
pub flush_all_durable :
    (order : List ℕ) (p : Pool)
    → IsPool p
    → ((id : ℕ) → p.file.write_error id ≡ none)
    → ((id : ℕ) → is_dirty p id ≡ true → Meets id order)
    → ((flush_all order p).1 ≡ ok tt) × ((id : ℕ) → block (flush_all order p).0.file id ≡ view p id)
flush_all_durable order p h writes covered =
    let (done, shown, clean) = flush_all-Durable order p h writes covered in
    (done, λ id. sym ((shown.0 id).0 (clean id)) ∙ shown.1 id)
