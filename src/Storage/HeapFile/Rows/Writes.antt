-- ===== src/Storage/HeapFile/Rows/Writes.antt =====
-- What a write of one page does to what the pool shows.
use aura_sql.Prelude.{ℕ, ◌≡◌, ◌≢◌, inl, inr, refl, sym, subst, compare, true, List}
use aura_sql.Storage.Page.{Page}
use aura_sql.Prelude.Maps.{lookup-put_self, lookup-put_ne, compare-eq_iff}
use aura_sql.Storage.BufferPool.{File, write_block, Pool, mark_dirty, set_page}
use aura_sql.Storage.BufferPool.View.{
  view, FitsAt, IsPool, SameAt, ℕ-cases, write_block_self, write_block_ne,
}

-- `q` shows the bytes `b` at page `id`, and elsewhere what `p` shows.
pub record WritesPage (p : Pool) (id : ℕ) (b : List ℕ) (q : Pool) : Type 0 where
  pub pool : IsPool q
  pub there : view q id ≡ b
  pub others : (j : ℕ) → j ≢ id → view q j ≡ view p j

at_page :
    (p q : Pool) (id : ℕ) (b : List ℕ)
    → IsPool p
    → ((j : ℕ) → j ≢ id → SameAt p q j)
    → FitsAt q id
    → view q id ≡ b
    → WritesPage p id b q
at_page p q id b h same fits there = record {
  pool = λ j. elim (ℕ-cases j id) [
    | inl eq ↦ subst (λ k. FitsAt q k) (sym eq) fits
    | inr ne ↦ let (cached, mark, on_file) = same j ne in rw (cached, mark, on_file) (h j)
  ];
  there = there;
  others = λ j ne. let (cached, mark, on_file) = same j ne in rw (cached, on_file) refl;
}

-- A page that is changed in the cache and marked.
pub marked-WritesPage :
    (p : Pool) (id : ℕ) (page : Page)
    → IsPool p
    → WritesPage p id page.bytes (mark_dirty id (set_page id page p))
unfolding mark_dirty set_page
marked-WritesPage p id page h =
    at_page p (mark_dirty id (set_page id page p)) id page.bytes h
      (λ j ne. (
        lookup-put_ne compare compare-eq_iff j id page p.pages ne,
        lookup-put_ne compare compare-eq_iff j id true p.dirty ne,
        refl,
      ))
      (rw
        (
          lookup-put_self compare compare-eq_iff id page p.pages,
          lookup-put_self compare compare-eq_iff id true p.dirty,
        )
        ((λ calm. cc), (λ wet. (page, refl))))
      (rw (lookup-put_self compare compare-eq_iff id page p.pages) refl)

-- The pool once a page is written to the file and put into the cache.
abbrev pub both : ℕ → Page → Pool → Pool
both id page p = set_page id page (record p {
  file = record (Pool.file p) { blocks = write_block (File.blocks (Pool.file p)) id page.bytes };
})

pub both-WritesPage :
    (p : Pool) (id : ℕ) (page : Page) → IsPool p → WritesPage p id page.bytes (both id page p)
unfolding set_page
both-WritesPage p id page h =
    at_page p (both id page p) id page.bytes h
      (λ j ne. (
        lookup-put_ne compare compare-eq_iff j id page p.pages ne,
        refl,
        write_block_ne p.file.blocks id j page.bytes ne,
      ))
      (rw (lookup-put_self compare compare-eq_iff id page p.pages)
        ((λ calm. sym (write_block_self p.file.blocks id page.bytes _)), (λ wet. (page, refl))))
      (rw (lookup-put_self compare compare-eq_iff id page p.pages) refl)
