-- ===== src/Storage/BufferPool/View.antt =====
-- What the pool shows: the cached page, or else the file's. Fetching, evicting and flushing keep it.
use aura_sql.Prelude.{
  ℕ, zero, suc, ◌≡◌, ◌≢◌, ◌⊎◌, inl, inr, refl, sym, ap, ◌∙◌, subst, compare, arith, Bool, true,
  false, List, [], ◌∷◌, Option, none, some, get_or, Bool-cases, Option-cases, ◌==◌, ==_iff,
}
use aura_sql.Prelude.Maps.{
  lookup, remove, lookup-put_self, lookup-put_ne, lookup-remove_self, lookup-remove_ne,
  compare-eq_iff,
}
use aura_sql.Storage.Page.{Page, page_size, zero_bytes}
use aura_sql.Storage.BufferPool.{block, write_block, Pool, is_dirty, drop_page, marked}
use aura_sql.Storage.BufferPool.{File, write_page, set_page, flush_cached, flush}

abbrev pub seen : Option Page → List ℕ → List ℕ
seen none b = b
seen (some page) b = page.bytes

abbrev pub view : Pool → ℕ → List ℕ
view p id = seen (lookup compare id p.pages) (block p.file id)

-- A clean page is as on the file, and every dirty page is cached.
abbrev pub Fits : Option Page → Option Bool → List ℕ → Type 0
Fits cached mark b =
    (marked mark ≡ false → seen cached b ≡ b)
    × (marked mark ≡ true → (page : Page) × (cached ≡ some page))

abbrev pub FitsAt : Pool → ℕ → Type 0
FitsAt p id = Fits (lookup compare id p.pages) (lookup compare id p.dirty) (block p.file id)

abbrev pub IsPool : Pool → Type 0
IsPool p = (id : ℕ) → FitsAt p id

-- The pool `q` is coherent and shows what `p` shows.
abbrev pub Shows : Pool → Pool → Type 0
Shows p q = IsPool q × ((id : ℕ) → view q id ≡ view p id)

abbrev pub SameAt : Pool → Pool → ℕ → Type 0
SameAt p q j =
    (lookup compare j q.pages ≡ lookup compare j p.pages)
    × (lookup compare j q.dirty ≡ lookup compare j p.dirty)
    × (block q.file j ≡ block p.file j)

pub ℕ-cases : (a b : ℕ) → (a ≡ b) ⊎ (a ≢ b)
ℕ-cases a b = elim (Bool-cases (a == b)) [
  | inl same ↦ inl ((==_iff a b).0 same)
  | inr differ ↦ inr λ same. ground arith
]

-- The file after a write.
pub write_block_self :
    (bs : List (List ℕ)) (id : ℕ) (b d : List ℕ) → get_or (write_block bs id b) id d ≡ b
unfolding write_block
write_block_self [] zero b d = refl
write_block_self [] (suc id) b d = write_block_self [] id b d
write_block_self (x ∷ xs) zero b d = refl
write_block_self (x ∷ xs) (suc id) b d = write_block_self xs id b d

pub write_block_ne :
    (bs : List (List ℕ)) (id j : ℕ) (b : List ℕ)
    → j ≢ id
    → get_or (write_block bs id b) j (zero_bytes page_size) ≡ get_or bs j (zero_bytes page_size)
unfolding write_block
write_block_ne [] zero zero b ne = absurd (ne refl)
write_block_ne [] zero (suc j) b ne = refl
write_block_ne [] (suc id) zero b ne = refl
write_block_ne [] (suc id) (suc j) b ne = write_block_ne [] id j b (λ e. ne (ap suc e))
write_block_ne (x ∷ xs) zero zero b ne = absurd (ne refl)
write_block_ne (x ∷ xs) zero (suc j) b ne = refl
write_block_ne (x ∷ xs) (suc id) zero b ne = refl
write_block_ne (x ∷ xs) (suc id) (suc j) b ne = write_block_ne xs id j b (λ e. ne (ap suc e))

pub Shows-refl : (p : Pool) → IsPool p → Shows p p
Shows-refl p h = (h, λ id. refl)

pub Shows-trans : (p q r : Pool) → Shows p q → Shows q r → Shows p r
Shows-trans p q r first second = (second.0, λ id. second.1 id ∙ first.1 id)

-- An operation on one page.
at_one_page :
    (p q : Pool) (id : ℕ)
    → IsPool p
    → ((j : ℕ) → j ≢ id → SameAt p q j)
    → FitsAt q id
    → view q id ≡ view p id
    → Shows p q
at_one_page p q id h others fits shown = (
  (λ j. elim (ℕ-cases j id) [
    | inl same ↦ subst (λ k. FitsAt q k) (sym same) fits
    | inr differ ↦ let (cached, mark, on_file) = others j differ in rw (cached, mark, on_file) (h j)
  ]),
  (λ j. elim (ℕ-cases j id) [
    | inl same ↦ subst (λ k. view q k ≡ view p k) (sym same) shown
    | inr differ ↦ let (cached, mark, on_file) = others j differ in rw (cached, on_file) refl
  ]),
)

-- A clean page may leave the cache.
pub drop_page-Shows :
    (p : Pool) (id : ℕ) → IsPool p → is_dirty p id ≡ false → Shows p (drop_page id p)
drop_page-Shows p id h clean =
    at_one_page p (drop_page id p) id h
      (λ j ne. (
        lookup-remove_ne compare compare-eq_iff j id p.pages ne,
        lookup-remove_ne compare compare-eq_iff j id p.dirty ne,
        refl,
      ))
      (rw
        (
          lookup-remove_self compare compare-eq_iff id p.pages,
          lookup-remove_self compare compare-eq_iff id p.dirty,
        )
        ((λ _. refl), (λ wet. cc)))
      (rw (lookup-remove_self compare compare-eq_iff id p.pages) (sym ((h id).0 clean)))

-- A page read from the file may enter it.
pub loaded-Shows :
    (p : Pool) (id : ℕ) (page : Page)
    → IsPool p
    → lookup compare id p.pages ≡ none
    → page.bytes ≡ block p.file id
    → Shows p (set_page id page p)
unfolding set_page
loaded-Shows p id page h absent same =
    at_one_page p (set_page id page p) id h
      (λ j ne. (lookup-put_ne compare compare-eq_iff j id page p.pages ne, refl, refl))
      (rw (lookup-put_self compare compare-eq_iff id page p.pages)
        ((λ _. same), (λ wet. (page, refl))))
      (rw (lookup-put_self compare compare-eq_iff id page p.pages, absent) same)

-- A dirty page once it is written to the file.
abbrev after_write : ℕ → Page → Pool → Pool
after_write id page p = record p {
  file = record (Pool.file p) { blocks = write_block (File.blocks (Pool.file p)) id page.bytes };
  dirty = remove compare id (Pool.dirty p);
}

pub written_page-Shows :
    (p : Pool) (id : ℕ) (page : Page)
    → IsPool p
    → lookup compare id p.pages ≡ some page
    → Shows p (after_write id page p)
written_page-Shows p id page h cached =
    at_one_page p (after_write id page p) id h
      (λ j ne. (
        refl,
        lookup-remove_ne compare compare-eq_iff j id p.dirty ne,
        write_block_ne p.file.blocks id j page.bytes ne,
      ))
      (rw (cached, lookup-remove_self compare compare-eq_iff id p.dirty)
        ((λ _. sym (write_block_self p.file.blocks id page.bytes _)), (λ wet. cc)))
      (rw cached refl)

pub flush_cached-Shows :
    (id : ℕ) (p : Pool) (cached : Option Page)
    → IsPool p
    → lookup compare id p.pages ≡ cached
    → Shows p (flush_cached id p cached).0
unfolding write_page
flush_cached-Shows id p none h at = Shows-refl p h
flush_cached-Shows id p (some page) h at = elim (Option-cases (p.file.write_error id)) [
  | inl fine ↦ rw (fine, write_page) (written_page-Shows p id page h at)
  | inr (e, failing) ↦ rw (failing, write_page) (Shows-refl p h)
]

pub flush-Shows : (id : ℕ) (p : Pool) → IsPool p → Shows p (flush id p).0
unfolding flush
flush-Shows id p h = elim (Bool-cases (is_dirty p id)) [
  | inr clean ↦ rw (clean, flush) (Shows-refl p h)
  | inl wet ↦ rw (wet, flush) (flush_cached-Shows id p (lookup compare id p.pages) h refl)
]
