-- ===== src/Storage/HeapFile/Rows/Change.antt =====
-- `Update` and `Delete` of a heap file change the one row; `Get` reads what the heap holds.
use aura_sql.Prelude.{
  ℕ, ◌<◌, ◌≤◌, ◌≡◌, ◌≢◌, ◌⊎◌, inl, inr, sym, ap, ◌∙◌, subst, arith, false, List, [], none,
  Bool-cases, ltb, ltb→lt,
}
use aura_sql.Prelude.Bits.{bit_and-mask_16}
use aura_sql.Errors.{Result, ok, err, OnOk}
use aura_sql.Storage.Page.{Page, slot_count}
use aura_sql.Storage.Page
use aura_sql.Storage.Page.Layout.{IsPage}
use aura_sql.Storage.Page.Update.{Updated, update_lem}
use aura_sql.Storage.Page.Delete.{Deleted, delete_lem}
use aura_sql.Storage.RowId.{decode_row_id}
use aura_sql.Storage.HeapFile.{changed, updated, deleted, got, update, delete, get}
use aura_sql.Storage.HeapFile.Rows.{
  page_with, row_at, cell, blank, HoldsPages, IsHeap, HoldsPages-IsHeap, fetch_page-HoldsPages,
  IsPage-page_with, page_with-IsPage, slot_count-blank,
}
use aura_sql.Storage.HeapFile.Rows.Insert.{get_below, get-page_with}
use aura_sql.Storage.BufferPool.{page_count, Pool}
use aura_sql.Storage.BufferPool.View.{view, ℕ-cases}
use aura_sql.Storage.BufferPool.{mark_dirty, set_page, fetch_page}
use aura_sql.Storage.BufferPool.View.{Shows}
use aura_sql.Storage.BufferPool.Fetch.{Fetched, fetch_page-Fetched}
use aura_sql.Storage.BufferPool.Works.{fetch_page-Fine}
use aura_sql.Storage.HeapFile.Rows.Writes.{WritesPage, marked-WritesPage}

-- The page `q` reads `row` in the slot, and its other slots as a page of the bytes `b` does.
record PageSets (b : List ℕ) (slot : ℕ) (row : List ℕ) (q : Page) : Type 0 where
  laid_out : IsPage q
  reads_back : Page.get q slot ≡ ok row
  kept : (s : ℕ) (r : List ℕ) → s ≢ slot → Page.get (page_with b) s ≡ ok r → Page.get q s ≡ ok r

-- The heap `q` holds `row` under the RowID, and the other rows of `p`.
pub record HeapSets (p : Pool) (id : ℕ) (row : List ℕ) (q : Pool) : Type 0 where
  pub heap : IsHeap q
  pub reads_back : row_at q id ≡ ok row
  pub kept : (j : ℕ) (r : List ℕ) → j ≢ id → row_at p j ≡ ok r → row_at q j ≡ ok r

no_slot : (page : Page) (slot : ℕ) → page.bytes ≡ blank → ltb slot (slot_count page) ≡ false
no_slot page slot same =
    let none_there : slot_count page ≡ 0 = rw same slot_count-blank in ground arith

update-PageSets :
    (page : Page) (slot : ℕ) (row : List ℕ)
    → IsPage page
    → OnOk (PageSets page.bytes slot row) (Page.update page slot row)
unfolding Page.update Page.get
update-PageSets page slot row h = elim (Bool-cases (ltb slot (slot_count page))) [
  | inr outside ↦ rw (outside, Page.update) tt
  | inl inside ↦ elim (update_lem page slot row h (ltb→lt slot (slot_count page) inside)) [
    | inl found ↦ rw found.1.1 (record {
      laid_out = Updated.laid_out found.1.2;
      reads_back = Updated.reads_back found.1.2;
      kept = λ s r ne held. Updated.others_kept found.1.2 s (get_below page s r held) ne ∙ held;
    })
    | inr large ↦ rw large.1 tt
  ]
]

delete-PageSets :
    (page : Page) (slot : ℕ)
    → IsPage page
    → OnOk (PageSets page.bytes slot []) (Page.delete page slot)
unfolding Page.delete Page.get
delete-PageSets page slot h = elim (Bool-cases (ltb slot (slot_count page))) [
  | inr outside ↦ rw (outside, Page.delete) tt
  | inl inside ↦
      let (q, at, deletes) = delete_lem page slot h (ltb→lt slot (slot_count page) inside) in
      rw at (record {
        laid_out = Deleted.laid_out deletes;
        reads_back = Deleted.emptied deletes;
        kept = λ s r ne held. Deleted.others_kept deletes s (get_below page s r held) ne ∙ held;
      })
]

decode_row_id-injective : (i j : ℕ) → decode_row_id i ≡ decode_row_id j → i ≡ j
unfolding decode_row_id
decode_row_id-injective i j same =
    let high = ap (λ at. at.0) same in
    let low = sym (bit_and-mask_16 i) ∙ (ap (λ at. at.1) same ∙ bit_and-mask_16 j) in
    omega (arith, high, low)

module _ (p q : Pool) (total id : ℕ) (row : List ℕ) (page : Page) (h : HoldsPages total p)
    (w : WritesPage p (decode_row_id id).0 page.bytes q)
    (sets : PageSets (view p (decode_row_id id).0) (decode_row_id id).1 row page)
    (inside : (decode_row_id id).0 < total) (reached : total ≤ page_count q.file) where
  cell_set : (s : ℕ) → cell q ((decode_row_id id).0, s) ≡ Page.get page s
  cell_set s = ap (λ b. Page.get (page_with b) s) w.there ∙ get-page_with page s

  cell_kept :
      (at : ℕ × ℕ) (r : List ℕ) → at ≢ decode_row_id id → cell p at ≡ ok r → cell q at ≡ ok r
  cell_kept (a, s) r ne held = elim (ℕ-cases a (decode_row_id id).0) [
    | inr differ ↦ ap (λ b. Page.get (page_with b) s) (w.others a differ) ∙ held
    | inl same ↦ elim (ℕ-cases s (decode_row_id id).1) [
      | inl both ↦ absurd (ne (cc))
      | inr other ↦
          subst (λ k. cell q (k, s) ≡ ok r) (sym same)
            (cell_set s ∙ sets.kept s r other (subst (λ k. cell p (k, s) ≡ ok r) same held))
    ]
  ]

  pages_set : HoldsPages total q
  pages_set = record {
    pool = w.pool;
    pages = λ j. elim (ℕ-cases j (decode_row_id id).0) [
      | inl same ↦ inl (
          subst (λ b. IsPage (page_with b)) (sym (ap (view q) same ∙ w.there))
            (page_with-IsPage page sets.laid_out))
      | inr differ ↦ rw (w.others j differ) (h.pages j)
    ];
    beyond = λ j far. w.others j (λ same. absurd (omega arith)) ∙ h.beyond j far;
    reached = reached;
  }

  heap_sets : HeapSets p id row q
  unfolding row_at
  heap_sets = record {
    heap = HoldsPages-IsHeap total q pages_set;
    reads_back = cell_set (decode_row_id id).1 ∙ sets.reads_back;
    kept = λ j r ne held.
        cell_kept (decode_row_id j) r (λ same. ne (decode_row_id-injective j id same)) held;
  }

-- A page of the heap has no slot, or is laid out and within the file.
page_state :
    (q : Pool) (total id : ℕ) (page : Page)
    → HoldsPages total q
    → page.bytes ≡ view q id
    → (page.bytes ≡ blank) ⊎ (IsPage page × (id < total))
page_state q total id page h same = elim (Bool-cases (ltb id total)) [
  | inr far ↦ inl (same ∙ h.beyond id (ground arith))
  | inl near ↦ elim (h.pages id) [
    | inr empty ↦ inl (same ∙ empty)
    | inl shown ↦ inr (
      IsPage-page_with page (subst (λ b. IsPage (page_with b)) (sym same) shown),
      ltb→lt id total near,
    )
  ]
]

OnOk-map :
    {A : Type 0} (P Q : A → Type 0) (m : Result A) → OnOk P m → ((a : A) → P a → Q a) → OnOk Q m
OnOk-map P Q (ok a) h f = f a h
OnOk-map P Q (err e) h f = tt

abbrev SetsIn : Pool → ℕ → ℕ → List ℕ → ℕ → Page → Type 0
SetsIn q id slot row total page = PageSets (view q id) slot row page × (id < total)

update-SetsIn :
    (q : Pool) (total id slot : ℕ) (row : List ℕ) (page : Page)
    → HoldsPages total q
    → page.bytes ≡ view q id
    → OnOk (SetsIn q id slot row total) (Page.update page slot row)
unfolding Page.update
update-SetsIn q total id slot row page h same = elim (page_state q total id page h same) [
  | inl empty ↦ rw (no_slot page slot empty, Page.update) tt
  | inr there ↦
      OnOk-map (PageSets page.bytes slot row) (SetsIn q id slot row total)
        (Page.update page slot row) (update-PageSets page slot row there.0)
        λ z sets. (subst (λ b. PageSets b slot row z) same sets, there.1)
]

delete-SetsIn :
    (q : Pool) (total id slot : ℕ) (page : Page)
    → HoldsPages total q
    → page.bytes ≡ view q id
    → OnOk (SetsIn q id slot [] total) (Page.delete page slot)
unfolding Page.delete
delete-SetsIn q total id slot page h same = elim (page_state q total id page h same) [
  | inl empty ↦ rw (no_slot page slot empty, Page.delete) tt
  | inr there ↦
      OnOk-map (PageSets page.bytes slot []) (SetsIn q id slot [] total) (Page.delete page slot)
        (delete-PageSets page slot there.0)
        λ z sets. (subst (λ b. PageSets b slot [] z) same sets, there.1)
]

Shows-HeapSets :
    (p q z : Pool) (id : ℕ) (row : List ℕ) → Shows p q → HeapSets q id row z → HeapSets p id row z
unfolding row_at
Shows-HeapSets p q z id row shown sets = record {
  heap = sets.heap;
  reads_back = sets.reads_back;
  kept = λ j r ne held.
      sets.kept j r ne
        (ap (λ b. Page.get (page_with b) (decode_row_id j).1) (shown.1 (decode_row_id j).0) ∙ held);
}

abbrev Sets : Pool → ℕ → List ℕ → Pool × Result (Unit {0}) → Type 0
Sets p id row r = OnOk (λ done. HeapSets p id row r.0) r.1

changed-Sets :
    (p q : Pool) (total id : ℕ) (row : List ℕ) (m : Result Page)
    → Shows p q
    → HoldsPages total q
    → OnOk (SetsIn q (decode_row_id id).0 (decode_row_id id).1 row total) m
    → Sets p id row (changed (decode_row_id id).0 q m)
unfolding mark_dirty set_page
changed-Sets p q total id row (err e) shown h sets = tt
changed-Sets p q total id row (ok page) shown h sets =
    let page_id = (decode_row_id id).0 in
    let z = mark_dirty page_id (set_page page_id page q) in
    Shows-HeapSets p q z id row shown (
      heap_sets q z total id row page h (marked-WritesPage q page_id page h.pool) sets.0 sets.1
        h.reached)

-- An update that succeeds makes the row read back under its RowID, keeps every other row that the
-- heap held, and keeps the heap well-formed.
pub heap_update_lem :
    (turn id : ℕ) (row : List ℕ) (p : Pool)
    → IsHeap p
    → OnOk (λ done. HeapSets p id row (update turn id row p).0) (update turn id row p).1
unfolding update
heap_update_lem turn id row p h =
    fetched (fetch_page turn (decode_row_id id).0 p)
      (fetch_page-Fetched turn (decode_row_id id).0 p h.pool)
      (fetch_page-HoldsPages (page_count p.file) turn (decode_row_id id).0 p h)
  where
    fetched :
        (r : Pool × Result Page)
        → Fetched p (decode_row_id id).0 r
        → HoldsPages (page_count p.file) r.0
        → Sets p id row (updated (decode_row_id id).0 (decode_row_id id).1 row r)
    fetched (q, err e) found k = tt
    fetched (q, ok page) found k =
        changed-Sets p q (page_count p.file) id row (Page.update page (decode_row_id id).1 row)
          found.0 k
          (update-SetsIn q (page_count p.file) (decode_row_id id).0 (decode_row_id id).1 row page k
            (found.1.0 ∙ sym (found.0.1 (decode_row_id id).0)))

-- A deletion that succeeds leaves no bytes under the RowID, keeps every other row that the heap held,
-- and keeps the heap well-formed.
pub heap_delete_lem :
    (turn id : ℕ) (p : Pool)
    → IsHeap p
    → OnOk (λ done. HeapSets p id [] (delete turn id p).0) (delete turn id p).1
unfolding delete
heap_delete_lem turn id p h =
    fetched (fetch_page turn (decode_row_id id).0 p)
      (fetch_page-Fetched turn (decode_row_id id).0 p h.pool)
      (fetch_page-HoldsPages (page_count p.file) turn (decode_row_id id).0 p h)
  where
    fetched :
        (r : Pool × Result Page)
        → Fetched p (decode_row_id id).0 r
        → HoldsPages (page_count p.file) r.0
        → Sets p id [] (deleted (decode_row_id id).0 (decode_row_id id).1 r)
    fetched (q, err e) found k = tt
    fetched (q, ok page) found k =
        changed-Sets p q (page_count p.file) id [] (Page.delete page (decode_row_id id).1) found.0 k
          (delete-SetsIn q (page_count p.file) (decode_row_id id).0 (decode_row_id id).1 page k
            (found.1.0 ∙ sym (found.0.1 (decode_row_id id).0)))

-- When the file can be read and written, `Get` returns what the heap holds under the RowID, error or
-- row, and changes nothing of it.
pub heap_get_lem :
    (turn id : ℕ) (p : Pool)
    → IsHeap p
    → ((j : ℕ) → p.file.write_error j ≡ none)
    → ((j : ℕ) → p.file.read_error j ≡ none)
    → ((get turn id p).1 ≡ row_at p id)
      × IsHeap (get turn id p).0
      × ((j : ℕ) → row_at (get turn id p).0 j ≡ row_at p j)
unfolding get row_at Page.get
heap_get_lem turn id p h writes reads =
    let (page, at) = fetch_page-Fine turn (decode_row_id id).0 p h.pool writes reads in
    fetched (fetch_page turn (decode_row_id id).0 p) at
      (fetch_page-Fetched turn (decode_row_id id).0 p h.pool)
      (fetch_page-HoldsPages (page_count p.file) turn (decode_row_id id).0 p h)
  where
    fetched :
        (r : Pool × Result Page) {page : Page}
        → r.1 ≡ ok page
        → Fetched p (decode_row_id id).0 r
        → HoldsPages (page_count p.file) r.0
        → ((got (decode_row_id id).1 r).1 ≡ row_at p id)
          × IsHeap (got (decode_row_id id).1 r).0
          × ((j : ℕ) → row_at (got (decode_row_id id).1 r).0 j ≡ row_at p j)
    fetched (q, err e) at found k = absurd (cc)
    fetched (q, ok page) at found k = (
      sym (get-page_with page (decode_row_id id).1)
          ∙ ap (λ b. Page.get (page_with b) (decode_row_id id).1) found.1.0,
      HoldsPages-IsHeap (page_count p.file) q k,
      λ j. ap (λ b. Page.get (page_with b) (decode_row_id j).1) (found.0.1 (decode_row_id j).0),
    )
