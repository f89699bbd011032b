-- ===== src/Storage/HeapFile/Rows/Insert.antt =====
-- `Insert` of a heap file: the row is read back under the RowID, which was free, and every row that
-- was there stays.
use aura_sql.Prelude.{
  ℕ, zero, suc, ◌+◌, ◌^◌, ◌<◌, ◌≤◌, ◌≡◌, ◌≢◌, inl, inr, refl, sym, ap, ◌∙◌, subst, arith, List,
  Option-cases,
}
use aura_sql.Errors.{Result, ok, err, OnOk}
use aura_sql.Storage.Page.{
  Page, new_page, slot_count, page_size, entry_in_page, data_offset, data_length,
}
use aura_sql.Storage.Page
use aura_sql.Storage.Page.Layout.{IsPage, new_page-IsPage}
use aura_sql.Storage.Page.Insert.{Inserted, insert_lem}
use aura_sql.Storage.RowId.{encode_row_id, decode_row_id, decode_row_id-encode_row_id}
use aura_sql.Storage.HeapFile.{append_new, stored, try_page, try_fetched, insert_scan, insert}
use aura_sql.Storage.HeapFile.Rows.{
  page_with, row_at, cell, blank, HoldsPages, IsHeap, HoldsPages-IsHeap, length-write_block,
  fetch_page-HoldsPages, IsPage-page_with, page_with-IsPage, insert-blank, get-blank,
}
use aura_sql.Storage.BufferPool.{Pool, mark_dirty, set_page}
use aura_sql.Storage.BufferPool.View.{view, ℕ-cases}
use aura_sql.Storage.BufferPool.{write_page, page_count}
use aura_sql.Storage.BufferPool.{fetch_page}
use aura_sql.Storage.BufferPool.View.{Shows}
use aura_sql.Storage.BufferPool.Fetch.{Fetched, fetch_page-Fetched}
use aura_sql.Storage.HeapFile.Rows.Writes.{WritesPage, marked-WritesPage, both, both-WritesPage}

-- What a page gains: the row in slot `n`, which was free.
record PageGains (b row : List ℕ) (n : ℕ) (page : Page) : Type 0 where
  small : n < 2 ^ 16
  laid_out : IsPage page
  reads_back : Page.get page n ≡ ok row
  was_free : (r : List ℕ) → Page.get (page_with b) n ≢ ok r
  kept : (s : ℕ) (r : List ℕ) → Page.get (page_with b) s ≡ ok r → Page.get page s ≡ ok r

pub get_below : (page : Page) (s : ℕ) (r : List ℕ) → Page.get page s ≡ ok r → s < slot_count page
unfolding Page.get
get_below page s r h = ground arith

get_at_count : (page : Page) (r : List ℕ) → Page.get page (slot_count page) ≢ ok r
get_at_count page r h = let below = get_below page (slot_count page) r h in omega arith

Inserted-PageGains :
    (page : Page) (row : List ℕ) (q : Page)
    → IsPage page
    → Inserted page row q
    → PageGains page.bytes row (slot_count page) q
unfolding Page.get
Inserted-PageGains page row q h ins = record {
  small = omega (arith, h.slots_below_free, h.free_in_page);
  laid_out = ins.laid_out;
  reads_back = ins.reads_back;
  was_free = λ r at. get_at_count page r at;
  kept = λ s r at. ins.others_kept s (get_below page s r at) ∙ at;
}

-- What a heap gains.
pub record HeapGains (p : Pool) (row : List ℕ) (q : Pool) (id : ℕ) : Type 0 where
  pub heap : IsHeap q
  pub reads_back : row_at q id ≡ ok row
  pub was_free : (r : List ℕ) → row_at p id ≢ ok r
  pub kept : (j : ℕ) (r : List ℕ) → row_at p j ≡ ok r → row_at q j ≡ ok r

pub get-page_with : (page : Page) (s : ℕ) → Page.get (page_with page.bytes) s ≡ Page.get page s
unfolding Page.get
get-page_with page s = refl

module _ (p q : Pool) (id : ℕ) (row : List ℕ) (n : ℕ) (page : Page) (small : id < 2 ^ 48)
    (w : WritesPage p id page.bytes q) (gains : PageGains (view p id) row n page) where
  decoded : decode_row_id (encode_row_id id n) ≡ (id, n)
  decoded = decode_row_id-encode_row_id id n small gains.small

  cell_there : (s : ℕ) → cell q (id, s) ≡ Page.get page s
  cell_there s = ap (λ b. Page.get (page_with b) s) w.there ∙ get-page_with page s

  kept_cell : (at : ℕ × ℕ) (r : List ℕ) → cell p at ≡ ok r → cell q at ≡ ok r
  kept_cell (a, s) r held = elim (ℕ-cases a id) [
    | inl same ↦
        subst (λ k. cell q (k, s) ≡ ok r) (sym same)
          (cell_there s ∙ gains.kept s r (subst (λ k. cell p (k, s) ≡ ok r) same held))
    | inr differ ↦ ap (λ b. Page.get (page_with b) s) (w.others a differ) ∙ held
  ]

  page_gains : IsHeap q → HeapGains p row q (encode_row_id id n)
  unfolding row_at
  page_gains heap = record {
    heap = heap;
    reads_back = ap (cell q) decoded ∙ (cell_there n ∙ gains.reads_back);
    was_free = λ r held. gains.was_free r (sym (ap (cell p) decoded) ∙ held);
    kept = λ j r held. kept_cell (decode_row_id j) r held;
  }

  -- The pages of the heap after the change.
  pages_after :
      (total : ℕ)
      → HoldsPages total p
      → (more : ℕ) → total ≤ more
      → id < more
      → more ≤ page_count q.file
      → HoldsPages more q
  pages_after total h more grows inside reached = record {
    pool = w.pool;
    pages = λ j. elim (ℕ-cases j id) [
      | inl same ↦ inl (
          subst (λ b. IsPage (page_with b)) (sym (ap (view q) same ∙ w.there))
            (page_with-IsPage page gains.laid_out))
      | inr differ ↦ rw (w.others j differ) (h.pages j)
    ];
    beyond = λ j far. w.others j (λ same. absurd (omega arith)) ∙ h.beyond j (omega arith);
    reached = reached;
  }

-- The result of an insertion: on success the heap has gained the row.
abbrev pub Inserts : Pool → List ℕ → Pool × Result ℕ → Type 0
Inserts p row r = OnOk (λ id. HeapGains p row r.0 id) r.1

blank_holds_none : (s : ℕ) (r : List ℕ) → Page.get (page_with blank) s ≢ ok r
blank_holds_none s r held = let empty = get-blank s in cc

insert-new_page :
    (row : List ℕ)
    → OnOk (λ entered. PageGains blank row entered.0 entered.1) (Page.insert new_page row)
insert-new_page row = elim (insert_lem new_page row new_page-IsPage.0) [
  | inl found ↦
      rw found.1.1
        (fresh found.1.0 (Inserted-PageGains new_page row found.1.0 new_page-IsPage.0 found.1.2))
  | inr full ↦ rw full.1 tt
]
  where
    fresh :
        (q : Page)
        → PageGains (Page.bytes new_page) row (slot_count new_page) q
        → PageGains blank row (slot_count new_page) q
    fresh q gains = record {
      small = gains.small;
      laid_out = gains.laid_out;
      reads_back = gains.reads_back;
      was_free = λ r held. blank_holds_none (slot_count new_page) r held;
      kept = λ s r held. absurd (blank_holds_none s r held);
    }

both-HeapGains :
    (p : Pool) (id total : ℕ) (row : List ℕ) (slot : ℕ) (page : Page)
    → HoldsPages total p
    → total ≤ id
    → id < 2 ^ 48
    → PageGains blank row slot page
    → HeapGains p row (both id page p) (encode_row_id id slot)
unfolding set_page
both-HeapGains p id total row slot page h far small gains =
    let w = both-WritesPage p id page h.pool in
    let gains' = subst (λ b. PageGains b row slot page) (sym (h.beyond id far)) gains in
    let long = length-write_block p.file.blocks id page.bytes in
    let after =
      pages_after p (both id page p) id row slot page small w gains' total h (suc id) (omega arith)
        (omega arith) (omega arith) in
    page_gains p (both id page p) id row slot page small w gains'
      (HoldsPages-IsHeap (suc id) (both id page p) after)

append_new-Inserts :
    (p : Pool) (id total : ℕ) (row : List ℕ) (entered : Result (ℕ × Page))
    → HoldsPages total p
    → total ≤ id
    → id < 2 ^ 48
    → OnOk (λ e. PageGains blank row e.0 e.1) entered
    → Inserts p row (append_new id p entered)
unfolding write_page
append_new-Inserts p id total row (err e) h far small gains = tt
append_new-Inserts p id total row (ok (slot, page)) h far small gains =
    elim (Option-cases (p.file.write_error id)) [
      | inr (e, failing) ↦ rw (failing, write_page) tt
      | inl fine ↦ rw (fine, write_page) (both-HeapGains p id total row slot page h far small gains)
    ]

stored-Inserts :
    (p : Pool) (id total : ℕ) (row : List ℕ) (page q : Page)
    → HoldsPages total p
    → id < total
    → id < 2 ^ 48
    → view p id ≡ page.bytes
    → IsPage page
    → Inserted page row q
    → Inserts p row (stored id (slot_count page) q p)
unfolding mark_dirty set_page
stored-Inserts p id total row page q h inside small same laid_out ins =
    let z = mark_dirty id (set_page id q p) in
    let w = marked-WritesPage p id q h.pool in
    let gains =
      subst (λ b. PageGains b row (slot_count page) q) (sym same)
        (Inserted-PageGains page row q laid_out ins) in
    let after =
      pages_after p z id row (slot_count page) q small w gains total h total (omega arith) inside
        h.reached in
    page_gains p z id row (slot_count page) q small w gains (HoldsPages-IsHeap total z after)

try_page-Inserts :
    (p : Pool) (id total : ℕ) (row : List ℕ) (page : Page) (rest : Pool × Result ℕ)
    → HoldsPages total p
    → id < total
    → id < 2 ^ 48
    → page.bytes ≡ view p id
    → Inserts p row rest
    → Inserts p row (try_page id p rest (Page.insert page row))
try_page-Inserts p id total row page rest h inside small same more = elim (h.pages id) [
  | inr empty ↦ rw (insert-blank page row (same ∙ empty)) more
  | inl shown ↦
      let laid_out = IsPage-page_with page (subst (λ b. IsPage (page_with b)) (sym same) shown) in
      elim (insert_lem page row laid_out) [
        | inl found ↦ rw found.1.1 (
            stored-Inserts p id total row page found.1.0 h inside small (sym same) laid_out
              found.1.2)
        | inr full ↦ rw full.1 more
      ]
]

-- What holds of the pool after a fetch holds of the one before.
Shows-Inserts :
    (p q : Pool) (row : List ℕ) (r : Pool × Result ℕ)
    → Shows p q
    → Inserts q row r
    → Inserts p row r
unfolding row_at
Shows-Inserts p q row (z, err e) shown ins = tt
Shows-Inserts p q row (z, ok id) shown ins = record {
  heap = ins.heap;
  reads_back = ins.reads_back;
  was_free = λ r held. ins.was_free r (same id ∙ held);
  kept = λ j r held. ins.kept j r (same j ∙ held);
}
  where
    same : (j : ℕ) → row_at q j ≡ row_at p j
    same j = ap (λ b. Page.get (page_with b) (decode_row_id j).1) (shown.1 (decode_row_id j).0)

insert_scan-Inserts :
    (turns : ℕ → ℕ) (row : List ℕ) (count id total : ℕ) (p : Pool)
    → HoldsPages total p
    → count + id ≡ total
    → total < 2 ^ 48
    → Inserts p row (insert_scan turns row count id p)
unfolding insert_scan
insert_scan-Inserts turns row zero id total p h sum small =
    append_new-Inserts p id total row (Page.insert new_page row) h (omega arith) (omega arith)
      (insert-new_page row)
insert_scan-Inserts turns row (suc count) id total p h sum small =
    fetched (fetch_page (turns id) id p) (fetch_page-Fetched (turns id) id p h.pool)
      (fetch_page-HoldsPages total (turns id) id p h)
      (λ q k. insert_scan-Inserts turns row count (suc id) total q k (omega arith) small)
  where
    fetched :
        (r : Pool × Result Page)
        → Fetched p id r
        → HoldsPages total r.0
        → ((q : Pool) → HoldsPages total q → Inserts q row (insert_scan turns row count (suc id) q))
        → Inserts p row (try_fetched id row r (insert_scan turns row count (suc id)))
    fetched (q, err e) found k further = tt
    fetched (q, ok page) found k further =
        Shows-Inserts p q row
          (try_page id q (insert_scan turns row count (suc id) q) (Page.insert page row)) found.0
          (try_page-Inserts q id total row page (insert_scan turns row count (suc id) q) k
            (omega arith) (omega arith) (found.1.0 ∙ sym (found.0.1 id)) (further q k))

-- An insertion that succeeds returns a RowID under which there was no row, where the row is now read
-- back; every row that the heap held is read as before, and the heap stays well-formed. This holds
-- whichever pages the pool evicts on the way, for files of fewer than 2^48 pages.
pub heap_insert_lem :
    (turns : ℕ → ℕ) (row : List ℕ) (p : Pool)
    → IsHeap p
    → page_count p.file < 2 ^ 48
    → OnOk (λ id. HeapGains p row (insert turns row p).0 id) (insert turns row p).1
unfolding insert
heap_insert_lem turns row p h small =
    insert_scan-Inserts turns row (page_count p.file) 0 (page_count p.file) p h (omega arith) small
