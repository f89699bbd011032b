-- ===== src/Tests/HeapFile.antt =====
-- Runs of the buffer pool and of heap files.
use aura_sql.Prelude.{ℕ, ◌≡◌, refl, [], ◌∷◌, none, inr, inl, length, compare, arith, true}
use aura_sql.Errors.{ok, OnOk}
use aura_sql.Storage.Page.{zero_bytes}
use aura_sql.Storage.Bytes.{u16_at, le_value, slice, put_u16, write, le_bytes}
use aura_sql.Storage.HeapFile.{insert, get, update, delete}
use aura_sql.Prelude.Maps.{lookup}
use aura_sql.Storage.BufferPool.{File, Pool}
use aura_sql.Storage.HeapFile.Rows.{IsHeap}
use aura_sql.Storage.HeapFile.Rows.Insert.{HeapGains, heap_insert_lem}
use aura_sql.Storage.BufferPool.{fetch_page}
use aura_sql.Storage.BufferPool.Fetch.{Fetched, fetch_page-Fetched}
use aura_sql.Storage.HeapFile.Rows.{row_at}
use aura_sql.Storage.HeapFile.Rows.Change.{HeapSets, heap_update_lem, heap_delete_lem, heap_get_lem}
use aura_sql.Storage.BufferPool.{block, is_dirty, flush_all}
use aura_sql.Storage.BufferPool.View.{view}
use aura_sql.Storage.BufferPool.FlushAll.{Meets, flush_all_durable}

abbrev pub empty_file : File
empty_file = record { blocks = []; read_error = λ id. none; write_error = λ id. none }

abbrev pub empty_pool : Pool
empty_pool = record { file = empty_file; pages = []; dirty = []; capacity = 1 }

pub empty_pool-IsHeap : IsHeap empty_pool
unfolding lookup
empty_pool-IsHeap = record {
  pool = λ id. ((λ _. refl), (λ wet. cc));
  pages = λ id. inr refl;
  beyond = λ id _. refl;
  reached = omega arith;
}

abbrev one_row : Pool
one_row = (insert (λ id. 0) (1 ∷ 2 ∷ 3 ∷ []) empty_pool).0

inserted : (insert (λ id. 0) (1 ∷ 2 ∷ 3 ∷ []) empty_pool).1 ≡ ok 0
unfolding insert u16_at le_value slice put_u16 write zero_bytes le_bytes
inserted = refl

heap_insert_lem_example :
    OnOk
      (λ id. HeapGains empty_pool (1 ∷ 2 ∷ 3 ∷ []) one_row id)
      (insert (λ id. 0) (1 ∷ 2 ∷ 3 ∷ []) empty_pool).1
heap_insert_lem_example =
    heap_insert_lem (λ id. 0) (1 ∷ 2 ∷ 3 ∷ []) empty_pool empty_pool-IsHeap (omega arith)

one_row-HeapGains : HeapGains empty_pool (1 ∷ 2 ∷ 3 ∷ []) one_row 0
one_row-HeapGains = rw inserted at heap_insert_lem_example

one_row-IsHeap : IsHeap one_row
one_row-IsHeap = one_row-HeapGains.heap

-- The update of the row, and the deletion.
updated : (update 0 0 (4 ∷ 5 ∷ []) one_row).1 ≡ ok tt
unfolding update insert u16_at le_value slice put_u16 write zero_bytes le_bytes
updated = refl

heap_update_lem_example :
    OnOk
      (λ done. HeapSets one_row 0 (4 ∷ 5 ∷ []) (update 0 0 (4 ∷ 5 ∷ []) one_row).0)
      (update 0 0 (4 ∷ 5 ∷ []) one_row).1
heap_update_lem_example = heap_update_lem 0 0 (4 ∷ 5 ∷ []) one_row one_row-IsHeap

heap_delete_lem_example :
    OnOk (λ done. HeapSets one_row 0 [] (delete 0 0 one_row).0) (delete 0 0 one_row).1
heap_delete_lem_example = heap_delete_lem 0 0 one_row one_row-IsHeap

one_row_writes : (id : ℕ) → one_row.file.write_error id ≡ none
unfolding insert u16_at le_value slice put_u16 write zero_bytes le_bytes
one_row_writes id = refl

one_row_reads : (id : ℕ) → one_row.file.read_error id ≡ none
unfolding insert u16_at le_value slice put_u16 write zero_bytes le_bytes
one_row_reads id = refl

heap_get_lem_example :
    ((get 0 0 one_row).1 ≡ row_at one_row 0)
    × IsHeap (get 0 0 one_row).0
    × ((j : ℕ) → row_at (get 0 0 one_row).0 j ≡ row_at one_row j)
heap_get_lem_example = heap_get_lem 0 0 one_row one_row-IsHeap one_row_writes one_row_reads

-- A second page enters the cache of capacity 1 without an eviction.
abbrev two_pages : Pool
two_pages = (insert (λ id. 0) (zero_bytes 4000) (insert (λ id. 0) (zero_bytes 4000) empty_pool).0).0

cache_outgrown : length two_pages.pages ≡ 2
unfolding insert u16_at le_value slice put_u16 write zero_bytes le_bytes
cache_outgrown = refl

-- Page 0 of `one_row` is changed in the cache; fetching page 7 evicts it, the only page.
abbrev changed_row : Pool
changed_row = (update 0 0 (4 ∷ 5 ∷ []) one_row).0

changed_row-IsHeap : IsHeap changed_row
changed_row-IsHeap = HeapSets.heap (rw updated at heap_update_lem_example)

fetch_page-Fetched_example : Fetched changed_row 7 (fetch_page 0 7 changed_row)
fetch_page-Fetched_example = fetch_page-Fetched 0 7 changed_row changed_row-IsHeap.pool

evicted : lookup compare 0 (fetch_page 0 7 changed_row).0.pages ≡ none
unfolding update insert fetch_page u16_at le_value slice put_u16 write zero_bytes le_bytes
evicted = refl

changed_row_writes : (id : ℕ) → changed_row.file.write_error id ≡ none
unfolding update insert u16_at le_value slice put_u16 write zero_bytes le_bytes
changed_row_writes id = refl

only_page_0 : (id : ℕ) → is_dirty changed_row id ≡ true → Meets id (0 ∷ [])
unfolding update insert lookup u16_at le_value slice put_u16 write zero_bytes le_bytes
only_page_0 id wet = inl (ground arith)

flush_all_durable_example :
    ((flush_all (0 ∷ []) changed_row).1 ≡ ok tt)
    × ((id : ℕ) → block (flush_all (0 ∷ []) changed_row).0.file id ≡ view changed_row id)
flush_all_durable_example =
    flush_all_durable (0 ∷ []) changed_row changed_row-IsHeap.pool changed_row_writes only_page_0
