-- ===== src/Storage/HeapFile.antt =====
-- storage/heapfile.go: the operations on rows, over the buffer pool. The size of the file is the
-- number of its pages. `turns` gives, for each fetch, the turn of the eviction in it.
pub mod Rows
use aura_sql.Prelude.{ℕ, zero, suc, List}
use aura_sql.Errors.{Result, ok, err, panic}
use aura_sql.Storage.Page.{Page, new_page}
use aura_sql.Storage.Page
use aura_sql.Storage.RowId.{encode_row_id, decode_row_id}
use aura_sql.Storage.BufferPool.{
  File, Pool, page_count, fetch_page, mark_dirty, set_page, write_page,
}

-- The new page is written to the file, and then put into the cache without an eviction.
abbrev pub established : ℕ → ℕ → Page → Pool → File × Result (Unit {0}) → Pool × Result ℕ
established id slot page p (f, ok done) =
    (set_page id page (record p { file = f }), ok (encode_row_id id slot))
established id slot page p (f, err e) = (record p { file = f }, err e)

abbrev pub append_new : ℕ → Pool → Result (ℕ × Page) → Pool × Result ℕ
append_new id p (ok (slot, page)) = established id slot page p (write_page id page p.file)
append_new id p (err e) = (p, err e)

abbrev pub stored : ℕ → ℕ → Page → Pool → Pool × Result ℕ
stored id slot page p = (mark_dirty id (set_page id page p), ok (encode_row_id id slot))

-- One round of the scan for free space: on an error of the page's `Insert` it goes on.
abbrev pub try_page : ℕ → Pool → Pool × Result ℕ → Result (ℕ × Page) → Pool × Result ℕ
try_page id p rest (ok (slot, page)) = stored id slot page p
try_page id p rest (err panic) = (p, err panic)
try_page id p rest (err _) = rest

abbrev pub try_fetched :
    ℕ → List ℕ → Pool × Result Page → (Pool → Pool × Result ℕ) → Pool × Result ℕ
try_fetched id row (p, ok page) go_on = try_page id p (go_on p) (Page.insert page row)
try_fetched id row (p, err e) go_on = (p, err e)

-- The pages from `id` on, as many as the count says.
unfoldable pub insert_scan : (ℕ → ℕ) → List ℕ → ℕ → ℕ → Pool → Pool × Result ℕ
unfolding Page.insert new_page write_page set_page mark_dirty encode_row_id fetch_page
insert_scan turns row zero id p = append_new id p (Page.insert new_page row)
insert_scan turns row (suc count) id p =
    try_fetched id row (fetch_page (turns id) id p) (insert_scan turns row count (suc id))

unfoldable pub insert : (ℕ → ℕ) → List ℕ → Pool → Pool × Result ℕ
unfolding insert_scan
insert turns row p = insert_scan turns row (page_count p.file) 0 p

abbrev pub got : ℕ → Pool × Result Page → Pool × Result (List ℕ)
got slot (p, ok page) = (p, Page.get page slot)
got slot (p, err e) = (p, err e)

unfoldable pub get : ℕ → ℕ → Pool → Pool × Result (List ℕ)
unfolding Page.get fetch_page decode_row_id
get turn id p = got (decode_row_id id).1 (fetch_page turn (decode_row_id id).0 p)

abbrev pub changed : ℕ → Pool → Result Page → Pool × Result (Unit {0})
changed id p (ok page) = (mark_dirty id (set_page id page p), ok tt)
changed id p (err e) = (p, err e)

abbrev pub updated : ℕ → ℕ → List ℕ → Pool × Result Page → Pool × Result (Unit {0})
updated id slot row (p, ok page) = changed id p (Page.update page slot row)
updated id slot row (p, err e) = (p, err e)

unfoldable pub update : ℕ → ℕ → List ℕ → Pool → Pool × Result (Unit {0})
unfolding Page.update mark_dirty set_page fetch_page decode_row_id
update turn id row p =
    let (page_id, slot) = decode_row_id id in updated page_id slot row (fetch_page turn page_id p)

abbrev pub deleted : ℕ → ℕ → Pool × Result Page → Pool × Result (Unit {0})
deleted id slot (p, ok page) = changed id p (Page.delete page slot)
deleted id slot (p, err e) = (p, err e)

unfoldable pub delete : ℕ → ℕ → Pool → Pool × Result (Unit {0})
unfolding Page.delete mark_dirty set_page fetch_page decode_row_id
delete turn id p =
    let (page_id, slot) = decode_row_id id in deleted page_id slot (fetch_page turn page_id p)
