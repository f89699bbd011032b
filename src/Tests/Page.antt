-- ===== src/Tests/Page.antt =====
-- storage/page.go on a fresh page, and on a page with one row.
use aura_sql.Prelude.{◌≡◌, ◌≤◌, ◌<◌, ◌⊎◌, true, false, [], ◌∷◌, arith}
use aura_sql.Errors.{ok, err, errorf}
use aura_sql.Storage.Page.{
  Page, new_page, with_row, insert, update, delete, slot_count, data_length, lacks_room,
}
use aura_sql.Storage.Page.Layout.{new_page-IsPage, free_space-new_page, slot_count-new_page}
use aura_sql.Storage.Page.Insert.{Inserted, insert_lem, with_row-Inserted}
use aura_sql.Storage.Page.Update.{Updated, update_lem}
use aura_sql.Storage.Page.Delete.{Deleted, delete_lem}

insert_lem_example :
    ((lacks_room new_page (1 ∷ 2 ∷ []) ≡ false)
      × ((q : Page) × (insert new_page (1 ∷ 2 ∷ []) ≡ ok (slot_count new_page, q))
          × Inserted new_page (1 ∷ 2 ∷ []) q))
    ⊎ ((lacks_room new_page (1 ∷ 2 ∷ []) ≡ true)
        × (insert new_page (1 ∷ 2 ∷ []) ≡ err (errorf "page is full")))
insert_lem_example = insert_lem new_page (1 ∷ 2 ∷ []) new_page-IsPage.0

room_on_new_page : lacks_room new_page (1 ∷ 2 ∷ []) ≡ false
room_on_new_page = ground (arith, free_space-new_page, slot_count-new_page)

abbrev one_row : Page
one_row = with_row new_page (1 ∷ 2 ∷ [])

one_row-Inserted : Inserted new_page (1 ∷ 2 ∷ []) one_row
one_row-Inserted = with_row-Inserted new_page (1 ∷ 2 ∷ []) new_page-IsPage.0 room_on_new_page

one_slot : 0 < slot_count one_row
one_slot = omega (arith, one_row-Inserted.counted)

update_lem_example :
    ((1 ≤ data_length one_row 0)
      × ((q : Page) × (update one_row 0 (9 ∷ []) ≡ ok q) × Updated one_row 0 (9 ∷ []) q))
    ⊎ ((data_length one_row 0 < 1) × (update one_row 0 (9 ∷ []) ≡ err (errorf "row too large")))
update_lem_example = update_lem one_row 0 (9 ∷ []) one_row-Inserted.laid_out one_slot

delete_lem_example : (q : Page) × (delete one_row 0 ≡ ok q) × Deleted one_row 0 q
delete_lem_example = delete_lem one_row 0 one_row-Inserted.laid_out one_slot
