-- ===== src/Tests/Memstore.antt =====
-- The engine in memory on a table of two columns: 1 inserts a row and commits, then 2 and 3 are open.
use aura_sql.Prelude.{
  compare, ℕ, ◌≡◌, refl, List, [], ◌∷◌, none, some, inr, GoString, bytes, filter, str_compare,
  str_eq,
}
use aura_sql.Prelude.Maps.{lookup, put, remove}
use aura_sql.Prelude.Int.{pos}
use aura_sql.Errors.{ok}
use aura_sql.Core.{type_int, type_text, new_int, new_text, Schema, column_index, Row, row_of}
use aura_sql.Core.Engine.{stream_of}
use aura_sql.Executor.Cursors.{RowsConform, tests_at}
use aura_sql.Memstore.{
  Memstore, new_memstore, create_table, begin, insert, update, commit, add_pending, pending_in,
  changes_in, get_schema,
}
use aura_sql.Memstore.Reads.{seek_index, overlay, scan}
use aura_sql.Memstore.View.{committed, seen}
use aura_sql.Memstore.Invariant.{Reach, opened, began, committing, creating, inserting}
use aura_sql.Memstore.OwnInsert.{Sees, NotFound, insert_then_write}
use aura_sql.Memstore.Seek.{seek_index_lem}

abbrev pub people : GoString
people = bytes "people"

abbrev pub people_schema : Schema
people_schema = record {
  columns =
      record { name = bytes "id"; type = type_int }
      ∷ (record { name = bytes "name"; type = type_text } ∷ []);
}

abbrev pub ann : Row
ann = row_of (new_int (pos 1) ∷ (new_text (bytes "Ann") ∷ []))

abbrev pub bob : Row
bob = row_of (new_int (pos 2) ∷ (new_text (bytes "Bob") ∷ []))

abbrev with_table : Memstore
with_table = (begin (create_table people people_schema new_memstore).0).0

abbrev with_ann : Memstore
with_ann = (insert (some 1) people ann with_table).0

abbrev pub two_open : Memstore
two_open = (begin (begin (commit 1 with_ann)).0).0

abbrev updated : Memstore
updated = (update (some 2) people 1 bob two_open).0

with_table-Reach : Reach with_table
with_table-Reach = began _ (creating people people_schema new_memstore opened)

with_ann-Reach : Reach with_ann
with_ann-Reach = inserting (some 1) people ann with_table with_table-Reach

pub two_open-Reach : Reach two_open
two_open-Reach = began _ (began _ (committing 1 with_ann with_ann-Reach))

-- What the operations come to on these inputs.
committed_ann : committed people two_open ≡ some ((1, ann) ∷ [])
unfolding create_table begin insert commit lookup put str_compare add_pending pending_in changes_in
committed_ann = refl

seen-bob : seen 2 people updated ≡ some ((1, bob) ∷ [])
unfolding create_table begin insert commit update lookup put str_compare add_pending pending_in
    changes_in overlay remove
seen-bob = refl

abbrev pub ann_stored : List (ℕ × Row)
ann_stored = (1, ann) ∷ []

pub ann-RowsConform : RowsConform people_schema ann_stored
ann-RowsConform = ((inr refl, (inr refl, tt)), tt)

pub ann_found : scan none people two_open ≡ ok (stream_of ann_stored)
unfolding scan create_table begin insert commit lookup put str_compare add_pending pending_in
    stream_of changes_in
ann_found = refl

seek_index_lem_example :
    seek_index none people (bytes "id") (new_int (pos 1)) two_open
    ≡ ok (stream_of (filter (tests_at 0 (new_int (pos 1))) ann_stored))
unfolding get_schema column_index create_table begin insert commit lookup put str_compare
    add_pending pending_in str_eq changes_in
seek_index_lem_example =
    seek_index_lem two_open none people (bytes "id") (new_int (pos 1)) people_schema 0 ann_stored
      refl refl ann_found ann-RowsConform

abbrev bob_inserted : Memstore
bob_inserted = (insert (some 2) people bob two_open).0

insert-bob : insert (some 2) people bob two_open ≡ (bob_inserted, ok 2)
unfolding create_table begin insert commit lookup put str_compare add_pending pending_in changes_in
insert-bob = refl

absent_two : lookup compare 2 ann_stored ≡ none
unfolding lookup
absent_two = refl

insert_then_write_example :
    Sees 2 bob (seen 2 people bob_inserted) × NotFound 2 people 2 bob_inserted
insert_then_write_example =
    insert_then_write 2 people 2 bob ann_stored two_open bob_inserted committed_ann absent_two
      insert-bob
