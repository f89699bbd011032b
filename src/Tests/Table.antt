-- ===== src/Tests/Table.antt =====
-- Runs of the engine's operations on a table with one index, whose entries are kept in a list.
use aura_sql.Prelude.{ℕ, ◌≡◌, refl, List, [], ◌∷◌, arith, false, bytes, GoString, str_eq}
use aura_sql.Prelude.Int.{pos, of_u64, to_u64}
use aura_sql.Errors.{Result, ok, OnOk}
use aura_sql.Core.{Value, type_int, new_int, Row, row_of}
use aura_sql.Storage.Page.{zero_bytes}
use aura_sql.Storage.Bytes.{u16_at, le_value, slice, put_u16, write, le_bytes}
use aura_sql.Storage.RowCodec.{
  serialize_values, serialize_value, read, deserialize_values, read_value, read_int,
}
use aura_sql.Storage.Mvcc.{Txns, new_txns, begin, is_visible}
use aura_sql.Storage.BufferPool.{page_count}
use aura_sql.Storage.Table.{Table, insert, update, mark_deleted, new_version}
use aura_sql.Storage.Table.Versions.{IsVersion, Marked, mark_deleted_lem}
use aura_sql.Storage.Table.Writes.{Entered, table_insert_lem, Replaced, table_update_lem}
use aura_sql.Tests.HeapFile.{empty_pool, empty_pool-IsHeap}
use aura_sql.Storage.Scan.{next}
use aura_sql.Prelude.{some, none}
use aura_sql.Storage.Catalog
use aura_sql.Storage.Catalog.{Catalog}
use aura_sql.Prelude.{str_compare}
use aura_sql.Prelude.Maps.{lookup}
use aura_sql.Errors.{err, errorf}

abbrev index_insert : GoString → Value → ℕ → List ℕ → List ℕ × Result (Unit {0})
index_insert column key id index = (id ∷ index, ok tt)

abbrev accounts : Table (List ℕ)
accounts = record {
  pool = empty_pool;
  columns = record { name = bytes "id"; type = type_int } ∷ [];
  indexed = str_eq (bytes "id");
  index = [];
}

abbrev first : Row
first = row_of (new_int (pos 7) ∷ [])

abbrev second : Row
second = row_of (new_int (pos 8) ∷ [])

-- Transaction 1 is open.
abbrev one_open : Txns
one_open = begin new_txns

table_insert_lem_example :
    OnOk
      (λ id. Entered 1 first empty_pool (insert index_insert (λ i. 0) 1 first accounts).0.pool id)
      (insert index_insert (λ i. 0) 1 first accounts).1
table_insert_lem_example =
    table_insert_lem index_insert (λ i. 0) 1 first accounts empty_pool-IsHeap (omega arith)

abbrev one_account : Table (List ℕ)
one_account = (insert index_insert (λ i. 0) 1 first accounts).0

entered_first : (insert index_insert (λ i. 0) 1 first accounts).1 ≡ ok 0
unfolding insert serialize_values serialize_value str_eq u16_at le_value slice put_u16 write
    zero_bytes le_bytes
entered_first = refl

one_account-Entered : Entered 1 first empty_pool one_account.pool 0
one_account-Entered = rw entered_first at table_insert_lem_example

first-IsVersion : IsVersion (new_version 1 first)
first-IsVersion = record {
  xmin_fits = omega arith;
  xmax_fits = omega arith;
  storable = (record { int_fits = omega arith; str_fits = omega arith }, tt);
}

mark_deleted_lem_example :
    OnOk
      (λ done.
        Marked one_open 1 one_account.pool 0
          (new_version 1 first)
          (mark_deleted one_open 0 1 0 one_account.pool).0)
      (mark_deleted one_open 0 1 0 one_account.pool).1
mark_deleted_lem_example =
    mark_deleted_lem one_open 0 1 0 (new_version 1 first) one_account.pool one_account-Entered.heap
      first-IsVersion one_account-Entered.entered

marked_count : page_count (mark_deleted one_open 0 1 0 one_account.pool).0.file ≡ 1
unfolding mark_deleted insert begin serialize_values serialize_value read deserialize_values
    read_value read_int str_eq u16_at le_value slice put_u16 write zero_bytes le_bytes
marked_count = refl

table_update_lem_example :
    OnOk
      (λ done.
        (new_id : ℕ) × Replaced one_open 1 second one_account.pool 0
          (new_version 1 first)
          (update index_insert one_open 0 (λ i. 0) 1 0 second one_account).0.pool
          new_id)
      (update index_insert one_open 0 (λ i. 0) 1 0 second one_account).1
table_update_lem_example =
    table_update_lem index_insert one_open 0 (λ i. 0) 1 0 second (new_version 1 first) one_account
      one_account-Entered.heap first-IsVersion one_account-Entered.entered
      (omega (arith, marked_count))

updated_first : (update index_insert one_open 0 (λ i. 0) 1 0 second one_account).1 ≡ ok tt
unfolding update insert begin serialize_values serialize_value read deserialize_values read_value
    read_int str_eq u16_at le_value slice put_u16 write zero_bytes le_bytes
updated_first = refl

-- The index has an entry for each version.
index_entries :
    (update index_insert one_open 0 (λ i. 0) 1 0 second one_account).0.index ≡ 1 ∷ 0 ∷ []
unfolding update insert begin serialize_values serialize_value read deserialize_values read_value
    read_int str_eq u16_at le_value slice put_u16 write zero_bytes le_bytes
index_entries = refl

-- The creator reads the row that it inserted, and then the end.
creator_reads :
    (next one_open 1 false (λ i. 0) 1 (0, 0) one_account.pool).1
    ≡ ok (some (0, new_version 1 first))
unfolding next insert begin is_visible serialize_values serialize_value read deserialize_values
    read_value read_int str_eq u16_at le_value slice put_u16 write zero_bytes le_bytes of_u64 to_u64
creator_reads = refl

then_the_end : (next one_open 1 false (λ i. 0) 1 (0, 1) one_account.pool).1 ≡ ok none
unfolding next insert begin is_visible serialize_values serialize_value read deserialize_values
    read_value read_int str_eq u16_at le_value slice put_u16 write zero_bytes le_bytes
then_the_end = refl

-- Nobody else reads it.
stranger_reads : (next one_open 2 false (λ i. 0) 1 (0, 0) one_account.pool).1 ≡ ok none
unfolding next insert begin is_visible serialize_values serialize_value read deserialize_values
    read_value read_int str_eq u16_at le_value slice put_u16 write zero_bytes le_bytes
stranger_reads = refl

abbrev bank : Catalog (List ℕ)
bank = (bytes "accounts", one_account) ∷ []

no_such_table :
    (Catalog.update index_insert one_open 0 (λ i. 0) 1 (bytes "nobody") 0 second bank).1
    ≡ err (errorf "table %q does not exist")
unfolding Catalog.update Catalog.get_table lookup str_compare
no_such_table = refl
