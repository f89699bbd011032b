-- ===== src/Memstore/Invariant.antt =====
-- What holds of every state that the operations of memstore/memstore.go lead to.
use aura_sql.Prelude.{
  ℕ, ◌+◌, ◌%◌, ◌^◌, compare, Option, none, some, arith, GoString, inl, inr, Option-cases,
}
use aura_sql.Prelude.Maps.{Sorted, put-Sorted_ℕ, remove-Sorted}
use aura_sql.Core.{Schema, Row}
use aura_sql.Memstore.{
  Memstore, Table, PendingChange, new_memstore, table_at, add_pending, begin, commit, rollback,
  create_table, drop_table, claim, insert_row, insert, update_row, update, delete_row, delete,
}
use aura_sql.Memstore.Reads.{create_index}
use aura_sql.Memstore.Sortedness.{
  IsMemstore, with_table-IsMemstore, table_at-Sorted, add_pending-IsMemstore,
}

-- The states that the operations lead to; `none` is the write without a transaction.
pub data Reach : Memstore → Type 0 where
  opened : Reach new_memstore
  began : (e : Memstore) → Reach e → Reach (begin e).0
  committing : (t : ℕ) (e : Memstore) → Reach e → Reach (commit t e)
  rolling_back : (t : ℕ) (e : Memstore) → Reach e → Reach (rollback t e)
  creating : (m : GoString) (s : Schema) (e : Memstore) → Reach e → Reach (create_table m s e).0
  dropping : (m : GoString) (e : Memstore) → Reach e → Reach (drop_table m e).0
  indexing : (m c : GoString) (e : Memstore) → Reach e → Reach (create_index m c e).0
  inserting :
      (txn : Option ℕ) (m : GoString) (row : Row) (e : Memstore)
      → Reach e
      → Reach (insert txn m row e).0
  updating :
      (txn : Option ℕ) (m : GoString) (id : ℕ) (row : Row) (e : Memstore)
      → Reach e
      → Reach (update txn m id row e).0
  deleting :
      (txn : Option ℕ) (m : GoString) (id : ℕ) (e : Memstore)
      → Reach e
      → Reach (delete txn m id e).0

-- The three writes, with and without a transaction.
insert_row-IsMemstore :
    (txn : Option ℕ) (m : GoString) (id : ℕ) (row : Row) (t : Table) (e : Memstore)
    → Sorted compare t.rows
    → IsMemstore e
    → IsMemstore (insert_row txn m id row t e)
unfolding insert_row
insert_row-IsMemstore none m id row t e sorted h =
    with_table-IsMemstore m _ e (put-Sorted_ℕ id row t.rows sorted) h
insert_row-IsMemstore (some x) m id row t e sorted h = add_pending-IsMemstore x m _ e h

claim-IsMemstore :
    (x : ℕ) (m : GoString) (c : PendingChange) (t : Table) (e : Memstore)
    → Sorted compare t.rows
    → IsMemstore e
    → IsMemstore (claim x m c t e)
claim-IsMemstore x m c t e sorted h =
    with_table-IsMemstore m _ (add_pending x m c e) sorted (add_pending-IsMemstore x m c e h)

update_row-IsMemstore :
    (txn : Option ℕ) (m : GoString) (id : ℕ) (row : Row) (t : Table) (e : Memstore)
    → Sorted compare t.rows
    → IsMemstore e
    → IsMemstore (update_row txn m id row t e)
unfolding update_row
update_row-IsMemstore none m id row t e sorted h =
    with_table-IsMemstore m _ e (put-Sorted_ℕ id row t.rows sorted) h
update_row-IsMemstore (some x) m id row t e sorted h = claim-IsMemstore x m _ t e sorted h

delete_row-IsMemstore :
    (txn : Option ℕ) (m : GoString) (id : ℕ) (t : Table) (e : Memstore)
    → Sorted compare t.rows
    → IsMemstore e
    → IsMemstore (delete_row txn m id t e)
unfolding delete_row
delete_row-IsMemstore none m id t e sorted h =
    with_table-IsMemstore m _ e (remove-Sorted compare id t.rows sorted) h
delete_row-IsMemstore (some x) m id t e sorted h = claim-IsMemstore x m _ t e sorted h

pub insert-IsMemstore :
    (txn : Option ℕ) (m : GoString) (row : Row) (e : Memstore)
    → IsMemstore e
    → IsMemstore (insert txn m row e).0
unfolding insert
insert-IsMemstore txn m row e h = elim (Option-cases (table_at m e)) [
  | inl gone ↦ rw (gone, insert) h
  | inr (t, at) ↦
      let id = (e.next_id + 1) % 2 ^ 64 in
      let sorted = table_at-Sorted m t e h at in
      let written = insert_row-IsMemstore txn m id row t (record e { next_id = id }) sorted h in
      rw (at, insert) (ground arith)
]

pub update-IsMemstore :
    (txn : Option ℕ) (m : GoString) (id : ℕ) (row : Row) (e : Memstore)
    → IsMemstore e
    → IsMemstore (update txn m id row e).0
unfolding update
update-IsMemstore txn m id row e h = elim (Option-cases (table_at m e)) [
  | inl gone ↦ rw (gone, update) h
  | inr (t, at) ↦
      let sorted = table_at-Sorted m t e h at in
      let written = update_row-IsMemstore txn m id row t e sorted h in
      rw (at, update) (ground arith)
]

pub delete-IsMemstore :
    (txn : Option ℕ) (m : GoString) (id : ℕ) (e : Memstore)
    → IsMemstore e
    → IsMemstore (delete txn m id e).0
unfolding delete
delete-IsMemstore txn m id e h = elim (Option-cases (table_at m e)) [
  | inl gone ↦ rw (gone, delete) h
  | inr (t, at) ↦
      let sorted = table_at-Sorted m t e h at in
      let written = delete_row-IsMemstore txn m id t e sorted h in rw (at, delete) (ground arith)
]
