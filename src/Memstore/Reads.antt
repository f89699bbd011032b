-- ===== src/Memstore/Reads.antt =====
-- memstore/memstore.go: scans, and the stand-ins for indexes.
use aura_sql.Prelude.{
  ℕ, compare, Bool, false, ◌||◌, List, [], ◌∷◌, ◌++◌, Option, none, some, get_elem?, GoString,
  bytes, str_eq, if◌then◌else◌,
}
use aura_sql.Prelude.Maps.{Map, put, remove}
use aura_sql.Errors.{Result, ok, err, errorf, panic, ◌>>=◌}
use aura_sql.Core.{Value, compares_equal, column_index, Row}
use aura_sql.Core.Engine.{Stream, stream_of, done, failed, next}
use aura_sql.Memstore.{Memstore, Table, PendingChange, table_at, changes_of, get_schema}

-- The committed rows of `Scan` with the changes of the reader over them.
unfoldable pub overlay : List PendingChange → Map ℕ Row → Map ℕ Row
overlay [] rows = rows
overlay (c ∷ cs) rows =
    overlay cs
      (if c.is_delete then remove compare c.row_id rows else put compare c.row_id c.row rows)

unfoldable pub view : Option ℕ → GoString → Table → Memstore → Map ℕ Row
unfolding overlay
view none name t e = t.rows
view (some x) name t e = overlay (changes_of x name e) t.rows

unfoldable pub scan : Option ℕ → GoString → Memstore → Result (Stream (ℕ × Row))
unfolding view stream_of
scan txn name e = elim (table_at name e) [
  | none ↦ err (errorf "table %q does not exist")
  | some t ↦ ok (stream_of (view txn name t e))
]

abbrev pub index_key : GoString → GoString → GoString
index_key table column = table ++ bytes ":" ++ column

unfoldable pub create_index : GoString → GoString → Memstore → Memstore × Result (Unit {0})
create_index table column e = (record e { indexes = index_key table column ∷ e.indexes }, ok tt)

unfoldable pub is_member : GoString → List GoString → Bool
is_member k [] = false
is_member k (key ∷ keys) = str_eq key k || is_member k keys

unfoldable pub has_index : Memstore → GoString → GoString → Bool
unfolding is_member
has_index e table column = is_member (index_key table column) e.indexes

-- `memstoreIndexIterator.Next`: what compares equal to the key; an error of `Compare` is passed over.
unfoldable pub seek_rows : ℕ → Value → Stream (ℕ × Row) → Stream (ℕ × Row)
seek_rows column key done = done
seek_rows column key (failed e) = failed e
seek_rows column key (next (id, row) rest) =
    let others = seek_rows column key rest in
    elim (get_elem? row.values column) [
      | none ↦ failed panic
      | some v ↦ if compares_equal v key then next (id, row) others else others
    ]

unfoldable pub seek_index :
    Option ℕ → GoString → GoString → Value → Memstore → Result (Stream (ℕ × Row))
unfolding get_schema seek_rows
seek_index txn table column key e = elim (get_schema e table) [
  | none ↦ err (errorf "table %q does not exist")
  | some schema ↦ elim (column_index schema column) [
    | none ↦ err (errorf "column %q not found in table %q")
    | some idx ↦ do iter ← scan txn table e; ok (seek_rows idx key iter)
  ]
]
