-- ===== src/Memstore.antt =====
-- memstore/memstore.go: the engine in memory. Its mutex makes every operation one step.
-- A `nil` Txn is the `none` of an `Option ℕ`.
pub mod Reads
pub mod Contract
pub mod View
pub mod Ending
pub mod Sortedness
pub mod Invariant
pub mod Conflict
pub mod Seek
pub mod OwnInsert
use aura_sql.Prelude.{
  ℕ, ◌+◌, ◌%◌, ◌^◌, compare, Bool, true, false, not, ◌&&◌, ◌||◌, List, [], ◌∷◌, ◌++◌, map, Option,
  none, some, length, get_elem?, ◌==◌, GoString, bytes, str_eq, str_compare, Ordering,
  if◌then◌else◌,
}
use aura_sql.Prelude.Maps.{Map, lookup, put, remove}
use aura_sql.Errors.{Error, err_write_conflict, Result, ok, err, errorf, panic, ◌>>=◌, ◌>>◌}
use aura_sql.Core.{Value, compares_equal, Schema, column_index, Row, row_of}
use aura_sql.Core.Engine.{StorageEngine, stream_of, Stream, done, failed, next}

pub record Table : Type 0 where
  pub schema : Schema
  pub rows : Map ℕ Row
  pub row_txns : Map ℕ ℕ

pub record PendingChange : Type 0 where
  pub row_id : ℕ
  pub row : Row
  pub is_delete : Bool

-- Without the cached statistics.
pub record Memstore : Type 0 where
  pub tables : Map GoString Table
  pub indexes : List GoString
  pub next_id : ℕ
  pub next_tx : ℕ
  pub pending : Map ℕ (Map GoString (List PendingChange))
  pub active_txns : ℕ → Bool

abbrev pub new_memstore : Memstore
new_memstore = record {
  tables = [];
  indexes = [];
  next_id = 0;
  next_tx = 0;
  pending = [];
  active_txns = λ t. false;
}

abbrev pub table_at : GoString → Memstore → Option Table
table_at name e = lookup str_compare name e.tables

abbrev pub with_table : GoString → Table → Memstore → Memstore
with_table name t e = record e { tables = put str_compare name t e.tables }

unfoldable pub set_active : ℕ → Bool → (ℕ → Bool) → ℕ → Bool
set_active t b active u = if u == t then b else active u

-- One change of `Commit`.
unfoldable pub apply_change : PendingChange → Table → Table
apply_change c t =
    if c.is_delete
    then record t {
      rows = remove compare c.row_id t.rows;
      row_txns = remove compare c.row_id t.row_txns;
    }
    else record t {
      rows = put compare c.row_id c.row t.rows;
      row_txns = put compare c.row_id 0 t.row_txns;
    }

unfoldable pub apply_changes : List PendingChange → Table → Table
unfolding apply_change
apply_changes [] t = t
apply_changes (c ∷ cs) t = apply_changes cs (apply_change c t)

-- The loops over the transaction's tables skip one that does not exist any more.
unfoldable pub change_table : GoString → (Table → Table) → Map GoString Table → Map GoString Table
change_table name f ts = elim (lookup str_compare name ts) [
  | none ↦ ts
  | some t ↦ put str_compare name (f t) ts
]

unfoldable pub apply_pending :
    Map GoString (List PendingChange) → Map GoString Table → Map GoString Table
unfolding change_table apply_changes
apply_pending [] ts = ts
apply_pending ((name, cs) ∷ p) ts = apply_pending p (change_table name (apply_changes cs) ts)

-- The end of `Commit` and of `Rollback`.
abbrev pub forget : ℕ → Memstore → Memstore
forget t e = record e {
  pending = remove compare t e.pending;
  active_txns = set_active t false e.active_txns;
}

unfoldable pub commit : ℕ → Memstore → Memstore
unfolding apply_pending
commit t e = elim (lookup compare t e.pending) [
  | none ↦ record e { active_txns = set_active t false e.active_txns }
  | some p ↦ forget t (record e { tables = apply_pending p e.tables })
]

-- `Rollback` gives back the rows that the transaction had claimed.
unfoldable pub release_row : ℕ → PendingChange → Table → Table
release_row t c tbl = elim (lookup compare c.row_id tbl.row_txns) [
  | none ↦ tbl
  | some owner ↦
      if owner == t then record tbl { row_txns = put compare c.row_id 0 tbl.row_txns } else tbl
]

unfoldable pub release_rows : ℕ → List PendingChange → Table → Table
unfolding release_row
release_rows t [] tbl = tbl
release_rows t (c ∷ cs) tbl = release_rows t cs (release_row t c tbl)

unfoldable pub release_pending :
    ℕ → Map GoString (List PendingChange) → Map GoString Table → Map GoString Table
unfolding change_table release_rows
release_pending t [] ts = ts
release_pending t ((name, cs) ∷ p) ts =
    release_pending t p (change_table name (release_rows t cs) ts)

unfoldable pub rollback : ℕ → Memstore → Memstore
unfolding release_pending
rollback t e = elim (lookup compare t e.pending) [
  | none ↦ forget t e
  | some p ↦ forget t (record e { tables = release_pending t p e.tables })
]

unfoldable pub begin : Memstore → Memstore × Result ℕ
begin e =
    let t = (e.next_tx + 1) % 2 ^ 64 in
    (record e { next_tx = t; active_txns = set_active t true e.active_txns }, ok t)

unfoldable pub create_table : GoString → Schema → Memstore → Memstore × Result (Unit {0})
create_table name schema e = elim (table_at name e) [
  | some t ↦ (e, err (errorf "table %q already exists"))
  | none ↦ (with_table name (record { schema = schema; rows = []; row_txns = [] }) e, ok tt)
]

unfoldable pub drop_table : GoString → Memstore → Memstore × Result (Unit {0})
drop_table name e = elim (table_at name e) [
  | none ↦ (e, err (errorf "table %q does not exist"))
  | some t ↦ (record e { tables = remove str_compare name e.tables }, ok tt)
]

unfoldable pub get_schema : Memstore → GoString → Option Schema
get_schema e name = elim (table_at name e) [ none ↦ none | some t ↦ some t.schema ]

unfoldable pub list_tables : Memstore → List GoString
list_tables e = map (λ entry. entry.0) e.tables

-- The changes of a transaction, those to a table, and one more of them.
unfoldable pub pending_in :
    ℕ → Map ℕ (Map GoString (List PendingChange)) → Map GoString (List PendingChange)
pending_in t all = elim (lookup compare t all) [ none ↦ [] | some p ↦ p ]

abbrev pub pending_of : ℕ → Memstore → Map GoString (List PendingChange)
pending_of t e = pending_in t e.pending

unfoldable pub changes_in : GoString → Map GoString (List PendingChange) → List PendingChange
changes_in name p = elim (lookup str_compare name p) [ none ↦ [] | some cs ↦ cs ]

abbrev pub changes_of : ℕ → GoString → Memstore → List PendingChange
changes_of t name e = changes_in name (pending_of t e)

-- The transaction's changes after one more.
abbrev pub with_change : ℕ → GoString → PendingChange → Memstore → Map GoString (List PendingChange)
with_change t name c e = put str_compare name (changes_of t name e ++ (c ∷ [])) (pending_of t e)

unfoldable pub add_pending : ℕ → GoString → PendingChange → Memstore → Memstore
add_pending t name c e = record e { pending = put compare t (with_change t name c e) e.pending }

-- A write without a transaction.
abbrev pub put_row : GoString → ℕ → Row → Table → Memstore → Memstore
put_row name id row t e =
    with_table name
      (record t { rows = put compare id row t.rows; row_txns = put compare id 0 t.row_txns }) e

abbrev pub remove_row : GoString → ℕ → Table → Memstore → Memstore
remove_row name id t e =
    with_table name
      (record t { rows = remove compare id t.rows; row_txns = remove compare id t.row_txns }) e

abbrev pub row_put : ℕ → Row → PendingChange
row_put id row = record { row_id = id; row = row; is_delete = false }

abbrev pub row_gone : ℕ → PendingChange
row_gone id = record { row_id = id; row = row_of []; is_delete = true }

unfoldable pub insert_row : Option ℕ → GoString → ℕ → Row → Table → Memstore → Memstore
insert_row none name id row t e = put_row name id row t e
insert_row (some x) name id row t e = add_pending x name (row_put id row) e

unfoldable pub insert : Option ℕ → GoString → Row → Memstore → Memstore × Result ℕ
unfolding insert_row
insert txn name row e = elim (table_at name e) [
  | none ↦ (e, err (errorf "table %q does not exist"))
  | some t ↦
      let id = (e.next_id + 1) % 2 ^ 64 in
      if length row.values == length t.schema.columns
      then (insert_row txn name id row t (record e { next_id = id }), ok id)
      else (e, err (errorf "insert has %d values, table has %d columns"))
]

-- Another transaction that is still active has claimed the row.
unfoldable pub claimed_by_other : Option ℕ → ℕ → Table → Memstore → Bool
claimed_by_other none id t e = false
claimed_by_other (some x) id t e = elim (lookup compare id t.row_txns) [
  | none ↦ false
  | some owner ↦ not (owner == 0) && (not (owner == x) && e.active_txns owner)
]

-- A transaction records its change and claims the row.
abbrev pub claim : ℕ → GoString → PendingChange → Table → Memstore → Memstore
claim x name c t e =
    with_table name (record t { row_txns = put compare c.row_id x t.row_txns })
      (add_pending x name c e)

unfoldable pub update_row : Option ℕ → GoString → ℕ → Row → Table → Memstore → Memstore
update_row none name id row t e = put_row name id row t e
update_row (some x) name id row t e = claim x name (row_put id row) t e

unfoldable pub update : Option ℕ → GoString → ℕ → Row → Memstore → Memstore × Result (Unit {0})
unfolding claimed_by_other update_row
update txn name id row e = elim (table_at name e) [
  | none ↦ (e, err (errorf "table %q does not exist"))
  | some t ↦ elim (lookup compare id t.rows) [
    | none ↦ (e, err (errorf "row %d not found in %q"))
    | some old ↦
        if claimed_by_other txn id t e
        then (e, err err_write_conflict)
        else if length row.values == length t.schema.columns
        then (update_row txn name id row t e, ok tt)
        else (e, err (errorf "update has %d values, table has %d columns"))
  ]
]

unfoldable pub delete_row : Option ℕ → GoString → ℕ → Table → Memstore → Memstore
delete_row none name id t e = remove_row name id t e
delete_row (some x) name id t e = claim x name (row_gone id) t e

unfoldable pub delete : Option ℕ → GoString → ℕ → Memstore → Memstore × Result (Unit {0})
unfolding claimed_by_other delete_row
delete txn name id e = elim (table_at name e) [
  | none ↦ (e, err (errorf "table %q does not exist"))
  | some t ↦ elim (lookup compare id t.rows) [
    | none ↦ (e, err (errorf "row %d not found in %q"))
    | some old ↦
        if claimed_by_other txn id t e
        then (e, err err_write_conflict)
        else (delete_row txn name id t e, ok tt)
  ]
]
