-- ===== src/Storage/Mvcc.antt =====
-- storage/engine.go: the transaction state of the engine, visibility and write conflicts. The maps
-- with `bool` values are sets; a set is a function into `Bool`.
pub mod Invariant
pub mod Snapshot
pub mod Conflict
use aura_sql.Prelude.{
  ℕ, ◌+◌, ◌%◌, ◌^◌, Bool, true, false, not, ◌&&◌, ◌||◌, Option, none, some, ◌==◌, if◌then◌else◌,
}
use aura_sql.Errors.{Result, ok, err, errorf}
use aura_sql.Core.{Row}

abbrev pub TxnSet : Type 0
TxnSet = ℕ → Bool

abbrev pub no_txn : TxnSet
no_txn id = false

abbrev pub add : ℕ → TxnSet → TxnSet
add t s id = if id == t then true else s id

abbrev pub remove : ℕ → TxnSet → TxnSet
remove t s id = if id == t then false else s id

abbrev pub Snapshots : Type 0
Snapshots = ℕ → Option TxnSet

abbrev pub put_snapshot : ℕ → TxnSet → Snapshots → Snapshots
put_snapshot t snap m id = if id == t then some snap else m id

abbrev pub drop_snapshot : ℕ → Snapshots → Snapshots
drop_snapshot t m id = if id == t then none else m id

-- The fields of `Engine` that concern transactions; `txn_snapshots` holds the committed set as it
-- was when each open transaction began.
pub record Txns : Type 0 where
  pub next_tx : ℕ
  pub active_txns : TxnSet
  pub committed : TxnSet
  pub txn_snapshots : Snapshots

-- The state that `New` gives an engine, whatever is on disk.
abbrev pub new_txns : Txns
new_txns = record {
  next_tx = 0;
  active_txns = no_txn;
  committed = no_txn;
  txn_snapshots = λ id. none;
}

abbrev pub next_id : Txns → ℕ
next_id e = (e.next_tx + 1) % 2 ^ 64

-- `Begin`: the new transaction's id is `next_tx` of the result.
unfoldable pub begin : Txns → Txns
begin e = record {
  next_tx = next_id e;
  active_txns = add (next_id e) e.active_txns;
  committed = e.committed;
  txn_snapshots = put_snapshot (next_id e) e.committed e.txn_snapshots;
}

abbrev pub with_committed : ℕ → Txns → Txns
with_committed t e = record e {
  active_txns = remove t e.active_txns;
  txn_snapshots = drop_snapshot t e.txn_snapshots;
  committed = add t e.committed;
}

unfoldable pub commit : ℕ → Txns → Result Txns
commit t e =
    if e.active_txns t then ok (with_committed t e) else err (errorf "transaction %d not active")

unfoldable pub rollback : ℕ → Txns → Txns
rollback t e = record e {
  active_txns = remove t e.active_txns;
  txn_snapshots = drop_snapshot t e.txn_snapshots;
}

-- `committed` as of the snapshot of `t`, or now if it has none.
abbrev pub seen_by : Txns → ℕ → TxnSet
seen_by e t id = elim (e.txn_snapshots t) [ none ↦ e.committed id | some snap ↦ snap id ]

unfoldable pub is_visible : Txns → ℕ → ℕ → ℕ → Bool
is_visible e t xmin xmax =
    let created_visible = xmin == t || seen_by e t xmin in
    let deleted = not (xmax == 0) && (xmax == t || seen_by e t xmax) in
    if created_visible then not deleted else false

-- The creator committed, outside the snapshot of `t`.
abbrev pub created_since : Txns → ℕ → ℕ → Bool
created_since e t xmin = elim (e.txn_snapshots t) [
  | none ↦ false
  | some snap ↦ not (xmin == t) && (e.committed xmin && not (snap xmin))
]

abbrev pub deleter_committed : Txns → ℕ → ℕ → Bool
deleter_committed e t xmax = not (xmax == 0) && (not (xmax == t) && e.committed xmax)

unfoldable pub check_write_conflict : Txns → ℕ → Row → Result (Unit {0})
check_write_conflict e t row =
    if deleter_committed e t row.xmax
    then err (errorf "write conflict: row modified by a concurrent transaction")
    else if created_since e t row.xmin
    then err
        (errorf "write conflict: row modified by a transaction that committed after this one began")
    else ok tt
