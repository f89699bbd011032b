-- ===== src/Storage/Mvcc/Conflict.antt =====
-- Write conflicts: what `checkWriteConflict` catches, and the concurrent update that it lets pass.
use aura_sql.Prelude.{ℕ, ◌≡◌, ◌≢◌, ap, subst, true, false, arith}
use aura_sql.Errors.{ok, is_ok}
use aura_sql.Core.{Row}
use aura_sql.Storage.Mvcc.{
  Txns, with_committed, begin, commit, is_visible, check_write_conflict, next_id,
}
use aura_sql.Storage.Mvcc.Invariant.{IsTxns, snapshot_has, commit-eq-ok}

-- Somebody else deleted or replaced the version, and has committed.
abbrev pub Superseded : Txns → ℕ → Row → Type 0
Superseded e t row = (row.xmax ≢ 0) × (row.xmax ≢ t) × (e.committed row.xmax ≡ true)

-- Somebody else created the version, and has committed outside the snapshot of `t`.
abbrev pub CreatedSince : Txns → ℕ → Row → Type 0
CreatedSince e t row =
    (row.xmin ≢ t)
    × (e.committed row.xmin ≡ true)
    × (snapshot_has (e.txn_snapshots t) row.xmin ≡ false)

-- First committer wins, one after the other: where `u` has replaced a version and committed, no
-- other transaction passes the check on it.
pub check_after_commit :
    (e e' : Txns) (t u : ℕ) (row : Row)
    → IsTxns e
    → u ≢ t
    → commit u e ≡ ok e'
    → is_ok (check_write_conflict e' t (record row { xmax = u })) ≡ false
unfolding check_write_conflict
check_after_commit e e' t u row h ne done =
    let open_u = (commit-eq-ok e e' u done).0 in
    let used : u ≢ 0 = λ z. cc (ap e.active_txns z, h.zero_unused.0) in
    subst (λ g. is_ok (check_write_conflict g t (record row { xmax = u })) ≡ false)
      (commit-eq-ok e e' u done).1 (ground (arith, used, ne))

-- A write that has not been committed is no conflict.
check_concurrent :
    (e : Txns) (t u : ℕ) (row : Row)
    → IsTxns e
    → e.active_txns u ≡ true
    → check_write_conflict e t row ≡ ok tt
    → check_write_conflict e t (record row { xmax = u }) ≡ ok tt
unfolding check_write_conflict
check_concurrent e t u row h hu pass = ground (arith, h.active_open u hu)

-- What a transaction that begins sees of a version that is not deleted.
sees_committed :
    (e : Txns) (id : ℕ) → e.committed id ≡ true → is_visible (begin e) (next_id e) id 0 ≡ true
unfolding is_visible begin
sees_committed e id c = ground arith

-- Two open transactions may both replace one version: the second passes the check while the first
-- is open. After both have committed, a transaction that begins sees the versions of both.
pub concurrent_updates_both_visible :
    (e e1 e2 : Txns) (t u : ℕ) (row : Row)
    → IsTxns e
    → u ≢ t
    → check_write_conflict e t row ≡ ok tt
    → commit u e ≡ ok e1
    → commit t e1 ≡ ok e2
    → (check_write_conflict e t (record row { xmax = u }) ≡ ok tt)
      × (is_visible (begin e2) (next_id e2) u 0 ≡ true)
      × (is_visible (begin e2) (next_id e2) t 0 ≡ true)
concurrent_updates_both_visible e e1 e2 t u row h ne pass first second =
    let (open_u, at1) = commit-eq-ok e e1 u first in
    let (open_t, at2) = commit-eq-ok e1 e2 t second in
    let both : (e2.committed u ≡ true) × (e2.committed t ≡ true) =
      subst (λ g. (g.committed u ≡ true) × (g.committed t ≡ true)) at2
        (subst
          (λ g.
            ((with_committed t g).committed u ≡ true) × ((with_committed t g).committed t ≡ true))
          at1 (ground arith, ground arith)) in
    (
      check_concurrent e t u row h open_u pass,
      sees_committed e2 u both.0,
      sees_committed e2 t both.1,
    )
