-- ===== src/Tests/Mvcc.antt =====
-- Transactions on concrete schedules: 1 begins and commits, then 2 and 3 are open.
use aura_sql.Prelude.{ℕ, ◌≡◌, ◌≢◌, refl, ◌⊎◌, true, false, [], arith}
use aura_sql.Errors.{ok, is_ok}
use aura_sql.Core.{Row}
use aura_sql.Storage.Mvcc.{
  Txns, new_txns, begin, with_committed, commit, is_visible, check_write_conflict, next_id,
}
use aura_sql.Storage.Mvcc.Invariant.{
  IsTxns, Reach, here, next, began, committed, snapshot_has, Reach-IsTxns,
}
use aura_sql.Storage.Mvcc.Snapshot.{
  start, then_step, other_committed, is_visible_stable, is_visible_clean,
}
use aura_sql.Storage.Mvcc.Conflict.{check_after_commit, concurrent_updates_both_visible}

abbrev one_committed : Txns
one_committed = with_committed 1 (begin new_txns)

abbrev two_open : Txns
two_open = begin (begin one_committed)

commit_one : commit 1 (begin new_txns) ≡ ok one_committed
unfolding commit begin
commit_one = refl

two_open-Reach : Reach new_txns two_open
unfolding begin
two_open-Reach =
    next
      (next
        (next (next here (began new_txns (omega arith)))
          (committed (begin new_txns) one_committed 1 commit_one))
        (began one_committed (omega arith)))
      (began (begin one_committed) (omega arith))

Reach-IsTxns_example : IsTxns two_open
Reach-IsTxns_example = Reach-IsTxns two_open-Reach

two_open-IsTxns : IsTxns two_open
two_open-IsTxns = Reach-IsTxns two_open-Reach

open_two : two_open.active_txns 2 ≡ true
unfolding begin
open_two = refl

commit_three : commit 3 two_open ≡ ok (with_committed 3 two_open)
unfolding commit begin
commit_three = refl

commit_two :
    commit 2 (with_committed 3 two_open) ≡ ok (with_committed 2 (with_committed 3 two_open))
unfolding commit begin
commit_two = refl

three_ne_two : ◌≢◌ {A = ℕ} 3 2
three_ne_two = omega arith

-- The version that transaction 1 created.
abbrev version : Row
version = record { values = []; xmin = 1; xmax = 0 }

is_visible_stable_example : is_visible (with_committed 3 two_open) 2 1 3 ≡ is_visible two_open 2 1 3
is_visible_stable_example =
    is_visible_stable 2 two_open-IsTxns open_two
      (then_step start
        (other_committed two_open (with_committed 3 two_open) 3 three_ne_two commit_three))
      1 3

version_seen : is_visible two_open 2 1 0 ≡ true
unfolding is_visible begin
version_seen = refl

is_visible_clean_example :
    ((◌≡◌ {A = ℕ} 1 2) ⊎ ((two_open.committed 1 ≡ true) × (two_open.active_txns 1 ≡ false)))
    × ((◌≡◌ {A = ℕ} 0 0)
        ⊎ ((◌≢◌ {A = ℕ} 0 2) × (snapshot_has (two_open.txn_snapshots 2) 0 ≡ false)))
is_visible_clean_example = is_visible_clean two_open 2 1 0 two_open-IsTxns open_two version_seen

check_after_commit_example :
    is_ok (check_write_conflict (with_committed 3 two_open) 2 (record version { xmax = 3 })) ≡ false
check_after_commit_example =
    check_after_commit two_open (with_committed 3 two_open) 2 3 version two_open-IsTxns three_ne_two
      commit_three

may_write : check_write_conflict two_open 2 version ≡ ok tt
unfolding check_write_conflict begin
may_write = refl

concurrent_updates_both_visible_example :
    let e : Txns = with_committed 2 (with_committed 3 two_open) in
    (check_write_conflict two_open 2 (record version { xmax = 3 }) ≡ ok tt)
    × (is_visible (begin e) (next_id e) 3 0 ≡ true)
    × (is_visible (begin e) (next_id e) 2 0 ≡ true)
concurrent_updates_both_visible_example =
    concurrent_updates_both_visible two_open (with_committed 3 two_open)
      (with_committed 2 (with_committed 3 two_open)) 2 3 version two_open-IsTxns three_ne_two
      may_write commit_three commit_two
