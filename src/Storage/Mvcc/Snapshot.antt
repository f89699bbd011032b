-- ===== src/Storage/Mvcc/Snapshot.antt =====
-- What a transaction sees: its own versions, and those of its snapshot, which nobody else changes.
use aura_sql.Prelude.{ℕ, suc, ◌^◌, ◌<◌, ◌≡◌, refl, ◌≢◌, ◌∙◌, ◌⊎◌, subst, true, false, arith}
use aura_sql.Errors.{ok}
use aura_sql.Storage.Mvcc.{Txns, begin, commit, rollback, is_visible}
use aura_sql.Storage.Mvcc.Invariant.{
  IsTxns, Step, began, committed, rolled_back, has_snapshot, snapshot_has, commit-eq-ok,
  Step-IsTxns,
}

-- A call of another transaction, or the start of one.
pub data OthersStep (t : ℕ) : Txns → Txns → Type 0 where
  other_began : (e : Txns) → suc e.next_tx < 2 ^ 64 → OthersStep t e (begin e)
  other_committed : (e e' : Txns) (u : ℕ) → u ≢ t → commit u e ≡ ok e' → OthersStep t e e'
  other_rolled_back : (e : Txns) (u : ℕ) → u ≢ t → OthersStep t e (rollback u e)

pub data OthersRun (t : ℕ) (e : Txns) : Txns → Type 0 where
  start : OthersRun t e e
  then_step : {f g : Txns} → OthersRun t e f → OthersStep t f g → OthersRun t e g

-- The two states agree on everything that the transaction can see.
abbrev pub SeesTheSame : ℕ → Txns → Txns → Type 0
SeesTheSame t e f = (xmin xmax : ℕ) → is_visible f t xmin xmax ≡ is_visible e t xmin xmax

-- Visibility looks at the snapshot alone.
sees_by_snapshot :
    (t : ℕ) (e f : Txns)
    → f.txn_snapshots t ≡ e.txn_snapshots t
    → has_snapshot (e.txn_snapshots t) ≡ true
    → SeesTheSame t e f
unfolding is_visible
sees_by_snapshot t e f same frozen xmin xmax = ground arith

-- The transaction stays open under the snapshot that it has.
abbrev StaysOpen : ℕ → Txns → Txns → Type 0
StaysOpen t e f = (f.txn_snapshots t ≡ e.txn_snapshots t) × (f.active_txns t ≡ true)

OthersStep-StaysOpen :
    (t : ℕ) {e f : Txns} → OthersStep t e f → IsTxns e → e.active_txns t ≡ true → StaysOpen t e f
OthersStep-StaysOpen t (other_began e room) h open_txn =
    unfold begin in (ground (arith, h.active_started t), ground arith)
OthersStep-StaysOpen t (other_committed e e' u ne done) h open_txn =
    subst (λ f. StaysOpen t e f) (commit-eq-ok e e' u done).1 (ground arith, ground arith)
OthersStep-StaysOpen t (other_rolled_back e u ne) h open_txn =
    unfold rollback in (ground arith, ground arith)

as-Step : (t : ℕ) {e f : Txns} → OthersStep t e f → Step e f
as-Step t (other_began e room) = began e room
as-Step t (other_committed e e' u ne done) = committed e e' u done
as-Step t (other_rolled_back e u ne) = rolled_back e u

OthersRun-StaysOpen :
    (t : ℕ) {e f : Txns}
    → OthersRun t e f
    → IsTxns e
    → e.active_txns t ≡ true
    → StaysOpen t e f × IsTxns f
OthersRun-StaysOpen t start h open_txn = ((refl, open_txn), h)
OthersRun-StaysOpen t (then_step r s) h open_txn =
    let (stays, hg) = OthersRun-StaysOpen t r h open_txn in
    let (same, still) = OthersStep-StaysOpen t s hg stays.1 in
    ((same ∙ stays.0, still), Step-IsTxns (as-Step t s) hg)

-- An open transaction sees the same versions from its start to its end, however many other
-- transactions begin, commit and roll back in between.
pub is_visible_stable :
    (t : ℕ) {e f : Txns}
    → IsTxns e
    → e.active_txns t ≡ true
    → OthersRun t e f
    → (xmin xmax : ℕ) → is_visible f t xmin xmax ≡ is_visible e t xmin xmax
is_visible_stable t {e} {f} h open_txn run =
    sees_by_snapshot t e f (OthersRun-StaysOpen t run h open_txn).0.0 (h.active_frozen t open_txn)

-- No dirty read: a version that an open transaction sees is its own, or its creator has committed
-- and is not open; and it has not been deleted by the reader, nor by a deleter in its snapshot.
pub is_visible_clean :
    (e : Txns) (t xmin xmax : ℕ)
    → IsTxns e
    → e.active_txns t ≡ true
    → is_visible e t xmin xmax ≡ true
    → ((xmin ≡ t) ⊎ ((e.committed xmin ≡ true) × (e.active_txns xmin ≡ false)))
      × ((xmax ≡ 0) ⊎ ((xmax ≢ t) × (snapshot_has (e.txn_snapshots t) xmax ≡ false)))
unfolding is_visible
is_visible_clean e t xmin xmax h open_txn seen = (
  ground (arith, h.snapshot_committed t xmin, h.active_open xmin, h.active_frozen t open_txn),
  ground (arith, h.active_frozen t open_txn),
)
