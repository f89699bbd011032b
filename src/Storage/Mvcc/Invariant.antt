-- ===== src/Storage/Mvcc/Invariant.antt =====
-- What holds of the engine's transaction state after any calls of Begin, Commit and Rollback.
use aura_sql.Prelude.{
  ℕ, suc, ◌^◌, ◌≤◌, ◌<◌, ◌≡◌, inl, inr, subst, Bool-cases, Bool, true, false, Option, none, some,
  arith,
}
use aura_sql.Errors.{ok}
use aura_sql.Storage.Mvcc.{Txns, TxnSet, new_txns, with_committed, begin, commit, rollback}

abbrev pub snapshot_has : Option TxnSet → ℕ → Bool
snapshot_has none id = false
snapshot_has (some snap) id = snap id

abbrev pub has_snapshot : Option TxnSet → Bool
has_snapshot none = false
has_snapshot (some snap) = true

pub record IsTxns (e : Txns) : Type 0 where
  pub counted : e.next_tx < 2 ^ 64
  pub zero_unused : (e.active_txns 0 ≡ false) × (e.committed 0 ≡ false)
  pub active_started : (t : ℕ) → e.active_txns t ≡ true → t ≤ e.next_tx
  pub committed_started : (t : ℕ) → e.committed t ≡ true → t ≤ e.next_tx
  pub active_open : (t : ℕ) → e.active_txns t ≡ true → e.committed t ≡ false
  pub active_frozen : (t : ℕ) → e.active_txns t ≡ true → has_snapshot (e.txn_snapshots t) ≡ true
  pub snapshot_committed :
      (t id : ℕ) → snapshot_has (e.txn_snapshots t) id ≡ true → e.committed id ≡ true

-- One call on the transaction state, while there are ids left.
pub data Step : Txns → Txns → Type 0 where
  began : (e : Txns) → suc e.next_tx < 2 ^ 64 → Step e (begin e)
  committed : (e e' : Txns) (t : ℕ) → commit t e ≡ ok e' → Step e e'
  rolled_back : (e : Txns) (t : ℕ) → Step e (rollback t e)

pub data Reach (e : Txns) : Txns → Type 0 where
  here : Reach e e
  next : {f g : Txns} → Reach e f → Step f g → Reach e g

pub new_txns-IsTxns : IsTxns new_txns
new_txns-IsTxns = record {
  counted = omega arith;
  zero_unused = ground arith;
  active_started = λ t h. cc;
  committed_started = λ t h. cc;
  active_open = λ t h. cc;
  active_frozen = λ t h. cc;
  snapshot_committed = λ t id k. cc;
}

pub begin-IsTxns : (e : Txns) → suc e.next_tx < 2 ^ 64 → IsTxns e → IsTxns (begin e)
unfolding begin
begin-IsTxns e room h = record {
  counted = ground arith;
  zero_unused = ground arith;
  active_started = λ t a. ground (arith, h.active_started t);
  committed_started = λ t c. ground (arith, h.committed_started t);
  active_open = λ t a. ground (arith, h.active_open t, h.committed_started t);
  active_frozen = λ t a. ground (arith, h.active_frozen t);
  snapshot_committed = λ t id c. ground (arith, h.snapshot_committed t id);
}

-- A commit succeeds exactly for an active transaction.
pub commit-eq-ok :
    (e e' : Txns) (t : ℕ)
    → commit t e ≡ ok e'
    → (e.active_txns t ≡ true) × (with_committed t e ≡ e')
unfolding commit
commit-eq-ok e e' t done = elim (Bool-cases (e.active_txns t)) [
  | inl open_txn ↦ (open_txn, value (rw open_txn at done))
  | inr closed ↦ absurd (cc (rw closed at done))
]
  where
    value : ok (with_committed t e) ≡ ok e' → with_committed t e ≡ e'
    value h = cc

with_committed-IsTxns :
    (e : Txns) (t : ℕ) → e.active_txns t ≡ true → IsTxns e → IsTxns (with_committed t e)
with_committed-IsTxns e t open_txn h = record {
  counted = h.counted;
  zero_unused = ground arith;
  active_started = λ u a. ground (arith, h.active_started u);
  committed_started = λ u c. ground (arith, h.committed_started u, h.active_started t);
  active_open = λ u a. ground (arith, h.active_open u);
  active_frozen = λ u a. ground (arith, h.active_frozen u);
  snapshot_committed = λ u id c. ground (arith, h.snapshot_committed u id);
}

rollback-IsTxns : (e : Txns) (t : ℕ) → IsTxns e → IsTxns (rollback t e)
unfolding rollback
rollback-IsTxns e t h = record {
  counted = h.counted;
  zero_unused = ground arith;
  active_started = λ u a. ground (arith, h.active_started u);
  committed_started = h.committed_started;
  active_open = λ u a. ground (arith, h.active_open u);
  active_frozen = λ u a. ground (arith, h.active_frozen u);
  snapshot_committed = λ u id c. ground (arith, h.snapshot_committed u id);
}

pub Step-IsTxns : {e f : Txns} → Step e f → IsTxns e → IsTxns f
Step-IsTxns (began e room) h = begin-IsTxns e room h
Step-IsTxns (committed e e' t done) h =
    let (open_txn, same) = commit-eq-ok e e' t done in
    subst (λ g. IsTxns g) same (with_committed-IsTxns e t open_txn h)
Step-IsTxns (rolled_back e t) h = rollback-IsTxns e t h

-- Whatever is begun, committed and rolled back since the engine was opened, and in whatever order:
-- no id is both active and committed, every active transaction has a snapshot, and every snapshot
-- holds committed transactions only.
pub Reach-IsTxns : {e : Txns} → Reach new_txns e → IsTxns e
Reach-IsTxns here = new_txns-IsTxns
Reach-IsTxns (next r s) = Step-IsTxns s (Reach-IsTxns r)
