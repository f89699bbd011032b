-- ===== src/Core/Engine.antt =====
-- core/core.go: the interface `StorageEngine` between the executor and an engine whose state is `S`,
-- and the results of a `RowIterator`.
use aura_sql.Prelude.{ℕ, Bool, List, [], ◌∷◌, Option, GoString}
use aura_sql.Errors.{Error, Result}
use aura_sql.Core.{Value, Schema, Row}

-- What the successive calls of `Next` return, to the first that has no row.
pub data Stream {ℓ} (A : Type ℓ) : Type ℓ where
  done : Stream A
  failed : Error → Stream A
  next : A → Stream A → Stream A

-- A cursor over rows that are all at hand.
unfoldable pub stream_of {ℓ} : {A : Type ℓ} → List A → Stream A
stream_of [] = done
stream_of (a ∷ rest) = next a (stream_of rest)

-- A `Txn` is its id. A RowID is a number; a cursor's rows are taken to share no memory
-- with the engine, as it is with storage/, whose cursors decode each row anew.
pub record StorageEngine (S : Type 0) : Type 0 where
  pub begin : S → S × Result ℕ
  pub commit : ℕ → S → S × Result (Unit {0})
  pub rollback : ℕ → S → S × Result (Unit {0})
  pub create_table : ℕ → GoString → Schema → S → S × Result (Unit {0})
  pub create_index : ℕ → GoString → GoString → S → S × Result (Unit {0})
  pub get_schema : S → GoString → Option Schema
  pub has_index : S → GoString → GoString → Bool
  pub insert : ℕ → GoString → Row → S → S × Result ℕ
  pub update : ℕ → GoString → ℕ → Row → S → S × Result (Unit {0})
  pub delete : ℕ → GoString → ℕ → S → S × Result (Unit {0})
  pub scan : S → ℕ → GoString → Result (Stream (ℕ × Row))
  pub seek_index : S → ℕ → GoString → GoString → Value → Result (Stream (ℕ × Row))
