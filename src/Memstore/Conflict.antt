-- ===== src/Memstore/Conflict.antt =====
-- Write conflicts in memstore/memstore.go, and the rows that a transaction cannot write.
use aura_sql.Prelude.{ℕ, ◌≡◌, some, GoString}
use aura_sql.Errors.{err, err_write_conflict}
use aura_sql.Core.{Row}
use aura_sql.Memstore.{Memstore, update, delete}

-- The transaction `y` is refused every write to the row.
abbrev pub Refused : ℕ → GoString → ℕ → Memstore → Type 0
Refused y m id e =
    ((row : Row) → update (some y) m id row e ≡ (e, err err_write_conflict))
    × (delete (some y) m id e ≡ (e, err err_write_conflict))
