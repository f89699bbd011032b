-- ===== src/Memstore/Ending.antt =====
-- Commit and Rollback of memstore/memstore.go: what they make of the transaction's view.
use aura_sql.Prelude.{ℕ, ◌≡◌, ◌≢◌, [], Option, none, some, GoString, str_compare}
use aura_sql.Prelude.Maps.{Map, lookup, Sorted}
use aura_sql.Core.{Row}
use aura_sql.Memstore.{Memstore, Table, pending_of}
use aura_sql.Memstore.View.{rows_of}

abbrev rows_at : GoString → Map GoString Table → Option (Map ℕ Row)
rows_at m ts = rows_of (lookup str_compare m ts)

abbrev table_rows : (Table → Table) → Option Table → Option (Map ℕ Row)
table_rows f none = none
table_rows f (some t) = some (f t).rows

-- The changes of every transaction are kept table by table.
abbrev pub IsPending : Memstore → Type 0
IsPending e = (t : ℕ) → Sorted str_compare (pending_of t e)

-- The transaction has no changes left, and those of the others stay.
abbrev pub Ended : ℕ → Memstore → Memstore → Type 0
Ended t e e' = (pending_of t e' ≡ []) × ((y : ℕ) → y ≢ t → pending_of y e' ≡ pending_of y e)
