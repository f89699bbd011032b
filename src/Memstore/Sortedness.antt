-- ===== src/Memstore/Sortedness.antt =====
-- The order in which memstore/memstore.go keeps a table's rows and a transaction's changes.
use native.Mathlib.Decide.{ℕ_discrete}
use aura_sql.Prelude.{
  ℕ, ◌≡◌, sym, subst, compare, List, [], ◌∷◌, ◌++◌, Option, none, some, arith, GoString, str_cases,
  str_compare, str_compare-eq_iff, inl, inr,
}
use aura_sql.Prelude.Maps.{
  Map, put, Sorted, lookup-put_self, lookup-put_ne, put-Sorted_ℕ, put-Sorted_str, remove-Sorted,
}
use aura_sql.Core.{Row}
use aura_sql.Memstore.{
  Memstore, Table, PendingChange, table_at, with_table, pending_in, pending_of, changes_of,
  with_change, add_pending,
}
use aura_sql.Memstore.Reads.{overlay}
use aura_sql.Memstore.View.{committed, overlaid, write_rows, pending_in-put_self, pending_in-put_ne}
use aura_sql.Memstore.Ending.{IsPending}

abbrev pub SortedRows : Option (Map ℕ Row) → Type 0
SortedRows none = Unit
SortedRows (some rows) = Sorted compare rows

-- Each table's committed rows are in the order of their ids, and each transaction's changes are kept
-- table by table.
abbrev pub IsMemstore : Memstore → Type 0
IsMemstore e = IsPending e × ((m : GoString) → SortedRows (committed m e))

pub write_rows-Sorted :
    (c : PendingChange) (rows : Map ℕ Row)
    → Sorted compare rows
    → Sorted compare (write_rows c rows)
write_rows-Sorted c rows h =
    let after_put = put-Sorted_ℕ c.row_id c.row rows h in
    let after_remove = remove-Sorted compare c.row_id rows h in ground arith

pub overlay-Sorted :
    (cs : List PendingChange) (rows : Map ℕ Row)
    → Sorted compare rows
    → Sorted compare (overlay cs rows)
unfolding overlay
overlay-Sorted [] rows h = h
overlay-Sorted (c ∷ cs) rows h = overlay-Sorted cs (write_rows c rows) (write_rows-Sorted c rows h)

pub overlaid-Sorted :
    (cs : List PendingChange) (rows : Option (Map ℕ Row))
    → SortedRows rows
    → SortedRows (overlaid cs rows)
overlaid-Sorted cs none h = tt
overlaid-Sorted cs (some rows) h = overlay-Sorted cs rows h

pub add_pending-IsPending :
    (x : ℕ) (m : GoString) (c : PendingChange) (e : Memstore)
    → IsPending e
    → IsPending (add_pending x m c e)
unfolding add_pending
add_pending-IsPending x m c e h y = elim (ℕ_discrete y x) [
  | yes own ↦
      subst (λ t. Sorted str_compare (pending_in t (put compare x (with_change x m c e) e.pending)))
        (sym own)
        (rw (pending_in-put_self x (with_change x m c e) e.pending)
          (put-Sorted_str m (changes_of x m e ++ (c ∷ [])) (pending_of x e) (h x)))
  | no ne ↦ rw (pending_in-put_ne y x (with_change x m c e) e.pending ne) (h y)
]

-- A table is replaced by one whose rows are in order.
pub with_table-IsMemstore :
    (m : GoString) (t : Table) (e : Memstore)
    → Sorted compare t.rows
    → IsMemstore e
    → IsMemstore (with_table m t e)
with_table-IsMemstore m t e sorted h = (
  h.0,
  λ k. elim (str_cases k m) [
    | inl here ↦ rw (here, lookup-put_self str_compare str_compare-eq_iff m t e.tables) sorted
    | inr ne ↦ rw (lookup-put_ne str_compare str_compare-eq_iff k m t e.tables ne) (h.1 k)
  ],
)

-- A table that is there has its rows in order.
pub table_at-Sorted :
    (m : GoString) (t : Table) (e : Memstore)
    → IsMemstore e
    → table_at m e ≡ some t
    → Sorted compare t.rows
table_at-Sorted m t e h at = rw at at (h.1 m)

pub add_pending-IsMemstore :
    (x : ℕ) (m : GoString) (c : PendingChange) (e : Memstore)
    → IsMemstore e
    → IsMemstore (add_pending x m c e)
unfolding add_pending
add_pending-IsMemstore x m c e h = (add_pending-IsPending x m c e h.0, h.1)
