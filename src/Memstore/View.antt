-- ===== src/Memstore/View.antt =====
-- What each reader of memstore/memstore.go sees of a table, and what a write by a transaction does to
-- that.
use aura_sql.Prelude.{
  ℕ, ◌+◌, ◌%◌, ◌^◌, ◌≡◌, ◌≢◌, refl, ap, ◌∙◌, compare, List, [], ◌∷◌, ◌++◌, Option, none, some,
  arith, GoString, str_cases, str_compare, str_compare-eq_iff, if◌then◌else◌, Option-cases, inl,
  inr,
}
use aura_sql.Prelude.Maps.{Map, put, remove, lookup-put_self, lookup-put_ne, compare-eq_iff}
use aura_sql.Errors.{Result, ok, err}
use aura_sql.Core.{Row}
use aura_sql.Memstore.{
  Memstore, Table, PendingChange, table_at, changes_in, pending_in, changes_of, with_change,
  with_table, pending_of, add_pending, insert, update, delete, claim, row_put, row_gone,
}
use aura_sql.Memstore.Reads.{overlay}

pub changes_in-put_self :
    (name : GoString) (cs : List PendingChange) (p : Map GoString (List PendingChange))
    → changes_in name (put str_compare name cs p) ≡ cs
unfolding changes_in
changes_in-put_self name cs p =
    rw (changes_in, lookup-put_self str_compare str_compare-eq_iff name cs p) refl

pub changes_in-put_ne :
    (table name : GoString) (cs : List PendingChange) (p : Map GoString (List PendingChange))
    → table ≢ name
    → changes_in table (put str_compare name cs p) ≡ changes_in table p
unfolding changes_in
changes_in-put_ne table name cs p ne =
    rw (changes_in, lookup-put_ne str_compare str_compare-eq_iff table name cs p ne) refl

pub pending_in-put_self :
    (x : ℕ) (p : Map GoString (List PendingChange))
    (all : Map ℕ (Map GoString (List PendingChange)))
    → pending_in x (put compare x p all) ≡ p
unfolding pending_in
pending_in-put_self x p all = rw (pending_in, lookup-put_self compare compare-eq_iff x p all) refl

pub pending_in-put_ne :
    (y x : ℕ) (p : Map GoString (List PendingChange))
    (all : Map ℕ (Map GoString (List PendingChange)))
    → y ≢ x
    → pending_in y (put compare x p all) ≡ pending_in y all
unfolding pending_in
pending_in-put_ne y x p all ne =
    rw (pending_in, lookup-put_ne compare compare-eq_iff y x p all ne) refl

abbrev pub write_rows : PendingChange → Map ℕ Row → Map ℕ Row
write_rows c rows =
    if c.is_delete then remove compare c.row_id rows else put compare c.row_id c.row rows

pub overlay-append :
    (cs : List PendingChange) (c : PendingChange) (rows : Map ℕ Row)
    → overlay (cs ++ (c ∷ [])) rows ≡ write_rows c (overlay cs rows)
unfolding overlay
overlay-append [] c rows = refl
overlay-append (d ∷ cs) c rows = overlay-append cs c (write_rows d rows)

-- The committed rows of a table; `none` where there is no such table.
abbrev pub rows_of : Option Table → Option (Map ℕ Row)
rows_of none = none
rows_of (some t) = some t.rows

abbrev pub committed : GoString → Memstore → Option (Map ℕ Row)
committed name e = rows_of (table_at name e)

abbrev pub overlaid : List PendingChange → Option (Map ℕ Row) → Option (Map ℕ Row)
overlaid cs none = none
overlaid cs (some rows) = some (overlay cs rows)

-- The rows that the transaction sees.
abbrev pub seen : ℕ → GoString → Memstore → Option (Map ℕ Row)
seen x name e = overlaid (changes_of x name e) (committed name e)

abbrev pub write_seen : PendingChange → Option (Map ℕ Row) → Option (Map ℕ Row)
write_seen c none = none
write_seen c (some rows) = some (write_rows c rows)

overlaid-append :
    (cs : List PendingChange) (c : PendingChange) (rows : Option (Map ℕ Row))
    → overlaid (cs ++ (c ∷ [])) rows ≡ write_seen c (overlaid cs rows)
overlaid-append cs c none = refl
overlaid-append cs c (some rows) = ap some (overlay-append cs c rows)

-- Only `x` sees the change, and only in that table.
abbrev pub SeenAfter : ℕ → GoString → PendingChange → Memstore → Memstore → Type 0
SeenAfter x name c e e' =
    (seen x name e' ≡ write_seen c (seen x name e))
    × ((m : GoString) → m ≢ name → seen x m e' ≡ seen x m e)
    × ((y : ℕ) (m : GoString) → y ≢ x → seen y m e' ≡ seen y m e)
    × ((m : GoString) → committed m e' ≡ committed m e)

-- A write that fails changes nothing.
abbrev pub Written {ℓ} :
    {A : Type ℓ} → ℕ → GoString → (A → PendingChange) → Memstore → Memstore × Result A → Type 0
Written x name c e (e', ok a) = SeenAfter x name (c a) e e'
Written x name c e (e', err _) = e' ≡ e

committed-with_table :
    (name m : GoString) (t u : Table) (e : Memstore)
    → table_at name e ≡ some t
    → u.rows ≡ t.rows
    → committed m (with_table name u e) ≡ committed m e
committed-with_table name m t u e at same = elim (str_cases m name) [
  | inl here ↦
      rw (here, lookup-put_self str_compare str_compare-eq_iff name u e.tables, at, same) refl
  | inr ne ↦ rw (lookup-put_ne str_compare str_compare-eq_iff m name u e.tables ne) refl
]

-- A recorded change, where the committed rows stay.
SeenAfter-add :
    (x : ℕ) (name : GoString) (c : PendingChange) (e e' : Memstore)
    → ((m : GoString) → committed m e' ≡ committed m e)
    → (e'.pending ≡ put compare x (with_change x name c e) e.pending)
    → SeenAfter x name c e e'
SeenAfter-add x name c e e' kept same = (
  rw
      (
        kept name,
        own,
        changes_in-put_self name (changes_of x name e ++ (c ∷ [])) (pending_of x e),
        overlaid-append (changes_of x name e) c (committed name e),
      )
      refl,
  λ m ne.
      rw
        (
          kept m,
          own,
          changes_in-put_ne m name (changes_of x name e ++ (c ∷ [])) (pending_of x e) ne,
        )
        refl,
  λ y m ne. rw (kept m, same, pending_in-put_ne y x (with_change x name c e) e.pending ne) refl,
  kept,
)
  where
    own : pending_of x e' ≡ with_change x name c e
    own = ap (pending_in x) same ∙ pending_in-put_self x (with_change x name c e) e.pending

claim_lem :
    (x : ℕ) (name : GoString) (c : PendingChange) (t : Table) (e : Memstore)
    → table_at name e ≡ some t
    → SeenAfter x name c e (claim x name c t e)
unfolding add_pending
claim_lem x name c t e at =
    SeenAfter-add x name c e (claim x name c t e)
      (λ m. committed-with_table name m t _ (add_pending x name c e) at refl) refl

-- An INSERT by a transaction is seen by it as the row under the new id, and by nobody else; one that
-- fails changes nothing.
pub insert_seen :
    (x : ℕ) (name : GoString) (row : Row) (e : Memstore)
    → Written x name (λ id. row_put id row) e (insert (some x) name row e)
unfolding insert add_pending
insert_seen x name row e =
    let id = (e.next_id + 1) % 2 ^ 64 in
    let e' : Memstore = record e { next_id = id } in
    let seen_after =
      SeenAfter-add x name (row_put id row) e (add_pending x name (row_put id row) e') (λ m. refl)
        refl in
    elim (Option-cases (table_at name e)) [
      | inl gone ↦ rw (gone, insert) refl
      | inr (t, at) ↦ rw (at, insert) (ground arith)
    ]

pub update_seen :
    (x : ℕ) (name : GoString) (id : ℕ) (row : Row) (e : Memstore)
    → Written x name (λ _. row_put id row) e (update (some x) name id row e)
unfolding update
update_seen x name id row e = elim (Option-cases (table_at name e)) [
  | inl gone ↦ rw (gone, update) refl
  | inr (t, at) ↦
      let seen_after = claim_lem x name (row_put id row) t e at in rw (at, update) (ground arith)
]

-- A DELETE by a transaction takes the row from what it sees, and from nobody else's view; one that
-- fails changes nothing.
pub delete_seen :
    (x : ℕ) (name : GoString) (id : ℕ) (e : Memstore)
    → Written x name (λ _. row_gone id) e (delete (some x) name id e)
unfolding delete
delete_seen x name id e = elim (Option-cases (table_at name e)) [
  | inl gone ↦ rw (gone, delete) refl
  | inr (t, at) ↦
      let seen_after = claim_lem x name (row_gone id) t e at in rw (at, delete) (ground arith)
]
