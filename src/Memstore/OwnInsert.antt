-- ===== src/Memstore/OwnInsert.antt =====
-- A row that a transaction of memstore/memstore.go has inserted itself.
use aura_sql.Prelude.{
  ℕ, ◌≡◌, refl, sym, subst, ◌∙◌, compare, Option, none, some, inl, inr, Option-cases, GoString,
}
use aura_sql.Prelude.Maps.{Map, lookup, lookup-put_self, compare-eq_iff}
use aura_sql.Errors.{ok, err, errorf}
use aura_sql.Core.{Row}
use aura_sql.Memstore.{Memstore, table_at, insert, update, delete, row_put}
use aura_sql.Memstore.View.{committed, seen, SeenAfter, Written, insert_seen}

-- The reader sees the row under the id.
abbrev pub Sees : ℕ → Row → Option (Map ℕ Row) → Type 0
Sees id row none = ⊥
Sees id row (some rows) = lookup compare id rows ≡ some row

-- The engine refuses the transaction's writes to the row as to one that is not there.
abbrev pub NotFound : ℕ → GoString → ℕ → Memstore → Type 0
NotFound x m id e =
    ((row : Row) → update (some x) m id row e ≡ (e, err (errorf "row %d not found in %q")))
    × (delete (some x) m id e ≡ (e, err (errorf "row %d not found in %q")))

absent-NotFound :
    (x : ℕ) (m : GoString) (id : ℕ) (rows : Map ℕ Row) (e : Memstore)
    → committed m e ≡ some rows
    → lookup compare id rows ≡ none
    → NotFound x m id e
unfolding update delete
absent-NotFound x m id rows e there absent = elim (Option-cases (table_at m e)) [
  | inl gone ↦ absurd (let there' = rw gone at there in cc)
  | inr (t, at) ↦
      let same = some_injective (rw at at there) in
      let absent' = subst (λ r. lookup compare id r ≡ none) (sym same) absent in
      (λ row. rw (at, update) (rw absent' refl), rw (at, delete) (rw absent' refl))
]
  where
    some_injective : {A : Type 0} {a b : A} → some a ≡ some b → a ≡ b
    some_injective h = cc

seen-after :
    (x : ℕ) (m : GoString) (id : ℕ) (row : Row) (rows : Map ℕ Row) (e e' : Memstore)
    → committed m e ≡ some rows
    → SeenAfter x m (row_put id row) e e'
    → Sees id row (seen x m e')
seen-after x m id row rows e e' there h =
    subst (Sees id row) (sym h.0) (rw there (lookup-put_self compare compare-eq_iff id row _))

-- A transaction that has inserted a row sees it, and can neither update nor delete it: the engine looks
-- among the committed rows, where the new id is not.
pub insert_then_write :
    (x : ℕ) (m : GoString) (id : ℕ) (row : Row) (rows : Map ℕ Row) (e e' : Memstore)
    → committed m e ≡ some rows
    → lookup compare id rows ≡ none
    → insert (some x) m row e ≡ (e', ok id)
    → Sees id row (seen x m e') × NotFound x m id e'
insert_then_write x m id row rows e e' there absent h =
    let after = subst (Written x m (λ k. row_put k row) e) h (insert_seen x m row e) in
    (
      seen-after x m id row rows e e' there after,
      absent-NotFound x m id rows e' (after.3 m ∙ there) absent,
    )
