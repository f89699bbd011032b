-- ===== src/Storage/Catalog.antt =====
-- storage/catalog.go: the tables by name, with the lookup that storage/engine.go puts before its
-- operations on a table. The code changes a table in place: here the changed one is put back.
use aura_sql.Prelude.{ℕ, ◌≡◌, ◌≢◌, false, List, map, GoString, none, some, str_compare}
use aura_sql.Prelude.Maps.{Map, lookup, put, remove}
use aura_sql.Errors.{Result, ok, err, errorf}
use aura_sql.Core.{Value, Column, Row}
use aura_sql.Storage.Mvcc.{Txns}
use aura_sql.Storage.BufferPool.{Pool}
use aura_sql.Storage.Table.{Table}
use aura_sql.Storage.Table

abbrev pub Catalog : Type 0 → Type 0
Catalog I = Map GoString (Table I)

module _ {I : Type 0} where
  unfoldable pub get_table : GoString → Catalog I → Result (Table I)
  unfolding lookup
  get_table name c = elim (lookup str_compare name c) [
    | none ↦ err (errorf "table %q does not exist")
    | some t ↦ ok t
  ]

  -- A new table has no index; `index` is the state of no B+-tree.
  unfoldable pub add_table :
      GoString → List Column → Pool → I → Catalog I → Catalog I × Result (Unit {0})
  unfolding lookup put
  add_table name columns pool index c = elim (lookup str_compare name c) [
    | some t ↦ (c, err (errorf "table %q already exists"))
    | none ↦ (
      put str_compare name
          (record { pool = pool; columns = columns; indexed = λ column. false; index = index }) c,
      ok tt,
    )
  ]

  unfoldable pub drop_table : GoString → Catalog I → Catalog I × Result (Unit {0})
  unfolding lookup remove
  drop_table name c = elim (lookup str_compare name c) [
    | none ↦ (c, err (errorf "table %q does not exist"))
    | some t ↦ (remove str_compare name c, ok tt)
  ]

  -- The entries are in the order of the names.
  unfoldable pub list_tables : Catalog I → List GoString
  list_tables c = map (λ entry. entry.0) c

  abbrev pub put_back :
      {A : Type 0} → GoString → Catalog I → Table I × Result A → Catalog I × Result A
  put_back name c (t, r) = (put str_compare name t c, r)

  abbrev pub on_table :
      {A : Type 0}
      → GoString
      → (Table I → Table I × Result A)
      → Catalog I
      → Result (Table I)
      → Catalog I × Result A
  on_table name write c (ok t) = put_back name c (write t)
  on_table name write c (err e) = (c, err e)

module _ {I : Type 0} (index_insert : GoString → Value → ℕ → I → I × Result (Unit {0})) where
  unfoldable pub insert : (ℕ → ℕ) → ℕ → GoString → Row → Catalog I → Catalog I × Result ℕ
  unfolding get_table put Table.insert
  insert turns x name row c =
      on_table name (Table.insert index_insert turns x row) c (get_table name c)

  unfoldable pub update :
      Txns → ℕ → (ℕ → ℕ) → ℕ → GoString → ℕ → Row → Catalog I → Catalog I × Result (Unit {0})
  unfolding get_table put Table.update
  update e turn turns x name id row c =
      on_table name (Table.update index_insert e turn turns x id row) c (get_table name c)

  unfoldable pub delete : Txns → ℕ → ℕ → GoString → ℕ → Catalog I → Catalog I × Result (Unit {0})
  unfolding get_table put Table.delete
  delete e turn x name id c =
      on_table name (Table.delete index_insert e turn x id) c (get_table name c)

module _ {I : Type 0} where
  -- Under the name stands a table with `P`; every other name has what it had.
  pub record OneTable (name : GoString) (c d : Catalog I) (P : Table I → Type 0) : Type 0 where
    pub table : Table I
    pub found : lookup str_compare name d ≡ some table
    pub satisfies : P table
    pub others : (j : GoString) → j ≢ name → lookup str_compare j d ≡ lookup str_compare j c
