-- ===== src/Storage/Table.antt =====
-- storage/engine.go: the engine's operations on the rows of one table: Insert, Update and Delete with
-- their versions. `e` is the transaction state, which none of them changes, and `x` the transaction.
-- The B+-trees of the table are an interface: a state of type `I`, and how an entry is added to it.
pub mod Versions
pub mod Writes
use aura_sql.Prelude.{ℕ, Bool, true, false, List, [], ◌∷◌, GoString, if◌then◌else◌}
use aura_sql.Errors.{Result, ok, err, panic, wrapping, ◌>>=◌}
use aura_sql.Core.{Value, Column, Row}
use aura_sql.Storage.RowCodec.{serialize, deserialize}
use aura_sql.Storage.Mvcc.{Txns, check_write_conflict}
use aura_sql.Storage.BufferPool.{Pool}
use aura_sql.Storage.HeapFile

-- `TableMetadata`: the heap with its pool, the schema's columns, the columns with an index.
pub record Table (I : Type 0) : Type 0 where
  pub pool : Pool
  pub columns : List Column
  pub indexed : GoString → Bool
  pub index : I

-- `row.Xmin = txn.ID(); row.Xmax = 0`
abbrev pub new_version : ℕ → Row → Row
new_version x row = record row { xmin = x; xmax = 0 }

abbrev pub stamped : ℕ → Row → Row
stamped x row = record row { xmax = x }

-- What `Update` and `Delete` begin with: the version under the RowID, free to be written by `x`.
abbrev pub to_write : Txns → ℕ → Result (List ℕ) → Result Row
to_write e x found = do
  bytes ← found
  row ← deserialize bytes
  free ← check_write_conflict e x row
  ok row

abbrev pub stamp : ℕ → ℕ → ℕ → Pool → Result Row → Pool × Result (Unit {0})
stamp turn x id p (ok old) = HeapFile.update turn id (serialize (stamped x old)) p
stamp turn x id p (err e) = (p, err e)

-- The old version is stamped with the deleter, in place.
unfoldable pub mark_deleted : Txns → ℕ → ℕ → ℕ → Pool → Pool × Result (Unit {0})
unfolding serialize deserialize check_write_conflict HeapFile.get HeapFile.update
mark_deleted e turn x id p =
    let (q, found) = HeapFile.get turn id p in stamp turn x id q (to_write e x found)

module _ {I : Type 0} (index_insert : GoString → Value → ℕ → I → I × Result (Unit {0})) where
  abbrev pub indexed_rest :
      Table I
      → I × Result (Unit {0})
      → (Table I → Table I × Result (Unit {0}))
      → Table I × Result (Unit {0})
  indexed_rest t (i, ok done) go_on = go_on (record t { index = i })
  indexed_rest t (i, err e) go_on =
      (record t { index = i }, wrapping "failed to update index on %s.%s: %w" (err e))

  -- The loop over the columns: a row with too few values panics where an index wants one.
  unfoldable pub index_row : List Column → List Value → ℕ → Table I → Table I × Result (Unit {0})
  index_row [] values id t = (t, ok tt)
  index_row (c ∷ cs) [] id t =
      let rest = index_row cs [] id t in if t.indexed c.name then (t, err panic) else rest
  index_row (c ∷ cs) (v ∷ vs) id t = elim (t.indexed c.name) [
    | false ↦ index_row cs vs id t
    | true ↦ elim v.null [
      | true ↦ index_row cs vs id t
      | false ↦ indexed_rest t (index_insert c.name v id t.index) (index_row cs vs id)
    ]
  ]

  abbrev pub numbered : ℕ → Table I × Result (Unit {0}) → Table I × Result ℕ
  numbered id (t, ok done) = (t, ok id)
  numbered id (t, err e) = (t, err e)

  abbrev pub enter : Row → Table I → Pool × Result ℕ → Table I × Result ℕ
  enter row t (p, ok id) = numbered id (index_row t.columns row.values id (record t { pool = p }))
  enter row t (p, err e) = (record t { pool = p }, err e)

  -- The row as a new version of `x`, in the heap and then in the indexes.
  unfoldable pub insert : (ℕ → ℕ) → ℕ → Row → Table I → Table I × Result ℕ
  unfolding index_row serialize HeapFile.insert
  insert turns x row t = enter row t (HeapFile.insert turns (serialize (new_version x row)) t.pool)

  abbrev pub kept_pool : Table I → Pool × Result (Unit {0}) → Table I × Result (Unit {0})
  kept_pool t (p, r) = (record t { pool = p }, r)

  unfoldable pub delete : Txns → ℕ → ℕ → ℕ → Table I → Table I × Result (Unit {0})
  unfolding mark_deleted
  delete e turn x id t = kept_pool t (mark_deleted e turn x id t.pool)

  abbrev pub forget_id : Table I × Result ℕ → Table I × Result (Unit {0})
  forget_id (t, ok id) = (t, ok tt)
  forget_id (t, err e) = (t, err e)

  abbrev pub replaced :
      (ℕ → ℕ) → ℕ → Row → Table I → Pool × Result (Unit {0}) → Table I × Result (Unit {0})
  replaced turns x row t (p, ok done) = forget_id (insert turns x row (record t { pool = p }))
  replaced turns x row t (p, err e) = (record t { pool = p }, err e)

  unfoldable pub update : Txns → ℕ → (ℕ → ℕ) → ℕ → ℕ → Row → Table I → Table I × Result (Unit {0})
  unfolding mark_deleted insert
  update e turn turns x id row t = replaced turns x row t (mark_deleted e turn x id t.pool)
