-- ===== src/Storage/Table/Writes.antt =====
-- Insert, Update and Delete of a table: the versions, and who sees them.
use aura_sql.Prelude.{
  ℕ, ◌^◌, ◌<◌, ◌≡◌, ◌≢◌, refl, sym, subst, List, [], ◌∷◌, GoString, Bool-cases, inl, inr,
}
use aura_sql.Errors.{Result, ok, err, OnOk}
use aura_sql.Core.{Value, Column, Row}
use aura_sql.Storage.RowCodec.{serialize}
use aura_sql.Storage.Mvcc.{Txns, check_write_conflict}
use aura_sql.Storage.BufferPool.{Pool, page_count}
use aura_sql.Storage.HeapFile
use aura_sql.Storage.HeapFile.Rows.{row_at, IsHeap}
use aura_sql.Storage.HeapFile.Rows.Insert.{HeapGains, heap_insert_lem}
use aura_sql.Storage.Table.{
  Table, new_version, stamped, mark_deleted, indexed_rest, index_row, numbered, enter, insert,
  forget_id, replaced, update,
}
use aura_sql.Storage.Table.Versions.{IsVersion, Holds, Marked, mark_deleted_lem}

-- The heap `q` holds what `p` holds, and under a RowID that was free the new version.
pub record Entered (x : ℕ) (row : Row) (p q : Pool) (id : ℕ) : Type 0 where
  pub heap : IsHeap q
  pub entered : Holds q id (new_version x row)
  pub was_free : (bytes : List ℕ) → row_at p id ≢ ok bytes
  pub kept : (j : ℕ) (other : Row) → Holds p j other → Holds q j other

module _ {I : Type 0} (index_insert : GoString → Value → ℕ → I → I × Result (Unit {0})) where
  -- The indexes are no part of the heap.
  index_row-pool :
      (cs : List Column) (vs : List Value) (id : ℕ) (t : Table I)
      → (index_row index_insert cs vs id t).0.pool ≡ t.pool
  unfolding index_row
  index_row-pool [] vs id t = refl
  index_row-pool (c ∷ cs) [] id t = elim (Bool-cases (t.indexed c.name)) [
    | inl has ↦ rw (has, index_row) refl
    | inr none_there ↦ rw (none_there, index_row) (index_row-pool cs [] id t)
  ]
  index_row-pool (c ∷ cs) (v ∷ vs) id t = elim (Bool-cases (t.indexed c.name)) [
    | inr none_there ↦ rw (none_there, index_row) (index_row-pool cs vs id t)
    | inl has ↦ elim (Bool-cases v.null) [
      | inl null ↦ rw (has, null, index_row) (index_row-pool cs vs id t)
      | inr given ↦
          rw (has, given, index_row)
            (rest_pool (index_insert c.name v id t.index) (λ u. index_row-pool cs vs id u))
    ]
  ]
    where
      rest_pool :
          (r : I × Result (Unit {0}))
          → ((u : Table I) → (index_row index_insert cs vs id u).0.pool ≡ u.pool)
          → (indexed_rest index_insert t r (index_row index_insert cs vs id)).0.pool ≡ t.pool
      rest_pool (i, ok done) later = later (record t { index = i })
      rest_pool (i, err e) later = refl

  enter-Entered :
      (x : ℕ) (row : Row) (t : Table I) (r : Pool × Result ℕ)
      → OnOk (λ id. HeapGains t.pool (serialize (new_version x row)) r.0 id) r.1
      → OnOk
          (λ id. Entered x row t.pool (enter index_insert row t r).0.pool id)
          (enter index_insert row t r).1
  enter-Entered x row t (p, err e) gains = tt
  enter-Entered x row t (p, ok id) gains =
      after (index_row index_insert t.columns row.values id (record t { pool = p }))
        (index_row-pool t.columns row.values id (record t { pool = p }))
    where
      after :
          (s : Table I × Result (Unit {0}))
          → s.0.pool ≡ p
          → OnOk
              (λ j. Entered x row t.pool (numbered index_insert id s).0.pool j)
              (numbered index_insert id s).1
      after (u, err e) same = tt
      after (u, ok done) same =
          subst (λ q. Entered x row t.pool q id) (sym same)
            (record {
              heap = gains.heap;
              entered = gains.reads_back;
              was_free = gains.was_free;
              kept = λ j other held. gains.kept j (serialize other) held;
            })

  -- In a well-formed heap of fewer than 2^48 pages an insertion that succeeds adds one version under a free RowID: created by `x`, deleted by
  -- nobody; every version that the heap held stays.
  pub table_insert_lem :
      (turns : ℕ → ℕ) (x : ℕ) (row : Row) (t : Table I)
      → IsHeap t.pool
      → page_count t.pool.file < 2 ^ 48
      → OnOk
          (λ id. Entered x row t.pool (insert index_insert turns x row t).0.pool id)
          (insert index_insert turns x row t).1
  unfolding insert
  table_insert_lem turns x row t h small =
      enter-Entered x row t (HeapFile.insert turns (serialize (new_version x row)) t.pool)
        (heap_insert_lem turns (serialize (new_version x row)) t.pool h small)

-- What an update does to the versions under the old and the new RowID.
pub record Replaced (e : Txns) (x : ℕ) (row : Row) (p : Pool) (id : ℕ) (old : Row) (q : Pool)
    (new_id : ℕ) : Type 0 where
  pub heap : IsHeap q
  pub free : check_write_conflict e x old ≡ ok tt
  pub marked : Holds q id (stamped x old)
  pub entered : Holds q new_id (new_version x row)
  pub apart : new_id ≢ id
  pub kept : (j : ℕ) (other : Row) → j ≢ id → Holds p j other → Holds q j other

module _ {I : Type 0} (index_insert : GoString → Value → ℕ → I → I × Result (Unit {0})) where
  forgotten :
      (P : Table I → ℕ → Type 0) (r : Table I × Result ℕ)
      → OnOk (λ id. P r.0 id) r.1
      → OnOk (λ done. (id : ℕ) × P (forget_id index_insert r).0 id) (forget_id index_insert r).1
  forgotten P (t, ok id) h = (id, h)
  forgotten P (t, err e) h = tt

  -- The new version goes into a heap whose old one was stamped.
  both_versions :
      (e : Txns) (x : ℕ) (row : Row) (p q z : Pool) (id new_id : ℕ) (old : Row)
      → Marked e x p id old q
      → Entered x row q z new_id
      → Replaced e x row p id old z new_id
  both_versions e x row p q z id new_id old marked ins = record {
    heap = ins.heap;
    free = marked.free;
    marked = ins.kept id (stamped x old) marked.marked;
    entered = ins.entered;
    apart = λ same.
        ins.was_free (serialize (stamped x old))
          (subst (λ j. row_at q j ≡ ok (serialize (stamped x old))) (sym same) marked.marked);
    kept = λ j other ne held. ins.kept j other (marked.kept j other ne held);
  }

  -- An update of a version that a well-formed heap of fewer than 2^48 pages holds, with ids of 64
  -- bits and texts shorter than 2^16 bytes, if it succeeds: `x` was free to write it; it stays
  -- under its RowID, stamped with `x`, the new version stands under another, and every other version
  -- is as before.
  pub table_update_lem :
      (e : Txns) (turn : ℕ) (turns : ℕ → ℕ) (x id : ℕ) (row old : Row) (t : Table I)
      → IsHeap t.pool
      → IsVersion old
      → Holds t.pool id old
      → page_count (mark_deleted e turn x id t.pool).0.file < 2 ^ 48
      → OnOk
          (λ done.
            (new_id : ℕ) × Replaced e x row t.pool id old
              (update index_insert e turn turns x id row t).0.pool
              new_id)
          (update index_insert e turn turns x id row t).1
  unfolding update
  table_update_lem e turn turns x id row old t h version held small =
      after (mark_deleted e turn x id t.pool)
        (mark_deleted_lem e turn x id old t.pool h version held) small
    where
      after :
          (r : Pool × Result (Unit {0}))
          → OnOk (λ done. Marked e x t.pool id old r.0) r.1
          → page_count r.0.file < 2 ^ 48
          → OnOk
              (λ done.
                (new_id : ℕ) × Replaced e x row t.pool id old
                  (replaced index_insert turns x row t r).0.pool
                  new_id)
              (replaced index_insert turns x row t r).1
      after (q, err broken) marked few = tt
      after (q, ok done) marked few =
          forgotten (λ u new_id. Replaced e x row t.pool id old u.pool new_id)
            (insert index_insert turns x row (record t { pool = q }))
            (entered_too (insert index_insert turns x row (record t { pool = q }))
              (table_insert_lem index_insert turns x row (record t { pool = q }) marked.heap few))
        where
          entered_too :
              (s : Table I × Result ℕ)
              → OnOk (λ new_id. Entered x row q s.0.pool new_id) s.1
              → OnOk (λ new_id. Replaced e x row t.pool id old s.0.pool new_id) s.1
          entered_too (u, err broken) ins = tt
          entered_too (u, ok new_id) ins =
              both_versions e x row t.pool q u.pool id new_id old marked ins
