-- ===== src/Storage/Table/Versions.antt =====
-- What Insert, Update and Delete do to the row versions that a table's heap holds.
use aura_sql.Prelude.{ℕ, ◌^◌, ◌<◌, ◌≡◌, ◌≢◌, refl, sym, ap, ◌∙◌, subst, List}
use aura_sql.Errors.{Result, ok, err, OnOk, ◌>>=◌}
use aura_sql.Core.{Row}
use aura_sql.Storage.RowCodec.{serialize, deserialize}
use aura_sql.Storage.RowCodec.RoundTrip.{
  AllStorable, stored_row, deserialize-serialize, serialize_values-stored,
}
use aura_sql.Storage.Mvcc.{Txns, check_write_conflict}
use aura_sql.Storage.Page.{Page}
use aura_sql.Storage.Page
use aura_sql.Storage.RowId.{decode_row_id}
use aura_sql.Storage.BufferPool.{Pool, page_count, fetch_page}
use aura_sql.Storage.BufferPool.Fetch.{Fetched, fetch_page-Fetched}
use aura_sql.Storage.HeapFile
use aura_sql.Storage.HeapFile.{got}
use aura_sql.Storage.HeapFile.Rows.{
  row_at, page_with, IsHeap, HoldsPages, HoldsPages-IsHeap, fetch_page-HoldsPages,
}
use aura_sql.Storage.HeapFile.Rows.Insert.{get-page_with}
use aura_sql.Storage.HeapFile.Rows.Change.{HeapSets, heap_update_lem}
use aura_sql.Storage.Table.{stamped, to_write, stamp, mark_deleted}

-- A version that the row codec keeps.
pub record IsVersion (row : Row) : Type 0 where
  pub xmin_fits : row.xmin < 2 ^ 64
  pub xmax_fits : row.xmax < 2 ^ 64
  pub storable : AllStorable row.values

-- The heap holds that version under the RowID.
abbrev pub Holds : Pool → ℕ → Row → Type 0
Holds p id row = row_at p id ≡ ok (serialize row)

-- What `Get` gives is what the heap holds, if it succeeds.
record Gets (p : Pool) (id : ℕ) (q : Pool) (found : Result (List ℕ)) : Type 0 where
  heap : IsHeap q
  same : (j : ℕ) → row_at q j ≡ row_at p j
  held : OnOk (λ bytes. row_at p id ≡ ok bytes) found

found_held : {A : Type 0} (m n : Result A) → n ≡ m → OnOk (λ a. n ≡ ok a) m
found_held (ok a) n same = same
found_held (err e) n same = tt

get-Gets :
    (turn id : ℕ) (p : Pool)
    → IsHeap p
    → Gets p id (HeapFile.get turn id p).0 (HeapFile.get turn id p).1
unfolding HeapFile.get row_at Page.get
get-Gets turn id p h =
    fetched (fetch_page turn (decode_row_id id).0 p)
      (fetch_page-Fetched turn (decode_row_id id).0 p h.pool)
      (fetch_page-HoldsPages (page_count p.file) turn (decode_row_id id).0 p h)
  where
    fetched :
        (r : Pool × Result Page)
        → Fetched p (decode_row_id id).0 r
        → HoldsPages (page_count p.file) r.0
        → Gets p id (got (decode_row_id id).1 r).0 (got (decode_row_id id).1 r).1
    fetched (q, err e) found k = record {
      heap = HoldsPages-IsHeap (page_count p.file) q k;
      same =
          λ j. ap (λ b. Page.get (page_with b) (decode_row_id j).1) (found.0.1 (decode_row_id j).0);
      held = tt;
    }
    fetched (q, ok page) found k = record {
      heap = HoldsPages-IsHeap (page_count p.file) q k;
      same =
          λ j. ap (λ b. Page.get (page_with b) (decode_row_id j).1) (found.0.1 (decode_row_id j).0);
      held = found_held (Page.get page (decode_row_id id).1) (row_at p id) (
          ap (λ b. Page.get (page_with b) (decode_row_id id).1) (sym found.1.0)
          ∙ get-page_with page (decode_row_id id).1);
    }

serialize-stored :
    (row : Row) (x : ℕ) → serialize (stamped x (stored_row row)) ≡ serialize (stamped x row)
unfolding serialize
serialize-stored row x = rw (serialize_values-stored row.values) refl

-- The version under the RowID was stamped by `x`, who was free to write it; no other has changed.
pub record Marked (e : Txns) (x : ℕ) (p : Pool) (id : ℕ) (old : Row) (q : Pool) : Type 0 where
  pub heap : IsHeap q
  pub free : check_write_conflict e x old ≡ ok tt
  pub marked : Holds q id (stamped x old)
  pub kept : (j : ℕ) (row : Row) → j ≢ id → Holds p j row → Holds q j row

check-old :
    (e : Txns) (x : ℕ) (old : Row) (m : Result (Unit {0}))
    → check_write_conflict e x old ≡ m
    → OnOk
        (λ row. (row ≡ stored_row old) × (check_write_conflict e x old ≡ ok tt))
        (m >>= λ free. ok (stored_row old))
check-old e x old (ok done) at = (refl, at)
check-old e x old (err broken) at = tt

to_write-old :
    (e : Txns) (x : ℕ) (old : Row) (found : Result (List ℕ))
    → IsVersion old
    → OnOk (λ bytes. ok (serialize old) ≡ ok bytes) found
    → OnOk
        (λ row. (row ≡ stored_row old) × (check_write_conflict e x old ≡ ok tt))
        (to_write e x found)
unfolding check_write_conflict
to_write-old e x old (err broken) h same = tt
to_write-old e x old (ok bytes) h same =
    let read_back = deserialize-serialize old h.xmin_fits h.xmax_fits h.storable in
    rw (ap deserialize (ok_injective (sym same)) ∙ read_back)
      (check-old e x old (check_write_conflict e x old) refl)
  where
    ok_injective : {A : Type 0} {a b : A} → ok a ≡ ok b → a ≡ b
    ok_injective h = cc

stamp-Marked :
    (e : Txns) (turn x id : ℕ) (old : Row) (p q : Pool) (found : Result Row)
    → IsHeap q
    → ((j : ℕ) → row_at q j ≡ row_at p j)
    → OnOk (λ row. (row ≡ stored_row old) × (check_write_conflict e x old ≡ ok tt)) found
    → OnOk (λ done. Marked e x p id old (stamp turn x id q found).0) (stamp turn x id q found).1
unfolding HeapFile.update
stamp-Marked e turn x id old p q (err broken) h same checked = tt
stamp-Marked e turn x id old p q (ok row) h same checked =
    after (HeapFile.update turn id (serialize (stamped x row)) q)
      (heap_update_lem turn id (serialize (stamped x row)) q h)
  where
    after :
        (r : Pool × Result (Unit {0}))
        → OnOk (λ done. HeapSets q id (serialize (stamped x row)) r.0) r.1
        → OnOk (λ done. Marked e x p id old r.0) r.1
    after (z, err broken) sets = tt
    after (z, ok done) sets = record {
      heap = sets.heap;
      free = checked.1;
      marked =
          sets.reads_back
          ∙ ap ok (ap (λ r. serialize (stamped x r)) checked.0 ∙ serialize-stored old x);
      kept = λ j other ne held. sets.kept j (serialize other) ne (same j ∙ held);
    }

-- Deleting a version that a well-formed heap holds, with ids of 64 bits and texts shorter than
-- 2^16 bytes, if it succeeds: `x` was free to write it, and now the heap
-- holds it stamped with `x`, in its place; every other version stays as it was.
pub mark_deleted_lem :
    (e : Txns) (turn x id : ℕ) (old : Row) (p : Pool)
    → IsHeap p
    → IsVersion old
    → Holds p id old
    → OnOk
        (λ done. Marked e x p id old (mark_deleted e turn x id p).0)
        (mark_deleted e turn x id p).1
unfolding mark_deleted
mark_deleted_lem e turn x id old p h version held =
    let g = get-Gets turn id p h in
    stamp-Marked e turn x id old p (HeapFile.get turn id p).0
      (to_write e x (HeapFile.get turn id p).1) g.heap g.same
      (to_write-old e x old (HeapFile.get turn id p).1 version
        (subst (λ m. OnOk (λ bytes. m ≡ ok bytes) (HeapFile.get turn id p).1) held g.held))
