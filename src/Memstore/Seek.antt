-- ===== src/Memstore/Seek.antt =====
-- memstore/memstore.go keeps what the executor relies on in `SeekIndex`.
use aura_sql.Prelude.{
  ℕ, ◌≡◌, refl, ap, List, [], ◌∷◌, Option, some, get_elem?, filter, Bool-cases, inl, inr, GoString,
  str_eq, subst, Option-cases,
}
use aura_sql.Errors.{ok}
use aura_sql.Core.{Value, compares_equal, Schema, Column, column_index, index_of, Row}
use aura_sql.Core.Engine.{next, stream_of}
use aura_sql.Eval.Typing.{Conforms}
use aura_sql.Executor.Cursors.{SeekLaw, RowsConform, tests_at}
use aura_sql.Memstore.{Memstore, get_schema}
use aura_sql.Memstore.Reads.{scan, seek_rows, seek_index}
use aura_sql.Memstore.Contract.{memstore_engine}

some_injective : {A : Type 0} {a b : A} → some a ≡ some b → a ≡ b
some_injective h = cc

index_of-Conforms-some :
    (cs : List Column) (vs : List Value) (name : GoString) (i : ℕ)
    → Conforms cs vs
    → index_of cs name ≡ some i
    → (v : Value) × (get_elem? vs i ≡ some v)
unfolding index_of
index_of-Conforms-some [] vs name i h e = cc
index_of-Conforms-some (c ∷ cs) [] name i h e = absurd h
index_of-Conforms-some (c ∷ cs) (v ∷ vs) name i h e = elim (Bool-cases (str_eq c.name name)) [
  | inl same ↦
      let zeroth = some_injective (rw (same, index_of) at e) in
      subst (λ k. (w : Value) × (get_elem? (v ∷ vs) k ≡ some w)) zeroth (v, refl)
  | inr other ↦
      let e' = rw (other, index_of) at e in
      elim (Option-cases (index_of cs name)) [
        | inl missing ↦ absurd (let e'' = rw missing at e' in cc)
        | inr (j, at) ↦
            let later = some_injective (rw at at e') in
            subst (λ k. (w : Value) × (get_elem? (v ∷ vs) k ≡ some w)) later
              (index_of-Conforms-some cs vs name j h.1 at)
      ]
]

seek_rows-stream_of :
    (schema : Schema) (column : GoString) (idx : ℕ) (key : Value) (rows : List (ℕ × Row))
    → column_index schema column ≡ some idx
    → RowsConform schema rows
    → seek_rows idx key (stream_of rows) ≡ stream_of (filter (tests_at idx key) rows)
unfolding seek_rows stream_of column_index
seek_rows-stream_of schema column idx key [] at h = refl
seek_rows-stream_of schema column idx key ((id, row) ∷ rows) at h =
    let (v, ev) = index_of-Conforms-some schema.columns row.values column idx h.0 at in
    let rest = seek_rows-stream_of schema column idx key rows at h.1 in
    elim (Bool-cases (compares_equal v key)) [
      | inl equal ↦ rw (ev, seek_rows, equal) (ap (next (id, row)) rest)
      | inr differs ↦ rw (ev, seek_rows, differs) rest
    ]

-- `SeekIndex` of the engine in memory yields the rows of `Scan` whose value in the column compares
-- equal to the key, in the scan's order, where the rows conform to the table's schema.
pub seek_index_lem :
    (e : Memstore) (txn : Option ℕ) (table column : GoString) (key : Value) (schema : Schema)
    (idx : ℕ) (rows : List (ℕ × Row))
    → get_schema e table ≡ some schema
    → column_index schema column ≡ some idx
    → scan txn table e ≡ ok (stream_of rows)
    → RowsConform schema rows
    → seek_index txn table column key e ≡ ok (stream_of (filter (tests_at idx key) rows))
unfolding seek_index
seek_index_lem e txn table column key schema idx rows has_table at scanned conform =
    rw (has_table, seek_index)
      (rw at (rw scanned (ap ok (seek_rows-stream_of schema column idx key rows at conform))))

-- So the executor may rely on it.
pub seek_index-SeekLaw : (e : Memstore) (x : ℕ) → SeekLaw memstore_engine e x
unfolding memstore_engine
seek_index-SeekLaw e x = seek_index_lem e (some x)
