-- ===== src/Executor/Cursors.antt =====
-- Cursors whose rows are all at hand: what the operators make of them, and what the executor relies on
-- in `SeekIndex`.
use aura_sql.Prelude.{
  ℕ, ◌≡◌, refl, ap, Bool, false, List, [], ◌∷◌, map, Option, none, some, arith, GoString, get_elem?,
  filter, All,
}
use aura_sql.Errors.{ok}
use aura_sql.Core.{Value, compares_equal, Schema, column_index, Row, Expr}
use aura_sql.Core.Engine.{StorageEngine, next, stream_of}
use aura_sql.Eval.Typing.{Conforms}
use aura_sql.Executor.Operators.{scan_rows, filter_rows, pass_rows}
use aura_sql.Executor.Terms.{passes, IsTest, eval_where-passes}
use aura_sql.Executor.{drain}

abbrev pub row_of_entry : ℕ × Row → Row
row_of_entry entry = entry.1

-- The rows of a cursor.
abbrev pub RowsConform : Schema → List (ℕ × Row) → Type 0
RowsConform schema = All (λ entry. Conforms schema.columns entry.1.values)

abbrev value_equals : Option Value → Value → Bool
value_equals none key = false
value_equals (some v) key = compares_equal v key

-- The entry's value in the column compares equal to the key.
abbrev pub tests_at : ℕ → Value → ℕ × Row → Bool
tests_at idx key (id, row) = value_equals (get_elem? row.values idx) key

-- What the executor relies on in `SeekIndex`: the rows of the scan whose value in the column compares
-- equal to the key, in the scan's order.
abbrev pub SeekLaw : {S : Type 0} → StorageEngine S → S → ℕ → Type 0
SeekLaw eng s txn =
    (table column : GoString) (key : Value) (schema : Schema) (idx : ℕ) (rows : List (ℕ × Row))
    → eng.get_schema s table ≡ some schema
    → column_index schema column ≡ some idx
    → eng.scan s txn table ≡ ok (stream_of rows)
    → RowsConform schema rows
    → eng.seek_index s txn table column key ≡ ok (stream_of (filter (tests_at idx key) rows))

pub scan_rows-stream_of :
    (rows : List (ℕ × Row)) → scan_rows (stream_of rows) ≡ stream_of (map row_of_entry rows)
unfolding scan_rows stream_of
scan_rows-stream_of [] = refl
scan_rows-stream_of ((id, row) ∷ rows) = ap (next row) (scan_rows-stream_of rows)

pub pass_rows-stream_of : (rows : List Row) → pass_rows (stream_of rows) ≡ stream_of rows
unfolding pass_rows stream_of
pass_rows-stream_of [] = refl
pass_rows-stream_of (row ∷ rows) = ap (next row) (pass_rows-stream_of rows)

pub drain-stream_of : (rows : List Row) → drain (stream_of rows) ≡ ok rows
unfolding drain stream_of
drain-stream_of [] = refl
drain-stream_of (row ∷ rows) = ground (arith, drain-stream_of rows)

pub filter_rows-stream_of :
    (e : Expr) (schema : Schema) (rows : List (ℕ × Row))
    → IsTest schema e
    → RowsConform schema rows
    → filter_rows e schema (stream_of (map row_of_entry rows))
      ≡ stream_of (map row_of_entry (filter (λ entry. passes e entry.1 schema) rows))
unfolding filter_rows stream_of
filter_rows-stream_of e schema [] test h = refl
filter_rows-stream_of e schema ((id, row) ∷ rows) test h =
    let decided = eval_where-passes row schema h.0 e test in
    ground (arith, filter_rows-stream_of e schema rows test h.1)
