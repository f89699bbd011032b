-- ===== src/Executor/Selection.antt =====
-- A SELECT of whole rows from one table, by whatever access path.
use aura_sql.Prelude.{
  ℕ, ◌≡◌, refl, sym, ap, subst, ◌∙◌, Bool, ◌&&◌, List, [], ◌∷◌, map, Option, none, some, inl, inr,
  Option-cases, GoString, filter, filter_agree, filter-filter, filter-All,
}
use aura_sql.Errors.{ok}
use aura_sql.Core.{Value, Schema, column_index, Row, Expr, star, SelectStmt}
use aura_sql.Core.Engine.{StorageEngine, stream_of}
use aura_sql.Eval.Typing.{Conforms}
use aura_sql.Executor.Operators.{Operator, new_project_op, new_scan_op, new_index_scan_op}
use aura_sql.Executor.AccessPath.{
  IndexedEquality, split_and_terms, find_indexed, find_indexed_equality,
}
use aura_sql.Executor.Terms.{
  passes, IsTest, filter_passes, IsFilter, split_and_terms-AllTests, split_and_terms-passes,
  combine_and_terms-IsFilter, combine_and_terms-passes,
}
use aura_sql.Executor.Equality.{equality-index, equality-TestedAt}
use aura_sql.Executor.Pushdown.{Found, find_indexed-Found}
use aura_sql.Executor.{
  with_filter, open_path, build_base_access_path, build_joins, build_select_plan, execute_select,
}
use aura_sql.Executor.Cursors.{
  row_of_entry, RowsConform, tests_at, SeekLaw, scan_rows-stream_of, pass_rows-stream_of,
  drain-stream_of, filter_rows-stream_of,
}

abbrev pub keeps : Option Expr → Schema → ℕ × Row → Bool
keeps f schema entry = filter_passes f entry.1 schema

-- `SELECT * FROM table WHERE f`
abbrev pub select_all : GoString → Option Expr → SelectStmt
select_all table f = record {
  projection = star ∷ [];
  from = table;
  from_alias = [];
  joins = [];
  where_expr = f;
}

abbrev whole : Schema → List (ℕ × Row) → Operator
whole schema rows = record { schema = schema; rows = stream_of (map row_of_entry rows) }

module _ {S : Type 0} (eng : StorageEngine S) (s : S) (txn : ℕ) (table : GoString) (schema : Schema)
    (rows : List (ℕ × Row)) (has_table : eng.get_schema s table ≡ some schema)
    (scanned : eng.scan s txn table ≡ ok (stream_of rows)) (conform : RowsConform schema rows)
    (seek_law : SeekLaw eng s txn) where
  -- An access path whose rows, less those that its remaining terms refuse, are the right ones.
  record PathFor (f : Option Expr) : Type 0 where
    base : List (ℕ × Row)
    remaining : Option Expr
    built : build_base_access_path eng txn s table f ≡ ok (whole schema base, remaining)
    base_conform : RowsConform schema base
    is_filter : IsFilter schema remaining
    same : filter (keeps remaining schema) base ≡ filter (keeps f schema) rows

  new_scan_op-whole : new_scan_op eng s txn table ≡ ok (whole schema rows)
  unfolding new_scan_op
  new_scan_op-whole = rw (has_table, new_scan_op) (rw scanned (rw (scan_rows-stream_of rows) refl))

  new_index_scan_op-whole :
      (column : GoString) (key : Value) (idx : ℕ)
      → column_index schema column ≡ some idx
      → new_index_scan_op eng s txn table column key
        ≡ ok (whole schema (filter (tests_at idx key) rows))
  unfolding new_index_scan_op
  new_index_scan_op-whole column key idx at =
      rw (has_table, new_index_scan_op)
        (rw (seek_law table column key schema idx rows has_table at scanned conform)
          (rw (scan_rows-stream_of (filter (tests_at idx key) rows)) refl))

  -- The index's test and the remaining terms are the whole WHERE clause.
  Found-agrees :
      (e : Expr) (equality : IndexedEquality) (remaining : Option Expr) (idx : ℕ)
      (f : Found eng s schema equality remaining (split_and_terms e) table)
      → IsTest schema e
      → column_index schema equality.column ≡ some idx
      → (entry : ℕ × Row) → Conforms schema.columns entry.1.values
      → (tests_at idx equality.value entry && keeps remaining schema entry)
        ≡ passes e entry.1 schema
  Found-agrees e equality remaining idx f test at (id, row) fits =
      let (v, ev, tested) =
        equality-TestedAt schema equality f.term table row idx f.is_equality f.is_test fits at in
      rw
        (
          ev,
          sym tested,
          f.is_remaining,
          combine_and_terms-passes row schema fits f.others f.other_tests,
          sym (f.same row),
        )
        (split_and_terms-passes row schema fits e test)

  find_indexed_equality-found :
      (e : Expr) (equality : IndexedEquality) (remaining : Option Expr)
      → find_indexed eng s table [] (split_and_terms e) ≡ some (equality, remaining)
      → find_indexed_equality eng s table (some e) ≡ (some equality, remaining)
  unfolding find_indexed_equality
  find_indexed_equality-found e equality remaining h = rw (h, find_indexed_equality) refl

  find_indexed_equality-missing :
      (e : Expr)
      → find_indexed eng s table [] (split_and_terms e) ≡ none
      → find_indexed_equality eng s table (some e) ≡ (none, some e)
  unfolding find_indexed_equality
  find_indexed_equality-missing e h = rw (h, find_indexed_equality) refl

  scan_path :
      (f : Option Expr)
      → IsFilter schema f
      → find_indexed_equality eng s table f ≡ (none, f)
      → PathFor f
  unfolding build_base_access_path open_path
  scan_path f test not_found = record {
    base = rows;
    remaining = f;
    built = rw (build_base_access_path, not_found, open_path) (rw new_scan_op-whole refl);
    base_conform = conform;
    is_filter = test;
    same = refl;
  }

  index_path :
      (e : Expr) (equality : IndexedEquality) (remaining : Option Expr)
      → IsTest schema e
      → find_indexed eng s table [] (split_and_terms e) ≡ some (equality, remaining)
      → PathFor (some e)
  unfolding build_base_access_path open_path
  index_path e equality remaining test found =
      let f =
        find_indexed-Found eng s schema table [] (split_and_terms e) equality remaining tt
          (split_and_terms-AllTests schema e test) found in
      let (idx, at) = equality-index schema equality f.term table f.is_equality f.is_test in
      record {
        base = filter (tests_at idx equality.value) rows;
        remaining = remaining;
        built =
            rw
              (
                build_base_access_path,
                find_indexed_equality-found e equality remaining found,
                open_path,
              )
              (rw (new_index_scan_op-whole equality.column equality.value idx at) refl);
        base_conform = filter-All _ _ rows conform;
        is_filter =
            subst (IsFilter schema) (sym f.is_remaining)
              (combine_and_terms-IsFilter schema f.others f.other_tests);
        same =
            filter-filter _ _ rows
            ∙ filter_agree _ _ _ (Found-agrees e equality remaining idx f test at) rows conform;
      }

  path_for : (f : Option Expr) → IsFilter schema f → PathFor f
  unfolding find_indexed_equality
  path_for none test = scan_path none test refl
  path_for (some e) test = elim (Option-cases (find_indexed eng s table [] (split_and_terms e))) [
    | inl missing ↦ scan_path (some e) test (find_indexed_equality-missing e missing)
    | inr ((equality, remaining), found) ↦ index_path e equality remaining test found
  ]

  filter_all : (xs : List (ℕ × Row)) → filter (keeps none schema) xs ≡ xs
  filter_all [] = refl
  filter_all (x ∷ xs) = ap (◌∷◌ x) (filter_all xs)

  with_filter-whole :
      (f : Option Expr) (base : List (ℕ × Row))
      → IsFilter schema f
      → RowsConform schema base
      → with_filter (whole schema base) f ≡ whole schema (filter (keeps f schema) base)
  with_filter-whole none base test h = ap (whole schema) (sym (filter_all base))
  with_filter-whole (some e) base test h =
      ap (λ rs. record { schema = schema; rows = rs }) (filter_rows-stream_of e schema base test h)

  build_select_plan-whole :
      (f : Option Expr)
      → IsFilter schema f
      → build_select_plan eng txn s (select_all table f)
        ≡ ok (whole schema (filter (keeps f schema) rows))
  unfolding build_select_plan build_joins new_project_op
  build_select_plan-whole f test =
      let path = path_for f test in
      rw
        (
          path.built,
          with_filter-whole path.remaining path.base path.is_filter path.base_conform,
          pass_rows-stream_of (map row_of_entry (filter (keeps path.remaining schema) path.base)),
          path.same,
        )
        refl

  -- Whatever index the executor picks, `SELECT *` with a WHERE clause of type BOOL, or with none,
  -- returns the rows of the table's scan that pass the clause, in the scan's order, provided that the
  -- rows conform to the schema and that `SeekIndex` yields the scan's rows with an equal value.
  pub execute_select_lem :
      (f : Option Expr)
      → IsFilter schema f
      → execute_select eng txn s (select_all table f)
        ≡ ok (record {
          schema = schema;
          rows = map row_of_entry (filter (keeps f schema) rows);
          rows_affected = 0;
        })
  unfolding execute_select
  execute_select_lem f test =
      rw (build_select_plan-whole f test, execute_select)
        (rw (drain-stream_of (map row_of_entry (filter (keeps f schema) rows))) refl)
