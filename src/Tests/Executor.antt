-- ===== src/Tests/Executor.antt =====
-- Statements on the table with one row.
use aura_sql.Prelude.{◌≡◌, refl, List, [], ◌∷◌, map, some, filter, bytes, str_compare, str_eq}
use aura_sql.Prelude.Maps.{lookup, put, remove}
use aura_sql.Prelude.Int.{pos}
use aura_sql.Errors.{ok}
use aura_sql.Core.{new_int, new_text, op_eq, op_and, Expr, column_ref, literal, binary, Assignment}
use aura_sql.Core.Engine.{stream_of}
use aura_sql.Eval.Typing.{type_of, column_type}
use aura_sql.Executor.{execute_select}
use aura_sql.Executor.Operators.{join_schema, nested_loop_join}
use aura_sql.Executor.Terms.{passes}
use aura_sql.Executor.Joins.{products, nested_loop_join_lem}
use aura_sql.Executor.Selection.{execute_select_lem, select_all, keeps}
use aura_sql.Executor.Cursors.{row_of_entry}
use aura_sql.Memstore.{
  Memstore, get_schema, create_table, begin, insert, commit, add_pending, pending_in, changes_in,
}
use aura_sql.Memstore.Reads.{create_index, scan, overlay}
use aura_sql.Memstore.Contract.{memstore_engine}
use aura_sql.Memstore.Seek.{seek_index-SeekLaw}
use aura_sql.Tests.Memstore.{people, people_schema, ann, ann_stored, ann-RowsConform, two_open}

abbrev indexed : Memstore
indexed = (create_index people (bytes "id") two_open).0

-- `id = 1 AND name = 'Ann'`
abbrev id_and_name : Expr
id_and_name =
    binary op_and (binary op_eq (column_ref [] (bytes "id")) (literal (new_int (pos 1))))
      (binary op_eq (column_ref [] (bytes "name")) (literal (new_text (bytes "Ann"))))

abbrev set_id : List Assignment
set_id = record { column = bytes "id"; value = literal (new_int (pos 7)) } ∷ []

execute_select_lem_example :
    execute_select memstore_engine 2 indexed (select_all people (some id_and_name))
    ≡ ok (record {
      schema = people_schema;
      rows = map row_of_entry (filter (keeps (some id_and_name) people_schema) ann_stored);
      rows_affected = 0;
    })
unfolding memstore_engine create_index get_schema create_table begin insert commit lookup put
    str_compare add_pending pending_in changes_in scan stream_of overlay type_of column_type str_eq
    remove
execute_select_lem_example =
    execute_select_lem memstore_engine indexed 2 people people_schema ann_stored refl refl
      ann-RowsConform (seek_index-SeekLaw indexed 2) (some id_and_name) refl

-- `people JOIN people ON id = 1`, over the one row.
abbrev on_id : Expr
on_id = binary op_eq (column_ref [] (bytes "id")) (literal (new_int (pos 1)))

nested_loop_join_lem_example :
    nested_loop_join
      (record { schema = people_schema; rows = stream_of (ann ∷ []) })
      (record { schema = people_schema; rows = stream_of (ann ∷ []) })
      on_id
    ≡ record {
      schema = join_schema people_schema people_schema;
      rows = stream_of (
          filter
            (λ row. passes on_id row (join_schema people_schema people_schema))
            (products (ann ∷ []) (ann ∷ [])));
    }
unfolding type_of column_type str_eq
nested_loop_join_lem_example =
    nested_loop_join_lem on_id people_schema people_schema (ann ∷ []) (ann ∷ []) refl
      ann-RowsConform ann-RowsConform
