-- ===== src/Parser/RoundTrip/Statements.antt =====
-- What was printed parses back: the statements.
use aura_sql.Prelude.{
  ◌≡◌, refl, arith, List, [], ◌∷◌, ◌++◌, GoString, length, length-append, Option, none, some, false,
}
use aura_sql.Errors.{ok}
use aura_sql.Core.{
  Column, Expr, Assignment, SelectStmt, Statement, create_table, create_index, insert, select,
  update, delete, begin, commit, rollback, explain, analyze,
}
use aura_sql.Parser.Print.{word, ident}
use aura_sql.Parser.Token.{
  TokenType, ◌is◌, token_eof, token_from, token_where, token_join, token_identifier,
  token_close_paren, token_comma,
}
use aura_sql.Parser.Grammar.{current, expect, identifier, additive_op, comparison_op, and_op, or_op}
use aura_sql.Parser.Statements.{
  end_of, parse_create_table, parse_insert, stops_from, parse_select, parse_delete, parse_update,
  parse_index_name, parse_create_index, parse_begin, parse_commit, parse_rollback, parse_analyze,
  parse_by, parse_statement,
}
use aura_sql.Parser.Print.Statements.{
  optional_name, joins_tokens, where_tokens, eof, statement_tokens, IsStatement,
}
use aura_sql.Parser.RoundTrip.{AfterExpr}
use aura_sql.Parser.RoundTrip.Lists.{
  parse_columns, parse_values, parse_assignments, parse_projection, parse_alias-optional_name,
  names_from, parse_where-where_tokens, joins_no_name, length-joins_tokens, parse_joins,
}

-- The end of a statement, or its WHERE, ends what stands before it.
where_after : (w : Option Expr) → AfterExpr (current (where_tokens w ++ eof ∷ [])).type
unfolding where_tokens or_op and_op comparison_op additive_op
where_after none = ((((refl, refl), refl), refl), refl)
where_after (some e) = ((((refl, refl), refl), refl), refl)

eof_after : AfterExpr token_eof
unfolding or_op and_op comparison_op additive_op
eof_after = ((((refl, refl), refl), refl), refl)

from_after : AfterExpr token_from
unfolding or_op and_op comparison_op additive_op
from_after = ((((refl, refl), refl), refl), refl)

where_is :
    (w : Option Expr) (t : TokenType)
    → (token_eof is t) ≡ false
    → (token_where is t) ≡ false
    → ((current (where_tokens w ++ eof ∷ [])).type is t) ≡ false
unfolding where_tokens
where_is none t at_end at_where = at_end
where_is (some e) t at_end at_where = at_where

create_table_back :
    (table : GoString) (columns : List Column)
    → IsStatement (create_table table columns)
    → parse_statement (statement_tokens (create_table table columns))
      ≡ ok (create_table table columns)
unfolding parse_statement parse_by parse_create_table expect identifier end_of statement_tokens
create_table_back table columns h =
    rw (parse_columns columns (word token_close_paren ∷ eof ∷ []) h.1 refl) refl

insert_back :
    (table : GoString) (values : List Expr)
    → IsStatement (insert table values)
    → parse_statement (statement_tokens (insert table values)) ≡ ok (insert table values)
unfolding parse_statement parse_by parse_insert expect identifier end_of statement_tokens
insert_back table values h =
    rw (parse_values values (word token_close_paren ∷ eof ∷ []) h.1 refl) refl

create_index_back :
    (name table column : GoString)
    → IsStatement (create_index name table column)
    → parse_statement (statement_tokens (create_index name table column))
      ≡ ok (create_index name table column)
unfolding parse_statement parse_by parse_create_index parse_index_name expect identifier end_of
    statement_tokens
create_index_back [] table column h = refl
create_index_back (c ∷ name) table column h = refl

update_back :
    (table : GoString) (assigns : List Assignment) (w : Option Expr)
    → IsStatement (update table assigns w)
    → parse_statement (statement_tokens (update table assigns w)) ≡ ok (update table assigns w)
unfolding parse_statement parse_by parse_update expect identifier end_of statement_tokens
update_back table assigns w h =
    rw
      (
        parse_assignments assigns (where_tokens w ++ eof ∷ []) h.1 (where_after w)
            (where_is w token_comma refl refl),
        parse_where-where_tokens w (eof ∷ []) h.2 eof_after refl,
      )
      refl

delete_back :
    (table : GoString) (w : Option Expr)
    → IsStatement (delete table w)
    → parse_statement (statement_tokens (delete table w)) ≡ ok (delete table w)
unfolding parse_statement parse_by parse_delete expect identifier end_of statement_tokens
delete_back table w h = rw (parse_where-where_tokens w (eof ∷ []) h.1 eof_after refl) refl

select_back :
    (q : SelectStmt)
    → IsStatement (select q)
    → parse_statement (statement_tokens (select q)) ≡ ok (select q)
unfolding parse_statement parse_by parse_select expect identifier end_of statement_tokens
select_back q h =
    let last = where_tokens q.where_expr ++ eof ∷ [] in
    let joined = joins_tokens q.joins ++ last in
    let named = word token_from ∷ ident q.from ∷ (optional_name q.from_alias ++ joined) in
    let counted = length-append (joins_tokens q.joins) last in
    let joins = length-joins_tokens q.joins in
    rw
      (
        parse_projection q.projection named h.0 from_after refl,
        parse_alias-optional_name stops_from q.from_alias joined h.2 names_from
            (joins_no_name q.joins last (where_is q.where_expr token_identifier refl refl)),
        parse_joins (length joined) q.joins last (omega arith) h.3 (where_after q.where_expr)
            (where_is q.where_expr token_join refl refl),
        parse_where-where_tokens q.where_expr (eof ∷ []) h.4 eof_after refl,
      )
      refl

-- The canonical tokens of every statement of the grammar parse back to that statement.
pub parse_statement-statement_tokens :
    (s : Statement) → IsStatement s → parse_statement (statement_tokens s) ≡ ok s
unfolding parse_statement parse_by parse_begin parse_commit parse_rollback parse_analyze expect
    identifier end_of statement_tokens
parse_statement-statement_tokens (create_table table columns) h = create_table_back table columns h
parse_statement-statement_tokens (create_index name table column) h =
    create_index_back name table column h
parse_statement-statement_tokens (insert table values) h = insert_back table values h
parse_statement-statement_tokens (select q) h = select_back q h
parse_statement-statement_tokens (update table assigns w) h = update_back table assigns w h
parse_statement-statement_tokens (delete table w) h = delete_back table w h
parse_statement-statement_tokens begin h = refl
parse_statement-statement_tokens commit h = refl
parse_statement-statement_tokens rollback h = refl
parse_statement-statement_tokens (explain s) h = rw (parse_statement-statement_tokens s h) refl
parse_statement-statement_tokens (analyze table) h = refl
