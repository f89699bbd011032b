-- ===== src/Parser/Statements.antt =====
-- parser/parser.go: the statements.
use aura_sql.Prelude.{
  ℕ, zero, suc, Bool, true, false, ◌&&◌, ◌||◌, not, List, [], ◌∷◌, GoString, bytes, str_eq, String,
  if◌then◌else◌, length, Option, none, some,
}
use aura_sql.Errors.{Result, ok, err, errorf, panic, wrapping, ◌>>=◌}
use aura_sql.Core.{
  ColumnType, type_int, type_text, type_bool, Column, Expr, star, literal, JoinClause, Assignment,
  SelectStmt, Statement, create_table, create_index, insert, select, update, delete, begin, commit,
  rollback, explain, analyze,
}
use aura_sql.Parser.Token.{
  TokenType, ◌is◌, token_error, token_eof, token_select, token_from, token_where, token_create,
  token_table, token_insert, token_into, token_values, token_analyze, token_explain, token_int_type,
  token_text_type, token_bool_type, token_delete, token_update, token_set, token_join, token_on,
  token_index, token_begin, token_commit, token_rollback, token_transaction, token_start, token_end,
  token_identifier, token_open_paren, token_close_paren, token_comma, token_star, token_eq,
}
use aura_sql.Parser.Lexer.{lex_all}
use aura_sql.Parser.Grammar.{
  Tokens, Parser, current, next_tok, peek, expect, identifier, parse_primary, parse_expression,
}

-- The loops `for { …; if comma { continue }; break }`.
module _ {A : Type 0} (item : Parser A) where
  unfoldable pub list_loop : ℕ → Parser (List A)
  list_loop zero ts = err panic
  list_loop (suc rounds) ts = do
    (x, ts) ← item ts
    elim ((current ts).type is token_comma) [
      | true ↦ do (xs, ts) ← list_loop rounds (next_tok ts); ok (x ∷ xs, ts)
      | false ↦ ok (x ∷ [], ts)
    ]

  unfoldable pub comma_list : Parser (List A)
  unfolding list_loop
  comma_list ts = list_loop (suc (length ts)) ts

unfoldable pub end_of : {A : Type 0} → String → A → Tokens → Result A
end_of refusal stmt ts = if (current ts).type is token_eof then ok stmt else err (errorf refusal)

abbrev pub column_type : TokenType → Result ColumnType
column_type token_int_type = ok type_int
column_type token_text_type = ok type_text
column_type token_bool_type = ok type_bool
column_type _ = err (errorf "unknown column type %q for column %q")

unfoldable pub parse_column : Parser Column
unfolding identifier
parse_column ts = do
  (name, ts) ← identifier "expected column name, got %q" ts
  type ← column_type (current ts).type
  ok (record { name = name; type = type }, next_tok ts)

unfoldable pub parse_create_table : Tokens → Result Statement
unfolding expect identifier comma_list parse_column end_of
parse_create_table ts = do
  ts ← expect token_table "expected TABLE, got %q" (next_tok ts)
  (table, ts) ← identifier "expected table name, got %q" ts
  ts ← expect token_open_paren "expected '(' after table name, got %q" ts
  (columns, ts) ← comma_list parse_column ts
  ts ← expect token_close_paren "expected ')' at end of column definitions, got %q" ts
  end_of "unexpected tokens after statement end: %q" (create_table table columns) ts

abbrev pub only_literal : Expr → Result Expr
only_literal (literal v) = ok (literal v)
only_literal _ =
    err (errorf "INSERT values must be constant literals, got identifier or expression")

unfoldable pub parse_insert_value : Parser Expr
unfolding parse_primary
parse_insert_value ts = do (e, ts) ← parse_primary ts; e ← only_literal e; ok (e, ts)

unfoldable pub parse_insert : Tokens → Result Statement
unfolding expect identifier comma_list parse_insert_value end_of
parse_insert ts = do
  ts ← expect token_into "expected INTO, got %q" (next_tok ts)
  (table, ts) ← identifier "expected table name, got %q" ts
  ts ← expect token_values "expected VALUES, got %q" ts
  ts ← expect token_open_paren "expected '(' before values list, got %q" ts
  (values, ts) ← comma_list parse_insert_value ts
  ts ← expect token_close_paren "expected ')' after values list, got %q" ts
  end_of "unexpected tokens after statement end: %q" (insert table values) ts

unfoldable pub parse_projected : Parser Expr
parse_projected ts = wrapping "failed to parse select expression: %w" (parse_expression ts)

unfoldable pub parse_select_expressions : Parser (List Expr)
unfolding comma_list parse_projected
parse_select_expressions ts =
    if (current ts).type is token_star
    then ok (star ∷ [], next_tok ts)
    else comma_list parse_projected ts

-- An identifier that is none of the words `stops` is an alias.
unfoldable pub parse_alias : (GoString → Bool) → Tokens → GoString × Tokens
parse_alias stops ts =
    if (current ts).type is token_identifier && not (stops (current ts).value)
    then ((current ts).value, next_tok ts)
    else ([], ts)

abbrev pub stops_from : GoString → Bool
stops_from w = str_eq w (bytes "JOIN") || str_eq w (bytes "WHERE")

abbrev pub stops_join : GoString → Bool
stops_join w = str_eq w (bytes "ON")

-- After the word JOIN.
unfoldable pub parse_join : Parser JoinClause
unfolding expect identifier parse_alias
parse_join ts = do
  (table, ts) ← identifier "expected table name after JOIN, got %q" ts
  let (alias, ts) = parse_alias stops_join ts
  ts ← expect token_on "expected ON keyword after JOIN table/alias, got %q" ts
  (on, ts) ← wrapping "failed parsing JOIN condition: %w" (parse_expression ts)
  ok (record { table = table; alias = alias; on = on }, ts)

unfoldable pub joins_loop : ℕ → Parser (List JoinClause)
unfolding parse_join
joins_loop zero ts = if (current ts).type is token_join then err panic else ok ([], ts)
joins_loop (suc rounds) ts = elim ((current ts).type is token_join) [
  | true ↦ do
    (join, ts) ← parse_join (next_tok ts)
    (joins, ts) ← joins_loop rounds ts
    ok (join ∷ joins, ts)
  | false ↦ ok ([], ts)
]

unfoldable pub parse_where : Parser (Option Expr)
parse_where ts =
    if (current ts).type is token_where
    then (do (e, ts) ← parse_expression (next_tok ts); ok (some e, ts))
    else ok (none, ts)

unfoldable pub parse_select : Tokens → Result Statement
unfolding expect identifier parse_select_expressions parse_alias joins_loop parse_where end_of
parse_select ts = do
  (projection, ts) ← parse_select_expressions (next_tok ts)
  ts ← expect token_from "expected FROM keyword, got %q" ts
  (from, ts) ← identifier "expected table name after FROM, got %q" ts
  let (alias, ts) = parse_alias stops_from ts
  (joins, ts) ← joins_loop (length ts) ts
  (where_expr, ts) ← parse_where ts
  let q : SelectStmt = record {
    projection = projection;
    from = from;
    from_alias = alias;
    joins = joins;
    where_expr = where_expr;
  }
  end_of "unexpected token at end of SELECT statement: %q" (select q) ts

unfoldable pub parse_delete : Tokens → Result Statement
unfolding expect identifier parse_where end_of
parse_delete ts = do
  ts ← expect token_from "expected FROM after DELETE, got %q" (next_tok ts)
  (table, ts) ← identifier "expected table name, got %q" ts
  (where_expr, ts) ← parse_where ts
  end_of "unexpected tokens after DELETE statement: %q" (delete table where_expr) ts

unfoldable pub parse_assignment : Parser Assignment
unfolding expect identifier
parse_assignment ts = do
  (column, ts) ← identifier "expected column identifier in SET clause, got %q" ts
  ts ← expect token_eq "expected '=' after column %s, got %q" ts
  (value, ts) ← parse_expression ts
  ok (record { column = column; value = value }, ts)

unfoldable pub parse_update : Tokens → Result Statement
unfolding expect identifier comma_list parse_assignment parse_where end_of
parse_update ts = do
  (table, ts) ← identifier "expected table name after UPDATE, got %q" (next_tok ts)
  ts ← expect token_set "expected SET keyword, got %q" ts
  (assignments, ts) ← comma_list parse_assignment ts
  (where_expr, ts) ← parse_where ts
  end_of "unexpected tokens after UPDATE statement: %q" (update table assignments where_expr) ts

-- The name is optional.
unfoldable pub parse_index_name : Parser GoString
unfolding identifier
parse_index_name ts =
    if (current ts).type is token_on
    then ok ([], ts)
    else identifier "expected index name or ON keyword, got %q" ts

unfoldable pub parse_create_index : Tokens → Result Statement
unfolding expect identifier parse_index_name end_of
parse_create_index ts = do
  (name, ts) ← parse_index_name (next_tok (next_tok ts))
  ts ← expect token_on "expected ON keyword, got %q" ts
  (table, ts) ← identifier "expected table name, got %q" ts
  ts ← expect token_open_paren "expected '(' before column name, got %q" ts
  (column, ts) ← identifier "expected column identifier, got %q" ts
  ts ← expect token_close_paren "expected ')' after column name, got %q" ts
  end_of "unexpected tokens after CREATE INDEX statement: %q" (create_index name table column) ts

-- Past an optional word.
abbrev pub skip : TokenType → Tokens → Tokens
skip t ts = if (current ts).type is t then next_tok ts else ts

unfoldable pub parse_begin : Tokens → Result Statement
unfolding end_of
parse_begin ts =
    end_of "unexpected tokens after BEGIN/START: %q" begin (skip token_transaction (next_tok ts))

unfoldable pub parse_commit : Tokens → Result Statement
unfolding end_of
parse_commit ts =
    end_of "unexpected tokens after COMMIT/END: %q" commit (skip token_transaction (next_tok ts))

unfoldable pub parse_rollback : Tokens → Result Statement
unfolding end_of
parse_rollback ts =
    end_of "unexpected tokens after ROLLBACK: %q" rollback (skip token_transaction (next_tok ts))

unfoldable pub parse_analyze : Tokens → Result Statement
unfolding identifier end_of
parse_analyze ts = do
  (table, ts) ←
      identifier "expected table name after ANALYZE, got %q" (skip token_table (next_tok ts))
  end_of "unexpected token at end of ANALYZE statement: %q" (analyze table) ts

-- The cases of `parseStatement` but EXPLAIN.
unfoldable pub parse_by : TokenType → Tokens → Result Statement
unfolding parse_create_table parse_insert parse_select parse_delete parse_update parse_create_index
    parse_begin parse_commit parse_rollback parse_analyze
parse_by token_error ts = err (errorf "lexer error: %s")
parse_by token_create ts =
    if (peek ts).type is token_index then parse_create_index ts else parse_create_table ts
parse_by token_insert ts = parse_insert ts
parse_by token_select ts = parse_select ts
parse_by token_delete ts = parse_delete ts
parse_by token_update ts = parse_update ts
parse_by token_begin ts = parse_begin ts
parse_by token_start ts = parse_begin ts
parse_by token_commit ts = parse_commit ts
parse_by token_end ts = parse_commit ts
parse_by token_rollback ts = parse_rollback ts
parse_by token_analyze ts = parse_analyze ts
parse_by _ ts = err (errorf "unexpected statement starting with %q")

-- EXPLAIN moves past its token and parses the statement after it.
unfoldable pub parse_statement : Tokens → Result Statement
unfolding parse_by
parse_statement [] = parse_by token_eof []
parse_statement (t ∷ ts) =
    let after = parse_statement ts in
    if t.type is token_explain
    then (do stmt ← wrapping "failed to parse statement for EXPLAIN: %w" after; ok (explain stmt))
    else parse_by t.type (t ∷ ts)

unfoldable pub parse : GoString → Result Statement
unfolding lex_all parse_statement
parse sql = parse_statement (lex_all sql)
