-- ===== src/Tests/Parser.antt =====
-- Runs of the scanner and the parser.
use aura_sql.Prelude.{◌≡◌, ◌≢◌, refl, bytes, true, str_eq, [], ◌∷◌, ◌++◌, some, arith}
use aura_sql.Prelude.Int.{pos}
use aura_sql.Errors.{ok, err, errorf, panic, wrap}
use aura_sql.Core.{
  new_int, new_text, new_bool, op_eq, op_lt, op_and, op_or, op_add, op_sub, op_ge, op_ne, Expr,
  column_ref, literal, binary, Statement, select, explain, delete, begin,
}
use aura_sql.Parser.Token.{token_string, token_explain, token_comma}
use aura_sql.Parser.Lexer.{lex_all}
use aura_sql.Parser.Grammar.{parse_or}
use aura_sql.Parser.Statements.{parse}
use aura_sql.Parser.Print.{word, expr_tokens, is_name, IsExpr, ints, texts, bools}
use aura_sql.Parser.Print.Statements.{statement_tokens, IsStatement}
use aura_sql.Parser.Scan.Text.{text_of}
use aura_sql.Parser.RoundTrip.{parse_or-expr_tokens}
use aura_sql.Parser.Total.Parse.{parse_total}
use aura_sql.Parser.Total.Scan.{IsScan, lex_all-IsScan}
use aura_sql.Parser.Scan.Statements.{parse-statement_text}
use aura_sql.Parser.RoundTrip.Lists.{comma_stops}

-- id >= 12 AND a.b = c.d + 3 - x OR true
abbrev condition : Expr
condition =
    binary op_or
      (binary op_and (binary op_ge (column_ref [] (bytes "id")) (literal (new_int (pos 12)))) (
        binary op_eq (column_ref (bytes "a") (bytes "b")) (
          binary op_sub
            (binary op_add (column_ref (bytes "c") (bytes "d")) (literal (new_int (pos 3))))
            (column_ref [] (bytes "x")))))
      (literal (new_bool true))

condition-IsExpr : IsExpr condition
unfolding is_name str_eq
condition-IsExpr = (
  omega arith,
  (
    omega arith,
    (omega arith, (tt, refl), ints 12 (omega arith)),
    (
      omega arith,
      (refl, refl),
      (omega arith, (omega arith, (refl, refl), ints 3 (omega arith)), (tt, refl)),
    ),
  ),
  bools true,
)

abbrev query : Statement
query = explain (
    select (record {
      projection = column_ref (bytes "a") (bytes "b") ∷ literal (new_text (bytes "x y")) ∷ [];
      from = bytes "t";
      from_alias = bytes "a";
      joins = record { table = bytes "u"; alias = []; on = condition } ∷ [];
      where_expr = some condition;
    }))

query-IsStatement : IsStatement query
unfolding is_name str_eq
query-IsStatement = (
  ((refl, refl), (texts (bytes "x y") refl, tt)),
  refl,
  refl,
  ((refl, tt, condition-IsExpr), tt),
  condition-IsExpr,
)

parse-statement_text_example : parse (text_of (statement_tokens query)) ≡ ok query
parse-statement_text_example = parse-statement_text query query-IsStatement

parse_or-expr_tokens_example :
    parse_or (expr_tokens condition ++ word token_comma ∷ [])
    ≡ ok (condition, word token_comma ∷ [])
parse_or-expr_tokens_example =
    parse_or-expr_tokens condition condition-IsExpr (word token_comma ∷ []) comma_stops

parse_total_example : parse (bytes "SELECT a FROM t WHERE (b") ≢ err panic
parse_total_example = parse_total (bytes "SELECT a FROM t WHERE (b")

lex_all-IsScan_example : IsScan (lex_all (bytes "a <= 'b"))
lex_all-IsScan_example = lex_all-IsScan (bytes "a <= 'b")

-- Words in either case, signs without spaces, `!=`.
mixed_case :
    parse (bytes "delete From t1 wHeRe x!=1 or y<2")
    ≡ ok (
        delete (bytes "t1") (
          some (
            binary op_or
              (binary op_ne (column_ref [] (bytes "x")) (literal (new_int (pos 1))))
              (binary op_lt (column_ref [] (bytes "y")) (literal (new_int (pos 2)))))))
unfolding parse str_eq parse_or
mixed_case = refl

-- A number above 2^63 - 1, a sign before a number and an open text are refused.
too_large :
    parse (bytes "INSERT INTO t VALUES (9223372036854775808)")
    ≡ err (errorf "invalid integer literal %q: %v")
unfolding parse str_eq parse_or
too_large = refl

negative :
    parse (bytes "INSERT INTO t VALUES (-1)")
    ≡ err (errorf "expected expression primary element, got %q")
unfolding parse str_eq parse_or
negative = refl

open_text :
    parse (bytes "SELECT 'abc")
    ≡ err (
        wrap "failed to parse select expression: %w"
          (errorf "expected expression primary element, got %q"))
unfolding parse str_eq parse_or
open_text = refl

start_transaction : parse (bytes "START TRANSACTION") ≡ ok begin
unfolding parse str_eq parse_or
start_transaction = refl

explain_spelling : token_string token_explain ≡ bytes "UNKNOWN"
unfolding token_string
explain_spelling = refl
