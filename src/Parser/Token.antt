-- ===== src/Parser/Token.antt =====
-- parser/lexer.go: the kinds of token, in the source's order, and the tokens.
use aura_sql.Prelude.{ℕ, Bool, ◌==◌, GoString, bytes}

pub data TokenType : Type 0 where
  token_error token_eof token_select token_from token_where token_create token_table : TokenType
  token_insert token_into token_values token_analyze token_explain token_and : TokenType
  token_or token_int_type token_text_type token_bool_type token_true token_false : TokenType
  token_delete token_update token_set token_join token_on token_index token_begin : TokenType
  token_commit token_rollback token_transaction token_start token_end : TokenType
  token_identifier token_int_literal token_text_literal token_open_paren : TokenType
  token_close_paren token_comma token_star token_eq token_ne token_lt token_le : TokenType
  token_gt token_ge token_dot token_plus token_minus : TokenType

-- The constant's number, which `==` on kinds compares.
abbrev pub token_number : TokenType → ℕ
token_number token_error = 0
token_number token_eof = 1
token_number token_select = 2
token_number token_from = 3
token_number token_where = 4
token_number token_create = 5
token_number token_table = 6
token_number token_insert = 7
token_number token_into = 8
token_number token_values = 9
token_number token_analyze = 10
token_number token_explain = 11
token_number token_and = 12
token_number token_or = 13
token_number token_int_type = 14
token_number token_text_type = 15
token_number token_bool_type = 16
token_number token_true = 17
token_number token_false = 18
token_number token_delete = 19
token_number token_update = 20
token_number token_set = 21
token_number token_join = 22
token_number token_on = 23
token_number token_index = 24
token_number token_begin = 25
token_number token_commit = 26
token_number token_rollback = 27
token_number token_transaction = 28
token_number token_start = 29
token_number token_end = 30
token_number token_identifier = 31
token_number token_int_literal = 32
token_number token_text_literal = 33
token_number token_open_paren = 34
token_number token_close_paren = 35
token_number token_comma = 36
token_number token_star = 37
token_number token_eq = 38
token_number token_ne = 39
token_number token_lt = 40
token_number token_le = 41
token_number token_gt = 42
token_number token_ge = 43
token_number token_dot = 44
token_number token_plus = 45
token_number token_minus = 46

infix 50 ◌is◌
abbrev pub ◌is◌ : TokenType → TokenType → Bool
s is t = token_number s == token_number t

-- `t.String()`
unfoldable pub token_string : TokenType → GoString
token_string token_error = bytes "ERROR"
token_string token_eof = bytes "EOF"
token_string token_select = bytes "SELECT"
token_string token_from = bytes "FROM"
token_string token_where = bytes "WHERE"
token_string token_create = bytes "CREATE"
token_string token_table = bytes "TABLE"
token_string token_insert = bytes "INSERT"
token_string token_into = bytes "INTO"
token_string token_values = bytes "VALUES"
token_string token_delete = bytes "DELETE"
token_string token_update = bytes "UPDATE"
token_string token_set = bytes "SET"
token_string token_join = bytes "JOIN"
token_string token_on = bytes "ON"
token_string token_index = bytes "INDEX"
token_string token_and = bytes "AND"
token_string token_or = bytes "OR"
token_string token_int_type = bytes "INT"
token_string token_text_type = bytes "TEXT"
token_string token_bool_type = bytes "BOOL"
token_string token_true = bytes "true"
token_string token_false = bytes "false"
token_string token_begin = bytes "BEGIN"
token_string token_commit = bytes "COMMIT"
token_string token_rollback = bytes "ROLLBACK"
token_string token_transaction = bytes "TRANSACTION"
token_string token_start = bytes "START"
token_string token_end = bytes "END"
token_string token_identifier = bytes "IDENTIFIER"
token_string token_int_literal = bytes "INT_LITERAL"
token_string token_text_literal = bytes "TEXT_LITERAL"
token_string token_open_paren = bytes "("
token_string token_close_paren = bytes ")"
token_string token_comma = bytes ","
token_string token_star = bytes "*"
token_string token_eq = bytes "="
token_string token_ne = bytes "!="
token_string token_lt = bytes "<"
token_string token_le = bytes "<="
token_string token_gt = bytes ">"
token_string token_ge = bytes ">="
token_string token_dot = bytes "."
token_string token_plus = bytes "+"
token_string token_minus = bytes "-"
token_string _ = bytes "UNKNOWN"

pub record Token : Type 0 where
  pub type : TokenType
  pub value : GoString

abbrev pub token : TokenType → GoString → Token
token t v = record { type = t; value = v }
