-- ===== src/Parser/Lexer.antt =====
-- parser/lexer.go: the scanner. The lexer's state is the rest of its input from `pos` on. The input
-- is ASCII text, where a rune is a byte and Go's tables of letters, digits and spaces are the
-- ranges below.
use aura_sql.Prelude.{
  ℕ, zero, suc, ◌-◌, Bool, true, false, ◌&&◌, ◌||◌, List, [], ◌∷◌, GoString, bytes, str_eq, ◌==◌,
  leb, if◌then◌else◌, length, Option, none, some,
}
use aura_sql.Parser.Token.{
  TokenType, Token, token, ◌is◌, token_analyze, token_and, token_begin, token_bool_type,
  token_close_paren, token_comma, token_commit, token_create, token_delete, token_dot, token_end,
  token_eof, token_eq, token_error, token_explain, token_false, token_from, token_ge, token_gt,
  token_identifier, token_index, token_insert, token_int_literal, token_int_type, token_into,
  token_join, token_le, token_lt, token_minus, token_ne, token_on, token_open_paren, token_or,
  token_plus, token_rollback, token_select, token_set, token_star, token_start, token_table,
  token_text_literal, token_text_type, token_transaction, token_true, token_update, token_values,
  token_where,
}

-- `unicode.IsSpace`, `unicode.IsDigit`, `unicode.IsLetter` and `strings.ToUpper` of ASCII.
abbrev pub is_space : ℕ → Bool
is_space c = (leb 9 c && leb c 13) || c == 32

abbrev pub is_digit : ℕ → Bool
is_digit c = leb 48 c && leb c 57

abbrev pub is_letter : ℕ → Bool
is_letter c = (leb 65 c && leb c 90) || (leb 97 c && leb c 122)

abbrev pub upper : ℕ → ℕ
upper c = if leb 97 c && leb c 122 then c - 32 else c

abbrev pub to_upper : GoString → GoString
to_upper [] = []
to_upper (c ∷ s) = upper c ∷ to_upper s

abbrev pub is_identifier_start : ℕ → Bool
is_identifier_start c = is_letter c || c == 95

abbrev pub is_word_char : ℕ → Bool
is_word_char c = is_identifier_start c || is_digit c

-- The loops that move `pos` over the runes of a class: what they pass, and what they leave.
abbrev pub passed : (ℕ → Bool) → GoString → GoString
passed p [] = []
passed p (c ∷ s) = let more = passed p s in if p c then c ∷ more else []

abbrev pub left : (ℕ → Bool) → GoString → GoString
left p [] = []
left p (c ∷ s) = let more = left p s in if p c then more else c ∷ s

abbrev pub not_quote : ℕ → Bool
not_quote c = if c == 39 then false else true

abbrev pub keywords : List (GoString × TokenType)
keywords =
    (bytes "SELECT", token_select)
    ∷ (bytes "FROM", token_from)
    ∷ (bytes "WHERE", token_where)
    ∷ (bytes "CREATE", token_create)
    ∷ (bytes "TABLE", token_table)
    ∷ (bytes "INSERT", token_insert)
    ∷ (bytes "INTO", token_into)
    ∷ (bytes "VALUES", token_values)
    ∷ (bytes "DELETE", token_delete)
    ∷ (bytes "UPDATE", token_update)
    ∷ (bytes "SET", token_set)
    ∷ (bytes "JOIN", token_join)
    ∷ (bytes "EXPLAIN", token_explain)
    ∷ (bytes "ANALYZE", token_analyze)
    ∷ (bytes "ON", token_on)
    ∷ (bytes "INDEX", token_index)
    ∷ (bytes "AND", token_and)
    ∷ (bytes "OR", token_or)
    ∷ (bytes "INT", token_int_type)
    ∷ (bytes "TEXT", token_text_type)
    ∷ (bytes "BOOL", token_bool_type)
    ∷ (bytes "TRUE", token_true)
    ∷ (bytes "FALSE", token_false)
    ∷ (bytes "BEGIN", token_begin)
    ∷ (bytes "COMMIT", token_commit)
    ∷ (bytes "ROLLBACK", token_rollback)
    ∷ (bytes "TRANSACTION", token_transaction)
    ∷ (bytes "START", token_start)
    ∷ (bytes "END", token_end)
    ∷ []

unfoldable pub word_type : GoString → List (GoString × TokenType) → TokenType
word_type w [] = token_identifier
word_type w ((keyword, t) ∷ table) =
    let rest = word_type w table in if str_eq w keyword then t else rest

unfoldable pub read_identifier_or_keyword : GoString → Token × GoString
unfolding word_type
read_identifier_or_keyword s =
    let val = passed is_word_char s in
    (token (word_type (to_upper val) keywords) val, left is_word_char s)

unfoldable pub read_int_literal : GoString → Token × GoString
read_int_literal s = (token token_int_literal (passed is_digit s), left is_digit s)

-- After the opening quote.
abbrev pub close_text : GoString → GoString → Token × GoString
close_text val [] = (token token_error (bytes "unclosed string literal"), [])
close_text val (quote ∷ rest) = (token token_text_literal val, rest)

unfoldable pub read_text_literal : GoString → Token × GoString
read_text_literal s = close_text (passed not_quote s) (left not_quote s)

-- The cases of one character that stands for itself.
abbrev pub single : ℕ → Option TokenType
single c =
    if c == 40
    then some token_open_paren
    else if c == 41
    then some token_close_paren
    else if c == 44
    then some token_comma
    else if c == 42
    then some token_star
    else if c == 46
    then some token_dot
    else if c == 43
    then some token_plus
    else if c == 45
    then some token_minus
    else if c == 61
    then some token_eq
    else none

-- `<`, `>` and `!` look at the next character, if there is one.
abbrev pub after_lt : GoString → Token × GoString
after_lt [] = (token token_lt (bytes "<"), [])
after_lt (c ∷ rest) =
    if c == 61
    then (token token_le (bytes "<="), rest)
    else if c == 62
    then (token token_ne (bytes "<>"), rest)
    else (token token_lt (bytes "<"), c ∷ rest)

abbrev pub after_gt : GoString → Token × GoString
after_gt [] = (token token_gt (bytes ">"), [])
after_gt (c ∷ rest) =
    if c == 61 then (token token_ge (bytes ">="), rest) else (token token_gt (bytes ">"), c ∷ rest)

abbrev pub after_bang : GoString → Token × GoString
after_bang [] = (token token_error (bytes "unexpected character '!'"), [])
after_bang (c ∷ rest) =
    if c == 61
    then (token token_ne (bytes "!="), rest)
    else (token token_error (bytes "unexpected character '!'"), c ∷ rest)

-- The other characters: the error token's value keeps the format string.
abbrev pub scan_other : ℕ → GoString → Token × GoString
scan_other c rest =
    if c == 60
    then after_lt rest
    else if c == 62
    then after_gt rest
    else if c == 33
    then after_bang rest
    else if c == 39
    then read_text_literal rest
    else if is_digit c
    then read_int_literal (c ∷ rest)
    else if is_identifier_start c
    then read_identifier_or_keyword (c ∷ rest)
    else (token token_error (bytes "unexpected character %q"), rest)

abbrev pub scan_by : Option TokenType → ℕ → GoString → Token × GoString
scan_by (some t) c rest = (token t (c ∷ []), rest)
scan_by none c rest = scan_other c rest

abbrev pub scan : GoString → Token × GoString
scan [] = (token token_eof [], [])
scan (c ∷ rest) = scan_by (single c) c rest

abbrev pub skip_whitespace : GoString → GoString
skip_whitespace s = left is_space s

-- The token, and the input after it.
unfoldable pub next_token : GoString → Token × GoString
unfolding read_text_literal read_int_literal read_identifier_or_keyword
next_token s = scan (skip_whitespace s)

abbrev pub ends_scan : Token → Bool
ends_scan t = t.type is token_eof || t.type is token_error

-- The loop of `LexAll`, on fuel.
unfoldable pub lex_rounds : ℕ → GoString → List Token
unfolding next_token
lex_rounds zero s = []
lex_rounds (suc rounds) s =
    let t = (next_token s).0 in
    let more = lex_rounds rounds (next_token s).1 in if ends_scan t then t ∷ [] else t ∷ more

-- Each round but the last takes a character at least.
unfoldable pub lex_all : GoString → List Token
unfolding lex_rounds
lex_all sql = lex_rounds (suc (length sql)) sql
