-- ===== src/Parser/Print.antt =====
-- The statements of the grammar and their canonical tokens: an independent description of what
-- `Parse` reads.
pub mod Numbers
pub mod Statements
use aura_sql.Prelude.{
  ℕ, suc, ◌≤◌, ◌<◌, ◌^◌, ◌≡◌, Bool, true, false, [], ◌∷◌, ◌++◌, ◌&&◌, GoString, ◌==◌, decimal,
  if◌then◌else◌,
}
use aura_sql.Prelude.Int.{ℤ, pos, negsuc}
use aura_sql.Core.{
  ColumnType, type_int, type_text, type_bool, Value, new_int, new_text, new_bool, BinOp, op_eq,
  op_ne, op_lt, op_le, op_gt, op_ge, op_and, op_or, op_add, op_sub, Expr, star, column_ref, literal,
  binary,
}
use aura_sql.Parser.Token.{
  TokenType, Token, token, token_string, token_true, token_false, token_and, token_or,
  token_identifier, token_int_literal, token_text_literal, token_star, token_eq, token_ne, token_lt,
  ◌is◌, token_le, token_gt, token_ge, token_dot, token_plus, token_minus,
}
use aura_sql.Parser.Lexer.{
  is_identifier_start, is_word_char, not_quote, keywords, word_type, to_upper,
}
use aura_sql.Parser.Grammar.{Tokens}

-- A word or sign, spelled as the source's `String` spells it.
abbrev pub word : TokenType → Token
word t = token t (token_string t)

abbrev pub ident : GoString → Token
ident name = token token_identifier name

abbrev pub op_type : BinOp → TokenType
op_type op_eq = token_eq
op_type op_ne = token_ne
op_type op_lt = token_lt
op_type op_le = token_le
op_type op_gt = token_gt
op_type op_ge = token_ge
op_type op_and = token_and
op_type op_or = token_or
op_type op_add = token_plus
op_type op_sub = token_minus

abbrev pub column_tokens : GoString → GoString → Tokens
column_tokens [] name = ident name ∷ []
column_tokens (c ∷ table) name = ident (c ∷ table) ∷ word token_dot ∷ ident name ∷ []

abbrev int_token : ℤ → Token
int_token (pos n) = token token_int_literal (decimal n)
int_token (negsuc n) = token token_int_literal []

abbrev bool_token : Bool → Token
bool_token true = word token_true
bool_token false = word token_false

abbrev literal_token : ColumnType → Value → Token
literal_token type_int v = int_token v.int
literal_token type_text v = token token_text_literal v.str
literal_token type_bool v = bool_token v.bool

abbrev pub value_token : Value → Token
value_token v = literal_token v.type v

unfoldable pub expr_tokens : Expr → Tokens
unfolding decimal
expr_tokens star = word token_star ∷ []
expr_tokens (column_ref table name) = column_tokens table name
expr_tokens (literal v) = value_token v ∷ []
expr_tokens (binary op l r) = expr_tokens l ++ word (op_type op) ∷ expr_tokens r

abbrev pub every : (ℕ → Bool) → GoString → Bool
every p [] = true
every p (c ∷ s) = let rest = every p s in if p c then rest else false

-- A name is a word of the scanner that is no keyword.
unfoldable pub is_name : GoString → Bool
unfolding word_type
is_name [] = false
is_name (c ∷ s) =
    is_identifier_start c
    && (every is_word_char s
        && (if word_type (to_upper (c ∷ s)) keywords is token_identifier then true else false))

abbrev pub IsName : GoString → Type 0
IsName s = is_name s ≡ true

-- `table` may be missing.
abbrev pub IsQualifier : GoString → Type 0
IsQualifier [] = Unit
IsQualifier (c ∷ s) = IsName (c ∷ s)

-- The constants that SQL can spell: no NULL, no negative number, no quote in a text.
pub data IsConstant : Value → Type 0 where
  ints : (n : ℕ) → n < 2 ^ 63 → IsConstant (new_int (pos n))
  texts : (s : GoString) → every not_quote s ≡ true → IsConstant (new_text s)
  bools : (b : Bool) → IsConstant (new_bool b)

-- How tightly an operator binds.
abbrev pub level : BinOp → ℕ
level op_or = 0
level op_and = 1
level op_add = 3
level op_sub = 3
level _ = 2

-- Operators nest to the left; a comparison does not nest.
abbrev pub left_level : BinOp → ℕ
left_level op = if level op == 2 then 3 else level op

-- The expression needs no parentheses where operators of level `k` and above may stand.
abbrev pub IsAt : ℕ → Expr → Type 0
IsAt k star = ⊥
IsAt k (column_ref table name) = IsQualifier table × IsName name
IsAt k (literal v) = IsConstant v
IsAt k (binary op l r) = (k ≤ level op) × IsAt (left_level op) l × IsAt (suc (level op)) r

abbrev pub IsExpr : Expr → Type 0
IsExpr e = IsAt 0 e
