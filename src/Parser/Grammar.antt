-- ===== src/Parser/Grammar.antt =====
-- parser/parser.go: the parser's state and its expressions.
-- The state is the tokens from `currTok` on, as the scanner gives them to the first end of input or
-- error; after these it gives the end of input. The parser moves past neither.
-- Each loop has a bound on its rounds, and a loop out of rounds is a panic.
use aura_sql.Prelude.{
  ℕ, zero, suc, ◌+◌, ◌-◌, ◌*◌, ◌^◌, true, false, List, [], ◌∷◌, GoString, String, ltb,
  if◌then◌else◌, length, Option, none, some,
}
use aura_sql.Prelude.Int.{ℤ, pos}
use aura_sql.Errors.{Result, ok, err, errorf, panic, ◌>>=◌}
use aura_sql.Core.{
  BinOp, op_eq, op_ne, op_lt, op_le, op_gt, op_ge, op_and, op_or, op_add, op_sub, Expr, column_ref,
  literal, binary, new_int, new_text, new_bool,
}
use aura_sql.Parser.Token.{
  TokenType, Token, token, ◌is◌, token_eof, token_identifier, token_int_literal, token_text_literal,
  token_true, token_false, token_dot, token_or, token_and, token_eq, token_ne, token_lt, token_le,
  token_gt, token_ge, token_plus, token_minus,
}
use aura_sql.Parser.Lexer.{is_digit}

abbrev pub Tokens : Type 0
Tokens = List Token

abbrev pub Parser : Type 0 → Type 0
Parser A = Tokens → Result (A × Tokens)

-- `p.currTok`
abbrev pub current : Tokens → Token
current [] = token token_eof []
current (t ∷ ts) = t

-- `p.nextToken()`
abbrev pub next_tok : Tokens → Tokens
next_tok [] = []
next_tok (t ∷ ts) = ts

-- `p.peekTok`
abbrev pub peek : Tokens → Token
peek ts = current (next_tok ts)

-- The tests that refuse a token, and move past it otherwise.
unfoldable pub expect : TokenType → String → Tokens → Result Tokens
expect t refusal ts = if (current ts).type is t then ok (next_tok ts) else err (errorf refusal)

unfoldable pub identifier : String → Parser GoString
identifier refusal ts =
    if (current ts).type is token_identifier
    then ok ((current ts).value, next_tok ts)
    else err (errorf refusal)

-- `strconv.ParseInt(s, 10, 64)` of a text without a sign.
unfoldable pub digits_value : ℕ → GoString → Option ℕ
digits_value acc [] = some acc
digits_value acc (c ∷ s) =
    let more = digits_value (10 * acc + (c - 48)) s in if is_digit c then more else none

abbrev pub in_int64 : Option ℕ → Result ℤ
in_int64 none = err (errorf "invalid syntax")
in_int64 (some n) = if ltb n (2 ^ 63) then ok (pos n) else err (errorf "value out of range")

unfoldable pub parse_int : GoString → Result ℤ
unfolding digits_value
parse_int [] = err (errorf "invalid syntax")
parse_int (c ∷ s) = in_int64 (digits_value 0 (c ∷ s))

-- After the first identifier.
unfoldable pub column_rest : GoString → Parser Expr
unfolding identifier
column_rest name ts =
    if (current ts).type is token_dot
    then (do
      (column, ts) ← identifier "expected column identifier after '.', got %q" (next_tok ts)
      ok (column_ref name column, ts))
    else ok (column_ref [] name, ts)

abbrev pub int_literal : Result ℤ → Parser Expr
int_literal (ok n) ts = ok (literal (new_int n), ts)
int_literal (err e) ts = err (errorf "invalid integer literal %q: %v")

-- The cases of the current token, over the tokens after it.
abbrev pub primary : TokenType → GoString → Parser Expr
primary token_identifier v ts = column_rest v ts
primary token_int_literal v ts = int_literal (parse_int v) ts
primary token_text_literal v ts = ok (literal (new_text v), ts)
primary token_true v ts = ok (literal (new_bool true), ts)
primary token_false v ts = ok (literal (new_bool false), ts)
primary _ v ts = err (errorf "expected expression primary element, got %q")

unfoldable pub parse_primary : Parser Expr
unfolding column_rest parse_int
parse_primary ts = primary (current ts).type (current ts).value (next_tok ts)

-- The operators of each level.
unfoldable pub additive_op : TokenType → Option BinOp
additive_op token_plus = some op_add
additive_op token_minus = some op_sub
additive_op _ = none

unfoldable pub comparison_op : TokenType → Option BinOp
comparison_op token_eq = some op_eq
comparison_op token_ne = some op_ne
comparison_op token_lt = some op_lt
comparison_op token_le = some op_le
comparison_op token_gt = some op_gt
comparison_op token_ge = some op_ge
comparison_op _ = none

unfoldable pub and_op : TokenType → Option BinOp
and_op token_and = some op_and
and_op _ = none

unfoldable pub or_op : TokenType → Option BinOp
or_op token_or = some op_or
or_op _ = none

-- The loop of `parseOr`, `parseAnd` and `parseAdditive`: as long as the current token is an operator
-- of the level, move past it, read the right operand and nest to the left. Each round takes a token
-- at least, so the tokens at hand bound the rounds.
module _ (op_of : TokenType → Option BinOp) (operand : Parser Expr) where
  unfoldable pub chain_loop : ℕ → Expr → Parser Expr
  chain_loop zero left ts = elim (op_of (current ts).type) [
    | none ↦ ok (left, ts)
    | some op ↦ err panic
  ]
  chain_loop (suc rounds) left ts = elim (op_of (current ts).type) [
    | none ↦ ok (left, ts)
    | some op ↦ do (right, ts) ← operand (next_tok ts); chain_loop rounds (binary op left right) ts
  ]

  unfoldable pub chain : Parser Expr
  unfolding chain_loop
  chain ts = do (left, ts) ← operand ts; chain_loop (length ts) left ts

unfoldable pub parse_additive : Parser Expr
unfolding chain parse_primary additive_op
parse_additive ts = chain additive_op parse_primary ts

-- One comparison at most.
abbrev pub compared : Expr → Tokens → Option BinOp → Result (Expr × Tokens)
compared left ts none = ok (left, ts)
compared left ts (some op) = do
  (right, ts) ← parse_additive (next_tok ts)
  ok (binary op left right, ts)

unfoldable pub parse_comparison : Parser Expr
unfolding comparison_op parse_additive
parse_comparison ts = do
  (left, ts) ← parse_additive ts
  compared left ts (comparison_op (current ts).type)

unfoldable pub parse_and : Parser Expr
unfolding chain parse_comparison and_op
parse_and ts = chain and_op parse_comparison ts

unfoldable pub parse_or : Parser Expr
unfolding chain parse_and or_op
parse_or ts = chain or_op parse_and ts

abbrev pub parse_expression : Parser Expr
parse_expression ts = parse_or ts
