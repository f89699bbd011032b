-- ===== src/Parser/Total.antt =====
-- The parser's loops end: none of them runs out of rounds.
pub mod Statements
pub mod Parse
pub mod Scan
use aura_sql.Prelude.{
  ℕ, zero, suc, ◌+◌, ◌<◌, ◌≤◌, ◌≡◌, ◌≢◌, refl, arith, List, [], ◌∷◌, GoString, String, length,
  Option, none, some, Bool-cases, Bool, true, false, inl, inr, Option-cases,
}
use aura_sql.Prelude.Int.{ℤ}
use aura_sql.Errors.{Error, Result, ok, err, errorf, wrap, panic, wrapping, wrapped, ◌>>=◌}
use aura_sql.Core.{Expr, BinOp, binary}
use aura_sql.Parser.Token.{
  TokenType, Token, ◌is◌, token_identifier, token_int_literal, token_text_literal, token_true,
  token_false, token_comma, token_eof,
}
use aura_sql.Parser.Grammar.{
  Tokens, Parser, current, next_tok, expect, identifier, parse_int, column_rest, int_literal,
  primary, parse_primary, additive_op, comparison_op, and_op, or_op, chain_loop, chain,
  parse_additive, compared, parse_comparison, parse_and, parse_or,
}

abbrev IsCalm : Error → Type 0
IsCalm panic = ⊥
IsCalm _ = Unit

-- No panic, and a result that satisfies `P`.
abbrev pub Ends : {A : Type 0} → (A → Type 0) → Result A → Type 0
Ends P (ok a) = P a
Ends P (err e) = IsCalm e

pub >>=-Ends :
    {A B : Type 0} (P : A → Type 0) (Q : B → Type 0) (m : Result A) (go_on : A → Result B)
    → Ends P m
    → ((a : A) → P a → Ends Q (go_on a))
    → Ends Q (m >>= go_on)
>>=-Ends P Q (err e) go_on h then = h
>>=-Ends P Q (ok a) go_on h then = then a h

-- Fewer than `n` tokens are left.
abbrev pub Left : {A : Type 0} → ℕ → A × Tokens → Type 0
Left n p = length p.1 < n

abbrev pub Within : {A : Type 0} → ℕ → Result (A × Tokens) → Type 0
Within n m = Ends (Left n) m

module _ {A : Type 0} where
  pub Within-mono : {n k : ℕ} (m : Result (A × Tokens)) → n ≤ k → Within n m → Within k m
  Within-mono (err e) le h = h
  Within-mono (ok (a, ts)) le h = omega arith

  pub >>=-Within :
      {B : Type 0} {n : ℕ} (k : ℕ) (m : Result (A × Tokens))
      (go_on : A × Tokens → Result (B × Tokens))
      → Within n m
      → ((a : A) (ts : Tokens) → length ts < n → Within k (go_on (a, ts)))
      → Within k (m >>= go_on)
  >>=-Within k m go_on h then = >>=-Ends (Left _) (Left k) m go_on h λ p less. then p.0 p.1 less

pub wrapping-Ends :
    {A : Type 0} (P : A → Type 0) (p : String) (m : Result A) → Ends P m → Ends P (wrapping p m)
wrapping-Ends P p (ok a) h = h
wrapping-Ends P p (err panic) h = h
wrapping-Ends P p (err _) h = tt

pub identifier-Within :
    (refusal : String) (ts : Tokens) → Within (length ts) (identifier refusal ts)
unfolding identifier
identifier-Within refusal [] = tt
identifier-Within refusal (t ∷ ts) = ground arith

column_rest-Within :
    (name : GoString) (ts : Tokens) → Within (suc (length ts)) (column_rest name ts)
unfolding column_rest
column_rest-Within name [] = ground arith
column_rest-Within name (t ∷ ts) =
    ground (arith, identifier-Within "expected column identifier after '.', got %q" ts)

int_literal-Within : (n : Result ℤ) (ts : Tokens) → Within (suc (length ts)) (int_literal n ts)
int_literal-Within (ok n) ts = omega arith
int_literal-Within (err e) ts = tt

primary-Within :
    (t : TokenType) (v : GoString) (ts : Tokens) → Within (suc (length ts)) (primary t v ts)
primary-Within token_identifier v ts = column_rest-Within v ts
primary-Within token_int_literal v ts = int_literal-Within (parse_int v) ts
primary-Within token_text_literal v ts = omega arith
primary-Within token_true v ts = omega arith
primary-Within token_false v ts = omega arith
primary-Within _ v ts = tt

pub parse_primary-Within : (ts : Tokens) → Within (length ts) (parse_primary ts)
unfolding parse_primary
parse_primary-Within [] = tt
parse_primary-Within (t ∷ ts) = primary-Within t.type t.value ts

-- A parser that takes a token at least.
abbrev pub Shrinks : {A : Type 0} → Parser A → Type 0
Shrinks p = (ts : Tokens) → Within (length ts) (p ts)

module _ (op_of : TokenType → Option BinOp) (eof_stops : op_of token_eof ≡ none)
    (operand : Parser Expr) (shrinks : Shrinks operand) where
  chain_loop-Within :
      (rounds : ℕ) (left : Expr) (ts : Tokens)
      → length ts ≤ rounds
      → Within (suc (length ts)) (chain_loop op_of operand rounds left ts)
  unfolding chain_loop
  chain_loop-Within zero left [] h = rw (eof_stops, chain_loop) (omega arith)
  chain_loop-Within zero left (t ∷ ts) h = absurd (omega arith)
  chain_loop-Within (suc rounds) left [] h = rw (eof_stops, chain_loop) (omega arith)
  chain_loop-Within (suc rounds) left (t ∷ ts) h = elim (Option-cases (op_of t.type)) [
    | inl at ↦ rw (at, chain_loop) (omega arith)
    | inr (op, at) ↦
        rw (at, chain_loop)
          (>>=-Within _ (operand ts) _ (shrinks ts) λ right rest less.
            Within-mono _ (omega arith)
              (chain_loop-Within rounds (binary op left right) rest (omega arith)))
  ]

  pub chain-Within : Shrinks (chain op_of operand)
  unfolding chain
  chain-Within ts = >>=-Within _ (operand ts) _ (shrinks ts) λ left rest less.
      Within-mono _ (omega arith) (chain_loop-Within (length rest) left rest (omega arith))

parse_additive-Within : Shrinks parse_additive
unfolding parse_additive additive_op
parse_additive-Within = chain-Within additive_op refl parse_primary parse_primary-Within

compared-Within :
    (left : Expr) (ts : Tokens) (op : Option BinOp) → Within (suc (length ts)) (compared left ts op)
compared-Within left ts none = omega arith
compared-Within left [] (some op) =
    >>=-Within _ (parse_additive []) _ (parse_additive-Within []) λ right rest less. omega arith
compared-Within left (t ∷ ts) (some op) =
    >>=-Within _ (parse_additive ts) _ (parse_additive-Within ts) λ right rest less. omega arith

parse_comparison-Within : Shrinks parse_comparison
unfolding parse_comparison
parse_comparison-Within ts =
    >>=-Within _ (parse_additive ts) _ (parse_additive-Within ts) λ left rest less.
      Within-mono _ (omega arith) (compared-Within left rest (comparison_op (current rest).type))

parse_and-Within : Shrinks parse_and
unfolding parse_and and_op
parse_and-Within = chain-Within and_op refl parse_comparison parse_comparison-Within

-- An expression takes a token at least.
pub parse_or-Within : Shrinks parse_or
unfolding parse_or or_op
parse_or-Within = chain-Within or_op refl parse_and parse_and-Within
