-- ===== src/Parser/Total/Statements.antt =====
-- The loops of the statements.
use aura_sql.Prelude.{
  ℕ, zero, suc, ◌<◌, ◌≤◌, arith, [], ◌∷◌, GoString, String, length, Bool-cases, Bool, inl, inr,
}
use aura_sql.Errors.{wrapping}
use aura_sql.Core.{Expr, literal}
use aura_sql.Parser.Token.{
  TokenType, ◌is◌, token_comma, token_join, token_where, token_star, token_int_type,
  token_text_type, token_bool_type, token_on, token_eq,
}
use aura_sql.Parser.Grammar.{
  Tokens, Parser, current, next_tok, expect, identifier, parse_primary, parse_or,
}
use aura_sql.Parser.Statements.{
  list_loop, comma_list, column_type, parse_column, only_literal, parse_insert_value,
  parse_projected, parse_select_expressions, parse_alias, stops_join, parse_join, joins_loop,
  parse_where, parse_assignment,
}
use aura_sql.Parser.Total.{
  Ends, >>=-Ends, Left, Within, Within-mono, >>=-Within, wrapping-Ends, identifier-Within,
  parse_primary-Within, parse_or-Within, Shrinks,
}

abbrev pub Any : {A : Type 0} → A → Type 0
Any a = Unit

length-next_tok : (ts : Tokens) → length (next_tok ts) ≤ length ts
length-next_tok [] = omega arith
length-next_tok (t ∷ ts) = omega arith

pub expect-Ends :
    (t : TokenType) (refusal : String) (ts : Tokens)
    → Ends (λ rest. length rest ≤ length ts) (expect t refusal ts)
unfolding expect
expect-Ends t refusal [] = ground arith
expect-Ends t refusal (u ∷ ts) = ground arith

module _ {A : Type 0} (item : Parser A) (shrinks : Shrinks item) where
  list_loop-Within :
      (rounds : ℕ) (ts : Tokens)
      → length ts < rounds
      → Within (length ts) (list_loop item rounds ts)
  unfolding list_loop
  list_loop-Within zero ts h = absurd (omega arith)
  list_loop-Within (suc rounds) ts h = >>=-Within _ (item ts) _ (shrinks ts) λ x rest less.
      elim (Bool-cases ((current rest).type is token_comma)) [
        | inl at ↦ rw at (
            >>=-Within _ (list_loop item rounds (next_tok rest)) _
              (list_loop-Within rounds (next_tok rest) (omega (arith, length-next_tok rest)))
              λ xs left fewer. omega (arith, length-next_tok rest))
        | inr at ↦ rw at less
      ]

  pub comma_list-Within : Shrinks (comma_list item)
  unfolding comma_list
  comma_list-Within ts = list_loop-Within (suc (length ts)) ts (omega arith)

column_type-Ends : (t : TokenType) → Ends Any (column_type t)
column_type-Ends token_int_type = tt
column_type-Ends token_text_type = tt
column_type-Ends token_bool_type = tt
column_type-Ends _ = tt

pub parse_column-Within : Shrinks parse_column
unfolding parse_column
parse_column-Within ts = >>=-Within _ (identifier _ ts) _ (identifier-Within _ ts) λ name rest less.
    >>=-Ends Any (Left _) (column_type (current rest).type) _ (column_type-Ends (current rest).type)
      λ type _. omega (arith, length-next_tok rest)

only_literal-Ends : (e : Expr) → Ends Any (only_literal e)
only_literal-Ends (literal v) = tt
only_literal-Ends _ = tt

pub parse_insert_value-Within : Shrinks parse_insert_value
unfolding parse_insert_value
parse_insert_value-Within ts =
    >>=-Within _ (parse_primary ts) _ (parse_primary-Within ts)
      λ e rest less. >>=-Ends Any (Left _) (only_literal e) _ (only_literal-Ends e) λ value _. less

parse_projected-Within : Shrinks parse_projected
unfolding parse_projected
parse_projected-Within ts = wrapping-Ends (Left _) _ (parse_or ts) (parse_or-Within ts)

pub parse_select_expressions-Within :
    (ts : Tokens) → Within (suc (length ts)) (parse_select_expressions ts)
unfolding parse_select_expressions
parse_select_expressions-Within ts = elim (Bool-cases ((current ts).type is token_star)) [
  | inl at ↦ rw at (omega (arith, length-next_tok ts))
  | inr at ↦
      rw at
        (Within-mono _ (omega arith) (comma_list-Within parse_projected parse_projected-Within ts))
]

parse_alias_le :
    (stops : GoString → Bool) (ts : Tokens) → length (parse_alias stops ts).1 ≤ length ts
unfolding parse_alias
parse_alias_le stops [] = ground arith
parse_alias_le stops (t ∷ ts) = ground arith

parse_join-Within : Shrinks parse_join
unfolding parse_join
parse_join-Within ts = >>=-Within _ (identifier _ ts) _ (identifier-Within _ ts) λ table rest less.
    let aliased = (parse_alias stops_join rest).1 in
    >>=-Ends (λ left. length left ≤ length aliased) (Left _) (expect token_on _ aliased) _
      (expect-Ends token_on _ aliased)
      λ after le.
        >>=-Within _ (wrapping _ (parse_or after)) _
          (wrapping-Ends (Left _) _ (parse_or after) (parse_or-Within after))
          λ on left fewer. omega (arith, parse_alias_le stops_join rest)

pub joins_loop-Within :
    (rounds : ℕ) (ts : Tokens)
    → length ts ≤ rounds
    → Within (suc (length ts)) (joins_loop rounds ts)
unfolding joins_loop
joins_loop-Within zero [] h = omega arith
joins_loop-Within zero (t ∷ ts) h = absurd (omega arith)
joins_loop-Within (suc rounds) [] h = omega arith
joins_loop-Within (suc rounds) (t ∷ ts) h = elim (Bool-cases (t.type is token_join)) [
  | inl at ↦
      rw (at, joins_loop)
        (>>=-Within _ (parse_join ts) _ (parse_join-Within ts) λ join rest less.
          >>=-Within _ (joins_loop rounds rest) _ (joins_loop-Within rounds rest (omega arith))
            λ joins left fewer. omega arith)
  | inr at ↦ rw (at, joins_loop) (omega arith)
]

pub parse_where-Within : (ts : Tokens) → Within (suc (length ts)) (parse_where ts)
unfolding parse_where
parse_where-Within ts = elim (Bool-cases ((current ts).type is token_where)) [
  | inl at ↦ rw at (
      >>=-Within _ (parse_or (next_tok ts)) _ (parse_or-Within (next_tok ts))
        λ e rest less. omega (arith, length-next_tok ts))
  | inr at ↦ rw at (omega arith)
]

pub parse_assignment-Within : Shrinks parse_assignment
unfolding parse_assignment
parse_assignment-Within ts =
    >>=-Within _ (identifier _ ts) _ (identifier-Within _ ts) λ column rest less.
      >>=-Ends (λ left. length left ≤ length rest) (Left _) (expect token_eq _ rest) _
        (expect-Ends token_eq _ rest)
        λ after le.
          >>=-Within _ (parse_or after) _ (parse_or-Within after) λ value left fewer. omega arith
