-- ===== src/Parser/RoundTrip.antt =====
-- What was printed parses back: expressions.
pub mod Lists
pub mod Statements
use aura_sql.Prelude.{
  ℕ, zero, suc, ◌+◌, ◌<◌, ◌≤◌, ◌≡◌, ◌⊎◌, inl, inr, refl, ap, ◌∙◌, arith, Bool, true, false, List,
  [], ◌∷◌, ◌++◌, GoString, length, length-append, decimal, Option, none, some, ◌==◌, Bool-cases,
  ==_iff, subst,
}
use mathlib.Core.List.{append_assoc}
use aura_sql.Errors.{Result, ok, ◌>>=◌}
use aura_sql.Core.{
  Value, BinOp, op_eq, op_ne, op_lt, op_le, op_gt, op_ge, op_and, op_or, op_add, op_sub, Expr, star,
  column_ref, literal, binary,
}
use aura_sql.Parser.Token.{TokenType, token, token_int_literal, token_dot, ◌is◌}
use aura_sql.Parser.Grammar.{
  Tokens, Parser, current, next_tok, identifier, parse_int, column_rest, int_literal, primary,
  parse_primary, additive_op, comparison_op, and_op, or_op, chain_loop, chain, parse_additive,
  compared, parse_comparison, parse_and, parse_or,
}
use aura_sql.Parser.Print.{
  word, ident, op_type, column_tokens, value_token, expr_tokens, IsName, IsQualifier, IsConstant,
  ints, texts, bools, level, left_level, IsAt, IsExpr,
}
use aura_sql.Parser.Print.Numbers.{parse_int-decimal}

-- A token of that kind does not continue an operand, a sum, a comparison, a conjunction, an
-- expression.
abbrev pub AfterOperand : TokenType → Type 0
AfterOperand t = (t is token_dot) ≡ false

abbrev pub AfterSum : TokenType → Type 0
AfterSum t = AfterOperand t × (additive_op t ≡ none)

abbrev pub AfterComparison : TokenType → Type 0
AfterComparison t = AfterSum t × (comparison_op t ≡ none)

abbrev pub AfterConjunction : TokenType → Type 0
AfterConjunction t = AfterComparison t × (and_op t ≡ none)

abbrev pub AfterExpr : TokenType → Type 0
AfterExpr t = AfterConjunction t × (or_op t ≡ none)

-- `p` reads the expressions of level `k` off the front of any tokens that do not continue them.
abbrev pub Reads : ℕ → (TokenType → Type 0) → Parser Expr → Type 0
Reads k After p =
    (e : Expr)
    → IsAt k e
    → (rest : Tokens) → After (current rest).type
    → p (expr_tokens e ++ rest) ≡ ok (e, rest)

parse_column_tokens :
    (table name : GoString) (rest : Tokens)
    → AfterOperand (current rest).type
    → parse_primary (column_tokens table name ++ rest) ≡ ok (column_ref table name, rest)
unfolding parse_primary column_rest identifier
parse_column_tokens [] name rest stops = rw (stops, column_rest) refl
parse_column_tokens (c ∷ table) name rest stops = refl

pub parse_value_token :
    (v : Value)
    → IsConstant v
    → (rest : Tokens) → parse_primary (value_token v ∷ rest) ≡ ok (literal v, rest)
unfolding parse_primary
parse_value_token _ (ints n small) rest = rw (parse_int-decimal n small) refl
parse_value_token _ (texts s fine) rest = refl
parse_value_token _ (bools true) rest = refl
parse_value_token _ (bools false) rest = refl

level_le : (op : BinOp) → level op ≤ 3
level_le op_or = omega arith
level_le op_and = omega arith
level_le op_add = omega arith
level_le op_sub = omega arith
level_le _ = omega arith

parse_primary-Reads : Reads 4 AfterOperand parse_primary
unfolding expr_tokens
parse_primary-Reads star h rest stops = absurd h
parse_primary-Reads (column_ref table name) h rest stops = parse_column_tokens table name rest stops
parse_primary-Reads (literal v) h rest stops = parse_value_token v h rest
parse_primary-Reads (binary op l r) h rest stops =
    absurd (let most = level_le op in let least = h.0 in omega arith)

-- The loops of the levels: what stands after the printed expression meets the loop with that
-- expression on its left, and rounds enough.
module _ (k : ℕ) (not_comparison : (k == 2) ≡ false) (op_of : TokenType → Option BinOp)
    (operand : Parser Expr) (After : TokenType → Type 0) (reads : Reads (suc k) After operand)
    (at_level : (op : BinOp)
      → level op ≡ k
      → (op_of (op_type op) ≡ some op) × After (op_type op)) where
  abbrev Meets : Expr → Tokens → Type 0
  Meets e rest =
      (n : ℕ) × (length rest ≤ n)
      × (chain op_of operand (expr_tokens e ++ rest) ≡ chain_loop op_of operand n e rest)

  chain_operand :
      (e : Expr) → IsAt (suc k) e → (rest : Tokens) → After (current rest).type → Meets e rest
  unfolding chain
  chain_operand e h rest after = (length rest, omega arith, rw (reads e h rest after) refl)

  left-IsAt : (op : BinOp) (l : Expr) → level op ≡ k → IsAt (left_level op) l → IsAt k l
  left-IsAt op l same h = subst (λ j. IsAt j l) (rw (same, not_comparison) refl) h

  right-IsAt : (op : BinOp) (r : Expr) → level op ≡ k → IsAt (suc (level op)) r → IsAt (suc k) r
  right-IsAt op r same h = subst (λ j. IsAt (suc j) r) same h

  -- One round of the loop reads an operator and its right operand.
  chain_round :
      (op : BinOp) (l r : Expr) (rest : Tokens) (n : ℕ)
      → level op ≡ k
      → IsAt (suc k) r
      → After (current rest).type
      → chain_loop op_of operand (suc n) l (word (op_type op) ∷ (expr_tokens r ++ rest))
        ≡ chain_loop op_of operand n (binary op l r) rest
  unfolding chain_loop
  chain_round op l r rest n same h after =
      rw ((at_level op same).0, reads r h rest after, chain_loop) refl

  chain_binary :
      (op : BinOp) (l r : Expr) (rest : Tokens)
      → level op ≡ k
      → IsAt (suc k) r
      → After (current rest).type
      → Meets l (word (op_type op) ∷ (expr_tokens r ++ rest))
      → Meets (binary op l r) rest
  unfolding expr_tokens
  chain_binary op l r rest same h after (zero, enough, eq) = absurd (omega arith)
  chain_binary op l r rest same h after (suc n, enough, eq) =
      let counted = length-append (expr_tokens r) rest in
      (
        n,
        omega arith,
        ap (chain op_of operand)
              (append_assoc (expr_tokens l) (word (op_type op) ∷ expr_tokens r) rest)
            ∙ (eq ∙ chain_round op l r rest n same h after),
      )

  chain_spine : (e : Expr) → IsAt k e → (rest : Tokens) → After (current rest).type → Meets e rest
  chain_spine star h rest after = absurd h
  chain_spine (column_ref table name) h rest after =
      chain_operand (column_ref table name) h rest after
  chain_spine (literal v) h rest after = chain_operand (literal v) h rest after
  chain_spine (binary op l r) h rest after = elim (Bool-cases (level op == k)) [
    | inl yes_same ↦
        let same = (==_iff (level op) k).0 yes_same in
        chain_binary op l r rest same (right-IsAt op r same h.2) after (
          chain_spine l (left-IsAt op l same h.1) (word (op_type op) ∷ (expr_tokens r ++ rest))
            (at_level op same).1)
    | inr above ↦ chain_operand (binary op l r) (ground arith, h.1, h.2) rest after
  ]

  chain_stop :
      (n : ℕ) (e : Expr) (rest : Tokens)
      → op_of (current rest).type ≡ none
      → chain_loop op_of operand n e rest ≡ ok (e, rest)
  unfolding chain_loop
  chain_stop zero e rest stops = rw (stops, chain_loop) refl
  chain_stop (suc n) e rest stops = rw (stops, chain_loop) refl

  chain-Reads : Reads k (λ t. After t × (op_of t ≡ none)) (chain op_of operand)
  chain-Reads e h rest after =
      let (n, enough, eq) = chain_spine e h rest after.0 in eq ∙ chain_stop n e rest after.1

adds :
    (op : BinOp) → level op ≡ 3 → (additive_op (op_type op) ≡ some op) × AfterOperand (op_type op)
unfolding additive_op
adds op_add same = (refl, refl)
adds op_sub same = (refl, refl)
adds op_or same = absurd (omega arith)
adds op_and same = absurd (omega arith)
adds _ same = absurd (omega arith)

parse_additive-Reads : Reads 3 AfterSum parse_additive
unfolding parse_additive
parse_additive-Reads =
    chain-Reads 3 refl additive_op parse_primary AfterOperand parse_primary-Reads adds

compares :
    (op : BinOp) → level op ≡ 2 → (comparison_op (op_type op) ≡ some op) × AfterSum (op_type op)
unfolding comparison_op additive_op
compares op_eq same = (refl, (refl, refl))
compares op_ne same = (refl, (refl, refl))
compares op_lt same = (refl, (refl, refl))
compares op_le same = (refl, (refl, refl))
compares op_gt same = (refl, (refl, refl))
compares op_ge same = (refl, (refl, refl))
compares _ same = absurd (omega arith)

-- A sum that no comparison follows.
compare_none :
    (e : Expr)
    → IsAt 3 e
    → (rest : Tokens) → AfterComparison (current rest).type
    → parse_comparison (expr_tokens e ++ rest) ≡ ok (e, rest)
unfolding parse_comparison
compare_none e h rest after = rw (parse_additive-Reads e h rest after.0, after.1) refl

-- Two sums.
compare_two :
    (op : BinOp) (l r : Expr) (rest : Tokens)
    → level op ≡ 2
    → IsAt 3 l
    → IsAt 3 r
    → AfterSum (current rest).type
    → parse_comparison (expr_tokens (binary op l r) ++ rest) ≡ ok (binary op l r, rest)
unfolding parse_comparison expr_tokens
compare_two op l r rest same left right after =
    let after_l = word (op_type op) ∷ (expr_tokens r ++ rest) in
    let at = compares op same in
    ap parse_comparison (append_assoc (expr_tokens l) (word (op_type op) ∷ expr_tokens r) rest)
    ∙ rw (parse_additive-Reads l left after_l at.1, at.0, parse_additive-Reads r right rest after)
        refl

parse_comparison-Reads : Reads 2 AfterComparison parse_comparison
parse_comparison-Reads star h rest after = absurd h
parse_comparison-Reads (column_ref table name) h rest after =
    compare_none (column_ref table name) h rest after
parse_comparison-Reads (literal v) h rest after = compare_none (literal v) h rest after
parse_comparison-Reads (binary op l r) h rest after = elim (Bool-cases (level op == 2)) [
  | inl yes_same ↦
      let same = (==_iff (level op) 2).0 yes_same in
      compare_two op l r rest same (subst (λ j. IsAt j l) (rw same refl) h.1)
        (subst (λ j. IsAt (suc j) r) same h.2) after.0
  | inr above ↦ compare_none (binary op l r) (ground arith, h.1, h.2) rest after
]

ands : (op : BinOp) → level op ≡ 1 → (and_op (op_type op) ≡ some op) × AfterComparison (op_type op)
unfolding and_op comparison_op additive_op
ands op_and same = (refl, ((refl, refl), refl))
ands op_or same = absurd (omega arith)
ands op_add same = absurd (omega arith)
ands op_sub same = absurd (omega arith)
ands _ same = absurd (omega arith)

parse_and-Reads : Reads 1 AfterConjunction parse_and
unfolding parse_and
parse_and-Reads =
    chain-Reads 1 refl and_op parse_comparison AfterComparison parse_comparison-Reads ands

ors : (op : BinOp) → level op ≡ 0 → (or_op (op_type op) ≡ some op) × AfterConjunction (op_type op)
unfolding or_op and_op comparison_op additive_op
ors op_or same = (refl, (((refl, refl), refl), refl))
ors op_and same = absurd (omega arith)
ors op_add same = absurd (omega arith)
ors op_sub same = absurd (omega arith)
ors _ same = absurd (omega arith)

-- A printed expression of the grammar parses back to itself, whatever follows it that does not
-- continue it: operators of one level nest to the left, `+` and `-` bind tighter than the
-- comparisons, these tighter than AND, and AND tighter than OR.
pub parse_or-expr_tokens :
    (e : Expr)
    → IsExpr e
    → (rest : Tokens) → AfterExpr (current rest).type
    → parse_or (expr_tokens e ++ rest) ≡ ok (e, rest)
unfolding parse_or
parse_or-expr_tokens e = chain-Reads 0 refl or_op parse_and AfterConjunction parse_and-Reads ors e
