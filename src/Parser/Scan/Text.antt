-- ===== src/Parser/Scan/Text.antt =====
-- Statements as text: the canonical text of a statement, scanned and parsed.
use aura_sql.Prelude.{
  ℕ, zero, suc, ◌+◌, ◌<◌, ◌≡◌, refl, ap, ◌∙◌, arith, Bool, true, false, List, [], ◌∷◌, ◌++◌,
  GoString, bytes, length, length-append, All, if◌then◌else◌, decimal, decimal_rounds, str_eq,
  compare, Ordering, ◌/◌, ◌%◌, ◌||◌,
}
use aura_sql.Core.{
  Value, BinOp, op_eq, op_ne, op_lt, op_le, op_gt, op_ge, op_and, op_or, op_add, op_sub, Expr, star,
  column_ref, literal, binary,
}
use aura_sql.Parser.Token.{Token, token, ◌is◌, token_eof}
use aura_sql.Parser.Lexer.{next_token, ends_scan, lex_rounds}
use aura_sql.Parser.Grammar.{Tokens}
use aura_sql.Parser.Print.Statements.{eof}
use aura_sql.Parser.Scan.{spell, Scans}
use aura_sql.Parser.Token.{TokenType}
use aura_sql.Parser.Lexer.{lex_all}
use aura_sql.Parser.Print.{word}
use aura_sql.Parser.Scan.{IsSpelled}
use aura_sql.Parser.Token.{
  token_error, token_analyze, token_explain, token_true, token_false, token_identifier,
  token_int_literal, token_text_literal, token_dot,
}
use aura_sql.Parser.Lexer.{is_digit, read_identifier_or_keyword}
use aura_sql.Parser.Print.{
  ident, op_type, value_token, expr_tokens, every, IsName, IsConstant, level, left_level, IsAt,
  ints, texts, bools,
}
use aura_sql.Parser.Print.Numbers.{decimal_pos}
use aura_sql.Parser.Scan.{ident-Scans, text-Scans, int-Scans, next_token-token_string}

-- The tokens before the end of input, with a space after each.
unfoldable pub text_of : Tokens → GoString
text_of [] = []
text_of (t ∷ ts) = let more = text_of ts in if t.type is token_eof then [] else spell t ++ 32 ∷ more

-- The token is read back, and is no end.
pub Fine : Token → Type 0
Fine t = Scans t × (ends_scan t ≡ false)

pub data Scannable : Tokens → Type 0 where
  at_end : Scannable (eof ∷ [])
  before : {t : Token} {ts : Tokens} → Fine t → Scannable ts → Scannable (t ∷ ts)

pub front : (ts rest : Tokens) → All Fine ts → Scannable rest → Scannable (ts ++ rest)
front [] rest h scannable = scannable
front (t ∷ ts) rest h scannable = before h.0 (front ts rest h.1 scannable)

lex_space : (rounds : ℕ) (s : GoString) → lex_rounds rounds (32 ∷ s) ≡ lex_rounds rounds s
unfolding lex_rounds next_token
lex_space zero s = refl
lex_space (suc rounds) s = refl

lex_token :
    (rounds : ℕ) (t : Token) (s : GoString)
    → Fine t
    → lex_rounds (suc rounds) (spell t ++ 32 ∷ s) ≡ t ∷ lex_rounds rounds s
unfolding lex_rounds Fine
lex_token rounds t s h = rw (h.0 s, h.1) (ap (λ ts. t ∷ ts) (lex_space rounds s))

not_eof : (t : Token) → ends_scan t ≡ false → (t.type is token_eof) ≡ false
not_eof t h = ground arith

text_step :
    (t : Token) (ts : Tokens) → ends_scan t ≡ false → text_of (t ∷ ts) ≡ spell t ++ 32 ∷ text_of ts
unfolding text_of
text_step t ts h = rw (not_eof t h) refl

lex_rounds-text_of :
    (rounds : ℕ) (ts : Tokens)
    → Scannable ts
    → length (text_of ts) < rounds
    → lex_rounds rounds (text_of ts) ≡ ts
unfolding lex_rounds text_of next_token Fine
lex_rounds-text_of zero ts h enough = absurd (omega arith)
lex_rounds-text_of (suc rounds) _ at_end enough = refl
lex_rounds-text_of (suc rounds) _ (before {t} {ts} fine h) enough =
    let step = text_step t ts fine.1 in
    let counted = length-append (spell t) (32 ∷ text_of ts) in
    let measured = ap length step in
    ap (lex_rounds (suc rounds)) step
    ∙ (lex_token rounds t (text_of ts) fine
        ∙ ap (λ us. t ∷ us) (lex_rounds-text_of rounds ts h (omega arith)))

pub lex_all-text_of : (ts : Tokens) → Scannable ts → lex_all (text_of ts) ≡ ts
unfolding lex_all
lex_all-text_of ts h = lex_rounds-text_of (suc (length (text_of ts))) ts h (omega arith)

-- The tokens of the parts.
spelled :
    (t : TokenType)
    → IsSpelled t
    → ((t is token_text_literal) ≡ false) × ((t is token_eof || t is token_error) ≡ false)
spelled token_error h = absurd h
spelled token_eof h = absurd h
spelled token_explain h = absurd h
spelled token_analyze h = absurd h
spelled token_identifier h = absurd h
spelled token_int_literal h = absurd h
spelled token_text_literal h = absurd h
spelled _ h = (refl, refl)

pub word-Fine : (t : TokenType) → IsSpelled t → Fine (word t)
unfolding Fine
word-Fine t h = (λ rest. rw (spelled t h).0 (next_token-token_string t h rest), (spelled t h).1)

pub ident-Fine : (s : GoString) → IsName s → Fine (ident s)
unfolding Fine
ident-Fine s h = (ident-Scans s h, refl)

-- The two words that `String` has no case for.
pub explain-Fine : Fine (token token_explain (bytes "EXPLAIN"))
unfolding Fine next_token read_identifier_or_keyword str_eq
explain-Fine = (λ rest. refl, refl)

pub analyze-Fine : Fine (token token_analyze (bytes "ANALYZE"))
unfolding Fine next_token read_identifier_or_keyword str_eq
analyze-Fine = (λ rest. refl, refl)

every-append :
    (p : ℕ → Bool) (s t : GoString) → every p s ≡ true → every p t ≡ true → every p (s ++ t) ≡ true
every-append p [] t h k = k
every-append p (c ∷ s) t h k = ground (arith, every-append p s t)

every_digit-decimal_rounds : (rounds n : ℕ) → every is_digit (decimal_rounds rounds n) ≡ true
unfolding decimal_rounds
every_digit-decimal_rounds zero n = refl
every_digit-decimal_rounds (suc rounds) n =
    digit_added (decimal_rounds rounds (n / 10)) n (every_digit-decimal_rounds rounds (n / 10))
  where
    digit_added :
        (front : GoString) (n : ℕ)
        → every is_digit front ≡ true
        → every is_digit (elim (compare n 10) [
          | Ordering.lt ↦ (48 + n) ∷ []
          | _ ↦ front ++ ((48 + n % 10) ∷ [])
        ])
          ≡ true
    digit_added front n h = ground (arith, every-append is_digit front ((48 + n % 10) ∷ []) h)

value-Fine : (v : Value) → IsConstant v → Fine (value_token v)
unfolding Fine decimal
value-Fine _ (ints n small) =
    (int-Scans (decimal n) (every_digit-decimal_rounds (suc n) n) (decimal_pos n), refl)
value-Fine _ (texts s fine) = (text-Scans s fine, refl)
value-Fine _ (bools true) = word-Fine token_true tt
value-Fine _ (bools false) = word-Fine token_false tt

pub All-append :
    {A : Type 0} (P : A → Type 0) (xs ys : List A) → All P xs → All P ys → All P (xs ++ ys)
All-append P [] ys h k = k
All-append P (x ∷ xs) ys h k = (h.0, All-append P xs ys h.1 k)

op_spelled : (op : BinOp) → IsSpelled (op_type op)
op_spelled op_eq = tt
op_spelled op_ne = tt
op_spelled op_lt = tt
op_spelled op_le = tt
op_spelled op_gt = tt
op_spelled op_ge = tt
op_spelled op_and = tt
op_spelled op_or = tt
op_spelled op_add = tt
op_spelled op_sub = tt

pub expr-Fine : (e : Expr) (k : ℕ) → IsAt k e → All Fine (expr_tokens e)
unfolding expr_tokens
expr-Fine star k h = absurd h
expr-Fine (column_ref [] name) k h = (ident-Fine name h.1, tt)
expr-Fine (column_ref (c ∷ table) name) k h =
    (ident-Fine (c ∷ table) h.0, (word-Fine token_dot tt, (ident-Fine name h.1, tt)))
expr-Fine (literal v) k h = (value-Fine v h, tt)
expr-Fine (binary op l r) k h =
    All-append Fine (expr_tokens l) _ (expr-Fine l (left_level op) h.1)
      (word-Fine (op_type op) (op_spelled op), expr-Fine r (suc (level op)) h.2)
