-- ===== src/Parser/Scan.antt =====
-- The scanner reads back the text of a token, and ends on every text.
pub mod Text
pub mod Statements
use mathlib.Core.List.{append_assoc}
use aura_sql.Prelude.{
  ℕ, zero, suc, ◌+◌, ◌-◌, ◌<◌, ◌≤◌, ◌≡◌, refl, ap, ◌∙◌, arith, Bool, true, false, List, [], ◌∷◌,
  ◌++◌, GoString, length, length-append, Option, none, some, Bool-cases, inl, inr, str_eq, decimal,
  decimal_rounds, if◌then◌else◌, ◌&&◌, ◌||◌, ◌/◌, ◌%◌, compare, Ordering,
}
use aura_sql.Parser.Token.{Token, token, ◌is◌, token_text_literal}
use aura_sql.Parser.Lexer.{is_space, is_word_char, next_token}
use aura_sql.Parser.Lexer.{single}
use aura_sql.Parser.Token.{token_int_literal}
use aura_sql.Parser.Lexer.{
  is_digit, passed, left, not_quote, read_identifier_or_keyword, read_int_literal,
  read_text_literal,
}
use aura_sql.Parser.Print.{ident, every, is_name, IsName}
use aura_sql.Parser.Token.{TokenType, token_identifier}
use aura_sql.Parser.Lexer.{to_upper, is_identifier_start, keywords, word_type, scan_other}
use aura_sql.Parser.Lexer.{scan, skip_whitespace}
use aura_sql.Parser.Token.{token_string, token_error, token_eof, token_analyze, token_explain}

-- The text of a token.
abbrev pub spell : Token → GoString
spell t = if t.type is token_text_literal then 39 ∷ (t.value ++ 39 ∷ []) else t.value

-- The token is read off the front of any text that goes on with a space.
abbrev pub Scans : Token → Type 0
Scans t = (rest : GoString) → next_token (spell t ++ 32 ∷ rest) ≡ (t, 32 ∷ rest)

single-none : (c : ℕ) → is_word_char c ≡ true → single c ≡ none
single-none c h = ground arith

no_space : (c : ℕ) → is_word_char c ≡ true → is_space c ≡ false
no_space c h = ground arith

-- A loop over a class stops at the first character outside it.
passed-every :
    (p : ℕ → Bool) (s : GoString) (c : ℕ) (rest : GoString)
    → every p s ≡ true
    → p c ≡ false
    → passed p (s ++ c ∷ rest) ≡ s
passed-every p [] c rest h stop = rw stop refl
passed-every p (d ∷ s) c rest h stop = ground (arith, passed-every p s c rest)

left-every :
    (p : ℕ → Bool) (s : GoString) (c : ℕ) (rest : GoString)
    → every p s ≡ true
    → p c ≡ false
    → left p (s ++ c ∷ rest) ≡ c ∷ rest
left-every p [] c rest h stop = rw stop refl
left-every p (d ∷ s) c rest h stop = ground (arith, left-every p s c rest)

skip_none : (c : ℕ) (s : GoString) → is_word_char c ≡ true → skip_whitespace (c ∷ s) ≡ c ∷ s
skip_none c s h = rw (no_space c h) refl

next_word : (c : ℕ) (s : GoString) → is_word_char c ≡ true → next_token (c ∷ s) ≡ scan_other c s
unfolding next_token
next_word c s h = ap scan (skip_none c s h) ∙ rw (single-none c h, scan) refl

other_start :
    (c : ℕ) (s : GoString)
    → is_identifier_start c ≡ true
    → scan_other c s ≡ read_identifier_or_keyword (c ∷ s)
other_start c s h = ground arith

other_digit : (c : ℕ) (s : GoString) → is_digit c ≡ true → scan_other c s ≡ read_int_literal (c ∷ s)
other_digit c s h = ground arith

start_word : (c : ℕ) → is_identifier_start c ≡ true → is_word_char c ≡ true
start_word c h = ground arith

digit_word : (c : ℕ) → is_digit c ≡ true → is_word_char c ≡ true
digit_word c h = ground arith

identifier_back :
    (w rest : GoString)
    → every is_word_char w ≡ true
    → word_type (to_upper w) keywords ≡ token_identifier
    → read_identifier_or_keyword (w ++ 32 ∷ rest) ≡ (ident w, 32 ∷ rest)
unfolding read_identifier_or_keyword
identifier_back w rest h free =
    rw (passed-every is_word_char w 32 rest h refl, left-every is_word_char w 32 rest h refl, free)
      refl

identifier_type :
    (t : TokenType) → (if t is token_identifier then true else false) ≡ true → t ≡ token_identifier
identifier_type token_identifier h = refl
identifier_type _ h = cc

and_left : (a b : Bool) → (a && b) ≡ true → a ≡ true
and_left true b h = refl
and_left false b h = h

and_right : (a b : Bool) → (a && b) ≡ true → b ≡ true
and_right true b h = h
and_right false b h = cc

if_left : (a b : Bool) → (if a then b else false) ≡ true → a ≡ true
if_left true b h = refl
if_left false b h = h

pub ident-Scans : (s : GoString) → IsName s → Scans (ident s)
unfolding is_name
ident-Scans [] h rest = cc
ident-Scans (c ∷ s) h rest =
    let start = and_left (is_identifier_start c) _ h in
    let others = and_left (every is_word_char s) _ (and_right (is_identifier_start c) _ h) in
    let free = and_right (every is_word_char s) _ (and_right (is_identifier_start c) _ h) in
    let all : every is_word_char (c ∷ s) ≡ true = rw (start_word c start) others in
    next_word c (s ++ 32 ∷ rest) (start_word c start)
    ∙ (other_start c (s ++ 32 ∷ rest) start
        ∙ identifier_back (c ∷ s) rest all (identifier_type _ free))

pub text-Scans : (s : GoString) → every not_quote s ≡ true → Scans (token token_text_literal s)
unfolding next_token read_text_literal
text-Scans s h rest =
    rw
      (
        append_assoc s (39 ∷ []) (32 ∷ rest),
        passed-every not_quote s 39 (32 ∷ rest) h refl,
        left-every not_quote s 39 (32 ∷ rest) h refl,
      )
      refl

pub int-Scans :
    (s : GoString) → every is_digit s ≡ true → 0 < length s → Scans (token token_int_literal s)
unfolding read_int_literal
int-Scans [] h nonempty rest = absurd (omega arith)
int-Scans (c ∷ s) h nonempty rest =
    let first = if_left (is_digit c) (every is_digit s) h in
    next_word c (s ++ 32 ∷ rest) (digit_word c first)
    ∙ (other_digit c (s ++ 32 ∷ rest) first
        ∙ rw
            (
              passed-every is_digit (c ∷ s) 32 rest h refl,
              left-every is_digit (c ∷ s) 32 rest h refl,
            )
            refl)

-- The kinds with one spelling, which `String` knows.
abbrev pub IsSpelled : TokenType → Type 0
IsSpelled token_error = ⊥
IsSpelled token_eof = ⊥
IsSpelled token_explain = ⊥
IsSpelled token_analyze = ⊥
IsSpelled token_identifier = ⊥
IsSpelled token_int_literal = ⊥
IsSpelled token_text_literal = ⊥
IsSpelled _ = Unit

-- What `String` gives for a keyword or a sign, EXPLAIN and ANALYZE excepted, is scanned as that
-- keyword or sign.
pub next_token-token_string :
    (t : TokenType)
    → IsSpelled t
    → (rest : GoString)
    → next_token (token_string t ++ 32 ∷ rest) ≡ (token t (token_string t), 32 ∷ rest)
unfolding next_token token_string read_identifier_or_keyword str_eq
next_token-token_string token_error h rest = absurd h
next_token-token_string token_eof h rest = absurd h
next_token-token_string token_explain h rest = absurd h
next_token-token_string token_analyze h rest = absurd h
next_token-token_string token_identifier h rest = absurd h
next_token-token_string token_int_literal h rest = absurd h
next_token-token_string token_text_literal h rest = absurd h
next_token-token_string _ h rest = refl
