-- ===== src/Parser/Total/Scan.antt =====
-- The scanner's loop ends: every token but the last takes a character.
use aura_sql.Prelude.{
  ℕ, zero, suc, ◌<◌, ◌≤◌, ◌≡◌, refl, arith, Bool, true, false, List, [], ◌∷◌, GoString, length,
  Option, none, some, Bool-cases, inl, inr, ◌==◌, if◌then◌else◌,
}
use aura_sql.Parser.Token.{Token}
use aura_sql.Parser.Lexer.{
  left, read_identifier_or_keyword, read_int_literal, close_text, read_text_literal, single,
  after_lt, after_gt, after_bang, scan_other, scan, ends_scan,
}
use aura_sql.Parser.Token.{TokenType}
use aura_sql.Parser.Lexer.{
  is_space, is_digit, is_identifier_start, is_word_char, passed, not_quote, scan_by,
  skip_whitespace, next_token, lex_rounds, lex_all,
}

left_le : (p : ℕ → Bool) (s : GoString) → length (left p s) ≤ length s
left_le p [] = omega arith
left_le p (c ∷ s) = ground (arith, left_le p s)

left_first : (p : ℕ → Bool) (c : ℕ) (s : GoString) → p c ≡ true → length (left p (c ∷ s)) ≤ length s
left_first p c s h = rw h (left_le p s)

-- An end, or a rest shorter than `n`.
abbrev Advances : ℕ → Token × GoString → Type 0
Advances n r = ends_scan r.0 ≡ false → length r.1 < n

weaken : {n k : ℕ} (r : Token × GoString) → n ≤ k → Advances n r → Advances k r
weaken r le h going = omega (arith, h going)

if-Advances :
    {n : ℕ} (b : Bool) (r s : Token × GoString)
    → (b ≡ true → Advances n r)
    → Advances n s
    → Advances n (if b then r else s)
if-Advances true r s h k = h refl
if-Advances false r s h k = k

close_text-Advances : (val rest : GoString) → Advances (suc (length rest)) (close_text val rest)
close_text-Advances val [] going = omega arith
close_text-Advances val (c ∷ rest) going = omega arith

text-Advances : (s : GoString) → Advances (suc (length s)) (read_text_literal s)
unfolding read_text_literal
text-Advances s =
    weaken (close_text (passed not_quote s) (left not_quote s)) (omega (arith, left_le not_quote s))
      (close_text-Advances (passed not_quote s) (left not_quote s))

lt-Advances : (s : GoString) → Advances (suc (length s)) (after_lt s)
lt-Advances [] going = omega arith
lt-Advances (c ∷ s) going = ground arith

gt-Advances : (s : GoString) → Advances (suc (length s)) (after_gt s)
gt-Advances [] going = omega arith
gt-Advances (c ∷ s) going = ground arith

bang-Advances : (s : GoString) → Advances (suc (length s)) (after_bang s)
bang-Advances [] going = omega arith
bang-Advances (c ∷ s) going = ground arith

word_first : (c : ℕ) → is_identifier_start c ≡ true → is_word_char c ≡ true
word_first c h = ground arith

other-Advances : (c : ℕ) (s : GoString) → Advances (suc (length s)) (scan_other c s)
unfolding read_int_literal read_identifier_or_keyword
other-Advances c s =
    if-Advances (c == 60) (after_lt s) _ (λ _. lt-Advances s)
      (if-Advances (c == 62) (after_gt s) _ (λ _. gt-Advances s)
        (if-Advances (c == 33) (after_bang s) _ (λ _. bang-Advances s)
          (if-Advances (c == 39) (read_text_literal s) _ (λ _. text-Advances s)
            (if-Advances (is_digit c) (read_int_literal (c ∷ s)) _
              (λ at _. omega (arith, left_first is_digit c s at))
              (if-Advances (is_identifier_start c) (read_identifier_or_keyword (c ∷ s)) _
                (λ at _. omega (arith, left_first is_word_char c s (word_first c at)))
                (λ _. omega arith))))))

by-Advances :
    (o : Option TokenType) (c : ℕ) (s : GoString) → Advances (suc (length s)) (scan_by o c s)
by-Advances (some t) c s going = omega arith
by-Advances none c s going = other-Advances c s going

scan-Advances : (s : GoString) → Advances (length s) (scan s)
scan-Advances [] going = cc
scan-Advances (c ∷ s) going = by-Advances (single c) c s going

next_token-Advances : (s : GoString) → Advances (length s) (next_token s)
unfolding next_token
next_token-Advances s =
    weaken (scan (skip_whitespace s)) (left_le is_space s) (scan-Advances (skip_whitespace s))

-- The last token ends the scan, and no other does.
abbrev pub IsScan : List Token → Type 0
IsScan [] = ⊥
IsScan (t ∷ []) = ends_scan t ≡ true
IsScan (t ∷ u ∷ ts) = (ends_scan t ≡ false) × IsScan (u ∷ ts)

IsScan-cons : (t : Token) (ts : List Token) → ends_scan t ≡ false → IsScan ts → IsScan (t ∷ ts)
IsScan-cons t [] h k = absurd k
IsScan-cons t (u ∷ ts) h k = (h, k)

lex_rounds-IsScan : (rounds : ℕ) (s : GoString) → length s < rounds → IsScan (lex_rounds rounds s)
unfolding lex_rounds
lex_rounds-IsScan zero s enough = absurd (omega arith)
lex_rounds-IsScan (suc rounds) s enough = elim (Bool-cases (ends_scan (next_token s).0)) [
  | inl at ↦ rw (at, lex_rounds) at
  | inr at ↦
      rw (at, lex_rounds)
        (IsScan-cons (next_token s).0 (lex_rounds rounds (next_token s).1) at
          (lex_rounds-IsScan rounds (next_token s).1 (omega (arith, next_token-Advances s at))))
]

-- On every text the scanner's loop comes to its end: the tokens close with the end of input or an
-- error, and none before is either.
pub lex_all-IsScan : (sql : GoString) → IsScan (lex_all sql)
unfolding lex_all
lex_all-IsScan sql = lex_rounds-IsScan (suc (length sql)) sql (omega arith)
