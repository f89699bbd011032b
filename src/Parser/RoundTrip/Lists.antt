-- ===== src/Parser/RoundTrip/Lists.antt =====
-- What was printed parses back: the parts of a statement.
use mathlib.Core.List.{append_assoc}
use aura_sql.Prelude.{
  ℕ, zero, suc, ◌<◌, ◌≤◌, ◌≡◌, refl, ap, ◌∙◌, arith, Bool, true, false, List, [], ◌∷◌, ◌++◌,
  GoString, bytes, str_eq, str_eq_iff, length, length-append, Option, none, some, All, Bool-cases,
  inl, inr,
}
use aura_sql.Errors.{ok, ◌>>=◌}
use aura_sql.Core.{
  ColumnType, type_int, type_text, type_bool, Value, Column, Expr, star, column_ref, literal,
  binary, JoinClause, Assignment,
}
use aura_sql.Parser.Token.{
  TokenType, ◌is◌, token_comma, token_star, token_identifier, token_join, token_where, token_on,
}
use aura_sql.Parser.Grammar.{
  Tokens, Parser, current, next_tok, expect, identifier, or_op, and_op, comparison_op, additive_op,
}
use aura_sql.Parser.Statements.{
  list_loop, comma_list, parse_column, column_type, parse_insert_value, parse_projected,
  parse_select_expressions, parse_alias, stops_from, stops_join, parse_join, joins_loop,
  parse_where, parse_assignment,
}
use aura_sql.Parser.Print.{
  word, expr_tokens, value_token, IsName, is_name, IsQualifier, IsConstant, ints, texts, bools,
  IsExpr, IsAt, op_type, left_level,
}
use aura_sql.Parser.Print.Statements.{
  comma_items, separated, column_def, type_word, projection_tokens, optional_name, join_tokens,
  joins_tokens, where_tokens, assignment_tokens, AllSome, IsLiteral, IsProjection, IsWhere, IsJoin,
}
use aura_sql.Parser.RoundTrip.{AfterExpr, parse_value_token, parse_or-expr_tokens}

-- The lists of `A`: after each item stands a comma or a token that meets `After`.
module _ {A : Type 0} (item : Parser A) (f : A → Tokens) (P : A → Type 0)
    (After : TokenType → Type 0) (after_comma : After token_comma)
    (reads : (x : A)
      → P x
      → (rest : Tokens) → After (current rest).type
      → item (f x ++ rest) ≡ ok (x, rest)) where
  list_loop-Reads :
      (rounds : ℕ) (x : A) (xs : List A) (rest : Tokens)
      → length xs < rounds
      → P x
      → All P xs
      → After (current rest).type
      → ((current rest).type is token_comma) ≡ false
      → list_loop item rounds (f x ++ (comma_items f xs ++ rest)) ≡ ok (x ∷ xs, rest)
  unfolding list_loop comma_items
  list_loop-Reads zero x xs rest enough px pxs after stops = absurd (omega arith)
  list_loop-Reads (suc rounds) x [] rest enough px pxs after stops =
      rw (reads x px rest after) (rw (stops, ◌>>=◌) refl)
  list_loop-Reads (suc rounds) x (y ∷ ys) rest enough px pxs after stops =
      ap (λ ts. list_loop item (suc rounds) (f x ++ word token_comma ∷ ts))
        (append_assoc (f y) (comma_items f ys) rest)
      ∙ rw
          (
            reads x px (word token_comma ∷ (f y ++ (comma_items f ys ++ rest))) after_comma,
            list_loop-Reads rounds y ys rest (omega arith) pxs.0 pxs.1 after stops,
          )
          refl

  length-comma_items : (xs : List A) → length xs ≤ length (comma_items f xs)
  unfolding comma_items
  length-comma_items [] = omega arith
  length-comma_items (x ∷ xs) =
      omega (arith, length-append (f x) (comma_items f xs), length-comma_items xs)

  pub comma_list-Reads :
      (xs : List A) (rest : Tokens)
      → AllSome P xs
      → After (current rest).type
      → ((current rest).type is token_comma) ≡ false
      → comma_list item (separated f xs ++ rest) ≡ ok (xs, rest)
  unfolding comma_list separated
  comma_list-Reads [] rest h after stops = absurd h
  comma_list-Reads (x ∷ xs) rest h after stops =
      let whole = append_assoc (f x) (comma_items f xs) rest in
      let counted = length-comma_items xs in
      let one = length-append (f x) (comma_items f xs) in
      let all_tokens = length-append (f x ++ comma_items f xs) rest in
      ap (list_loop item (suc (length ((f x ++ comma_items f xs) ++ rest)))) whole
      ∙ list_loop-Reads (suc (length ((f x ++ comma_items f xs) ++ rest))) x xs rest (omega arith)
          h.0 h.1 after stops

column_type-type_word : (t : ColumnType) → column_type (type_word t) ≡ ok t
column_type-type_word type_int = refl
column_type-type_word type_text = refl
column_type-type_word type_bool = refl

parse_column-Reads :
    (c : Column)
    → IsName c.name
    → (rest : Tokens) → Unit {0}
    → parse_column (column_def c ++ rest) ≡ ok (c, rest)
unfolding parse_column identifier
parse_column-Reads c h rest after = rw (column_type-type_word c.type) refl

pub parse_columns :
    (columns : List Column) (rest : Tokens)
    → AllSome (λ c. IsName (Column.name c)) columns
    → ((current rest).type is token_comma) ≡ false
    → comma_list parse_column (separated column_def columns ++ rest) ≡ ok (columns, rest)
parse_columns columns rest h =
    comma_list-Reads parse_column column_def (λ c. IsName (Column.name c)) (λ t. Unit {0}) tt
      parse_column-Reads columns rest h tt

parse_insert_value-Reads :
    (e : Expr)
    → IsLiteral e
    → (rest : Tokens) → Unit {0}
    → parse_insert_value (expr_tokens e ++ rest) ≡ ok (e, rest)
unfolding parse_insert_value expr_tokens
parse_insert_value-Reads star h rest after = absurd h
parse_insert_value-Reads (column_ref table name) h rest after = absurd h
parse_insert_value-Reads (literal v) h rest after = rw (parse_value_token v h rest) refl
parse_insert_value-Reads (binary op l r) h rest after = absurd h

pub parse_values :
    (values : List Expr) (rest : Tokens)
    → AllSome IsLiteral values
    → ((current rest).type is token_comma) ≡ false
    → comma_list parse_insert_value (separated expr_tokens values ++ rest) ≡ ok (values, rest)
parse_values values rest h =
    comma_list-Reads parse_insert_value expr_tokens IsLiteral (λ t. Unit {0}) tt
      parse_insert_value-Reads values rest h tt

parse_assignment-Reads :
    (a : Assignment)
    → IsName a.column × IsExpr a.value
    → (rest : Tokens) → AfterExpr (current rest).type
    → parse_assignment (assignment_tokens a ++ rest) ≡ ok (a, rest)
unfolding parse_assignment assignment_tokens identifier expect
parse_assignment-Reads a h rest after = rw (parse_or-expr_tokens a.value h.1 rest after) refl

pub comma_stops : AfterExpr token_comma
unfolding or_op and_op comparison_op additive_op
comma_stops = ((((refl, refl), refl), refl), refl)

pub parse_assignments :
    (assigns : List Assignment) (rest : Tokens)
    → AllSome (λ a. IsName (Assignment.column a) × IsExpr (Assignment.value a)) assigns
    → AfterExpr (current rest).type
    → ((current rest).type is token_comma) ≡ false
    → comma_list parse_assignment (separated assignment_tokens assigns ++ rest) ≡ ok (assigns, rest)
parse_assignments assigns rest h =
    comma_list-Reads parse_assignment assignment_tokens
      (λ a. IsName (Assignment.column a) × IsExpr (Assignment.value a)) AfterExpr comma_stops
      parse_assignment-Reads assigns rest h

parse_projected-Reads :
    (e : Expr)
    → IsExpr e
    → (rest : Tokens) → AfterExpr (current rest).type
    → parse_projected (expr_tokens e ++ rest) ≡ ok (e, rest)
unfolding parse_projected
parse_projected-Reads e h rest after = rw (parse_or-expr_tokens e h rest after) refl

value_token-no_star : (v : Value) → IsConstant v → ((value_token v).type is token_star) ≡ false
value_token-no_star _ (ints n small) = refl
value_token-no_star _ (texts s fine) = refl
value_token-no_star _ (bools true) = refl
value_token-no_star _ (bools false) = refl

-- A printed expression does not begin with a star.
expr_tokens-no_star :
    (e : Expr) (k : ℕ)
    → IsAt k e
    → (rest : Tokens) → ((current (expr_tokens e ++ rest)).type is token_star) ≡ false
unfolding expr_tokens
expr_tokens-no_star star k h rest = absurd h
expr_tokens-no_star (column_ref [] name) k h rest = refl
expr_tokens-no_star (column_ref (c ∷ table) name) k h rest = refl
expr_tokens-no_star (literal v) k h rest = value_token-no_star v h
expr_tokens-no_star (binary op l r) k h rest =
    ap (λ ts. (current ts).type is token_star)
      (append_assoc (expr_tokens l) (word (op_type op) ∷ expr_tokens r) rest)
    ∙ expr_tokens-no_star l (left_level op) h.1 (word (op_type op) ∷ (expr_tokens r ++ rest))

parse_list_of :
    (es : List Expr) (rest : Tokens)
    → AllSome IsExpr es
    → AfterExpr (current rest).type
    → ((current rest).type is token_comma) ≡ false
    → parse_select_expressions (separated expr_tokens es ++ rest) ≡ ok (es, rest)
unfolding parse_select_expressions separated
parse_list_of [] rest h after stops = absurd h
parse_list_of (e ∷ es) rest h after stops =
    let whole = append_assoc (expr_tokens e) (comma_items expr_tokens es) rest in
    let no_star =
      ap (λ ts. (current ts).type is token_star) whole
      ∙ expr_tokens-no_star e 0 h.0 (comma_items expr_tokens es ++ rest) in
    rw no_star (
      comma_list-Reads parse_projected expr_tokens IsExpr AfterExpr comma_stops
        parse_projected-Reads (e ∷ es) rest h after stops)

pub parse_projection :
    (es : List Expr) (rest : Tokens)
    → IsProjection es
    → AfterExpr (current rest).type
    → ((current rest).type is token_comma) ≡ false
    → parse_select_expressions (projection_tokens es ++ rest) ≡ ok (es, rest)
unfolding projection_tokens parse_select_expressions
parse_projection [] rest h after stops = absurd h
parse_projection (star ∷ []) rest h after stops = refl
parse_projection (star ∷ e ∷ es) rest h after stops = absurd h.0
parse_projection (e ∷ es) rest h after stops = parse_list_of (e ∷ es) rest h after stops

-- No name is a word of the scanner's table.
name_differs :
    (s keyword : GoString) → IsName s → is_name keyword ≡ false → str_eq s keyword ≡ false
name_differs s keyword h other = elim (Bool-cases (str_eq s keyword)) [
  | inl same ↦ absurd (let eq = (str_eq_iff s keyword).0 same in cc)
  | inr differ ↦ differ
]

pub parse_alias-optional_name :
    (stops : GoString → Bool) (a : GoString) (rest : Tokens)
    → IsQualifier a
    → ((c : ℕ) (s : GoString) → IsName (c ∷ s) → stops (c ∷ s) ≡ false)
    → ((current rest).type is token_identifier) ≡ false
    → parse_alias stops (optional_name a ++ rest) ≡ (a, rest)
unfolding parse_alias
parse_alias-optional_name stops [] rest h free not_name = rw not_name refl
parse_alias-optional_name stops (c ∷ s) rest h free not_name = rw (free c s h) refl

names_join : (c : ℕ) (s : GoString) → IsName (c ∷ s) → stops_join (c ∷ s) ≡ false
unfolding str_eq
names_join c s h = name_differs (c ∷ s) (bytes "ON") h (unfold is_name in refl)

pub names_from : (c : ℕ) (s : GoString) → IsName (c ∷ s) → stops_from (c ∷ s) ≡ false
unfolding str_eq
names_from c s h =
    rw
      (
        name_differs (c ∷ s) (bytes "JOIN") h (unfold is_name in refl),
        name_differs (c ∷ s) (bytes "WHERE") h (unfold is_name in refl),
      )
      refl

pub parse_where-where_tokens :
    (w : Option Expr) (rest : Tokens)
    → IsWhere w
    → AfterExpr (current rest).type
    → ((current rest).type is token_where) ≡ false
    → parse_where (where_tokens w ++ rest) ≡ ok (w, rest)
unfolding parse_where where_tokens
parse_where-where_tokens none rest h after stops = rw stops refl
parse_where-where_tokens (some e) rest h after stops = rw (parse_or-expr_tokens e h rest after) refl

parse_join-Reads :
    (j : JoinClause)
    → IsJoin j
    → (rest : Tokens) → AfterExpr (current rest).type
    → parse_join (next_tok (join_tokens j ++ rest)) ≡ ok (j, rest)
unfolding parse_join join_tokens identifier expect
parse_join-Reads j h rest after =
    let on_tokens = word token_on ∷ (expr_tokens j.on ++ rest) in
    rw
      (
        append_assoc (optional_name j.alias) (word token_on ∷ expr_tokens j.on) rest,
        parse_alias-optional_name stops_join j.alias on_tokens h.1 names_join refl,
        parse_or-expr_tokens j.on h.2 rest after,
      )
      refl

join_stops : AfterExpr token_join
unfolding or_op and_op comparison_op additive_op
join_stops = ((((refl, refl), refl), refl), refl)

pub joins_after :
    (joins : List JoinClause) (rest : Tokens)
    → AfterExpr (current rest).type
    → AfterExpr (current (joins_tokens joins ++ rest)).type
unfolding joins_tokens join_tokens
joins_after [] rest after = after
joins_after (j ∷ js) rest after = join_stops

pub joins_no_name :
    (joins : List JoinClause) (rest : Tokens)
    → ((current rest).type is token_identifier) ≡ false
    → ((current (joins_tokens joins ++ rest)).type is token_identifier) ≡ false
unfolding joins_tokens join_tokens
joins_no_name [] rest after = after
joins_no_name (j ∷ js) rest after = refl

pub length-joins_tokens : (joins : List JoinClause) → length joins ≤ length (joins_tokens joins)
unfolding joins_tokens join_tokens
length-joins_tokens [] = omega arith
length-joins_tokens (j ∷ js) =
    omega (arith, length-append (join_tokens j) (joins_tokens js), length-joins_tokens js)

pub parse_joins :
    (rounds : ℕ) (joins : List JoinClause) (rest : Tokens)
    → length joins ≤ rounds
    → All IsJoin joins
    → AfterExpr (current rest).type
    → ((current rest).type is token_join) ≡ false
    → joins_loop rounds (joins_tokens joins ++ rest) ≡ ok (joins, rest)
unfolding joins_loop joins_tokens
parse_joins zero [] rest enough h after stops = rw stops refl
parse_joins zero (j ∷ js) rest enough h after stops = absurd (omega arith)
parse_joins (suc rounds) [] rest enough h after stops = rw (stops, joins_loop) refl
parse_joins (suc rounds) (j ∷ js) rest enough h after stops =
    let others = joins_tokens js ++ rest in
    ap (joins_loop (suc rounds)) (append_assoc (join_tokens j) (joins_tokens js) rest)
    ∙ rw
        (
          parse_join-Reads j h.0 others (joins_after js rest after),
          parse_joins rounds js rest (omega arith) h.1 after stops,
        )
        refl
