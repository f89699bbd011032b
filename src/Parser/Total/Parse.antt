-- ===== src/Parser/Total/Parse.antt =====
-- `Parse` returns on every text: a statement, or an error that is not a panic.
use aura_sql.Prelude.{◌≢◌, [], ◌∷◌, GoString, String, length, Bool-cases, inl, inr, subst, arith}
use aura_sql.Errors.{Result, ok, err, panic, wrapping, ◌>>=◌}
use aura_sql.Core.{Statement, begin, commit, rollback}
use aura_sql.Parser.Token.{
  ◌is◌, token_eof, token_transaction, token_table, token_open_paren, token_close_paren, token_into,
  token_values, token_from, token_set, token_select, token_create, token_insert, token_analyze,
  token_explain, token_delete, token_update, token_on, token_index, token_begin, token_commit,
  token_rollback, token_start, token_end, TokenType,
}
use aura_sql.Parser.Lexer.{lex_all}
use aura_sql.Parser.Grammar.{Tokens, current, next_tok, peek, expect, identifier}
use aura_sql.Parser.Statements.{
  skip, parse_begin, parse_commit, parse_rollback, comma_list, end_of, parse_column,
  parse_create_table, parse_insert_value, parse_insert, parse_select_expressions, parse_alias,
  stops_from, joins_loop, parse_where, parse_select, parse_delete, parse_assignment, parse_update,
  parse_index_name, parse_create_index, parse_begin, parse_commit, parse_rollback, parse_analyze,
  parse_by, parse_statement, parse,
}
use aura_sql.Parser.Total.{Ends, >>=-Ends, wrapping-Ends, identifier-Within}
use aura_sql.Parser.Total.Statements.{
  Any, expect-Ends, comma_list-Within, parse_column-Within, parse_insert_value-Within,
  parse_select_expressions-Within, joins_loop-Within, parse_where-Within, parse_assignment-Within,
}

unfoldable IsTotal : {A : Type 0} → Result A → Type 0
IsTotal m = Ends Any m

total : {A : Type 0} (m : Result A) → Ends Any m → IsTotal m
unfolding IsTotal
total m h = h

then :
    {A B : Type 0} (P : A → Type 0) (m : Result A) (go_on : A → Result B)
    → Ends P m
    → ((a : A) → IsTotal (go_on a))
    → IsTotal (m >>= go_on)
unfolding IsTotal
then P m go_on h after = >>=-Ends P Any m go_on h λ a _. after a

forget : {A : Type 0} (P : A → Type 0) (m : Result A) → Ends P m → Ends Any m
forget P (ok a) h = tt
forget P (err e) h = h

end_of-Ends : {A : Type 0} (refusal : String) (a : A) (ts : Tokens) → IsTotal (end_of refusal a ts)
unfolding end_of IsTotal
end_of-Ends refusal a ts = ground arith

-- A word of the grammar, and a name.
word :
    {A : Type 0} (t : TokenType) (refusal : String) (ts : Tokens) (go_on : Tokens → Result A)
    → ((rest : Tokens) → IsTotal (go_on rest))
    → IsTotal (expect t refusal ts >>= go_on)
word t refusal ts go_on after = then _ (expect t refusal ts) go_on (expect-Ends t refusal ts) after

name :
    {A : Type 0} (refusal : String) (ts : Tokens) (go_on : GoString × Tokens → Result A)
    → ((p : GoString × Tokens) → IsTotal (go_on p))
    → IsTotal (identifier refusal ts >>= go_on)
name refusal ts go_on after =
    then _ (identifier refusal ts) go_on (identifier-Within refusal ts) after

parse_create_table-Ends : (ts : Tokens) → IsTotal (parse_create_table ts)
unfolding parse_create_table
parse_create_table-Ends ts = word token_table "expected TABLE, got %q" (next_tok ts) _ λ ts1.
    name "expected table name, got %q" ts1 _ λ p.
      word token_open_paren "expected '(' after table name, got %q" p.1 _ λ ts2.
        then _ (comma_list parse_column ts2) _
          (comma_list-Within parse_column parse_column-Within ts2)
          λ q.
            word token_close_paren "expected ')' at end of column definitions, got %q" q.1 _
              λ ts3. end_of-Ends _ _ ts3

parse_insert-Ends : (ts : Tokens) → IsTotal (parse_insert ts)
unfolding parse_insert
parse_insert-Ends ts = word token_into "expected INTO, got %q" (next_tok ts) _ λ ts1.
    name "expected table name, got %q" ts1 _ λ p.
      word token_values "expected VALUES, got %q" p.1 _ λ ts2.
        word token_open_paren "expected '(' before values list, got %q" ts2 _ λ ts3.
          then _ (comma_list parse_insert_value ts3) _
            (comma_list-Within parse_insert_value parse_insert_value-Within ts3)
            λ q.
              word token_close_paren "expected ')' after values list, got %q" q.1 _
                λ ts4. end_of-Ends _ _ ts4

parse_select-Ends : (ts : Tokens) → IsTotal (parse_select ts)
unfolding parse_select
parse_select-Ends ts =
    then _ (parse_select_expressions (next_tok ts)) _
      (parse_select_expressions-Within (next_tok ts))
      λ p. word token_from "expected FROM keyword, got %q" p.1 _ λ ts1.
        name "expected table name after FROM, got %q" ts1 _ λ q.
          let aliased = (parse_alias stops_from q.1).1 in
          then _ (joins_loop (length aliased) aliased) _
            (joins_loop-Within (length aliased) aliased (omega arith))
            λ r. then _ (parse_where r.1) _ (parse_where-Within r.1) λ w. end_of-Ends _ _ w.1

parse_delete-Ends : (ts : Tokens) → IsTotal (parse_delete ts)
unfolding parse_delete
parse_delete-Ends ts = word token_from "expected FROM after DELETE, got %q" (next_tok ts) _ λ ts1.
    name "expected table name, got %q" ts1 _
      λ p. then _ (parse_where p.1) _ (parse_where-Within p.1) λ w. end_of-Ends _ _ w.1

parse_update-Ends : (ts : Tokens) → IsTotal (parse_update ts)
unfolding parse_update
parse_update-Ends ts = name "expected table name after UPDATE, got %q" (next_tok ts) _ λ p.
    word token_set "expected SET keyword, got %q" p.1 _ λ ts1.
      then _ (comma_list parse_assignment ts1) _
        (comma_list-Within parse_assignment parse_assignment-Within ts1)
        λ q. then _ (parse_where q.1) _ (parse_where-Within q.1) λ w. end_of-Ends _ _ w.1

parse_index_name-Ends : (ts : Tokens) → Ends Any (parse_index_name ts)
unfolding parse_index_name
parse_index_name-Ends ts = elim (Bool-cases ((current ts).type is token_on)) [
  | inl at ↦ rw at tt
  | inr at ↦ rw at (forget _ (identifier _ ts) (identifier-Within _ ts))
]

parse_create_index-Ends : (ts : Tokens) → IsTotal (parse_create_index ts)
unfolding parse_create_index
parse_create_index-Ends ts =
    let named = next_tok (next_tok ts) in
    then _ (parse_index_name named) _ (parse_index_name-Ends named) λ p.
      word token_on "expected ON keyword, got %q" p.1 _ λ ts1.
        name "expected table name, got %q" ts1 _ λ q.
          word token_open_paren "expected '(' before column name, got %q" q.1 _ λ ts2.
            name "expected column identifier, got %q" ts2 _ λ r.
              word token_close_paren "expected ')' after column name, got %q" r.1 _
                λ ts3. end_of-Ends _ _ ts3

parse_analyze-Ends : (ts : Tokens) → IsTotal (parse_analyze ts)
unfolding parse_analyze
parse_analyze-Ends ts =
    name "expected table name after ANALYZE, got %q" (skip token_table (next_tok ts)) _
      λ p. end_of-Ends _ _ p.1

parse_begin-Ends : (ts : Tokens) → IsTotal (parse_begin ts)
unfolding parse_begin
parse_begin-Ends ts =
    end_of-Ends "unexpected tokens after BEGIN/START: %q" begin
      (skip token_transaction (next_tok ts))

parse_commit-Ends : (ts : Tokens) → IsTotal (parse_commit ts)
unfolding parse_commit
parse_commit-Ends ts =
    end_of-Ends "unexpected tokens after COMMIT/END: %q" commit
      (skip token_transaction (next_tok ts))

parse_rollback-Ends : (ts : Tokens) → IsTotal (parse_rollback ts)
unfolding parse_rollback
parse_rollback-Ends ts =
    end_of-Ends "unexpected tokens after ROLLBACK: %q" rollback
      (skip token_transaction (next_tok ts))

parse_by-Ends : (t : TokenType) (ts : Tokens) → IsTotal (parse_by t ts)
unfolding parse_by IsTotal
parse_by-Ends token_create ts = elim (Bool-cases ((peek ts).type is token_index)) [
  | inl at ↦ rw (at, parse_by) (parse_create_index-Ends ts)
  | inr at ↦ rw (at, parse_by) (parse_create_table-Ends ts)
]
parse_by-Ends token_insert ts = parse_insert-Ends ts
parse_by-Ends token_select ts = parse_select-Ends ts
parse_by-Ends token_delete ts = parse_delete-Ends ts
parse_by-Ends token_update ts = parse_update-Ends ts
parse_by-Ends token_begin ts = parse_begin-Ends ts
parse_by-Ends token_start ts = parse_begin-Ends ts
parse_by-Ends token_commit ts = parse_commit-Ends ts
parse_by-Ends token_end ts = parse_commit-Ends ts
parse_by-Ends token_rollback ts = parse_rollback-Ends ts
parse_by-Ends token_analyze ts = parse_analyze-Ends ts
parse_by-Ends _ ts = tt

parse_statement-Ends : (ts : Tokens) → IsTotal (parse_statement ts)
unfolding parse_statement IsTotal
parse_statement-Ends [] = parse_by-Ends token_eof []
parse_statement-Ends (t ∷ ts) = elim (Bool-cases (t.type is token_explain)) [
  | inl at ↦
      rw (at, parse_statement)
        (then _ (wrapping _ (parse_statement ts)) _
          (wrapping-Ends Any _ (parse_statement ts) (parse_statement-Ends ts)) λ s. tt)
  | inr at ↦ rw (at, parse_statement) (parse_by-Ends t.type (t ∷ ts))
]

Ends-calm : (m : Result Statement) → IsTotal m → m ≢ err panic
unfolding IsTotal
Ends-calm (ok s) h e = cc
Ends-calm (err e) h same = subst (λ m. Ends Any m) same h

-- On every text the parser returns a statement or an error of its own: no loop of it runs out of
-- rounds.
pub parse_total : (sql : GoString) → parse sql ≢ err panic
unfolding parse
parse_total sql = Ends-calm (parse sql) (parse_statement-Ends (lex_all sql))
