-- ===== src/Parser/Scan/Statements.antt =====
-- Every token of a statement's canonical text is read back.
use aura_sql.Prelude.{◌≡◌, ap, ◌∙◌, List, [], ◌∷◌, ◌++◌, GoString, Option, none, some, All}
use aura_sql.Errors.{ok}
use aura_sql.Core.{
  ColumnType, type_int, type_text, type_bool, Column, Expr, star, column_ref, literal, binary,
  JoinClause, Assignment, Statement, create_table, create_index, insert, select, update, delete,
  begin, commit, rollback, explain, analyze,
}
use aura_sql.Parser.Token.{
  TokenType, token_select, token_from, token_where, token_create, token_table, token_insert,
  token_into, token_values, token_delete, token_update, token_set, token_join, token_on,
  token_index, token_begin, token_commit, token_rollback, token_open_paren, token_close_paren,
  token_comma, token_star, token_eq,
}
use aura_sql.Parser.Grammar.{Tokens}
use aura_sql.Parser.Statements.{parse_statement, parse}
use aura_sql.Parser.Print.{word, ident, expr_tokens, IsName, IsQualifier, IsExpr}
use aura_sql.Parser.Print.Statements.{
  comma_items, separated, type_word, column_def, projection_tokens, optional_name, join_tokens,
  joins_tokens, where_tokens, assignment_tokens, eof, statement_tokens, AllSome, IsLiteral,
  IsProjection, IsWhere, IsJoin, IsStatement,
}
use aura_sql.Parser.Scan.{IsSpelled}
use aura_sql.Parser.Scan.Text.{
  text_of, Fine, Scannable, front, lex_all-text_of, word-Fine, ident-Fine, explain-Fine,
  analyze-Fine, All-append, expr-Fine, at_end, before,
}
use aura_sql.Parser.RoundTrip.Statements.{parse_statement-statement_tokens}

module _ {A : Type 0} (f : A → Tokens) (P : A → Type 0)
    (fine : (x : A) → P x → All Fine (f x)) where
  comma_items-Fine : (xs : List A) → All P xs → All Fine (comma_items f xs)
  unfolding comma_items
  comma_items-Fine [] h = tt
  comma_items-Fine (x ∷ xs) h =
      (word-Fine token_comma tt, All-append Fine (f x) _ (fine x h.0) (comma_items-Fine xs h.1))

  separated-Fine : (xs : List A) → AllSome P xs → All Fine (separated f xs)
  unfolding separated
  separated-Fine [] h = absurd h
  separated-Fine (x ∷ xs) h = All-append Fine (f x) _ (fine x h.0) (comma_items-Fine xs h.1)

type_word_spelled : (t : ColumnType) → IsSpelled (type_word t)
type_word_spelled type_int = tt
type_word_spelled type_text = tt
type_word_spelled type_bool = tt

column-Fine : (c : Column) → IsName c.name → All Fine (column_def c)
column-Fine c h =
    (ident-Fine c.name h, (word-Fine (type_word c.type) (type_word_spelled c.type), tt))

literal-Fine : (e : Expr) → IsLiteral e → All Fine (expr_tokens e)
literal-Fine star h = absurd h
literal-Fine (column_ref table name) h = absurd h
literal-Fine (literal v) h = expr-Fine (literal v) 0 h
literal-Fine (binary op l r) h = absurd h

assignment-Fine :
    (a : Assignment) → IsName a.column × IsExpr a.value → All Fine (assignment_tokens a)
unfolding assignment_tokens
assignment-Fine a h = (ident-Fine a.column h.0, (word-Fine token_eq tt, expr-Fine a.value 0 h.1))

optional-Fine : (s : GoString) → IsQualifier s → All Fine (optional_name s)
optional-Fine [] h = tt
optional-Fine (c ∷ s) h = (ident-Fine (c ∷ s) h, tt)

joins-Fine : (js : List JoinClause) → All IsJoin js → All Fine (joins_tokens js)
unfolding joins_tokens join_tokens
joins-Fine [] h = tt
joins-Fine (j ∷ js) h =
    All-append Fine (join_tokens j) _
      (
        word-Fine token_join tt,
        (
          ident-Fine j.table h.0.0,
          All-append Fine (optional_name j.alias) _ (optional-Fine j.alias h.0.1)
              (word-Fine token_on tt, expr-Fine j.on 0 h.0.2),
        ),
      )
      (joins-Fine js h.1)

where-Fine : (w : Option Expr) → IsWhere w → All Fine (where_tokens w)
unfolding where_tokens
where-Fine none h = tt
where-Fine (some e) h = (word-Fine token_where tt, expr-Fine e 0 h)

projection-Fine : (es : List Expr) → IsProjection es → All Fine (projection_tokens es)
unfolding projection_tokens
projection-Fine [] h = absurd h
projection-Fine (star ∷ []) h = (word-Fine token_star tt, tt)
projection-Fine (star ∷ e ∷ es) h = absurd h.0
projection-Fine (e ∷ es) h = separated-Fine expr_tokens IsExpr (λ x hx. expr-Fine x 0 hx) (e ∷ es) h

-- A keyword or sign before the rest.
spelled_before :
    (t : TokenType) {ts : Tokens} → IsSpelled t → Scannable ts → Scannable (word t ∷ ts)
spelled_before t h more = before (word-Fine t h) more

named_before : (s : GoString) {ts : Tokens} → IsName s → Scannable ts → Scannable (ident s ∷ ts)
named_before s h more = before (ident-Fine s h) more

closed : Scannable (word token_close_paren ∷ eof ∷ [])
closed = spelled_before token_close_paren tt at_end

where_end : (w : Option Expr) → IsWhere w → Scannable (where_tokens w ++ eof ∷ [])
where_end w h = front (where_tokens w) _ (where-Fine w h) at_end

pub statement_tokens-Scannable : (s : Statement) → IsStatement s → Scannable (statement_tokens s)
unfolding statement_tokens
statement_tokens-Scannable (create_table table columns) h = spelled_before token_create tt (
    spelled_before token_table tt (
      named_before table h.0 (
        spelled_before token_open_paren tt (
          front (separated column_def columns) _
            (separated-Fine column_def (λ c. IsName (Column.name c)) column-Fine columns h.1)
            closed))))
statement_tokens-Scannable (create_index name table column) h = spelled_before token_create tt (
    spelled_before token_index tt (
      front (optional_name name) _ (optional-Fine name h.0) (
        spelled_before token_on tt (
          named_before table h.1
            (spelled_before token_open_paren tt (named_before column h.2 closed))))))
statement_tokens-Scannable (insert table values) h = spelled_before token_insert tt (
    spelled_before token_into tt (
      named_before table h.0 (
        spelled_before token_values tt (
          spelled_before token_open_paren tt (
            front (separated expr_tokens values) _
              (separated-Fine expr_tokens IsLiteral literal-Fine values h.1) closed)))))
statement_tokens-Scannable (select q) h = spelled_before token_select tt (
    front (projection_tokens q.projection) _ (projection-Fine q.projection h.0) (
      spelled_before token_from tt (
        named_before q.from h.1 (
          front (optional_name q.from_alias) _ (optional-Fine q.from_alias h.2) (
            front (joins_tokens q.joins) _ (joins-Fine q.joins h.3)
              (where_end q.where_expr h.4))))))
statement_tokens-Scannable (update table assigns w) h = spelled_before token_update tt (
    named_before table h.0 (
      spelled_before token_set tt (
        front (separated assignment_tokens assigns) _
          (separated-Fine assignment_tokens
            (λ a. IsName (Assignment.column a) × IsExpr (Assignment.value a)) assignment-Fine
            assigns h.1)
          (where_end w h.2))))
statement_tokens-Scannable (delete table w) h =
    spelled_before token_delete tt
      (spelled_before token_from tt (named_before table h.0 (where_end w h.1)))
statement_tokens-Scannable begin h = spelled_before token_begin tt at_end
statement_tokens-Scannable commit h = spelled_before token_commit tt at_end
statement_tokens-Scannable rollback h = spelled_before token_rollback tt at_end
statement_tokens-Scannable (explain s) h = before explain-Fine (statement_tokens-Scannable s h)
statement_tokens-Scannable (analyze table) h = before analyze-Fine (named_before table h at_end)

-- The canonical text of every statement of the grammar, its tokens with a space after each, parses
-- to that statement: scanning undoes the spelling, and parsing the layout.
pub parse-statement_text :
    (s : Statement) → IsStatement s → parse (text_of (statement_tokens s)) ≡ ok s
unfolding parse
parse-statement_text s h =
    ap parse_statement (lex_all-text_of (statement_tokens s) (statement_tokens-Scannable s h))
    ∙ parse_statement-statement_tokens s h
