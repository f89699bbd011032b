-- ===== src/Parser/Print/Statements.antt =====
-- The canonical tokens of a statement, and the statements of the grammar.
use aura_sql.Prelude.{List, [], ◌∷◌, ◌++◌, GoString, bytes, Option, none, some, All}
use aura_sql.Core.{
  ColumnType, type_int, type_text, type_bool, Column, Expr, star, literal, JoinClause, Assignment,
  SelectStmt, Statement, create_table, create_index, insert, select, update, delete, begin, commit,
  rollback, explain, analyze,
}
use aura_sql.Parser.Token.{
  Token, TokenType, token, token_eof, token_select, token_from, token_where, token_create,
  token_table, token_insert, token_into, token_values, token_analyze, token_explain, token_int_type,
  token_text_type, token_bool_type, token_delete, token_update, token_set, token_join, token_on,
  token_index, token_begin, token_commit, token_rollback, token_open_paren, token_close_paren,
  token_comma, token_star, token_eq,
}
use aura_sql.Parser.Grammar.{Tokens}
use aura_sql.Parser.Print.{word, ident, expr_tokens, IsName, IsQualifier, IsConstant, IsExpr}

-- Items with a comma before each.
unfoldable pub comma_items : {A : Type 0} → (A → Tokens) → List A → Tokens
comma_items f [] = []
comma_items f (x ∷ xs) = word token_comma ∷ (f x ++ comma_items f xs)

-- Items with a comma between two.
unfoldable pub separated : {A : Type 0} → (A → Tokens) → List A → Tokens
unfolding comma_items
separated f [] = []
separated f (x ∷ xs) = f x ++ comma_items f xs

abbrev pub type_word : ColumnType → TokenType
type_word type_int = token_int_type
type_word type_text = token_text_type
type_word type_bool = token_bool_type

abbrev pub column_def : Column → Tokens
column_def c = ident c.name ∷ word (type_word c.type) ∷ []

unfoldable pub projection_tokens : List Expr → Tokens
unfolding separated
projection_tokens (star ∷ []) = word token_star ∷ []
projection_tokens es = separated expr_tokens es

-- An alias or an index name, which may be missing.
abbrev pub optional_name : GoString → Tokens
optional_name [] = []
optional_name (c ∷ s) = ident (c ∷ s) ∷ []

unfoldable pub join_tokens : JoinClause → Tokens
unfolding expr_tokens
join_tokens j =
    word token_join ∷ ident j.table ∷ (optional_name j.alias ++ word token_on ∷ expr_tokens j.on)

unfoldable pub joins_tokens : List JoinClause → Tokens
unfolding join_tokens
joins_tokens [] = []
joins_tokens (j ∷ js) = join_tokens j ++ joins_tokens js

unfoldable pub where_tokens : Option Expr → Tokens
unfolding expr_tokens
where_tokens none = []
where_tokens (some e) = word token_where ∷ expr_tokens e

unfoldable pub assignment_tokens : Assignment → Tokens
unfolding expr_tokens
assignment_tokens a = ident a.column ∷ word token_eq ∷ expr_tokens a.value

abbrev pub eof : Token
eof = token token_eof []

-- EXPLAIN and ANALYZE are spelled here, as `String` has no case for them.
unfoldable pub statement_tokens : Statement → Tokens
unfolding expr_tokens separated projection_tokens joins_tokens where_tokens assignment_tokens
statement_tokens (create_table table columns) =
    word token_create
    ∷ word token_table
    ∷ ident table
    ∷ word token_open_paren
    ∷ (separated column_def columns ++ word token_close_paren ∷ eof ∷ [])
statement_tokens (create_index name table column) =
    word token_create
    ∷ word token_index
    ∷ (optional_name name
        ++ word token_on
          ∷ ident table
          ∷ word token_open_paren
          ∷ ident column
          ∷ word token_close_paren
          ∷ eof
          ∷ [])
statement_tokens (insert table values) =
    word token_insert
    ∷ word token_into
    ∷ ident table
    ∷ word token_values
    ∷ word token_open_paren
    ∷ (separated expr_tokens values ++ word token_close_paren ∷ eof ∷ [])
statement_tokens (select q) =
    word token_select
    ∷ (projection_tokens q.projection
        ++ word token_from
          ∷ ident q.from
          ∷ (optional_name q.from_alias
              ++ (joins_tokens q.joins ++ (where_tokens q.where_expr ++ eof ∷ []))))
statement_tokens (update table assigns where_expr) =
    word token_update
    ∷ ident table
    ∷ word token_set
    ∷ (separated assignment_tokens assigns ++ (where_tokens where_expr ++ eof ∷ []))
statement_tokens (delete table where_expr) =
    word token_delete ∷ word token_from ∷ ident table ∷ (where_tokens where_expr ++ eof ∷ [])
statement_tokens begin = word token_begin ∷ eof ∷ []
statement_tokens commit = word token_commit ∷ eof ∷ []
statement_tokens rollback = word token_rollback ∷ eof ∷ []
statement_tokens (explain s) = token token_explain (bytes "EXPLAIN") ∷ statement_tokens s
statement_tokens (analyze table) = token token_analyze (bytes "ANALYZE") ∷ ident table ∷ eof ∷ []

-- One item at least.
abbrev pub AllSome : {A : Type 0} → (A → Type 0) → List A → Type 0
AllSome P [] = ⊥
AllSome P (x ∷ xs) = P x × All P xs

abbrev pub IsLiteral : Expr → Type 0
IsLiteral (literal v) = IsConstant v
IsLiteral _ = ⊥

abbrev pub IsProjection : List Expr → Type 0
IsProjection (star ∷ []) = Unit
IsProjection es = AllSome IsExpr es

abbrev pub IsWhere : Option Expr → Type 0
IsWhere none = Unit
IsWhere (some e) = IsExpr e

abbrev pub IsJoin : JoinClause → Type 0
IsJoin j = IsName j.table × IsQualifier j.alias × IsExpr j.on

abbrev pub IsSelect : SelectStmt → Type 0
IsSelect q =
    IsProjection q.projection
    × IsName q.from
    × IsQualifier q.from_alias
    × All IsJoin q.joins
    × IsWhere q.where_expr

-- The statements that SQL text can spell.
abbrev pub IsStatement : Statement → Type 0
IsStatement (create_table table columns) =
    IsName table × AllSome (λ c. IsName (Column.name c)) columns
IsStatement (create_index name table column) = IsQualifier name × IsName table × IsName column
IsStatement (insert table values) = IsName table × AllSome IsLiteral values
IsStatement (select q) = IsSelect q
IsStatement (update table assigns where_expr) =
    IsName table
    × AllSome (λ a. IsName (Assignment.column a) × IsExpr (Assignment.value a)) assigns
    × IsWhere where_expr
IsStatement (delete table where_expr) = IsName table × IsWhere where_expr
IsStatement begin = Unit
IsStatement commit = Unit
IsStatement rollback = Unit
IsStatement (explain s) = IsStatement s
IsStatement (analyze table) = IsName table
