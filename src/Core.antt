-- ===== src/Core.antt =====
-- core/core.go: the vocabulary that the parser, the executor and the storage engines share.
-- An error keeps the format string of `fmt.Errorf` in place of the formatted text.

pub mod Order
pub mod Engine
use aura_sql.Prelude.{
  ℕ, suc, String, Bool, true, false, List, [], ◌∷◌, Option, none, some, compare, Ordering, map,
  if◌then◌else◌, GoString, str_eq, str_compare,
}
use aura_sql.Prelude.Int.{ℤ, pos, compare_ℤ}
use aura_sql.Errors.{Error, errorf, Result, ok, err}

-- The type is `int` in the source, and these three constants are its only values.
pub data ColumnType : Type 0 where
  type_int type_text type_bool : ColumnType

unfoldable pub type_eq : ColumnType → ColumnType → Bool
type_eq type_int type_int = true
type_eq type_text type_text = true
type_eq type_bool type_bool = true
type_eq _ _ = false

-- A typed cell. Where `null` is true the other fields are ignored.
pub record Value : Type 0 where
  pub type : ColumnType
  pub int : ℤ
  pub str : GoString
  pub bool : Bool
  pub null : Bool

abbrev pub new_int : ℤ → Value
new_int v = record { type = type_int; int = v; str = []; bool = false; null = false }

abbrev pub new_text : GoString → Value
new_text v = record { type = type_text; int = pos 0; str = v; bool = false; null = false }

abbrev pub new_bool : Bool → Value
new_bool v = record { type = type_bool; int = pos 0; str = []; bool = v; null = false }

abbrev pub null_value : ColumnType → Value
null_value t = record { type = t; int = pos 0; str = []; bool = false; null = true }

-- Go's zero value: the INT 0, which is not NULL.
abbrev pub zero_value : Value
zero_value = new_int (pos 0)

abbrev pub compare_bool : Bool → Bool → Ordering
compare_bool false true = Ordering.lt
compare_bool true false = Ordering.gt
compare_bool _ _ = Ordering.eq

abbrev pub compare_by_type : ColumnType → Value → Value → Ordering
compare_by_type type_int v o = compare_ℤ v.int o.int
compare_by_type type_text v o = str_compare v.str o.str
compare_by_type type_bool v o = compare_bool v.bool o.bool

-- `v.Compare(o)`: the results -1, 0 and 1 are `lt`, `eq` and `gt`.
unfoldable pub compare_value : Value → Value → Result Ordering
unfolding type_eq
compare_value v o =
    if v.null
    then err (errorf "cannot compare NULL values")
    else if o.null
    then err (errorf "cannot compare NULL values")
    else if type_eq v.type o.type
    then ok (compare_by_type v.type v o)
    else err (errorf "cannot compare %s with %s")

-- `err == nil && cmp == 0` for the result of `Compare`.
abbrev pub is_equal : Result Ordering → Bool
is_equal (ok Ordering.eq) = true
is_equal _ = false

abbrev pub compares_equal : Value → Value → Bool
compares_equal v key = is_equal (compare_value v key)

pub record Column : Type 0 where
  pub name : GoString
  pub type : ColumnType

pub record Schema : Type 0 where
  pub columns : List Column

-- The position of the first column of that name; -1 is `none`.
unfoldable pub index_of : List Column → GoString → Option ℕ
index_of [] name = none
index_of (c ∷ cs) name =
    let rest = index_of cs name in
    if str_eq c.name name then some 0 else elim rest [ none ↦ none | some i ↦ some (suc i) ]

unfoldable pub column_index : Schema → GoString → Option ℕ
unfolding index_of
column_index s name = index_of s.columns name

-- `xmin` created this version, `xmax` deleted it (0: nobody).
pub record Row : Type 0 where
  pub values : List Value
  pub xmin : ℕ
  pub xmax : ℕ

abbrev pub row_of : List Value → Row
row_of vs = record { values = vs; xmin = 0; xmax = 0 }

pub data BinOp : Type 0 where
  op_eq op_ne op_lt op_le op_gt op_ge op_and op_or op_add op_sub : BinOp

-- An expression; the `nil` expression is the `none` of an `Option Expr`.
pub data Expr : Type 0 where
  star : Expr
  column_ref : GoString → GoString → Expr
  literal : Value → Expr
  binary : BinOp → Expr → Expr → Expr

pub record JoinClause : Type 0 where
  pub table : GoString
  pub alias : GoString
  pub on : Expr

pub record Assignment : Type 0 where
  pub column : GoString
  pub value : Expr

pub record SelectStmt : Type 0 where
  pub projection : List Expr
  pub from : GoString
  pub from_alias : GoString
  pub joins : List JoinClause
  pub where_expr : Option Expr

pub data Statement : Type 0 where
  create_table : GoString → List Column → Statement
  create_index : GoString → GoString → GoString → Statement
  insert : GoString → List Expr → Statement
  select : SelectStmt → Statement
  update : GoString → List Assignment → Option Expr → Statement
  delete : GoString → Option Expr → Statement
  begin commit rollback : Statement
  explain : Statement → Statement
  analyze : GoString → Statement
