-- ===== src/Executor/AccessPath.antt =====
-- executor/executor.go: the search for an index that serves a WHERE clause or a join.
use aura_sql.Prelude.{
  Bool, true, false, ◌&&◌, List, [], ◌∷◌, ◌++◌, Option, none, some, GoString, str_eq, if◌then◌else◌,
}
use aura_sql.Core.{
  Value, Schema, column_index, BinOp, op_eq, op_and, Expr, column_ref, literal, binary,
}
use aura_sql.Core.Engine.{StorageEngine}

abbrev pub is_and : BinOp → Bool
is_and op_and = true
is_and _ = false

unfoldable pub split_and_terms : Expr → List Expr
split_and_terms (binary op l r) =
    let left = split_and_terms l in
    let right = split_and_terms r in if is_and op then left ++ right else binary op l r ∷ []
split_and_terms e = e ∷ []

unfoldable pub combine_onto : Expr → List Expr → Expr
combine_onto combined [] = combined
combine_onto combined (term ∷ terms) = combine_onto (binary op_and combined term) terms

unfoldable pub combine_and_terms : List Expr → Option Expr
unfolding combine_onto
combine_and_terms [] = none
combine_and_terms (term ∷ terms) = some (combine_onto term terms)

pub record IndexedEquality : Type 0 where
  pub column : GoString
  pub value : Value

-- The reference names no table, or this one.
abbrev pub names_table : GoString → GoString → Bool
names_table (c ∷ cs) table = str_eq (c ∷ cs) table
names_table [] table = true

unfoldable pub column_literal : Expr → Expr → GoString → Option IndexedEquality
column_literal (column_ref of_table name) (literal v) table =
    if names_table of_table table then some (record { column = name; value = v }) else none
column_literal _ _ table = none

unfoldable pub equality_column_literal : Expr → GoString → Option IndexedEquality
unfolding column_literal
equality_column_literal (binary op_eq l r) table = elim (column_literal l r table) [
  | some equality ↦ some equality
  | none ↦ column_literal r l table
]
equality_column_literal _ table = none

unfoldable pub column_belongs_to_schema : GoString → GoString → Schema → GoString → Bool
column_belongs_to_schema of_table name schema table =
    let declared : Bool = elim (column_index schema name) [ none ↦ false | some i ↦ true ] in
    elim table [ [] ↦ declared | c ∷ cs ↦ names_table of_table (c ∷ cs) && declared ]

pub record IndexedJoin : Type 0 where
  pub left_column : GoString
  pub right_column : GoString

module _ {S : Type 0} (eng : StorageEngine S) (s : S) where
  -- The loop of `findIndexedEquality`, with the terms that it has passed.
  unfoldable pub find_indexed :
      GoString → List Expr → List Expr → Option (IndexedEquality × Option Expr)
  unfolding equality_column_literal combine_and_terms
  find_indexed table passed [] = none
  find_indexed table passed (term ∷ terms) =
      let others = find_indexed table (passed ++ (term ∷ [])) terms in
      elim (equality_column_literal term table) [
        | none ↦ others
        | some equality ↦
            if eng.has_index s table equality.column
            then some (equality, combine_and_terms (passed ++ terms))
            else others
      ]

  unfoldable pub find_indexed_equality :
      GoString → Option Expr → Option IndexedEquality × Option Expr
  unfolding split_and_terms find_indexed
  find_indexed_equality table none = (none, none)
  find_indexed_equality table (some e) = elim (find_indexed table [] (split_and_terms e)) [
    | none ↦ (none, some e)
    | some (equality, remaining) ↦ (some equality, remaining)
  ]

  unfoldable pub join_columns_for_index :
      Schema → Schema → GoString → Expr → Expr → Option IndexedJoin
  unfolding column_belongs_to_schema
  join_columns_for_index left_schema right_schema right_table (column_ref lt ln)
        (column_ref rt rn) =
      if column_belongs_to_schema lt ln left_schema []
        && (column_belongs_to_schema rt rn right_schema right_table
            && eng.has_index s right_table rn)
      then some (record { left_column = ln; right_column = rn })
      else none
  join_columns_for_index left_schema right_schema right_table _ _ = none

  unfoldable pub indexed_join_equality : Schema → GoString → Expr → Option IndexedJoin
  unfolding join_columns_for_index
  indexed_join_equality left_schema right_table (binary op_eq l r) =
      elim (eng.get_schema s right_table) [
        | none ↦ none
        | some right_schema ↦
            elim (join_columns_for_index left_schema right_schema right_table l r) [
              | some indexed ↦ some indexed
              | none ↦ join_columns_for_index left_schema right_schema right_table r l
            ]
      ]
  indexed_join_equality left_schema right_table _ = none
