-- ===== src/Executor/Terms.antt =====
-- The terms of a well-typed WHERE clause: what `splitAndTerms` and `combineAndTerms` keep.
use aura_sql.Prelude.{
  ◌≡◌, refl, ◌∙◌, Bool, true, false, ◌&&◌, List, [], ◌∷◌, ◌++◌, Option, none, some, arith,
}
use aura_sql.Errors.{Result, ok, err, Returns, ◌>>=◌}
use aura_sql.Core.{
  ColumnType, type_bool, Value, Schema, Row, op_and, Expr, star, column_ref, literal, binary,
}
use aura_sql.Eval.{eval, eval_binary, as_test, eval_where}
use aura_sql.Eval.Typing.{Conforms, HasType, both_types, type_of, eval_sound, eval_where_total}
use aura_sql.Executor.AccessPath.{split_and_terms, combine_onto, combine_and_terms}

abbrev pub test_value : Result Bool → Bool
test_value (ok b) = b
test_value (err e) = false

-- The row passes the WHERE clause.
abbrev pub passes : Expr → Row → Schema → Bool
passes e row schema = test_value (eval_where (some e) row schema)

abbrev pub IsTest : Schema → Expr → Type 0
IsTest schema e = type_of e schema ≡ some type_bool

Returns-value :
    {A : Type 0} (P : A → Type 0) (m : Result A) → Returns P m → (a : A) × (m ≡ ok a) × P a
Returns-value P (ok a) h = (a, refl, h)
Returns-value P (err e) h = absurd h

abbrev pub AllTests : Schema → List Expr → Type 0
AllTests schema [] = Unit
AllTests schema (e ∷ es) = IsTest schema e × AllTests schema es

pub AllTests-append :
    (schema : Schema) (xs ys : List Expr)
    → AllTests schema xs
    → AllTests schema ys
    → AllTests schema (xs ++ ys)
AllTests-append schema [] ys hx hy = hy
AllTests-append schema (x ∷ xs) ys hx hy = (hx.0, AllTests-append schema xs ys hx.1 hy)

and-IsTest :
    (schema : Schema) (l r : Expr)
    → IsTest schema (binary op_and l r)
    → IsTest schema l × IsTest schema r
unfolding type_of
and-IsTest schema l r typed = both (type_of l schema) (type_of r schema) typed
  where
    both :
        (a b : Option ColumnType)
        → both_types op_and a b ≡ some type_bool
        → (a ≡ some type_bool) × (b ≡ some type_bool)
    both a b h = ground arith

and_of-IsTest :
    (schema : Schema) (l r : Expr)
    → IsTest schema l
    → IsTest schema r
    → IsTest schema (binary op_and l r)
unfolding type_of
and_of-IsTest schema l r test_l test_r = rw (type_of, test_l, test_r) refl

pub split_and_terms-AllTests :
    (schema : Schema) (e : Expr) → IsTest schema e → AllTests schema (split_and_terms e)
unfolding split_and_terms
split_and_terms-AllTests schema star h = (h, tt)
split_and_terms-AllTests schema (column_ref table name) h = (h, tt)
split_and_terms-AllTests schema (literal v) h = (h, tt)
split_and_terms-AllTests schema (binary op_and l r) h =
    let (test_l, test_r) = and-IsTest schema l r h in
    AllTests-append schema (split_and_terms l) (split_and_terms r)
      (split_and_terms-AllTests schema l test_l) (split_and_terms-AllTests schema r test_r)
split_and_terms-AllTests schema (binary op l r) h = (h, tt)

combine_onto-IsTest :
    (schema : Schema) (e : Expr) (es : List Expr)
    → IsTest schema e
    → AllTests schema es
    → IsTest schema (combine_onto e es)
unfolding combine_onto
combine_onto-IsTest schema e [] h hs = h
combine_onto-IsTest schema e (d ∷ es) h hs =
    combine_onto-IsTest schema (binary op_and e d) es (and_of-IsTest schema e d h hs.0) hs.1

-- Every term passes.
abbrev pub all_pass : List Expr → Row → Schema → Bool
all_pass [] row schema = true
all_pass (e ∷ es) row schema = passes e row schema && all_pass es row schema

pub all_pass-append :
    (xs ys : List Expr) (row : Row) (schema : Schema)
    → all_pass (xs ++ ys) row schema ≡ (all_pass xs row schema && all_pass ys row schema)
all_pass-append [] ys row schema = refl
all_pass-append (x ∷ xs) ys row schema = ground (arith, all_pass-append xs ys row schema)

-- A missing WHERE clause passes every row.
abbrev pub filter_passes : Option Expr → Row → Schema → Bool
filter_passes none row schema = true
filter_passes (some e) row schema = passes e row schema

abbrev pub IsFilter : Schema → Option Expr → Type 0
IsFilter schema none = Unit
IsFilter schema (some e) = IsTest schema e

pub combine_and_terms-IsFilter :
    (schema : Schema) (es : List Expr) → AllTests schema es → IsFilter schema (combine_and_terms es)
unfolding combine_and_terms
combine_and_terms-IsFilter schema [] h = tt
combine_and_terms-IsFilter schema (e ∷ es) h = combine_onto-IsTest schema e es h.0 h.1

module _ (row : Row) (schema : Schema) (fits : Conforms schema.columns row.values) where
  pub eval_where-passes :
      (e : Expr) → IsTest schema e → eval_where (some e) row schema ≡ ok (passes e row schema)
  eval_where-passes e typed =
      let (b, decided) = eval_where_total e row schema fits typed in rw decided refl

  and_values :
      (a b : Value)
      → HasType type_bool a
      → HasType type_bool b
      → test_value (eval_binary op_and a b >>= as_test)
        ≡ (test_value (as_test a) && test_value (as_test b))
  unfolding eval_binary as_test
  and_values a b ha hb = ground arith

  pub passes-and :
      (l r : Expr)
      → IsTest schema l
      → IsTest schema r
      → passes (binary op_and l r) row schema ≡ (passes l row schema && passes r row schema)
  unfolding eval_where eval
  passes-and l r test_l test_r =
      let (a, ea, ha) =
        Returns-value (HasType type_bool) (eval l row schema)
          (eval_sound l row schema type_bool fits test_l) in
      let (b, eb, hb) =
        Returns-value (HasType type_bool) (eval r row schema)
          (eval_sound r row schema type_bool fits test_r) in
      rw (ea, eb) (and_values a b ha hb)

  pub split_and_terms-passes :
      (e : Expr) → IsTest schema e → all_pass (split_and_terms e) row schema ≡ passes e row schema
  unfolding split_and_terms
  split_and_terms-passes star h = ground arith
  split_and_terms-passes (column_ref table name) h = ground arith
  split_and_terms-passes (literal v) h = ground arith
  split_and_terms-passes (binary op_and l r) h =
      let (test_l, test_r) = and-IsTest schema l r h in
      rw
        (
          all_pass-append (split_and_terms l) (split_and_terms r) row schema,
          split_and_terms-passes l test_l,
          split_and_terms-passes r test_r,
          passes-and l r test_l test_r,
        )
        refl
  split_and_terms-passes (binary op l r) h = ground arith

  combine_onto-passes :
      (e : Expr) (es : List Expr)
      → IsTest schema e
      → AllTests schema es
      → passes (combine_onto e es) row schema ≡ (passes e row schema && all_pass es row schema)
  unfolding combine_onto
  combine_onto-passes e [] h hs = ground arith
  combine_onto-passes e (d ∷ es) h hs =
      combine_onto-passes (binary op_and e d) es (and_of-IsTest schema e d h hs.0) hs.1
      ∙ ground (arith, passes-and e d h hs.0)

  pub combine_and_terms-passes :
      (es : List Expr)
      → AllTests schema es
      → filter_passes (combine_and_terms es) row schema ≡ all_pass es row schema
  unfolding combine_and_terms
  combine_and_terms-passes [] h = refl
  combine_and_terms-passes (e ∷ es) h = combine_onto-passes e es h.0 h.1
