-- ===== src/Executor/Joins.antt =====
-- What a nested-loop join yields.
use aura_sql.Prelude.{
  ◌≡◌, refl, sym, ap, ◌∙◌, Bool, List, [], ◌∷◌, ◌++◌, map, arith, filter, All, Bool-cases, inl, inr,
}
use aura_sql.Errors.{ok}
use aura_sql.Core.{Value, Column, Schema, Row, Expr}
use aura_sql.Core.Engine.{Stream, next, stream_of}
use aura_sql.Eval.Typing.{Conforms}
use aura_sql.Executor.Operators.{
  combine, join_inner, join_outer, join_schema, materialize_right, nested_loop_join,
}
use aura_sql.Executor.Terms.{passes, IsTest, eval_where-passes}

-- The pairs of rows, left by left.
abbrev pub products : List Row → List Row → List Row
products [] rs = []
products (l ∷ ls) rs = map (combine l) rs ++ products ls rs

abbrev pub FitRows : Schema → List Row → Type 0
FitRows schema = All (λ row. Conforms schema.columns row.values)

Conforms-append :
    (cs ds : List Column) (vs ws : List Value)
    → Conforms cs vs
    → Conforms ds ws
    → Conforms (cs ++ ds) (vs ++ ws)
Conforms-append [] ds [] ws h k = k
Conforms-append [] ds (v ∷ vs) ws h k = absurd h
Conforms-append (c ∷ cs) ds [] ws h k = absurd h
Conforms-append (c ∷ cs) ds (v ∷ vs) ws h k = (h.0, Conforms-append cs ds vs ws h.1 k)

filter-append :
    (p : Row → Bool) (xs ys : List Row) → filter p (xs ++ ys) ≡ filter p xs ++ filter p ys
filter-append p [] ys = refl
filter-append p (x ∷ xs) ys = ground (arith, filter-append p xs ys)

stream_onto : List Row → Stream Row → Stream Row
stream_onto [] others = others
stream_onto (row ∷ rows) others = next row (stream_onto rows others)

stream_onto-stream_of : (xs ys : List Row) → stream_onto xs (stream_of ys) ≡ stream_of (xs ++ ys)
unfolding stream_onto stream_of
stream_onto-stream_of [] ys = refl
stream_onto-stream_of (x ∷ xs) ys = ap (next x) (stream_onto-stream_of xs ys)

materialize_right-stream_of : (rows : List Row) → materialize_right (stream_of rows) ≡ ok rows
unfolding materialize_right stream_of
materialize_right-stream_of [] = refl
materialize_right-stream_of (row ∷ rows) = ground (arith, materialize_right-stream_of rows)

module _ (on : Expr) (left right : Schema) (test : IsTest (join_schema left right) on) where
  accepts : Row → Bool
  accepts row = passes on row (join_schema left right)

  join_inner-rows :
      (l : Row) (rs : List Row) (others : Stream Row)
      → Conforms left.columns l.values
      → FitRows right rs
      → join_inner on (join_schema left right) l rs others
        ≡ stream_onto (filter accepts (map (combine l) rs)) others
  unfolding join_inner stream_onto accepts
  join_inner-rows l [] others fl fr = refl
  join_inner-rows l (r ∷ rs) others fl fr =
      let fits = Conforms-append left.columns right.columns l.values r.values fl fr.0 in
      let decided = eval_where-passes (combine l r) (join_schema left right) fits on test in
      let rest = join_inner-rows l rs others fl fr.1 in
      elim (Bool-cases (passes on (combine l r) (join_schema left right))) [
        | inl matched ↦ rw (decided ∙ ap ok matched, join_inner) (ap (next (combine l r)) rest)
        | inr differ ↦ rw (decided ∙ ap ok differ, join_inner) rest
      ]

  join_outer-rows :
      (ls rs : List Row)
      → FitRows left ls
      → FitRows right rs
      → join_outer on (join_schema left right) (stream_of ls) rs
        ≡ stream_of (filter accepts (products ls rs))
  unfolding join_outer stream_of accepts
  join_outer-rows [] rs fl fr = refl
  join_outer-rows (l ∷ ls) rs fl fr =
      join_inner-rows l rs (join_outer on (join_schema left right) (stream_of ls) rs) fl.0 fr
      ∙ ap (stream_onto (filter accepts (map (combine l) rs))) (join_outer-rows ls rs fl.1 fr)
      ∙ stream_onto-stream_of (filter accepts (map (combine l) rs))
          (filter accepts (products ls rs))
      ∙ ap stream_of (sym (filter-append accepts (map (combine l) rs) (products ls rs)))

-- A nested-loop join of two inputs that conform to their schemas, on a condition of type BOOL over both
-- schemas, yields the combined rows that pass the condition, left by left, and fails on none.
pub nested_loop_join_lem :
    (on : Expr) (left right : Schema) (ls rs : List Row)
    → IsTest (join_schema left right) on
    → FitRows left ls
    → FitRows right rs
    → nested_loop_join
        (record { schema = left; rows = stream_of ls })
        (record { schema = right; rows = stream_of rs })
        on
      ≡ record {
        schema = join_schema left right;
        rows = stream_of (filter (λ row. passes on row (join_schema left right)) (products ls rs));
      }
unfolding nested_loop_join accepts
nested_loop_join_lem on left right ls rs test fl fr =
    rw (materialize_right-stream_of rs, nested_loop_join)
      (ap (λ rows. record { schema = join_schema left right; rows = rows })
        (join_outer-rows on left right test ls rs fl fr))
