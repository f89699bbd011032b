-- ===== src/Executor/Pushdown.antt =====
-- An index scan with the remaining terms yields what the table scan with the whole WHERE clause does.
use aura_sql.Prelude.{
  ◌≡◌, refl, ap, subst, ◌∙◌, Bool, ◌&&◌, List, [], ◌∷◌, ◌++◌, Option, some, arith, inl, inr,
  Bool-cases, Option-cases, GoString,
}
use aura_sql.Core.{Schema, Row, Expr}
use aura_sql.Core.Engine.{StorageEngine}
use aura_sql.Executor.AccessPath.{
  IndexedEquality, equality_column_literal, combine_and_terms, find_indexed,
}
use aura_sql.Executor.Terms.{passes, IsTest, AllTests, AllTests-append, all_pass, all_pass-append}

module _ {S : Type 0} (eng : StorageEngine S) (s : S) (schema : Schema) where
  -- What `findIndexedEquality` has taken out of the terms.
  pub record Found (equality : IndexedEquality) (remaining : Option Expr) (terms : List Expr)
      (table : GoString) : Type 0 where
    pub term : Expr
    pub others : List Expr
    pub is_equality : equality_column_literal term table ≡ some equality
    pub is_remaining : remaining ≡ combine_and_terms others
    pub is_test : IsTest schema term
    pub other_tests : AllTests schema others
    pub same :
        (row : Row)
        → all_pass terms row schema ≡ (passes term row schema && all_pass others row schema)

  some_injective : {A : Type 0} {a b : A} → some a ≡ some b → a ≡ b
  some_injective h = cc

  append_snoc :
      (xs : List Expr) (x : Expr) (ys : List Expr) → (xs ++ (x ∷ [])) ++ ys ≡ xs ++ (x ∷ ys)
  append_snoc [] x ys = refl
  append_snoc (z ∷ xs) x ys = ap (◌∷◌ z) (append_snoc xs x ys)

  -- The term at hand is the one that is taken out.
  taken :
      (table : GoString) (passed : List Expr) (term : Expr) (terms : List Expr)
      (equality : IndexedEquality)
      → AllTests schema passed
      → AllTests schema (term ∷ terms)
      → equality_column_literal term table ≡ some equality
      → Found equality (combine_and_terms (passed ++ terms)) (passed ++ (term ∷ terms)) table
  taken table passed term terms equality hp ht h = record {
    term = term;
    others = passed ++ terms;
    is_equality = h;
    is_remaining = refl;
    is_test = ht.0;
    other_tests = AllTests-append schema passed terms hp ht.1;
    same = λ row.
        rw
          (
            all_pass-append passed (term ∷ terms) row schema,
            all_pass-append passed terms row schema,
          )
          (swap (all_pass passed row schema) (passes term row schema) (all_pass terms row schema));
  }
    where
      swap : (a b c : Bool) → (a && (b && c)) ≡ (b && (a && c))
      swap a b c = ground arith

  pub find_indexed-Found :
      (table : GoString) (passed terms : List Expr) (equality : IndexedEquality)
      (remaining : Option Expr)
      → AllTests schema passed
      → AllTests schema terms
      → find_indexed eng s table passed terms ≡ some (equality, remaining)
      → Found equality remaining (passed ++ terms) table
  unfolding find_indexed
  find_indexed-Found table passed [] equality remaining hp ht h = cc
  find_indexed-Found table passed (term ∷ terms) equality remaining hp ht h =
      let goes_on =
        λ (rest : find_indexed eng s table (passed ++ (term ∷ [])) terms
            ≡ some (equality, remaining)).
          subst (λ ts. Found equality remaining ts table) (append_snoc passed term terms)
            (find_indexed-Found table (passed ++ (term ∷ [])) terms equality remaining
              (AllTests-append schema passed (term ∷ []) hp (ht.0, tt)) ht.1 rest) in
      elim (Option-cases (equality_column_literal term table)) [
        | inl no_equality ↦ goes_on (rw (no_equality, find_indexed) at h)
        | inr (eq, is_eq) ↦
            let h' = rw (is_eq, find_indexed) at h in
            elim (Bool-cases (eng.has_index s table eq.column)) [
              | inl indexed ↦
                  let pair = some_injective (rw indexed at h') in
                  subst (λ r. Found equality r (passed ++ (term ∷ terms)) table)
                    (ap (λ q. q.1) pair)
                    (taken table passed term terms equality hp ht (is_eq ∙ ap (λ q. some q.0) pair))
              | inr not_indexed ↦ goes_on (rw not_indexed at h')
            ]
      ]
