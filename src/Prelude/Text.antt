-- ===== src/Prelude/Text.antt =====
-- A Go string is the list of its bytes: equality `==` and `strings.Compare`.
use Prim.Native.Nat.{ℕ, zero, suc, ◌+◌, ◌/◌, ◌%◌, compare, Ordering}
use Prim.Native.Char.{code}
use Prim.Native.String.{String}
use mathlib.Core.Path.{◌≡◌, refl}
use mathlib.Core.Logic.{◌↔◌, ◌≢◌, ◌⊎◌, inl, inr}
use mathlib.Core.Bool.{Bool, true, false}
use mathlib.Core.List.{List, [], ◌∷◌, ◌++◌}
use native.Mathlib.Omega.{arith}

abbrev pub GoString : Type 0
GoString = List ℕ

-- The bytes of an ASCII text.
abbrev pub bytes : String → GoString
bytes String.[] = []
bytes (String.◌∷◌ c s) = code c ∷ bytes s

unfoldable pub str_eq : GoString → GoString → Bool
str_eq [] [] = true
str_eq (a ∷ s) (b ∷ t) = elim (compare a b) [ Ordering.eq ↦ str_eq s t | _ ↦ false ]
str_eq _ _ = false

pub str_eq_iff : (s t : GoString) → (str_eq s t ≡ true) ↔ (s ≡ t)
unfolding str_eq
str_eq_iff [] [] = ground arith
str_eq_iff [] (b ∷ t) = ground arith
str_eq_iff (a ∷ s) [] = ground arith
str_eq_iff (a ∷ s) (b ∷ t) = ground (arith, str_eq_iff s t)

pub str_cases : (s t : GoString) → (s ≡ t) ⊎ (s ≢ t)
str_cases s t = decided (str_eq s t) refl
  where
    decided : (b : Bool) → str_eq s t ≡ b → (s ≡ t) ⊎ (s ≢ t)
    decided true e = inl ((str_eq_iff s t).0 e)
    decided false e = inr λ same. absurd (ground (arith, (str_eq_iff s t).1 same))

-- The order of `strings.Compare`: bytes from the left, a prefix first.
unfoldable pub str_compare : GoString → GoString → Ordering
str_compare [] [] = Ordering.eq
str_compare [] (b ∷ t) = Ordering.lt
str_compare (a ∷ s) [] = Ordering.gt
str_compare (a ∷ s) (b ∷ t) = elim (compare a b) [
  | Ordering.lt ↦ Ordering.lt
  | Ordering.eq ↦ str_compare s t
  | Ordering.gt ↦ Ordering.gt
]

abbrev pub flip : Ordering → Ordering
flip Ordering.lt = Ordering.gt
flip Ordering.eq = Ordering.eq
flip Ordering.gt = Ordering.lt

pub str_compare-flip : (s t : GoString) → str_compare t s ≡ flip (str_compare s t)
unfolding str_compare
str_compare-flip [] [] = refl
str_compare-flip [] (b ∷ t) = refl
str_compare-flip (a ∷ s) [] = refl
str_compare-flip (a ∷ s) (b ∷ t) = ground (arith, str_compare-flip s t)

pub str_compare-eq_iff : (s t : GoString) → (str_compare s t ≡ Ordering.eq) ↔ (s ≡ t)
unfolding str_compare
str_compare-eq_iff [] [] = ground arith
str_compare-eq_iff [] (b ∷ t) = ground arith
str_compare-eq_iff (a ∷ s) [] = ground arith
str_compare-eq_iff (a ∷ s) (b ∷ t) = ground (arith, str_compare-eq_iff s t)

pub str_compare_trans :
    (s t u : GoString)
    → str_compare s t ≡ Ordering.lt
    → str_compare t u ≡ Ordering.lt
    → str_compare s u ≡ Ordering.lt
unfolding str_compare
str_compare_trans [] [] u h k = cc
str_compare_trans [] (b ∷ t) [] h k = cc
str_compare_trans [] (b ∷ t) (c ∷ u) h k = refl
str_compare_trans (a ∷ s) [] u h k = cc
str_compare_trans (a ∷ s) (b ∷ t) [] h k = cc
str_compare_trans (a ∷ s) (b ∷ t) (c ∷ u) h k = ground (arith, str_compare_trans s t u)

-- `%d` of a number that is not negative. Each round of the loop divides by 10, so the number itself
-- is rounds enough.
unfoldable pub decimal_rounds : ℕ → ℕ → GoString
decimal_rounds zero n = []
decimal_rounds (suc rounds) n =
    let front = decimal_rounds rounds (n / 10) in
    elim (compare n 10) [ Ordering.lt ↦ (48 + n) ∷ [] | _ ↦ front ++ ((48 + n % 10) ∷ []) ]

unfoldable pub decimal : ℕ → GoString
unfolding decimal_rounds
decimal n = decimal_rounds (suc n) n
