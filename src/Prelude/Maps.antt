-- ===== src/Prelude/Maps.antt =====
-- A Go map as a list of its entries in the order of the keys: the program sorts what it ranges over,
-- or does not depend on the order.
use aura_sql.Prelude.{
  ℕ, GoString, compare, str_compare, str_compare-flip, str_compare-eq_iff, str_compare_trans, sym,
  subst, Ordering, ◌≡◌, ◌≢◌, refl, ◌↔◌, List, [], ◌∷◌, Option, none, some, arith,
}

abbrev pub Map : Type 0 → Type 0 → Type 0
Map K V = List (K × V)

module _ {K V : Type 0} (order : K → K → Ordering) where
  unfoldable pub lookup : K → Map K V → Option V
  lookup k [] = none
  lookup k ((key, v) ∷ m) = elim (order k key) [ Ordering.eq ↦ some v | _ ↦ lookup k m ]

  -- `m[k] = v`
  unfoldable pub put : K → V → Map K V → Map K V
  put k v [] = (k, v) ∷ []
  put k v ((key, w) ∷ m) = elim (order k key) [
    | Ordering.lt ↦ (k, v) ∷ (key, w) ∷ m
    | Ordering.eq ↦ (k, v) ∷ m
    | Ordering.gt ↦ (key, w) ∷ put k v m
  ]

  -- `delete(m, k)`
  unfoldable pub remove : K → Map K V → Map K V
  remove k [] = []
  remove k ((key, w) ∷ m) = elim (order k key) [
    | Ordering.eq ↦ remove k m
    | _ ↦ (key, w) ∷ remove k m
  ]

  module _ (order-eq_iff : (a b : K) → (order a b ≡ Ordering.eq) ↔ (a ≡ b)) where
    pub lookup-put_self : (k : K) (v : V) (m : Map K V) → lookup k (put k v m) ≡ some v
    unfolding lookup put
    lookup-put_self k v [] = rw ((order-eq_iff k k).1 refl) refl
    lookup-put_self k v ((key, w) ∷ m) =
        ground (arith, lookup-put_self k v m, (order-eq_iff k k).1 refl)

    pub lookup-put_ne : (j k : K) (v : V) (m : Map K V) → j ≢ k → lookup j (put k v m) ≡ lookup j m
    unfolding lookup put
    lookup-put_ne j k v [] ne = ground (arith, order-eq_iff j k)
    lookup-put_ne j k v ((key, w) ∷ m) ne =
        ground (
          arith,
          lookup-put_ne j k v m ne,
          order-eq_iff j k,
          order-eq_iff k key,
          order-eq_iff j key,
        )

    pub lookup-remove_self : (k : K) (m : Map K V) → lookup k (remove k m) ≡ none
    unfolding lookup remove
    lookup-remove_self k [] = refl
    lookup-remove_self k ((key, w) ∷ m) = ground (arith, lookup-remove_self k m)

    pub lookup-remove_ne : (j k : K) (m : Map K V) → j ≢ k → lookup j (remove k m) ≡ lookup j m
    unfolding lookup remove
    lookup-remove_ne j k [] ne = refl
    lookup-remove_ne j k ((key, w) ∷ m) ne =
        ground (arith, lookup-remove_ne j k m ne, order-eq_iff k key, order-eq_iff j key)

-- Every key of the map comes after `k`.
abbrev pub Below : {K V : Type 0} → (K → K → Ordering) → K → Map K V → Type 0
Below order k [] = Unit
Below order k ((key, v) ∷ m) = (order k key ≡ Ordering.lt) × Below order k m

abbrev pub Sorted : {K V : Type 0} → (K → K → Ordering) → Map K V → Type 0
Sorted order [] = Unit
Sorted order ((key, v) ∷ m) = Below order key m × Sorted order m

module _ {K V : Type 0} (order : K → K → Ordering) where
  pub lookup-Below : (k : K) (m : Map K V) → Below order k m → lookup order k m ≡ none
  unfolding lookup
  lookup-Below k [] h = refl
  lookup-Below k ((key, v) ∷ m) h = ground (arith, lookup-Below k m)

  remove-Below : (j k : K) (m : Map K V) → Below order j m → Below order j (remove order k m)
  unfolding remove
  remove-Below j k [] h = tt
  remove-Below j k ((key, v) ∷ m) h = ground (arith, remove-Below j k m)

  pub remove-Sorted : (k : K) (m : Map K V) → Sorted order m → Sorted order (remove order k m)
  unfolding remove
  remove-Sorted k [] h = tt
  remove-Sorted k ((key, v) ∷ m) h = ground (arith, remove-Sorted k m, remove-Below key k m)

  put-Below :
      (j k : K) (v : V) (m : Map K V)
      → order j k ≡ Ordering.lt
      → Below order j m
      → Below order j (put order k v m)
  unfolding put
  put-Below j k v [] lt h = (lt, tt)
  put-Below j k v ((key, w) ∷ m) lt h = ground (arith, put-Below j k v m lt)

  module _ (flipped : (a b : K) → order a b ≡ Ordering.gt → order b a ≡ Ordering.lt)
      (order-eq : (a b : K) → order a b ≡ Ordering.eq → a ≡ b)
      (order_trans : (a b c : K)
        → order a b ≡ Ordering.lt
        → order b c ≡ Ordering.lt
        → order a c ≡ Ordering.lt) where
    Below-trans :
        (j k : K) (m : Map K V) → order j k ≡ Ordering.lt → Below order k m → Below order j m
    Below-trans j k [] lt h = tt
    Below-trans j k ((key, w) ∷ m) lt h = (order_trans j k key lt h.0, Below-trans j k m lt h.1)

    pub put-Sorted : (k : K) (v : V) (m : Map K V) → Sorted order m → Sorted order (put order k v m)
    unfolding put
    put-Sorted k v [] h = (tt, tt)
    put-Sorted k v ((key, w) ∷ m) h = ordered (put-Sorted k v m h.1) (order k key) refl
      where
        ordered :
            Sorted order (put order k v m)
            → (o : Ordering) → order k key ≡ o
            → Sorted order (put order k v ((key, w) ∷ m))
        ordered rest Ordering.lt e = rw (e, Sorted) ((e, Below-trans k key m e h.0), h)
        ordered rest Ordering.eq e =
            rw (e, Sorted) (subst (λ a. Below order a m) (sym (order-eq k key e)) h.0, h.1)
        ordered rest Ordering.gt e =
            rw (e, Sorted) (put-Below key k v m (flipped k key e) h.0, rest)

-- The two kinds of keys.
pub compare-eq_iff : (a b : ℕ) → (compare a b ≡ Ordering.eq) ↔ (a ≡ b)
compare-eq_iff a b = ground arith

pub put-Sorted_ℕ :
    {V : Type 0} (k : ℕ) (v : V) (m : Map ℕ V)
    → Sorted compare m
    → Sorted compare (put compare k v m)
put-Sorted_ℕ =
    put-Sorted compare (λ a b h. ground arith) (λ a b h. ground arith) (λ a b c h k. ground arith)

pub put-Sorted_str :
    {V : Type 0} (k : GoString) (v : V) (m : Map GoString V)
    → Sorted str_compare m
    → Sorted str_compare (put str_compare k v m)
put-Sorted_str =
    put-Sorted str_compare (λ a b h. ground (arith, str_compare-flip a b))
      (λ a b. (str_compare-eq_iff a b).0) str_compare_trans
