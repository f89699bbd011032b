-- ===== src/Errors.antt =====
-- Go's `(value, error)` pairs. `panic` is a run-time panic, which ends the call as an error does;
-- no code of the program recovers from one.
-- `wrap p e` is `fmt.Errorf(p, …, e)` with a `%w`, which a panic does not reach.
use aura_sql.Prelude.{String, ◌≡◌, refl, Bool, true, false}

pub data Error : Type 0 where
  err_write_conflict : Error
  err_serialization_conflict : Error
  errorf : String → Error
  wrap : String → Error → Error
  panic : Error

abbrev pub wrapped : String → Error → Error
wrapped p panic = panic
wrapped p e = wrap p e

pub data Result {ℓ} (A : Type ℓ) : Type ℓ where
  err : Error → Result A
  ok : A → Result A

-- The code goes on after `if err != nil { return …, err }`.
module _ {ℓ κ} {A : Type ℓ} {B : Type κ} where
  infixl 5 ◌>>=◌
  abbrev pub ◌>>=◌ : Result A → (A → Result B) → Result B
  err e >>= go_on = err e
  ok value >>= go_on = go_on value

  pub >>=-eq-ok :
      (m : Result A) (go_on : A → Result B) {out : B}
      → (m >>= go_on) ≡ ok out
      → (value : A) × (m ≡ ok value) × (go_on value ≡ ok out)
  >>=-eq-ok (err e) go_on eq = cc
  >>=-eq-ok (ok value) go_on eq = (value, refl, eq)

module _ {ℓ} {B : Type ℓ} where
  infixl 5 ◌>>◌
  abbrev pub ◌>>◌ : Result (Unit {0}) → Result B → Result B
  err e >> k = err e
  ok done >> k = k

  -- `if err != nil { return …, fmt.Errorf(p, err) }`
  abbrev pub wrapping : String → Result B → Result B
  wrapping p (err e) = err (wrapped p e)
  wrapping p (ok value) = ok value

abbrev pub is_ok {ℓ} : {A : Type ℓ} → Result A → Bool
is_ok (ok a) = true
is_ok (err e) = false

-- The call succeeds, and its result satisfies `P`.
abbrev pub Returns {ℓ} : {A : Type ℓ} → (A → Type 0) → Result A → Type 0
Returns P (ok a) = P a
Returns P (err e) = ⊥

-- If the call succeeds, its result satisfies `P`.
abbrev pub OnOk {ℓ} : {A : Type ℓ} → (A → Type 0) → Result A → Type 0
OnOk P (ok a) = P a
OnOk P (err e) = Unit
