-- ===== src/Base/Outcome.antt =====
-- What a request or a service call comes to: a value, or one of the exceptions that the code raises.
-- A raised exception rolls the database session back (database.py, `get_db`), so an error carries
-- no new database.
use mathlib.Core.Path.{◌≡◌, refl, ap, subst}
use mathlib.Core.Bool.{Bool, true, false}
use mathlib.Core.List.{List, [], ◌∷◌}
use mathlib.Core.Option.{Option, none, some}
use Prim.Native.Nat.{ℕ}

pub data Error : Type 0 where
  -- HTTPException with its status code
  http : ℕ → Error
  -- raised by `scalar_one_or_none` and `scalar_one` on several rows, and by the latter on none
  multiple_results no_result : Error
  -- ValueError, TypeError, RuntimeError and QuotaExceeded
  value_error type_error runtime_error quota_exceeded : Error

pub data Outcome {ℓ} (A : Type ℓ) : Type ℓ where
  ok : A → Outcome A
  err : Error → Outcome A

-- what is done with the value of a step
infixl 5 ◌>>=◌ ◌>>◌
abbrev pub ◌>>=◌ {ℓ κ} : {A : Type ℓ} {B : Type κ} → Outcome A → (A → Outcome B) → Outcome B
ok value >>= next = next value
err e >>= next = err e

module _ {ℓ} {A : Type ℓ} where
  -- `result.scalar_one_or_none()`
  abbrev pub scalar_one_or_none : List A → Outcome (Option A)
  scalar_one_or_none [] = ok none
  scalar_one_or_none (x ∷ []) = ok (some x)
  scalar_one_or_none (x ∷ y ∷ rest) = err multiple_results

  -- `result.scalar_one()`
  abbrev pub scalar_one : List A → Outcome A
  scalar_one [] = err no_result
  scalar_one (x ∷ []) = ok x
  scalar_one (x ∷ y ∷ rest) = err multiple_results

  -- `result.scalars().first()`
  abbrev pub first : List A → Option A
  first [] = none
  first (x ∷ rest) = some x

  -- a missing row becomes an HTTP error
  abbrev pub or_raise : Option A → Error → Outcome A
  or_raise none e = err e
  or_raise (some a) e = ok a

-- a step without a value
abbrev pub ◌>>◌ {ℓ} : {B : Type ℓ} → Outcome (Unit {0}) → Outcome B → Outcome B
first_ >> rest = first_ >>= λ _. rest

-- `if not test: raise e`
abbrev pub require : Bool → Error → Outcome (Unit {0})
require test e = elim test [ true ↦ ok tt | false ↦ err e ]

-- A row that was read is the only one.
pub scalar_one_or_none-some {ℓ} :
    {A : Type ℓ} (xs : List A) (x : A) → scalar_one_or_none xs ≡ ok (some x) → xs ≡ x ∷ []
scalar_one_or_none-some [] x h = absurd cc
scalar_one_or_none-some (y ∷ []) x h = let same : y ≡ x = cc in ap (λ z. z ∷ []) same
scalar_one_or_none-some (y ∷ z ∷ rest) x h = absurd cc

module _ {ℓ κ} {A : Type ℓ} {B : Type κ} where
  -- the value that a step had where the whole went well
  pub >>=-eq-ok :
      (step : Outcome A) (next : A → Outcome B) {result : B}
      → (step >>= next) ≡ ok result
      → (value : A) × (step ≡ ok value) × (next value ≡ ok result)
  >>=-eq-ok (ok value) next went = (value, refl, went)
  >>=-eq-ok (err why) next went = cc

-- what holds of the value, where there is one
abbrev pub Holds {ℓ κ} : {A : Type ℓ} → (A → Type κ) → Outcome A → Type κ
Holds P (ok value) = P value
Holds P (err e) = Unit

module _ {ℓ κ μ} {A : Type ℓ} {B : Type κ} (P : B → Type μ) where
  pub >>=-Holds :
      (step : Outcome A) (next : A → Outcome B)
      → ((value : A) → step ≡ ok value → Holds P (next value))
      → Holds P (step >>= next)
  >>=-Holds (ok value) next h = h value refl
  >>=-Holds (err e) next h = tt

pub Holds-ok {ℓ κ} :
    {A : Type ℓ} (P : A → Type κ) (o : Outcome A) (value : A) → Holds P o → o ≡ ok value → P value
Holds-ok P o value h e = subst (Holds P) e h

-- A test that was required was passed.
pub require-eq_ok : (test : Bool) (e : Error) → require test e ≡ ok tt → test ≡ true
require-eq_ok true e h = refl
require-eq_ok false e h = absurd cc

pub or_raise-eq_ok {ℓ} :
    {A : Type ℓ} (o : Option A) (e : Error) (a : A) → or_raise o e ≡ ok a → o ≡ some a
or_raise-eq_ok none e a h = absurd cc
or_raise-eq_ok (some b) e a h = cc
