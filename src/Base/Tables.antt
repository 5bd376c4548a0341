-- ===== src/Base/Tables.antt =====
-- A table as the list of its rows, the newest first: `select ... where`, and a write to the
-- rows that a test picks.
use mathlib.Core.Path.{sym, ◌≡◌, refl}
use mathlib.Core.Bool.{false, Bool, true}
use mathlib.Core.List.{map, List, [], ◌∷◌, ◌++◌}
use mathlib.Core.Logic.{inl, inr}
use native.Mathlib.Omega.{arith}
use self_managed_agents.Base.Tests.{Bool-cases, Eq, ◌==◌, if◌then◌else◌}
use self_managed_agents.Base.Lists.{contains, All}

module _ {ℓ} {A : Type ℓ} where
  abbrev pub where_ : (A → Bool) → List A → List A
  where_ p [] = []
  where_ p (x ∷ xs) = let rest = where_ p xs in if p x then x ∷ rest else rest

  abbrev pub update : (A → Bool) → (A → A) → List A → List A
  update p f [] = []
  update p f (x ∷ xs) = (if p x then f x else x) ∷ update p f xs

  pub where-append :
      (p : A → Bool) (xs ys : List A) → where_ p (xs ++ ys) ≡ where_ p xs ++ where_ p ys
  where-append p [] ys = refl
  where-append p (x ∷ xs) ys = ground (arith, where-append p xs ys)

  pub All-where : (p : A → Bool) (xs : List A) → All (λ x. p x ≡ true) (where_ p xs)
  All-where p [] = tt
  All-where p (x ∷ xs) = ground (arith, All-where p xs)

  -- A write that does not touch what `p` tests leaves the rows that `p` picks, each written or not.
  pub where-update :
      (p q : A → Bool) (f : A → A) (xs : List A)
      → ((x : A) → p (f x) ≡ p x)
      → where_ p (update q f xs) ≡ update q f (where_ p xs)
  where-update p q f [] h = refl
  where-update p q f (x ∷ xs) h = ground (arith, where-update p q f xs h, h x)

module _ {ℓ κ} {A : Type ℓ} {B : Type κ} where
  -- A column that a write does not change.
  pub map-update :
      (g : A → B) (p : A → Bool) (f : A → A) (xs : List A)
      → ((x : A) → g (f x) ≡ g x)
      → map g (update p f xs) ≡ map g xs
  map-update g p f [] h = refl
  map-update g p f (x ∷ xs) h = ground (arith, map-update g p f xs h, h x)

module _ {ℓ κ} {A : Type ℓ} {B : Type κ} ⦃e : Eq B⦄ where
  -- No row is picked exactly when the value is not in the column.
  pub contains-where_nil :
      (g : A → B) (b : B) (xs : List A)
      → where_ (λ x. g x == b) xs ≡ []
      → contains b (map g xs) ≡ false
  contains-where_nil g b [] h = refl
  contains-where_nil g b (x ∷ xs) h = ground (arith, contains-where_nil g b xs)

  pub where-nil_of_contains :
      (g : A → B) (b : B) (xs : List A)
      → contains b (map g xs) ≡ false
      → where_ (λ x. g x == b) xs ≡ []
  where-nil_of_contains g b [] h = refl
  where-nil_of_contains g b (x ∷ xs) h = ground (arith, where-nil_of_contains g b xs)

-- The values of a column with a unique index.
abbrev pub Distinct {ℓ} : {A : Type ℓ} ⦃e : Eq A⦄ → List A → Type 0
Distinct [] = Unit
Distinct (x ∷ xs) = (contains x xs ≡ false) × Distinct xs

module _ {ℓ κ} {A : Type ℓ} {B : Type κ} ⦃e : Eq B⦄ where
  -- Under a unique index a value that is there is found in exactly one row.
  pub where-singleton :
      (g : A → B) (b : B) (xs : List A)
      → Distinct (map g xs)
      → contains b (map g xs) ≡ true
      → (x : A) × (where_ (λ y. g y == b) xs ≡ x ∷ [])
  where-singleton g b [] d h = cc
  where-singleton g b (x ∷ xs) (new, d) h = elim (Bool-cases (g x == b)) [
    | inl same ↦
        let k : b ≡ g x = sym ((e.beq_iff (g x) b).0 same) in
        (x, rw (same, where-nil_of_contains g b xs (rw k new)))
    | inr other ↦ let (y, found) = where-singleton g b xs d (rw other at h) in (y, rw other found)
  ]

-- What a write makes of a property of all rows.
module _ {ℓ κ} {A : Type ℓ} (P Q : A → Type κ) (q : A → Bool) (f : A → A) where
  pub All-update :
      ((x : A) → P x → q x ≡ true → Q (f x))
      → ((x : A) → P x → q x ≡ false → Q x)
      → (xs : List A) → All P xs
      → All Q (update q f xs)
  All-update written left [] h = tt
  All-update written left (x ∷ xs) (p, h) = elim (Bool-cases (q x)) [
    | inl e ↦ rw e (written x p e, All-update written left xs h)
    | inr e ↦ rw e (left x p e, All-update written left xs h)
  ]

module _ {ℓ κ} {A : Type ℓ} (P Q : A → Type κ) where
  pub All-imp : ((x : A) → P x → Q x) → (xs : List A) → All P xs → All Q xs
  All-imp f [] h = tt
  All-imp f (x ∷ xs) (p, h) = (f x p, All-imp f xs h)

module _ {ℓ} {A : Type ℓ} where
  -- A write of what is already there.
  pub update-eq_self :
      (q : A → Bool) (f : A → A) (xs : List A)
      → All (λ x. q x ≡ true → f x ≡ x) xs
      → update q f xs ≡ xs
  update-eq_self q f [] h = refl
  update-eq_self q f (x ∷ xs) (p, h) = elim (Bool-cases (q x)) [
    | inl e ↦ rw (e, p e, update-eq_self q f xs h)
    | inr e ↦ rw (e, update-eq_self q f xs h)
  ]

module _ {ℓ κ} {A : Type ℓ} (P : A → Type κ) where
  -- What holds of all rows holds of those that a test picks.
  pub All-where_kept : (p : A → Bool) (xs : List A) → All P xs → All P (where_ p xs)
  All-where_kept p [] h = tt
  All-where_kept p (x ∷ xs) (here, h) = elim (Bool-cases (p x)) [
    | inl e ↦ rw e (here, All-where_kept p xs h)
    | inr e ↦ rw e (All-where_kept p xs h)
  ]
