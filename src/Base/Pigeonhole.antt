-- ===== src/Base/Pigeonhole.antt =====
-- A list holds no more values than it is long.
use self_managed_agents.Base.Tests.{Eq, ◌==◌, if◌then◌else◌, Bool-cases}
use self_managed_agents.Base.Lists.{length, contains}
use Prim.Native.Nat.{ℕ, zero, suc, ◌+◌, ◌≤◌, ◌<◌}
use mathlib.Core.Path.{◌≡◌, refl, subst, ap}
use mathlib.Core.Logic.{inl, inr}
use mathlib.Core.Bool.{true, false}
use mathlib.Core.List.{List, [], ◌∷◌}
use native.Mathlib.Omega.{arith}

module _ {ℓ} {A : Type ℓ} ⦃e : Eq A⦄ where
  -- the list without the first occurrence of a value
  abbrev without_first : A → List A → List A
  without_first a [] = []
  without_first a (x ∷ xs) = let rest = without_first a xs in if x == a then xs else x ∷ rest

  length-without_first :
      (a : A) (xs : List A) → contains a xs ≡ true → suc (length (without_first a xs)) ≡ length xs
  length-without_first a [] h = absurd cc
  length-without_first a (x ∷ xs) h = elim (Bool-cases (x == a)) [
    | inl g ↦ rw g refl
    | inr g ↦ rw g (ap suc (length-without_first a xs (rw g at h)))
  ]

  contains-without_first :
      (a b : A) (xs : List A)
      → (a == b) ≡ false
      → contains b xs ≡ true
      → contains b (without_first a xs) ≡ true
  contains-without_first a b [] n h = absurd cc
  contains-without_first a b (x ∷ xs) n h = elim (Bool-cases (x == a)) [
    | inl g ↦ let same : x ≡ a = (e.beq_iff x a).0 g in rw g (rw (same, n) at h)
    | inr g ↦ rw g (ground (arith, contains-without_first a b xs n))
  ]

  differs :
      (value : ℕ → A)
      → ((i j : ℕ) → value i ≡ value j → i ≡ j)
      → (i j : ℕ) → i < j
      → (value i == value j) ≡ false
  differs value inj i j l = elim (Bool-cases (value i == value j)) [
    | inl g ↦
        let same : i ≡ j = inj i j ((e.beq_iff (value i) (value j)).0 g) in
        absurd (omega (arith, same, l))
    | inr g ↦ g
  ]

  -- If the first n values of a sequence without repetition are all in the list, it is as long.
  pub pigeonhole :
      (n k : ℕ) (value : ℕ → A) (xs : List A)
      → ((i j : ℕ) → value i ≡ value j → i ≡ j)
      → ((i : ℕ) → i < n → contains (value (k + i)) xs ≡ true)
      → n ≤ length xs
  pigeonhole zero k value xs inj all = omega arith
  pigeonhole (suc n) k value xs inj all =
      let here : contains (value k) xs ≡ true =
        subst (λ i. contains (value i) xs ≡ true) (omega arith) (all 0 (omega arith)) in
      let rest = pigeonhole n (suc k) value (without_first (value k) xs) inj (λ i l.
        contains-without_first (value k) (value (suc k + i)) xs
          (differs value inj k (suc k + i) (omega arith))
          (subst (λ j. contains (value j) xs ≡ true) (omega arith)
            (all (suc i) (omega (arith, l))))) in
      omega (arith, rest, length-without_first (value k) xs here)
