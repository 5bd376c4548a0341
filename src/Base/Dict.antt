-- ===== src/Base/Dict.antt =====
-- Python's `dict`, as the list of its items in the order of insertion.
use self_managed_agents.Base.Tests.{Eq, ◌==◌, if◌then◌else◌, Bool-cases, option_eq}
use mathlib.Core.Path.{◌≡◌, refl, sym}
use mathlib.Core.Logic.{inl, inr}
use mathlib.Core.Bool.{true}
use mathlib.Core.Option.{Option, none, some}
use mathlib.Core.List.{List, [], ◌∷◌}
use native.Mathlib.Omega.{arith}

module _ {ℓ} {K : Type ℓ} ⦃e : Eq K⦄ where
  same_key : (k j i : K) → (k == j) ≡ true → (i == k) ≡ (i == j)
  same_key k j i h = rw ((e.beq_iff k j).0 h)

module _ {ℓ} {K : Type ℓ} {V : Type ℓ} ⦃e : Eq K⦄ where
  -- `d.get(k)`
  unfoldable pub lookup : K → List (K × V) → Option V
  lookup k [] = none
  lookup k ((j, v) ∷ d) = if j == k then some v else lookup k d

  -- `d[k] = v`
  unfoldable pub insert : K → V → List (K × V) → List (K × V)
  insert k v [] = (k, v) ∷ []
  insert k v ((j, w) ∷ d) = if j == k then (j, v) ∷ d else (j, w) ∷ insert k v d

  -- `d.pop(k, None)`
  unfoldable pub remove : K → List (K × V) → List (K × V)
  remove k [] = []
  remove k ((j, w) ∷ d) = let rest = remove k d in if j == k then rest else (j, w) ∷ rest

  pub lookup-insert :
      (k j : K) (v : V) (d : List (K × V))
      → lookup j (insert k v d) ≡ (if k == j then some v else lookup j d)
  unfolding lookup insert
  lookup-insert k j v [] = refl
  lookup-insert k j v ((i, w) ∷ d) = elim (Bool-cases (i == k)) [
    | inl h ↦ let s : i ≡ k = (e.beq_iff i k).0 h in ground (arith, s)
    | inr h ↦ elim (Bool-cases (k == j)) [
      | inl g ↦
          let s : k ≡ j = (e.beq_iff k j).0 g in
          ground (arith, same_key k j i g, lookup-insert k j v d)
      | inr g ↦ ground (arith, lookup-insert k j v d)
    ]
  ]

  pub lookup-remove :
      (k j : K) (d : List (K × V)) → lookup j (remove k d) ≡ (if k == j then none else lookup j d)
  unfolding lookup remove
  lookup-remove k j [] = ground arith
  lookup-remove k j ((i, w) ∷ d) = elim (Bool-cases (i == k)) [
    | inl h ↦ let s : i ≡ k = (e.beq_iff i k).0 h in ground (arith, s, lookup-remove k j d)
    | inr h ↦ elim (Bool-cases (k == j)) [
      | inl g ↦ ground (arith, same_key k j i g, lookup-remove k j d)
      | inr g ↦ ground (arith, lookup-remove k j d)
    ]
  ]

  pub lookup-insert_self : (k : K) (v : V) (d : List (K × V)) → lookup k (insert k v d) ≡ some v
  lookup-insert_self k v d = rw lookup-insert (rw ((e.beq_iff k k).1 refl))

  -- A property of every value that can be looked up.
  abbrev pub Everywhere : (V → Type 0) → List (K × V) → Type ℓ
  Everywhere P d = (k : K) (v : V) → lookup k d ≡ some v → P v

  pub Everywhere-insert :
      (P : V → Type 0) (k : K) (v : V) (d : List (K × V))
      → P v
      → Everywhere P d
      → Everywhere P (insert k v d)
  Everywhere-insert P k v d p h j w found = elim (Bool-cases (k == j)) [
    | inl g ↦ let s : v ≡ w = ground (arith, lookup-insert k j v d) in rw (sym s) p
    | inr g ↦ h j w (ground (arith, lookup-insert k j v d))
  ]

  pub Everywhere-remove :
      (P : V → Type 0) (k : K) (d : List (K × V)) → Everywhere P d → Everywhere P (remove k d)
  Everywhere-remove P k d h j w found = elim (Bool-cases (k == j)) [
    | inl g ↦ absurd (ground (arith, lookup-remove k j d))
    | inr g ↦ h j w (ground (arith, lookup-remove k j d))
  ]

-- A property of all values, shadowed or not.
module _ {ℓ} {K : Type ℓ} {V : Type ℓ} ⦃e : Eq K⦄ (P : V → Type 0) where
  abbrev pub AllValues : List (K × V) → Type 0
  AllValues [] = Unit
  AllValues ((k, v) ∷ d) = P v × AllValues d

  pub AllValues-insert :
      (k : K) (v : V) (d : List (K × V)) → P v → AllValues d → AllValues (insert k v d)
  unfolding insert
  AllValues-insert k v [] p h = (p, tt)
  AllValues-insert k v ((j, w) ∷ d) p (q, h) = elim (Bool-cases (j == k)) [
    | inl g ↦ rw g (p, h)
    | inr g ↦ rw g (q, AllValues-insert k v d p h)
  ]

  pub AllValues-lookup :
      (k : K) (d : List (K × V)) {v : V} → AllValues d → lookup k d ≡ some v → P v
  unfolding lookup
  AllValues-lookup k [] h found = cc
  AllValues-lookup k ((j, w) ∷ d) {v} (q, h) found = elim (Bool-cases (j == k)) [
    | inl g ↦ let s : w ≡ v = ground (arith, found) in rw (sym s) q
    | inr g ↦ AllValues-lookup k d h (rw g at found)
  ]
