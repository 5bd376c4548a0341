-- ===== src/Base/Order.antt =====
-- `order_by` of a query: what it promises, and an order that keeps equal rows as they stand; rows that
-- stand in a table, and the row of an id.
use self_managed_agents.Base.{
  ℕ, ◌≡◌, refl, sym, ◌∙◌, Bool, true, false, List, [], ◌∷◌, zero, suc, take, drop, any,
  if◌then◌else◌, arith, ap, ◌⊎◌, ==_refl, nat_eq, map, where_, contains, Distinct, Bool-cases, inl,
  inr,
}

module _ {ℓ} {A : Type ℓ} where
  -- Rows that are ordered, cut off or left out are rows of the table.
  abbrev pub AddsNone : (List A → List A) → Type ℓ
  AddsNone f = (p : A → Bool) (xs : List A) → any p xs ≡ false → any p (f xs) ≡ false

  abbrev insert_row : (A → A → Bool) → A → List A → List A
  insert_row before row [] = row ∷ []
  insert_row before row (x ∷ xs) =
      let rest = insert_row before row xs in if before x row then x ∷ rest else row ∷ x ∷ xs

  abbrev pub sort_rows : (A → A → Bool) → List A → List A
  sort_rows before [] = []
  sort_rows before (x ∷ xs) = insert_row before x (sort_rows before xs)

  any-insert_row :
      (before : A → A → Bool) (p : A → Bool) (row : A) (xs : List A)
      → any p (insert_row before row xs) ≡ any p (row ∷ xs)
  any-insert_row before p row [] = refl
  any-insert_row before p row (x ∷ xs) = elim (Bool-cases (before x row)) [
    | inl e ↦ rw e (ground (arith, any-insert_row before p row xs))
    | inr e ↦ rw e refl
  ]

  pub sort_rows-AddsNone : (before : A → A → Bool) → AddsNone (sort_rows before)
  sort_rows-AddsNone before p [] h = refl
  sort_rows-AddsNone before p (x ∷ xs) h =
      any-insert_row before p x (sort_rows before xs)
      ∙ ground (arith, sort_rows-AddsNone before p xs)

  pub take-AddsNone : (n : ℕ) → AddsNone (take n)
  take-AddsNone zero p xs h = refl
  take-AddsNone (suc n) p [] h = refl
  take-AddsNone (suc n) p (x ∷ xs) h = ground (arith, take-AddsNone n p xs)

  pub drop-AddsNone : (n : ℕ) → AddsNone (drop n)
  drop-AddsNone zero p xs h = h
  drop-AddsNone (suc n) p [] h = refl
  drop-AddsNone (suc n) p (x ∷ xs) h = ground (arith, drop-AddsNone n p xs)

module _ {A : Type 0} where
  abbrev pub In : A → List A → Type 0
  In x [] = ⊥
  In x (y ∷ ys) = (x ≡ y) ⊎ In x ys

  pub In-any : (p : A → Bool) (x : A) (xs : List A) → In x xs → p x ≡ true → any p xs ≡ true
  In-any p x [] i h = absurd i
  In-any p x (y ∷ ys) (inl e) h = let q = rw e at h in ground arith
  In-any p x (y ∷ ys) (inr i) h = ground (arith, In-any p x ys i h)

  pub any-In : (p : A → Bool) (xs : List A) → any p xs ≡ true → (x : A) × In x xs × (p x ≡ true)
  any-In p [] h = absurd cc
  any-In p (x ∷ xs) h = elim (Bool-cases (p x)) [
    | inl e ↦ (x, inl refl, e)
    | inr e ↦ let (y, i, q) = any-In p xs (rw e at h) in (y, inr i, q)
  ]

  pub In-where : (q : A → Bool) (x : A) (xs : List A) → In x (where_ q xs) → In x xs × (q x ≡ true)
  In-where q x [] i = absurd i
  In-where q x (y ∷ ys) i = elim (Bool-cases (q y)) [
    | inl e ↦ elim (rw e at i) [
      | inl same ↦ (inl same, rw same e)
      | inr later ↦ let (j, h) = In-where q x ys later in (inr j, h)
    ]
    | inr e ↦ let (j, h) = In-where q x ys (rw e at i) in (inr j, h)
  ]

  pub AddsNone-any :
      (f : List A → List A) (p : A → Bool) (xs : List A)
      → AddsNone f
      → any p (f xs) ≡ true
      → any p xs ≡ true
  AddsNone-any f p xs adds h = elim (Bool-cases (any p xs)) [
    | inl e ↦ e
    | inr e ↦ let none_there = adds p xs e in absurd cc
  ]

  contains-key :
      (key : A → ℕ) (z x : A) (xs : List A)
      → In x xs
      → key x ≡ key z
      → contains (key z) (map key xs) ≡ true
  contains-key key z x [] i same = absurd i
  contains-key key z x (y ∷ ys) (inl e) same =
      let k : key y ≡ key z = ap key (sym e) ∙ same in rw (k, ==_refl (key z)) refl
  contains-key key z x (y ∷ ys) (inr i) same = ground (arith, contains-key key z x ys i same)

  -- Where ids are distinct, the rows of one id are one row.
  pub Distinct-In :
      (key : A → ℕ) (x y : A) (xs : List A)
      → Distinct (map key xs)
      → In x xs
      → In y xs
      → key x ≡ key y
      → x ≡ y
  Distinct-In key x y [] d i j same = absurd i
  Distinct-In key x y (z ∷ zs) d (inl e) (inl f) same = e ∙ sym f
  Distinct-In key x y (z ∷ zs) (new, d) (inl e) (inr j) same =
      let clash = contains-key key z y zs j (sym same ∙ ap key e) in absurd cc
  Distinct-In key x y (z ∷ zs) (new, d) (inr i) (inl f) same =
      let clash = contains-key key z x zs i (same ∙ ap key f) in absurd cc
  Distinct-In key x y (z ∷ zs) (new, d) (inr i) (inr j) same = Distinct-In key x y zs d i j same
