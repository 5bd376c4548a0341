-- ===== src/Windows/Pruned.antt =====
-- A table in memory with the keys of stale items taken out: app/api/wa_helpers.py and
-- app/core/engine/wa_outbound_guard.py collect the keys first and pop them one by one.
use self_managed_agents.Base.{
  string_eq, ◌≡◌, refl, sym, String, Bool, true, false, none, some, List, [], ◌∷◌, ◌==◌,
  if◌then◌else◌, contains, map, Distinct, arith, eq_iff, Bool-cases, inl, inr,
}
use self_managed_agents.Base.Dict.{lookup, insert, remove, lookup-remove}
use self_managed_agents.Windows.{keys_where, pop_all}

other_way : (i k : String) → (i == k) ≡ false → (k == i) ≡ false
other_way i k h = elim (Bool-cases (k == i)) [
  | inl e ↦
      let same : k ≡ i = (eq_iff k i).0 e in let again = (eq_iff i k).1 (sym same) in absurd cc
  | inr e ↦ e
]

module _ {V : Type 0} where
  abbrev pub keys : List (String × V) → List String
  keys d = map (λ i. i.0) d

  -- a dict has each key once
  abbrev pub IsDict : List (String × V) → Type 0
  IsDict d = Distinct (keys d)

  keys-insert :
      (k j : String) (v : V) (d : List (String × V))
      → contains j (keys d) ≡ false
      → (k == j) ≡ false
      → contains j (keys (insert k v d)) ≡ false
  unfolding insert
  keys-insert k j v [] h n = ground arith
  keys-insert k j v ((i, w) ∷ d) h n = ground (arith, keys-insert k j v d)

  pub insert-IsDict :
      (k : String) (v : V) (d : List (String × V)) → IsDict d → IsDict (insert k v d)
  unfolding insert
  insert-IsDict k v [] h = (refl, tt)
  insert-IsDict k v ((i, w) ∷ d) (new, h) = elim (Bool-cases (i == k)) [
    | inl e ↦ rw e (new, h)
    | inr e ↦ rw e (keys-insert k i v d new (other_way i k e), insert-IsDict k v d h)
  ]

  keys-remove :
      (k j : String) (d : List (String × V))
      → contains j (keys d) ≡ false
      → contains j (keys (remove k d)) ≡ false
  unfolding remove
  keys-remove k j [] h = refl
  keys-remove k j ((i, w) ∷ d) h = ground (arith, keys-remove k j d)

  pub remove-IsDict : (k : String) (d : List (String × V)) → IsDict d → IsDict (remove k d)
  unfolding remove
  remove-IsDict k [] h = tt
  remove-IsDict k ((i, w) ∷ d) (new, h) = elim (Bool-cases (i == k)) [
    | inl e ↦ rw e (remove-IsDict k d h)
    | inr e ↦ rw e (keys-remove k i d new, remove-IsDict k d h)
  ]

  pub pop_all-IsDict : (ks : List String) (d : List (String × V)) → IsDict d → IsDict (pop_all ks d)
  pop_all-IsDict [] d h = h
  pop_all-IsDict (k ∷ ks) d h = pop_all-IsDict ks (remove k d) (remove-IsDict k d h)

  pub lookup-pop_all :
      (j : String) (ks : List String) (d : List (String × V))
      → lookup j (pop_all ks d) ≡ (if contains j ks then none else lookup j d)
  lookup-pop_all j [] d = refl
  lookup-pop_all j (k ∷ ks) d =
      ground (arith, lookup-pop_all j ks (remove k d), lookup-remove k j d)

  keys_where-new :
      (p : V → Bool) (k : String) (d : List (String × V))
      → contains k (keys d) ≡ false
      → contains k (keys_where p d) ≡ false
  keys_where-new p k [] h = refl
  keys_where-new p k ((i, w) ∷ d) h = ground (arith, keys_where-new p k d)

  -- A key that is taken out had an item that passes the test.
  pub lookup-keys_where :
      (p : V → Bool) (k : String) (d : List (String × V))
      → IsDict d
      → contains k (keys_where p d) ≡ true
      → (v : V) × (lookup k d ≡ some v) × (p v ≡ true)
  unfolding lookup
  lookup-keys_where p k [] h found = absurd cc
  lookup-keys_where p k ((i, w) ∷ d) (new, h) found = elim (Bool-cases (i == k)) [
    | inl e ↦
        let same : i ≡ k = (eq_iff i k).0 e in
        let gone = keys_where-new p k d (rw same at new) in (w, rw e refl, ground arith)
    | inr e ↦ let (v, l, t) = lookup-keys_where p k d h (ground arith) in (v, rw e l, t)
  ]
