-- ===== src/Windows/Dedup.antt =====
-- app/api/wa_helpers.py, `is_duplicate_message`: a message that was seen is known again.
use self_managed_agents.Base.{
  string_eq, ℕ, ◌+◌, ◌-◌, ◌≤◌, ◌≡◌, refl, String, true, false, Option, none, some, List, [], ◌∷◌,
  ◌==◌, ltb, contains, All, length, arith, Bool-cases, Option-cases, inl, inr, eq_iff,
}
use self_managed_agents.Base.Dict.{lookup, lookup-insert, lookup-insert_self}
use self_managed_agents.Windows.{Seen, prune_seen, see, is_duplicate_message, dedup_key, keys_where}
use self_managed_agents.Windows.Pruned.{
  IsDict, insert-IsDict, pop_all-IsDict, lookup-pop_all, lookup-keys_where,
}

abbrev Has : String → ℕ → Seen → Type 0
Has key t c = IsDict c × (lookup key c ≡ some t)

prune_seen-IsDict : (now : ℕ) (c : Seen) → IsDict c → IsDict (prune_seen now c)
unfolding prune_seen
prune_seen-IsDict now c d = elim (Bool-cases (ltb 5000 (length c))) [
  | inl e ↦ rw e (pop_all-IsDict (keys_where (λ v. ltb 300 (now - v)) c) c d)
  | inr e ↦ rw e d
]

-- An item that is not older than 300 seconds is not popped.
prune_seen-Has :
    (key : String) (t now : ℕ) (c : Seen)
    → now ≤ t + 300
    → Has key t c
    → Has key t (prune_seen now c)
unfolding prune_seen
prune_seen-Has key t now c l (d, h) = (
  prune_seen-IsDict now c d,
  elim (Bool-cases (ltb 5000 (length c))) [
    | inl e ↦ rw e (elim (Bool-cases (contains key (keys_where (λ v. ltb 300 (now - v)) c))) [
      | inl g ↦
          let (v, found, old) = lookup-keys_where (λ v. ltb 300 (now - v)) key c d g in
          let same : v ≡ t = cc in absurd (ground arith)
      | inr g ↦ rw (lookup-pop_all key (keys_where (λ v. ltb 300 (now - v)) c) c, g) h
    ])
    | inr e ↦ rw e h
  ],
)

see-Has :
    (key other : String) (t now : ℕ) (c : Seen)
    → now ≤ t + 300
    → Has key t c
    → Has key t (see other now c).1
unfolding see
see-Has key other t now c l h =
    let (d, found) = prune_seen-Has key t now c l h in
    let pruned = prune_seen now c in
    elim (Option-cases (lookup other pruned)) [
      | inl e ↦ elim (Bool-cases (other == key)) [
        | inl g ↦
            let same : other ≡ key = (eq_iff other key).0 g in absurd (let q = rw same at e in cc)
        | inr g ↦
            rw (see, e)
              (insert-IsDict other now pruned d, rw (lookup-insert other key now pruned, g) found)
      ]
      | inr (v, e) ↦ rw (see, e) (d, found)
    ]

-- the deliveries of other messages, or of the same again, one after the other
abbrev pub see_all : List (String × ℕ) → Seen → Seen
see_all [] c = c
see_all ((key, now) ∷ es) c = see_all es (see key now c).1

see_all-Has :
    (key : String) (t : ℕ) (es : List (String × ℕ)) (c : Seen)
    → All (λ e. e.1 ≤ t + 300) es
    → Has key t c
    → Has key t (see_all es c)
see_all-Has key t [] c a h = h
see_all-Has key t ((k, now) ∷ es) c (l, a) h =
    see_all-Has key t es (see k now c).1 a (see-Has key k t now c l h)

see-new :
    (key : String) (t : ℕ) (c : Seen)
    → IsDict c
    → (see key t c).0 ≡ false
    → Has key t (see key t c).1
unfolding see
see-new key t c d h =
    let pruned = prune_seen t c in
    elim (Option-cases (lookup key pruned)) [
      | inl e ↦
          rw (see, e)
            (insert-IsDict key t pruned (prune_seen-IsDict t c d), lookup-insert_self key t pruned)
      | inr (v, e) ↦ absurd (let q = rw (see, e) at h in cc)
    ]

see-known :
    (key : String) (t now : ℕ) (c : Seen) → now ≤ t + 300 → Has key t c → (see key now c).0 ≡ true
unfolding see
see-known key t now c l h = let (_, found) = prune_seen-Has key t now c l h in rw (see, found) refl

-- A message that was new is a duplicate for the next 300 seconds, whatever else is delivered in between.
pub is_duplicate_message-again :
    (show_timestamp : Option ℕ → String) (device_id from_phone : String) (timestamp : Option ℕ)
    (message_id : Option String) (t now : ℕ) (cache : Seen) (es : List (String × ℕ))
    → IsDict cache
    → (is_duplicate_message show_timestamp none device_id from_phone timestamp message_id t cache).0
      ≡ false
    → All (λ e. e.1 ≤ t + 300) es
    → now ≤ t + 300
    → (is_duplicate_message show_timestamp none device_id from_phone timestamp message_id now (
        see_all es
          (is_duplicate_message show_timestamp none device_id from_phone timestamp message_id t
            cache).1)).0
      ≡ true
unfolding is_duplicate_message
is_duplicate_message-again show_timestamp device_id from_phone timestamp message_id t now cache es d
      new a l =
    let key = dedup_key show_timestamp device_id from_phone timestamp message_id in
    see-known key t now (see_all es (see key t cache).1) l
      (see_all-Has key t es (see key t cache).1 a (see-new key t cache d new))
