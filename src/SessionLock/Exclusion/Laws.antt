-- ===== src/SessionLock/Exclusion/Laws.antt =====
-- One run at a time in a session.
use self_managed_agents.Base.{
  nat_eq, ℕ, ◌+◌, ◌-◌, ◌≤◌, ◌<◌, ◌≡◌, refl, inl, inr, false, not, ◌&&◌, Option, none, some, List,
  [], ◌∷◌, ◌==◌, ltb, arith, Bool-cases, Option-cases,
}
use self_managed_agents.Base.Dict.{
  lookup, insert, lookup-insert, lookup-insert_self, AllValues, AllValues-insert, AllValues-lookup,
}
use self_managed_agents.SessionLock.{
  Entry, Registry, locked, new_lock, get_lock, set_acquired, keep_fresh, eviction_ttl, is_stuck,
  enter,
}
use self_managed_agents.SessionLock.Exclusion.{Stays}

-- the lock registered for a session
abbrev pub Has : ℕ → ℕ → Registry → Type 0
Has session lock r = (entry : Entry) × (lookup session r.locks ≡ some entry) × (entry.lock ≡ lock)

abbrev pub IsMade : Registry → Type 0
IsMade r = AllValues (λ (entry : Entry). entry.lock < r.next) r.locks

IsMade-suc :
    (n : ℕ) (d : List (ℕ × Entry))
    → AllValues (λ (entry : Entry). entry.lock < n) d
    → AllValues (λ (entry : Entry). entry.lock < n + 1) d
IsMade-suc n [] h = tt
IsMade-suc n ((k, v) ∷ d) (p, h) = (omega arith, IsMade-suc n d h)

pub get_lock-Has : (s now : ℕ) (r : Registry) → Has s (get_lock s now r).0 (get_lock s now r).1
unfolding get_lock
get_lock-Has s now r = elim (Option-cases (lookup s r.locks)) [
  | inl e ↦ rw (get_lock, e) (_, lookup-insert_self s _ r.locks, refl)
  | inr (entry, e) ↦ rw (get_lock, e) (_, lookup-insert_self s _ r.locks, refl)
]

-- an entry written with the same lock
Has-insert :
    (s t l : ℕ) (r : Registry) (entry : Entry)
    → lookup s r.locks ≡ some entry
    → (last : ℕ) (acquired : Option ℕ) → Has t l r
    → Has t l (record r {
      locks =
          insert s
            (record { lock = entry.lock; last_access = last; acquired_at = acquired })
            r.locks;
    })
Has-insert s t l r entry e last acquired (f, found, same) = elim (Bool-cases (s == t)) [
  | inl g ↦ (
    record { lock = entry.lock; last_access = last; acquired_at = acquired },
    ground (
      arith,
      lookup-insert s t (record { lock = entry.lock; last_access = last; acquired_at = acquired })
          r.locks,
    ),
    ground arith,
  )
  | inr g ↦ (
    f,
    ground (
      arith,
      lookup-insert s t (record { lock = entry.lock; last_access = last; acquired_at = acquired })
          r.locks,
    ),
    same,
  )
]

pub get_lock-Has_other : (s t l now : ℕ) (r : Registry) → Has t l r → Has t l (get_lock s now r).1
unfolding get_lock
get_lock-Has_other s t l now r h = elim (Option-cases (lookup s r.locks)) [
  | inl e ↦
      let (f, found, same) = h in
      rw (get_lock, e)
        (
          f,
          ground (
            arith,
            lookup-insert s t (record { lock = r.next; last_access = now; acquired_at = none })
                r.locks,
          ),
          same,
        )
  | inr (entry, e) ↦ rw (get_lock, e) (Has-insert s t l r entry e now entry.acquired_at h)
]

-- A new lock is registered for its session only, and is held by nobody.
pub new_lock-Has_other :
    (s t l now : ℕ) (r : Registry) → (s == t) ≡ false → Has t l r → Has t l (new_lock s now r).1
new_lock-Has_other s t l now r differs (f, found, same) = (
  f,
  ground (
    arith,
    lookup-insert s t (record { lock = r.next; last_access = now; acquired_at = none }) r.locks,
  ),
  same,
)

pub new_lock-IsMade : (s now : ℕ) (r : Registry) → IsMade r → IsMade (new_lock s now r).1
new_lock-IsMade s now r h =
    AllValues-insert (λ (entry : Entry). entry.lock < r.next + 1) s _ r.locks (omega arith)
      (IsMade-suc r.next r.locks h)

pub new_lock-holder :
    (s l now : ℕ) (r : Registry) → l < r.next → (new_lock s now r).1.holder l ≡ r.holder l
new_lock-holder s l now r h = ground arith

pub get_lock-known :
    (s now : ℕ) (r : Registry) → IsMade r → (get_lock s now r).0 < (get_lock s now r).1.next
unfolding get_lock
get_lock-known s now r h = elim (Option-cases (lookup s r.locks)) [
  | inl e ↦ rw (get_lock, e) (omega arith)
  | inr (entry, e) ↦
      rw (get_lock, e) (AllValues-lookup (λ (entry : Entry). entry.lock < r.next) s r.locks h e)
]

pub get_lock-next : (s now : ℕ) (r : Registry) → r.next ≤ (get_lock s now r).1.next
unfolding get_lock
get_lock-next s now r = elim (Option-cases (lookup s r.locks)) [
  | inl e ↦ rw (get_lock, e) (omega arith)
  | inr (entry, e) ↦ rw (get_lock, e) (omega arith)
]

pub set_acquired-next : (s : ℕ) (ts : Option ℕ) (r : Registry) → (set_acquired s ts r).next ≡ r.next
unfolding set_acquired
set_acquired-next s ts r = ground arith

pub get_lock-holder :
    (s l now : ℕ) (r : Registry) → l < r.next → (get_lock s now r).1.holder l ≡ r.holder l
unfolding get_lock
get_lock-holder s l now r h = ground arith

pub get_lock-IsMade : (s now : ℕ) (r : Registry) → IsMade r → IsMade (get_lock s now r).1
unfolding get_lock
get_lock-IsMade s now r h = elim (Option-cases (lookup s r.locks)) [
  | inl e ↦
      rw (get_lock, e)
        (AllValues-insert (λ (entry : Entry). entry.lock < r.next + 1) s _ r.locks (omega arith)
          (IsMade-suc r.next r.locks h))
  | inr (entry, e) ↦
      rw (get_lock, e)
        (AllValues-insert (λ (entry : Entry). entry.lock < r.next) s _ r.locks
          (AllValues-lookup (λ (entry : Entry). entry.lock < r.next) s r.locks h e) h)
]

-- A call that finds no stuck lock is given the registered one.
pub enter-get_lock :
    (timeout s now : ℕ) (r : Registry)
    → is_stuck timeout now (lookup s r.locks) ≡ false
    → enter timeout s now r ≡ get_lock s now r
unfolding enter get_lock
enter-get_lock timeout s now r h = elim (Option-cases (lookup s r.locks)) [
  | inl e ↦ ground (
    arith,
    lookup-insert_self s (record { lock = r.next; last_access = now; acquired_at = none }) r.locks,
  )
  | inr (entry, e) ↦
      ground (arith, lookup-insert_self s (record entry { last_access = now }) r.locks)
]

pub set_acquired-Has :
    (s t l : ℕ) (ts : Option ℕ) (r : Registry) → Has t l r → Has t l (set_acquired s ts r)
unfolding set_acquired
set_acquired-Has s t l ts r h = elim (Option-cases (lookup s r.locks)) [
  | inl e ↦ rw (set_acquired, e) h
  | inr (entry, e) ↦ rw (set_acquired, e) (Has-insert s t l r entry e entry.last_access ts h)
]

pub set_acquired-IsMade :
    (s : ℕ) (ts : Option ℕ) (r : Registry) → IsMade r → IsMade (set_acquired s ts r)
unfolding set_acquired
set_acquired-IsMade s ts r h = elim (Option-cases (lookup s r.locks)) [
  | inl e ↦ rw (set_acquired, e) h
  | inr (entry, e) ↦
      rw (set_acquired, e)
        (AllValues-insert (λ (entry : Entry). entry.lock < r.next) s _ r.locks
          (AllValues-lookup (λ (entry : Entry). entry.lock < r.next) s r.locks h e) h)
]

pub set_acquired-holder :
    (s : ℕ) (ts : Option ℕ) (r : Registry) → (set_acquired s ts r).holder ≡ r.holder
unfolding set_acquired
set_acquired-holder s ts r = ground arith

pub keep_fresh-lookup :
    (now s : ℕ) (r : Registry) (d : List (ℕ × Entry)) (entry : Entry)
    → lookup s d ≡ some entry
    → Stays now r entry
    → lookup s (keep_fresh now r d) ≡ some entry
unfolding keep_fresh lookup
keep_fresh-lookup now s r [] entry found h = cc
keep_fresh-lookup now s r ((k, e) ∷ d) entry found h = elim (Bool-cases (k == s)) [
  | inl g ↦ ground arith
  | inr g ↦ ground (arith, keep_fresh-lookup now s r d entry (rw g at found) h)
]

pub keep_fresh-AllValues :
    (P : Entry → Type 0) (now : ℕ) (r : Registry) (d : List (ℕ × Entry))
    → AllValues P d
    → AllValues P (keep_fresh now r d)
unfolding keep_fresh
keep_fresh-AllValues P now r [] h = tt
keep_fresh-AllValues P now r ((k, e) ∷ d) (p, h) =
    elim (Bool-cases (ltb eviction_ttl (now - e.last_access) && not (locked e.lock r))) [
      | inl g ↦ rw g (keep_fresh-AllValues P now r d h)
      | inr g ↦ rw g (p, keep_fresh-AllValues P now r d h)
    ]
