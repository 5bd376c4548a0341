-- ===== src/SessionLock/Eviction.antt =====
-- What eviction does to a lock that a call still waits for.
use self_managed_agents.Base.{
  nat_eq, ℕ, ◌+◌, ◌<◌, ◌≡◌, refl, ap, false, none, some, List, [], ◌∷◌, ◌==◌, if◌then◌else◌,
  contains, map, Distinct, arith, Bool-cases, inl, inr,
}
use self_managed_agents.Base.Dict.{lookup, lookup-insert_self}
use self_managed_agents.SessionLock.{
  Entry, Registry, locked, new_lock, get_lock, set_acquired, keep_fresh, maybe_evict, eviction_ttl,
  enter, acquire,
}
use self_managed_agents.SessionLock.Exclusion.Laws.{set_acquired-holder}

abbrev pub sessions : List (ℕ × Entry) → List ℕ
sessions d = map (λ x. x.0) d

absent :
    (s now : ℕ) (r : Registry) (d : List (ℕ × Entry))
    → contains s (sessions d) ≡ false
    → lookup s (keep_fresh now r d) ≡ none
unfolding keep_fresh lookup
absent s now r [] h = refl
absent s now r ((k, e) ∷ d) h = ground (arith, absent s now r d)

evicted :
    (s now : ℕ) (r : Registry) (d : List (ℕ × Entry)) (entry : Entry)
    → Distinct (sessions d)
    → lookup s d ≡ some entry
    → locked entry.lock r ≡ false
    → entry.last_access + eviction_ttl < now
    → lookup s (keep_fresh now r d) ≡ none
unfolding keep_fresh lookup
evicted s now r [] entry d found free old = refl
evicted s now r ((k, e) ∷ d) entry (new, distinct) found free old = elim (Bool-cases (k == s)) [
  | inl g ↦ ground (arith, absent s now r d)
  | inr g ↦ ground (arith, evicted s now r d entry distinct (rw g at found) free old)
]

enter-missing :
    (timeout s now : ℕ) (r : Registry)
    → lookup s r.locks ≡ none
    → enter timeout s now r ≡ new_lock s now r
unfolding enter get_lock
enter-missing timeout s now r h = ground (
  arith,
  lookup-insert_self s (record { lock = r.next; last_access = now; acquired_at = none }) r.locks,
)

-- a free lock can be taken
taken :
    (run s lock now : ℕ) (r : Registry)
    → r.holder lock ≡ none
    → (a : Registry) × (acquire run s lock now r ≡ some a)
      × (a.holder ≡ (λ l. if l == lock then some run else r.holder l))
unfolding acquire
taken run s lock now r free =
    let after : Registry = record r { holder = λ l. if l == lock then some run else r.holder l } in
    (set_acquired s (some now) after, ground arith, set_acquired-holder s (some now) after)

-- A lock that is free and was last asked for longer ago than the time to live is dropped, also when
-- a call still waits for it. The next call of the session is then given another lock, and both calls
-- can go on: two runs hold locks of one session at once.
pub evicted_lock_is_replaced :
    (session waiter newcomer now later t u timeout : ℕ) (entry : Entry) (r : Registry)
    → Distinct (sessions r.locks)
    → lookup session r.locks ≡ some entry
    → locked entry.lock r ≡ false
    → entry.last_access + eviction_ttl < now
    → entry.lock < r.next
    → (a : Registry) × (b : Registry) × (acquire waiter session entry.lock t
          (enter timeout session later (maybe_evict now r)).1
        ≡ some a)
      × (acquire newcomer session (enter timeout session later (maybe_evict now r)).0 u a ≡ some b)
      × (b.holder entry.lock ≡ some waiter)
      × (b.holder (enter timeout session later (maybe_evict now r)).0 ≡ some newcomer)
unfolding maybe_evict
evicted_lock_is_replaced session waiter newcomer now later t u timeout entry r distinct found free
      old made =
    let kept : Registry = maybe_evict now r in
    let dropped : lookup session kept.locks ≡ none =
      evicted session now r r.locks entry distinct found free old in
    let new = enter-missing timeout session later kept dropped in
    let r₁ : Registry = (new_lock session later kept).1 in
    let (a, first, holder) = taken waiter session entry.lock t r₁ (ground arith) in
    let (b, second, holder') =
      taken newcomer session r.next u a (ground (arith, ap (λ f. f r.next) holder)) in
    (
      a,
      b,
      rw new first,
      rw new second,
      ground (arith, ap (λ f. f entry.lock) holder, ap (λ f. f entry.lock) holder'),
      rw new (ground (arith, ap (λ f. f r.next) holder')),
    )
