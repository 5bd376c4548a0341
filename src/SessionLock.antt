-- ===== src/SessionLock.antt =====
-- app/core/engine/session_lock.py: one lock to a session, the newest turn of a session, and the task
-- that runs it. A lock is an object with an identity, so the locks stand in a heap, by number; a
-- call that waits for a lock keeps the number that it was given.
pub mod Eviction
pub mod Exclusion
mod Tests
pub mod Turns
use self_managed_agents.Base.{
  nat_eq, option_eq, ℕ, ◌+◌, ◌*◌, ◌-◌, Bool, true, false, not, ◌&&◌, ◌||◌, Option, none, some, List,
  [], ◌∷◌, ◌==◌, ltb, if◌then◌else◌, or_zero,
}
use self_managed_agents.Base.Dict.{lookup, insert, remove}

-- `(lock, last_access_ts, acquired_at_ts | None)`
pub record Entry : Type 0 where
  pub lock : ℕ
  pub last_access : ℕ
  pub acquired_at : Option ℕ

-- The state of the module. `holder` is the state of each lock object: the run that holds it.
pub record Registry : Type 0 where
  pub locks : List (ℕ × Entry)
  pub holder : ℕ → Option ℕ
  -- the identity of the next lock object
  pub next : ℕ
  pub active_tasks : List (ℕ × ℕ)
  pub turn_generations : List (ℕ × ℕ)

-- `_EVICTION_TTL`
abbrev pub eviction_ttl : ℕ
eviction_ttl = 300

-- `_max_lock_age`, from `settings.agent_timeout_seconds`
abbrev pub max_lock_age : ℕ → ℕ
max_lock_age agent_timeout_seconds = agent_timeout_seconds * 8 + 60

-- `lock.locked()`
abbrev pub locked : ℕ → Registry → Bool
locked lock r = elim (r.holder lock) [ none ↦ false | some run ↦ true ]

-- a new lock object, registered for the session
abbrev pub new_lock : ℕ → ℕ → Registry → ℕ × Registry
new_lock session_id now r = (
  r.next,
  record r {
    locks =
        insert session_id (record { lock = r.next; last_access = now; acquired_at = none }) r.locks;
    holder = λ l. if l == r.next then none else r.holder l;
    next = r.next + 1;
  },
)

-- `_get_lock`
unfoldable pub get_lock : ℕ → ℕ → Registry → ℕ × Registry
get_lock session_id now r = elim (lookup session_id r.locks) [
  | none ↦ new_lock session_id now r
  | some entry ↦ (
    entry.lock,
    record r { locks = insert session_id (record entry { last_access = now }) r.locks },
  )
]

-- `_set_acquired`
unfoldable pub set_acquired : ℕ → Option ℕ → Registry → Registry
set_acquired session_id ts r = elim (lookup session_id r.locks) [
  | none ↦ r
  | some entry ↦ record r { locks = insert session_id (record entry { acquired_at = ts }) r.locks }
]

-- `force_release_session_lock`
unfoldable pub force_release_session_lock : ℕ → ℕ → Registry → Registry
force_release_session_lock session_id now r = (new_lock session_id now r).1

-- the entries that `_maybe_evict` keeps
unfoldable pub keep_fresh : ℕ → Registry → List (ℕ × Entry) → List (ℕ × Entry)
keep_fresh now r [] = []
keep_fresh now r ((sid, entry) ∷ rest) =
    let kept = keep_fresh now r rest in
    if ltb eviction_ttl (now - entry.last_access) && not (locked entry.lock r)
    then kept
    else (sid, entry) ∷ kept

-- `_maybe_evict`
unfoldable pub maybe_evict : ℕ → Registry → Registry
maybe_evict now r = record r { locks = keep_fresh now r r.locks }

-- `is_session_busy`
unfoldable pub is_session_busy : ℕ → Registry → Bool
is_session_busy session_id r = elim (lookup session_id r.locks) [
  | none ↦ false
  | some entry ↦ locked entry.lock r
]

-- `acquired_at is not None and now - acquired_at > _max_lock_age`
abbrev pub is_stuck : ℕ → ℕ → Option Entry → Bool
is_stuck agent_timeout_seconds now none = false
is_stuck agent_timeout_seconds now (some entry) = elim entry.acquired_at [
  | none ↦ false
  | some t ↦ ltb (max_lock_age agent_timeout_seconds) (now - t)
]

-- The first part of `session_run_lock`: the lock that the call will wait for, replaced where the one
-- registered has been held for longer than a run may take.
unfoldable pub enter : ℕ → ℕ → ℕ → Registry → ℕ × Registry
enter agent_timeout_seconds session_id now r =
    let (lock, r') = get_lock session_id now r in
    if locked lock r' && is_stuck agent_timeout_seconds now (lookup session_id r'.locks)
    then new_lock session_id now r'
    else (lock, r')

-- `async with lock` can go on once the lock is free; then `_set_acquired` is called.
unfoldable pub acquire : ℕ → ℕ → ℕ → ℕ → Registry → Option Registry
acquire run session_id lock now r =
    if locked lock r
    then none
    else some (
        set_acquired session_id (some now)
          (record r { holder = λ l. if l == lock then some run else r.holder l }))

-- the inner `finally`, and the end of `async with lock`
unfoldable pub release : ℕ → ℕ → Registry → Registry
release session_id lock r =
    let r' = set_acquired session_id none r in
    record r' { holder = λ l. if l == lock then none else r'.holder l }

-- `mark_latest_session_turn`
unfoldable pub mark_latest_session_turn : ℕ → Registry → ℕ × Registry
mark_latest_session_turn session_id r =
    let generation = or_zero (lookup session_id r.turn_generations) + 1 in
    (generation, record r { turn_generations = insert session_id generation r.turn_generations })

-- `is_latest_session_turn`
unfoldable pub is_latest_session_turn : ℕ → ℕ → Registry → Bool
is_latest_session_turn session_id generation r =
    or_zero (lookup session_id r.turn_generations) == generation

-- `register_active_task`
unfoldable pub register_active_task : ℕ → ℕ → Registry → Registry
register_active_task session_id task r = record r {
  active_tasks = insert session_id task r.active_tasks;
}

-- `unregister_active_task`
unfoldable pub unregister_active_task : ℕ → Option ℕ → Registry → Registry
unregister_active_task session_id task r =
    if task == none || lookup session_id r.active_tasks == task
    then record r { active_tasks = remove session_id r.active_tasks }
    else r

-- How the cancelled task ends: done before, within the grace of 1.5 seconds, in that time with an
-- exception, or not in time.
pub data Unwinding : Type 0 where
  already_done stops_in_time raises_in_time too_slow : Unwinding

-- `cancel_active_run`; None where the exception of the task is raised again
unfoldable pub cancel_active_run : ℕ → (ℕ → Unwinding) → ℕ → Registry → Option Bool × Registry
cancel_active_run session_id unwinding now r = elim (lookup session_id r.active_tasks) [
  | none ↦ (some false, r)
  | some task ↦ elim (unwinding task) [
    | already_done ↦ (some false, r)
    | stops_in_time ↦ (some true, r)
    | raises_in_time ↦ (none, r)
    | too_slow ↦ (some true, force_release_session_lock session_id now r)
  ]
]
