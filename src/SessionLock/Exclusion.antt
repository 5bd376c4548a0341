-- ===== src/SessionLock/Exclusion.antt =====
-- Runs that enter, take and leave the lock of their session, as steps of a system.
pub mod Laws
pub mod Safety
use self_managed_agents.Base.{
  nat_eq, ℕ, ◌+◌, ◌-◌, ◌≤◌, ◌<◌, ◌≡◌, refl, sym, ◌⊎◌, inl, inr, Bool, true, false, not, ◌&&◌,
  Option, none, some, List, [], ◌∷◌, ◌==◌, ==_refl, ltb, if◌then◌else◌, arith, Bool-cases,
  Option-cases,
}
use self_managed_agents.Base.Dict.{
  lookup, insert, lookup-insert, lookup-insert_self, AllValues, AllValues-insert, AllValues-lookup,
}
use self_managed_agents.SessionLock.{
  Entry, Registry, locked, new_lock, get_lock, set_acquired, keep_fresh, maybe_evict, eviction_ttl,
  is_session_busy, is_stuck, enter, acquire, release, Unwinding, already_done, stops_in_time,
  raises_in_time, too_slow, cancel_active_run, register_active_task, unregister_active_task,
  mark_latest_session_turn,
}

-- a call of `session_run_lock`, before and after it has got its lock
pub data Phase : Type 0 where
  waiting holding : Phase

pub record Call : Type 0 where
  pub session : ℕ
  pub lock : ℕ
  pub phase : Phase
  -- a slow cancellation has put a new lock in the place of this one
  pub displaced : Bool

pub record System : Type 0 where
  pub registry : Registry
  -- the call of each run
  pub calls : ℕ → Option Call

abbrev pub set_call : ℕ → Option Call → (ℕ → Option Call) → ℕ → Option Call
set_call run c calls r = if r == run then c else calls r

abbrev mark : ℕ → Option Call → Option Call
mark session none = none
mark session (some c) =
    if c.session == session then some (record c { displaced = true }) else some c

-- the calls of a session, displaced
abbrev pub displace : ℕ → (ℕ → Option Call) → ℕ → Option Call
displace session calls run = mark session (calls run)

-- The calls after `cancel_active_run`, which gives the session a new lock if the task that it finds does
-- not end in time.
abbrev pub calls_after : ℕ → (ℕ → Unwinding) → Registry → (ℕ → Option Call) → ℕ → Option Call
calls_after session unwinding r calls = elim (lookup session r.active_tasks) [
  | none ↦ calls
  | some task ↦ elim (unwinding task) [
    | already_done ↦ calls
    | stops_in_time ↦ calls
    | raises_in_time ↦ calls
    | too_slow ↦ displace session calls
  ]
]

-- An entry that eviction leaves: its lock is held, or was asked for within the time to live.
abbrev pub Stays : ℕ → Registry → Entry → Type 0
Stays now r entry = (locked entry.lock r ≡ true) ⊎ (now ≤ entry.last_access + eviction_ttl)

-- The steps, where no lock is held for longer than a run may take and no call waits for a free lock
-- that has not been asked for within the time to live. A call that a slow cancellation has displaced
-- keeps the old lock, and waits for it or holds it like any other.
pub data Step (agent_timeout_seconds : ℕ) : System → System → Type 0 where
  enters :
      (sys : System) (run session now : ℕ)
      → sys.calls run ≡ none
      → is_stuck agent_timeout_seconds now (lookup session sys.registry.locks) ≡ false
      → Step agent_timeout_seconds sys (record {
        registry = (enter agent_timeout_seconds session now sys.registry).1;
        calls =
            set_call run
              (some (record {
                session = session;
                lock = (enter agent_timeout_seconds session now sys.registry).0;
                phase = waiting;
                displaced = false;
              }))
              sys.calls;
      })
  acquires :
      (sys : System) (run session lock now : ℕ) (displaced : Bool) (r : Registry)
      → sys.calls run
        ≡ some (record { session = session; lock = lock; phase = waiting; displaced = displaced })
      → acquire run session lock now sys.registry ≡ some r
      → Step agent_timeout_seconds sys (record {
        registry = r;
        calls =
            set_call run
              (some
                (record { session = session; lock = lock; phase = holding; displaced = displaced }))
              sys.calls;
      })
  releases :
      (sys : System) (run session lock : ℕ) (displaced : Bool)
      → sys.calls run
        ≡ some (record { session = session; lock = lock; phase = holding; displaced = displaced })
      → Step agent_timeout_seconds sys (record {
        registry = release session lock sys.registry;
        calls = set_call run none sys.calls;
      })
  -- a call that is cancelled or timed out while it waits
  gives_up :
      (sys : System) (run session lock : ℕ) (displaced : Bool)
      → sys.calls run
        ≡ some (record { session = session; lock = lock; phase = waiting; displaced = displaced })
      → Step agent_timeout_seconds sys (record sys { calls = set_call run none sys.calls })
  evicts :
      (sys : System) (now : ℕ)
      → ((run : ℕ) (c : Call) (entry : Entry)
          → sys.calls run ≡ some c
          → c.displaced ≡ false
          → lookup c.session sys.registry.locks ≡ some entry
          → Stays now sys.registry entry)
      → Step agent_timeout_seconds sys (record sys { registry = maybe_evict now sys.registry })
  cancels :
      (sys : System) (session now : ℕ) (unwinding : ℕ → Unwinding)
      → Step agent_timeout_seconds sys (record {
        registry = (cancel_active_run session unwinding now sys.registry).1;
        calls = calls_after session unwinding sys.registry sys.calls;
      })
  registers :
      (sys : System) (session task : ℕ)
      → Step agent_timeout_seconds sys
          (record sys { registry = register_active_task session task sys.registry })
  unregisters :
      (sys : System) (session : ℕ) (task : Option ℕ)
      → Step agent_timeout_seconds sys
          (record sys { registry = unregister_active_task session task sys.registry })
  marks_turn :
      (sys : System) (session : ℕ)
      → Step agent_timeout_seconds sys
          (record sys { registry = (mark_latest_session_turn session sys.registry).1 })

pub data Steps (agent_timeout_seconds : ℕ) : System → System → Type 0 where
  done : (sys : System) → Steps agent_timeout_seconds sys sys
  next_step :
      (a b c : System)
      → Step agent_timeout_seconds a b
      → Steps agent_timeout_seconds b c
      → Steps agent_timeout_seconds a c

-- What every step keeps: a call that was not displaced is for the lock registered for its session, a
-- call that has got its lock is the holder, and no lock that is registered or asked for is one that is
-- still to be made.
pub record IsExclusive (sys : System) : Type 0 where
  pub registered :
      (run : ℕ) (c : Call)
      → sys.calls run ≡ some c
      → c.displaced ≡ false
      → (entry : Entry) × (lookup c.session sys.registry.locks ≡ some entry) × (entry.lock ≡ c.lock)
  pub held :
      (run : ℕ) (c : Call)
      → sys.calls run ≡ some c
      → c.phase ≡ holding
      → sys.registry.holder c.lock ≡ some run
  pub known : (run : ℕ) (c : Call) → sys.calls run ≡ some c → c.lock < sys.registry.next
  pub made : AllValues (λ (entry : Entry). entry.lock < sys.registry.next) sys.registry.locks
