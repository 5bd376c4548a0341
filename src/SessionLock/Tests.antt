-- ===== src/SessionLock/Tests.antt =====
-- The lock of one session, run by run.
use self_managed_agents.Base.{
  nat_eq, option_eq, ◌==◌, if◌then◌else◌, ℕ, ◌≡◌, refl, Bool, true, false, none, some, [], ◌∷◌,
  arith,
}
use self_managed_agents.Base.Dict.{lookup, insert}
use self_managed_agents.SessionLock.{
  Registry, get_lock, set_acquired, maybe_evict, is_session_busy, enter, acquire, too_slow,
  cancel_active_run, force_release_session_lock, Unwinding, mark_latest_session_turn,
  is_latest_session_turn,
}
use self_managed_agents.SessionLock.Eviction.{evicted_lock_is_replaced}
use self_managed_agents.SessionLock.Exclusion.{
  waiting, holding, Call, System, set_call, Steps, calls_after, cancels, enters, acquires, done,
  next_step, IsExclusive,
}
use self_managed_agents.SessionLock.Exclusion.Safety.{one_run_at_a_time}
use self_managed_agents.SessionLock.Turns.{mark_all, is_latest-mark_all, cancel_active_run-enter}

abbrev empty_registry : Registry
empty_registry = record {
  locks = [];
  holder = λ l. none;
  next = 0;
  active_tasks = (5, 8) ∷ [];
  turn_generations = [];
}

abbrev idle : System
idle = record { registry = empty_registry; calls = λ run. none }

idle-IsExclusive : IsExclusive idle
idle-IsExclusive = record {
  registered = λ run c e u. cc;
  held = λ run c e p. cc;
  known = λ run c e. cc;
  made = tt;
}

abbrev entered_registry : Registry
entered_registry = record empty_registry {
  locks = (5, record { lock = 0; last_access = 100; acquired_at = none }) ∷ [];
  holder = λ l. if l == 0 then none else none;
  next = 1;
}

abbrev running_registry : Registry
running_registry = record entered_registry {
  locks = (5, record { lock = 0; last_access = 100; acquired_at = some 101 }) ∷ [];
  holder = λ l. if l == 0 then some 7 else if l == 0 then none else none;
}

abbrev asked : ℕ → Call
asked lock = record { session = 5; lock = lock; phase = waiting; displaced = false }

abbrev got : ℕ → Bool → Call
got lock displaced = record { session = 5; lock = lock; phase = holding; displaced = displaced }

abbrev one_run : System
one_run = record {
  registry = running_registry;
  calls = set_call 7 (some (got 0 false)) (set_call 7 (some (asked 0)) (λ run. none));
}

-- The cancellation of a run that does not end in time, then a second run.
abbrev slow : ℕ → Unwinding
slow task = too_slow

abbrev forced : System
forced = record {
  registry = (cancel_active_run 5 slow 300 running_registry).1;
  calls = calls_after 5 slow running_registry one_run.calls;
}

abbrev asked_again : System
asked_again = record {
  registry = (enter 60 5 301 forced.registry).1;
  calls = set_call 9 (some (asked 1)) forced.calls;
}

abbrev second_registry : Registry
second_registry = record asked_again.registry {
  locks = (5, record { lock = 1; last_access = 301; acquired_at = some 302 }) ∷ [];
  holder = λ l. if l == 1 then some 9 else asked_again.registry.holder l;
}

abbrev two_runs : System
two_runs = record {
  registry = second_registry;
  calls = set_call 9 (some (got 1 false)) asked_again.calls;
}

two_runs-Steps : Steps 60 idle two_runs
unfolding enter acquire get_lock set_acquired lookup insert cancel_active_run
    force_release_session_lock
two_runs-Steps = next_step idle _ two_runs (enters idle 7 5 100 refl refl) (
    next_step _ one_run two_runs
      (acquires
        (record { registry = entered_registry; calls = set_call 7 (some (asked 0)) (λ run. none) })
        7 5 0 101 false running_registry refl refl)
      (next_step one_run forced two_runs (cancels one_run 5 300 slow) (
        next_step forced asked_again two_runs (enters forced 9 5 301 refl refl) (
          next_step asked_again two_runs two_runs
            (acquires asked_again 9 5 1 302 false second_registry refl refl) (done two_runs)))))

-- The run that was cancelled still holds its lock, next to the new run.
still_held : two_runs.calls 7 ≡ some (got 0 true)
unfolding lookup
still_held = refl

one_run_example : (◌≡◌ {A = ℕ} 9 9) × (is_session_busy 5 second_registry ≡ true)
one_run_example =
    one_run_at_a_time 9 9 (got 1 false) (got 1 false) two_runs-Steps idle-IsExclusive refl refl refl
      refl refl refl refl

cancel_example :
    ((cancel_active_run 5 (λ t. too_slow) 300 running_registry).0 ≡ some true)
    × (is_session_busy 5 (cancel_active_run 5 (λ t. too_slow) 300 running_registry).1 ≡ false)
    × ((enter 60 5 301 (cancel_active_run 5 (λ t. too_slow) 300 running_registry).1).0 ≡ 1)
unfolding lookup
cancel_example = cancel_active_run-enter 5 8 300 301 60 (λ t. too_slow) running_registry refl refl

eviction_example :
    (a : Registry) × (b : Registry) × (acquire 8 5 0 402
        (enter 60 5 402 (maybe_evict 401 entered_registry)).1
      ≡ some a)
    × (acquire 9 5 (enter 60 5 402 (maybe_evict 401 entered_registry)).0 403 a ≡ some b)
    × (b.holder 0 ≡ some 8)
    × (b.holder (enter 60 5 402 (maybe_evict 401 entered_registry)).0 ≡ some 9)
unfolding lookup
eviction_example =
    evicted_lock_is_replaced 5 8 9 401 402 402 403 60
      (record { lock = 0; last_access = 100; acquired_at = none }) entered_registry (refl, tt) refl
      refl (omega arith) (omega arith)

-- Turns of two other sessions come between the turns of session 5.
turn_example :
    is_latest_session_turn 5
      (mark_latest_session_turn 5 running_registry).0
      (mark_all (6 ∷ 7 ∷ 5 ∷ []) (mark_latest_session_turn 5 running_registry).1)
    ≡ false
turn_example = is_latest-mark_all 5 (6 ∷ 7 ∷ 5 ∷ []) running_registry
