-- ===== src/Interrupts/Waiting.antt =====
-- When a session waits for its user: what is stored agrees with how the run ended.
use self_managed_agents.Base.{
  nat_eq, ℕ, ◌≡◌, not, ◌||◌, ◌⊎◌, Bool, true, false, Option, none, some, ◌==◌,
}
use self_managed_agents.Base.Dict.{lookup}
use self_managed_agents.Interrupts.{
  Interrupt, Store, Collected, failed_with, collected, RunStatus, interrupted, State, Answer,
  proceeds, cancelled, replies, collect_requests, GraphOutput,
}

abbrev is_there : Option Interrupt → Bool
is_there none = false
is_there (some pending) = true

-- the session has an interrupt in the store
abbrev pub waits : ℕ → Store → Bool
waits session_id store = is_there (lookup session_id store)

abbrev pub is_interrupted : RunStatus → Bool
is_interrupted interrupted = true
is_interrupted _ = false

abbrev pub SameOthers : ℕ → Store → Store → Type 0
SameOthers session_id before after =
    (other : ℕ) → (session_id == other) ≡ false → lookup other after ≡ lookup other before

abbrev is_bad : Collected → Bool
is_bad (failed_with why) = true
is_bad (collected all) = false

-- the interrupts of the new graph cannot be read
abbrev pub is_unreadable : Option GraphOutput → Bool
is_unreadable none = false
is_unreadable (some output) = is_bad (collect_requests output.interrupts)

-- The session waits exactly if the run was interrupted, or it does not wait although it was, as the
-- interrupts could not be read.
abbrev pub Agrees : ℕ → Bool → State → Type 0
Agrees session_id unreadable after =
    (waits session_id after.store ≡ is_interrupted after.run.status)
    ⊎ ((unreadable ≡ true)
        × (waits session_id after.store ≡ false)
        × (after.run.status ≡ interrupted))

-- A turn that is cancelled drops no pending call and does not touch the run or its rows, one that goes on
-- has nothing pending and has not touched the run, and after a reply store and run agree. What other
-- sessions wait for is always as it was.
abbrev pub IsSettled : ℕ → Bool → State → Answer × State → Type 0
IsSettled session_id unreadable s (cancelled, after) =
    ((not (waits session_id s.store) || waits session_id after.store) ≡ true)
    × (after.run ≡ s.run)
    × (after.rows ≡ s.rows)
    × SameOthers session_id s.store after.store
IsSettled session_id unreadable s (proceeds, after) =
    (waits session_id after.store ≡ false)
    × (after.run ≡ s.run)
    × (after.rows ≡ s.rows)
    × SameOthers session_id s.store after.store
IsSettled session_id unreadable s (replies r, after) =
    Agrees session_id unreadable after × SameOthers session_id s.store after.store

-- As IsSettled, but that a part which is cancelled has stored its call.
abbrev IsPaused : ℕ → Bool → State → Answer × State → Type 0
IsPaused session_id unreadable s (cancelled, after) =
    (waits session_id after.store ≡ true)
    × (after.run ≡ s.run)
    × (after.rows ≡ s.rows)
    × SameOthers session_id s.store after.store
IsPaused session_id unreadable s (proceeds, after) =
    IsSettled session_id unreadable s (proceeds, after)
IsPaused session_id unreadable s (replies r, after) =
    IsSettled session_id unreadable s (replies r, after)
