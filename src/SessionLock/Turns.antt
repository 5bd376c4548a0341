-- ===== src/SessionLock/Turns.antt =====
-- Generations of turns, and the interruption of a run.
use self_managed_agents.Base.{
  nat_eq, option_eq, ℕ, ◌+◌, ◌≡◌, refl, true, false, not, none, some, List, [], ◌∷◌, ◌==◌,
  if◌then◌else◌, contains, or_zero, arith,
}
use self_managed_agents.Base.Dict.{lookup, lookup-insert, lookup-insert_self}
use self_managed_agents.SessionLock.{
  Entry, Registry, get_lock, enter, mark_latest_session_turn, is_latest_session_turn, Unwinding,
  too_slow, cancel_active_run, force_release_session_lock, is_session_busy,
}

-- the turns of many sessions, in order
abbrev pub mark_all : List ℕ → Registry → Registry
mark_all [] r = r
mark_all (s ∷ ss) r = mark_all ss (mark_latest_session_turn s r).1

abbrev generation : ℕ → Registry → ℕ
generation s r = or_zero (lookup s r.turn_generations)

abbrev count : ℕ → List ℕ → ℕ
count s [] = 0
count s (t ∷ ts) = if t == s then count s ts + 1 else count s ts

generation-mark :
    (s t : ℕ) (r : Registry)
    → generation s (mark_latest_session_turn t r).1
      ≡ (if t == s then generation s r + 1 else generation s r)
unfolding mark_latest_session_turn
generation-mark s t r =
    ground (arith, lookup-insert t s (or_zero (lookup t r.turn_generations) + 1) r.turn_generations)

generation-mark_all :
    (s : ℕ) (ss : List ℕ) (r : Registry)
    → generation s (mark_all ss r) ≡ generation s r + count s ss
generation-mark_all s [] r = omega arith
generation-mark_all s (t ∷ ts) r =
    ground (arith, generation-mark_all s ts (mark_latest_session_turn t r).1, generation-mark s t r)

count-zero : (s : ℕ) (ss : List ℕ) → (count s ss == 0) ≡ not (contains s ss)
count-zero s [] = refl
count-zero s (t ∷ ts) = ground (arith, count-zero s ts)

mark-given :
    (s : ℕ) (r : Registry)
    → (mark_latest_session_turn s r).0 ≡ generation s (mark_latest_session_turn s r).1
unfolding mark_latest_session_turn
mark-given s r =
    ground
      (arith, lookup-insert_self s (or_zero (lookup s r.turn_generations) + 1) r.turn_generations)

-- The generation that a turn is given is the latest of its session exactly until the session's next
-- turn, whatever turns other sessions have meanwhile; once superseded it is never the latest again.
pub is_latest-mark_all :
    (s : ℕ) (ss : List ℕ) (r : Registry)
    → is_latest_session_turn s
        (mark_latest_session_turn s r).0
        (mark_all ss (mark_latest_session_turn s r).1)
      ≡ not (contains s ss)
unfolding is_latest_session_turn
is_latest-mark_all s ss r =
    let r' = (mark_latest_session_turn s r).1 in
    ground (arith, generation-mark_all s ss r', mark-given s r, count-zero s ss)

-- A run that does not stop within the grace leaves its session free: the next call is given a new
-- lock that nobody holds, whichever lock the old run still holds.
pub cancel_active_run-enter :
    (session task now later timeout : ℕ) (unwinding : ℕ → Unwinding) (r : Registry)
    → lookup session r.active_tasks ≡ some task
    → unwinding task ≡ too_slow
    → ((cancel_active_run session unwinding now r).0 ≡ some true)
      × (is_session_busy session (cancel_active_run session unwinding now r).1 ≡ false)
      × ((enter timeout session later (cancel_active_run session unwinding now r).1).0 ≡ r.next)
unfolding cancel_active_run force_release_session_lock is_session_busy enter get_lock
cancel_active_run-enter session task now later timeout unwinding r active slow =
    let e : Entry = record { lock = r.next; last_access = now; acquired_at = none } in
    let found = lookup-insert_self session e r.locks in
    (ground arith, ground (arith, found), ground (arith, found))
