-- ===== src/Scheduler/Reminders/Tests.antt =====
-- Reminders of one session; the last runs show a label that becomes ambiguous while its job runs.
use self_managed_agents.Base.{
  ℕ, nat_eq, string_eq, ◌≡◌, refl, String, true, false, Option, none, some, List, [], ◌∷◌,
  if◌then◌else◌, ◌==◌, arith,
}
use self_managed_agents.Base.Decimal.{show_nat}
use self_managed_agents.Base.Outcome.{Outcome, ok, err, multiple_results}
use self_managed_agents.Scheduler.{ScheduledJob, tick, is_due, Surroundings, next_time, run_job}
use self_managed_agents.Scheduler.Reminders.{
  is_active_label, active_jobs, find_free, Schedule, by_cron, set_as, incomplete, NewRow, new_job,
  set_reminder, set_multiple_reminders, cancel_reminder,
}
use self_managed_agents.Scheduler.Reminders.Labels.{IsUnambiguous, set_reminder-ends}

abbrev parse : String → Option Schedule
parse text = if text == "every 1d" then some (by_cron "0 9 * * *") else none

abbrev next_run : String → Outcome ℕ
next_run expr = ok 500

abbrev row : ℕ → NewRow
row id = record { id = id; agent_id = 3; session_id = 4; created_at = id }

abbrev pagi : ScheduledJob
pagi = new_job (row 1) "pagi" "Pagi!" (by_cron "0 9 * * *") 500

-- a label that is taken is numbered
numbered :
    set_reminder parse next_run (row 2) "pagi" "Lagi" "every 1d" (pagi ∷ [])
    ≡ ok (set_as "pagi_2", new_job (row 2) "pagi_2" "Lagi" (by_cron "0 9 * * *") 500 ∷ pagi ∷ [])
unfolding set_reminder find_free is_active_label show_nat
numbered = refl

skipped :
    set_multiple_reminders parse next_run ((row 2, "siang", " ", "every 1d") ∷ []) (pagi ∷ [])
    ≡ ok (incomplete ∷ [], pagi ∷ [])
unfolding set_multiple_reminders
skipped = refl

pagi-IsUnambiguous : IsUnambiguous (pagi ∷ [])
pagi-IsUnambiguous session label = ground arith

reminder_example :
    (l : String) × (set_reminder parse next_run (row 2) "pagi" "Lagi" "every 1d" (pagi ∷ [])
      ≡ ok (set_as l, new_job (row 2) l "Lagi" (by_cron "0 9 * * *") 500 ∷ pagi ∷ []))
    × (active_jobs 4 l (pagi ∷ []) ≡ [])
    × IsUnambiguous (new_job (row 2) l "Lagi" (by_cron "0 9 * * *") 500 ∷ pagi ∷ [])
reminder_example =
    set_reminder-ends parse next_run (row 2) "pagi" "Lagi" "every 1d" (pagi ∷ [])
      (by_cron "0 9 * * *") 500 pagi-IsUnambiguous refl refl

abbrev outside : Surroundings
outside = record {
  agent_found = true;
  session_found = true;
  has_channel = true;
  send_fails = false;
  now = 505;
  has_croniter = true;
  croniter = λ expr. next_time 1500;
}

-- while the job runs, its label counts as free
abbrev during : List ScheduledJob
during =
    new_job (row 2) "pagi" "Lagi" (by_cron "0 9 * * *") 500 ∷ (tick (λ id. false) 500 (pagi ∷ [])).1

set_during :
    set_reminder parse next_run
      (row 2)
      "pagi"
      "Lagi"
      "every 1d"
      (tick (λ id. false) 500 (pagi ∷ [])).1
    ≡ ok (set_as "pagi", during)
unfolding set_reminder is_active_label tick is_due
set_during = refl

-- once it is active again, the label can be neither set nor cancelled
stuck_set :
    set_reminder parse next_run (row 3) "pagi" "Apa" "every 1d" (run_job outside 1 during).1
    ≡ err multiple_results
unfolding set_reminder is_active_label tick is_due run_job
stuck_set = refl

stuck_cancel : cancel_reminder 4 "pagi" (run_job outside 1 during).1 ≡ err multiple_results
unfolding cancel_reminder is_active_label tick is_due run_job
stuck_cancel = refl
