-- ===== src/Scheduler/Reminders.antt =====
-- app/core/tools/scheduler_tool.py: the tools by which an agent sets and cancels the jobs of a session.
-- What a schedule's text parses to and what croniter answers are arguments; `none` is a text that
-- `_parse_schedule` refuses. The search for a free label runs on fuel, one try more than there are jobs.
pub mod Labels
mod Tests
use Prim.Native.String.{◌++◌ as join_text}
use self_managed_agents.Base.{
  nat_eq, string_eq, ℕ, zero, suc, ◌+◌, String, Bool, true, false, not, ◌&&◌, ◌||◌, Option, none,
  some, List, [], ◌∷◌, ◌==◌, where_, update, length,
}
use self_managed_agents.Base.Decimal.{show_nat}
use self_managed_agents.Base.Outcome.{Outcome, ok, err, ◌>>=◌, scalar_one_or_none}
use self_managed_agents.Base.Text.{strip}
use self_managed_agents.Scheduler.{JobStatus, active, cancelled, ScheduledJob}

abbrev is_active : JobStatus → Bool
is_active active = true
is_active _ = false

-- the active jobs of a session with a label
unfoldable pub is_active_label : ℕ → String → ScheduledJob → Bool
is_active_label session_id label job =
    job.session_id == session_id && job.label == label && is_active job.status

abbrev pub active_jobs : ℕ → String → List ScheduledJob → List ScheduledJob
active_jobs session_id label jobs = where_ (is_active_label session_id label) jobs

abbrev pub candidate : String → ℕ → String
candidate base suffix = join_text base (join_text "_" (show_nat suffix))

-- the `while True` loop over the suffixes; `none` where the fuel is spent
unfoldable pub find_free : ℕ → ℕ → String → ℕ → List ScheduledJob → Outcome (Option String)
find_free zero suffix base session_id jobs = ok none
find_free (suc fuel) suffix base session_id jobs =
    scalar_one_or_none (active_jobs session_id (candidate base suffix) jobs) >>= λ found.
    elim found [
      | none ↦ ok (some (candidate base suffix))
      | some job ↦ find_free fuel (suffix + 1) base session_id jobs
    ]

-- the label that the new job is given
unfoldable pub choose_label : String → ℕ → List ScheduledJob → Outcome (Option String)
unfolding find_free
choose_label label session_id jobs =
    scalar_one_or_none (active_jobs session_id label jobs) >>= λ existing. elim existing [
      | none ↦ ok (some label)
      | some job ↦ find_free (suc (length jobs)) 2 label session_id jobs
    ]

pub data Schedule : Type 0 where
  by_cron : String → Schedule
  once : ℕ → Schedule

abbrev pub cron_of : Schedule → Option String
cron_of (by_cron expr) = some expr
cron_of (once at) = none

pub data Answer : Type 0 where
  set_as : (label : String) → Answer
  bad_schedule incomplete still_looking : Answer

-- what identifies a new row: its id and the time of its creation
pub record NewRow : Type 0 where
  pub id : ℕ
  pub agent_id : ℕ
  pub session_id : ℕ
  pub created_at : ℕ

abbrev pub new_job : NewRow → String → String → Schedule → ℕ → ScheduledJob
new_job row label message schedule at = record {
  id = row.id;
  agent_id = row.agent_id;
  session_id = row.session_id;
  label = label;
  cron_expr = cron_of schedule;
  payload = message;
  status = active;
  next_run_at = some at;
  last_run_at = none;
  created_at = row.created_at;
}

module _ (parse : String → Option Schedule) (next_run : String → Outcome ℕ) where
  -- `_compute_next_run(cron_expr) if cron_expr else run_once_at`
  abbrev pub next_of : Schedule → Outcome ℕ
  next_of (by_cron expr) = next_run expr
  next_of (once at) = ok at

  -- `_set_reminder`
  unfoldable pub set_reminder :
      NewRow → String → String → String → List ScheduledJob → Outcome (Answer × List ScheduledJob)
  unfolding choose_label
  set_reminder row label message schedule jobs =
      choose_label label row.session_id jobs >>= λ chosen. elim chosen [
        | none ↦ ok (still_looking, jobs)
        | some l ↦ elim (parse schedule) [
          | none ↦ ok (bad_schedule, jobs)
          | some s ↦ next_of s >>= λ at. ok (set_as l, new_job row l message s at ∷ jobs)
        ]
      ]

  -- an item of `_set_multiple_reminders`, whose missing fields are empty
  unfoldable pub set_item :
      NewRow → String → String → String → List ScheduledJob → Outcome (Answer × List ScheduledJob)
  unfolding set_reminder strip
  set_item row label message schedule jobs =
      elim (strip label == "" || strip message == "" || strip schedule == "") [
        | true ↦ ok (incomplete, jobs)
        | false ↦ set_reminder row (strip label) (strip message) (strip schedule) jobs
      ]

  -- `_set_multiple_reminders`: one commit at the end, so an exception keeps none of them
  unfoldable pub set_multiple_reminders :
      List (NewRow × String × String × String)
      → List ScheduledJob
      → Outcome (List Answer × List ScheduledJob)
  unfolding set_item
  set_multiple_reminders [] jobs = ok ([], jobs)
  set_multiple_reminders ((row, label, message, schedule) ∷ items) jobs =
      set_item row label message schedule jobs >>= λ (answer, after).
      set_multiple_reminders items after >>= λ (answers, last). ok (answer ∷ answers, last)

-- `cancel_reminder`: whether there was an active job of the label
unfoldable pub cancel_reminder : ℕ → String → List ScheduledJob → Outcome (Bool × List ScheduledJob)
cancel_reminder session_id label jobs =
    scalar_one_or_none (active_jobs session_id label jobs) >>= λ found. elim found [
      | none ↦ ok (false, jobs)
      | some job ↦
          ok (true, update (λ j. j.id == job.id) (λ j. record j { status = cancelled }) jobs)
    ]
