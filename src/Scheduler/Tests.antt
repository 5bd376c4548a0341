-- ===== src/Scheduler/Tests.antt =====
-- The scheduler on a table of two jobs.
use self_managed_agents.Base.{
  nat_eq, string_eq, ℕ, ◌+◌, ◌≡◌, refl, Bool, true, false, none, some, List, [], ◌∷◌, contains, leb,
  arith,
}
use self_managed_agents.Scheduler.{
  ScheduledJob, active, paused, is_due, tick, sort_jobs, insert_job, comes_before, Surroundings,
  cron_error, run_job,
}
use self_managed_agents.Scheduler.Claims.{tick_once}
use self_managed_agents.Scheduler.Runs.{job_row, run_job_closed, failed_delivery_is_retried}

abbrev beat : ScheduledJob
beat = record {
  id = 1;
  agent_id = 3;
  session_id = 4;
  label = "heartbeat:_global";
  cron_expr = some "*/30 * * * *";
  payload = "[HEARTBEAT]";
  status = active;
  next_run_at = some 10;
  last_run_at = none;
  created_at = 0;
}

abbrev reminder : ScheduledJob
reminder = record beat {
  id = 2;
  label = "call";
  cron_expr = none;
  payload = "call Budi";
  next_run_at = some 20;
}

abbrev jobs : List ScheduledJob
jobs = beat ∷ reminder ∷ []

abbrev none_skipped : ℕ → Bool
none_skipped i = false

reminder_first : (tick none_skipped 30 jobs).0 ≡ 2 ∷ 1 ∷ []
unfolding tick sort_jobs insert_job comes_before is_due
reminder_first = refl

reminder_started : contains {A = ℕ} 2 (tick none_skipped 30 jobs).0 ≡ true
unfolding tick sort_jobs insert_job comes_before is_due
reminder_started = refl

tick_once_example :
    contains {A = ℕ} 2 (tick none_skipped 40 (tick none_skipped 30 jobs).1).0 ≡ false
tick_once_example =
    tick_once 2 30 40 none_skipped none_skipped jobs (refl, (refl, tt)) (omega arith)
      reminder_started

abbrev reachable : Surroundings
reachable = record {
  agent_found = true;
  session_found = true;
  has_channel = true;
  send_fails = false;
  now = 35;
  has_croniter = true;
  croniter = λ expr. cron_error;
}

abbrev unreachable : Surroundings
unreachable = record reachable { send_fails = true }

abbrev on_hold : List ScheduledJob
on_hold = record reminder { status = paused } ∷ []

closed_example : run_job reachable 2 on_hold ≡ ([], on_hold)
closed_example = run_job_closed reachable 2 on_hold (record reminder { status = paused }) refl refl

retry_example :
    (after : ScheduledJob) × (job_row 2 (run_job unreachable 2 jobs).1 ≡ after ∷ [])
    × (after.status ≡ active)
    × (is_due 99 after ≡ leb (35 + 60) 99)
retry_example =
    failed_delivery_is_retried unreachable 2 99 jobs reminder refl refl refl refl refl refl
