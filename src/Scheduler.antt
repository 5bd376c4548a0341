-- ===== src/Scheduler.antt =====
-- app/core/workers/scheduler_service.py and app/models/scheduled_job.py: jobs that a tick claims and
-- that run one by one. What the cron library answers and how a delivery ends are arguments.
pub mod Claims
pub mod Reminders
pub mod Runs
mod Tests
use self_managed_agents.Base.Outcome.{first}
use self_managed_agents.Base.{
  nat_eq, string_eq, option_eq, ℕ, ◌+◌, ◌*◌, String, Bool, true, false, not, ◌&&◌, ◌||◌, Option,
  none, some, List, [], ◌∷◌, map, ◌==◌, ltb, leb, if◌then◌else◌, where_, update, contains,
}

-- the `status` column
pub data JobStatus : Type 0 where
  active running paused cancelled done : JobStatus

-- A row of `scheduled_jobs`; times are in seconds.
pub record ScheduledJob : Type 0 where
  pub id : ℕ
  pub agent_id : ℕ
  pub session_id : ℕ
  pub label : String
  pub cron_expr : Option String
  pub payload : String
  pub status : JobStatus
  pub next_run_at : Option ℕ
  pub last_run_at : Option ℕ
  pub created_at : ℕ

-- `_RUNNING_JOB_STALE_AFTER`
abbrev pub stale_after : ℕ
stale_after = 900

-- `next_run_at <= now`; NULL is not
abbrev pub at_most : Option ℕ → ℕ → Bool
at_most none t = false
at_most (some n) t = leb n t

abbrev pub is_heartbeat : ScheduledJob → Bool
is_heartbeat job = job.payload == "[HEARTBEAT]"

-- "active", or "running" and claimed at least `stale_after` ago
abbrev pub is_open : JobStatus → Option ℕ → ℕ → Bool
is_open active last now = true
is_open running none now = false
is_open running (some last) now = leb (last + stale_after) now
is_open _ last now = false

-- the rows that `_tick` selects
unfoldable pub is_due : ℕ → ScheduledJob → Bool
is_due now job = at_most job.next_run_at now && is_open job.status job.last_run_at now

abbrev due_time : ScheduledJob → ℕ
due_time job = elim job.next_run_at [ none ↦ 0 | some t ↦ t ]

-- `order_by`: heartbeats last, then by the due time, then by the creation
unfoldable pub comes_before : ScheduledJob → ScheduledJob → Bool
comes_before a b =
    if is_heartbeat a && not (is_heartbeat b)
    then false
    else if not (is_heartbeat a) && is_heartbeat b
    then true
    else ltb (due_time a) (due_time b) || due_time a == due_time b && leb a.created_at b.created_at

unfoldable pub insert_job : ScheduledJob → List ScheduledJob → List ScheduledJob
insert_job job [] = job ∷ []
insert_job job (j ∷ js) =
    let rest = insert_job job js in if comes_before job j then job ∷ j ∷ js else j ∷ rest

unfoldable pub sort_jobs : List ScheduledJob → List ScheduledJob
unfolding insert_job
sort_jobs [] = []
sort_jobs (job ∷ jobs) = insert_job job (sort_jobs jobs)

-- `job.status = "running"; job.last_run_at = now`
abbrev pub claim : ℕ → ScheduledJob → ScheduledJob
claim now job = record job { status = running; last_run_at = some now }

-- `_tick`: the jobs that are started, in order, and the table. `skipped` are the rows that another
-- transaction has locked.
unfoldable pub tick : (ℕ → Bool) → ℕ → List ScheduledJob → List ℕ × List ScheduledJob
unfolding sort_jobs
tick skipped now jobs =
    let picked = λ (job : ScheduledJob). is_due now job && not (skipped job.id) in
    (map (λ job. job.id) (sort_jobs (where_ picked jobs)), update picked (claim now) jobs)

-- What `croniter(...).get_next` comes to: the next time, or an exception.
pub data Cron : Type 0 where
  next_time : ℕ → Cron
  cron_error : Cron

-- `job.status not in {"active", "running"}`
abbrev pub may_run : JobStatus → Bool
may_run active = true
may_run running = true
may_run _ = false

-- The columns that the end of a run sets, or nothing where an exception leaves the block. Without
-- the cron library a job with an expression is put off by an hour.
abbrev pub finish : ℕ → Bool → Bool → (String → Cron) → ScheduledJob → Option ScheduledJob
finish now delivery_failed has_croniter croniter job =
    if delivery_failed
    then some
        (record job { last_run_at = some now; next_run_at = some (now + 60); status = active })
    else elim job.cron_expr [
      | none ↦ some (record job { last_run_at = some now; next_run_at = none; status = done })
      | some expr ↦
          if expr == ""
          then some (record job { last_run_at = some now; next_run_at = none; status = done })
          else if not has_croniter
          then some (record job {
            last_run_at = some now;
            next_run_at = some (now + 3600);
            status = active;
          })
          else elim (croniter expr) [
            | next_time t ↦
                some (record job { last_run_at = some now; next_run_at = some t; status = active })
            | cron_error ↦ none
          ]
    ]

-- The same for a heartbeat, where the import stands outside of the `try` and every other exception
-- of the cron library is caught.
abbrev pub finish_heartbeat : ℕ → Bool → (String → Cron) → ScheduledJob → Option ScheduledJob
finish_heartbeat now has_croniter croniter job =
    if not has_croniter then none else elim job.cron_expr [
      | none ↦ some (record job { last_run_at = some now; status = done })
      | some expr ↦
          if expr == ""
          then some (record job { last_run_at = some now; status = done })
          else elim (croniter expr) [
            | next_time t ↦
                some (record job { last_run_at = some now; next_run_at = some t; status = active })
            | cron_error ↦ some (record job {
              last_run_at = some now;
              next_run_at = some (now + 1800);
              status = active;
            })
          ]
    ]

-- What a run meets outside: the agent and the session are found or not, a channel is set or not, the
-- delivery fails or not, and the clock and the cron library at the end.
pub record Surroundings : Type 0 where
  pub agent_found : Bool
  pub session_found : Bool
  pub has_channel : Bool
  pub send_fails : Bool
  pub now : ℕ
  pub has_croniter : Bool
  pub croniter : String → Cron

-- What a run does to the outside; a delivery may fail.
pub data Effect : Type 0 where
  heartbeat published delivery : ℕ → Effect

abbrev pub sends : Bool → ScheduledJob → List Effect
sends true job = published job.session_id ∷ delivery job.session_id ∷ []
sends false job = published job.session_id ∷ []

-- the row of a job replaced
abbrev pub put_job : ScheduledJob → List ScheduledJob → List ScheduledJob
put_job job jobs = update (λ j. j.id == job.id) (λ j. job) jobs

-- a commit of the job, unless an exception has left the block before it
abbrev pub commit : Option ScheduledJob → List ScheduledJob → List ScheduledJob
commit none jobs = jobs
commit (some job) jobs = put_job job jobs

-- `_run_job`, as one transaction
unfoldable pub run_job : Surroundings → ℕ → List ScheduledJob → List Effect × List ScheduledJob
run_job outside job_id jobs = elim (first (where_ (λ j. j.id == job_id) jobs)) [
  | none ↦ ([], jobs)
  | some job ↦
      if not (may_run job.status)
      then ([], jobs)
      else if not outside.agent_found
      then ([], put_job (record job { status = cancelled }) jobs)
      else if is_heartbeat job
      then (
        heartbeat job.id ∷ [],
        commit (finish_heartbeat outside.now outside.has_croniter outside.croniter job) jobs,
      )
      else if not outside.session_found
      then ([], put_job (record job { status = cancelled }) jobs)
      else (
        sends outside.has_channel job,
        commit
            (finish outside.now (outside.has_channel && outside.send_fails) outside.has_croniter
              outside.croniter job)
            jobs,
      )
]
