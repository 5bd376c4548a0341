-- ===== src/Scheduler/Runs.antt =====
-- What a run of a job leaves behind.
use self_managed_agents.Base.{
  nat_eq, string_eq, ℕ, ◌+◌, ◌≡◌, refl, true, false, ◌&&◌, none, some, List, [], ◌∷◌, ◌==◌, leb,
  where_, arith, Bool-cases, inl, inr,
}
use self_managed_agents.Scheduler.{
  active, done, ScheduledJob, is_due, is_heartbeat, may_run, Surroundings, Effect, put_job, run_job,
  sends,
}

-- the row of a job
abbrev pub job_row : ℕ → List ScheduledJob → List ScheduledJob
job_row i jobs = where_ (λ j. j.id == i) jobs

put_job-absent :
    (i : ℕ) (new : ScheduledJob) (jobs : List ScheduledJob)
    → job_row i jobs ≡ []
    → new.id ≡ i
    → job_row i (put_job new jobs) ≡ []
put_job-absent i new [] h same = refl
put_job-absent i new (j ∷ js) h same = ground (arith, put_job-absent i new js)

job_row-put_job :
    (i : ℕ) (old new : ScheduledJob) (jobs : List ScheduledJob)
    → job_row i jobs ≡ old ∷ []
    → new.id ≡ i
    → job_row i (put_job new jobs) ≡ new ∷ []
job_row-put_job i old new [] h same = cc
job_row-put_job i old new (j ∷ js) h same = elim (Bool-cases (j.id == i)) [
  | inl e ↦ ground (arith, put_job-absent i new js)
  | inr e ↦ ground (arith, job_row-put_job i old new js)
]

row_id :
    (i : ℕ) (jobs : List ScheduledJob) (job : ScheduledJob) → job_row i jobs ≡ job ∷ [] → job.id ≡ i
row_id i [] job h = cc
row_id i (j ∷ js) job h = elim (Bool-cases (j.id == i)) [
  | inl e ↦ ground arith
  | inr e ↦ row_id i js job (rw e at h)
]

-- A job that is paused, cancelled or done does nothing and stays as it is, also after a tick has
-- claimed other jobs.
pub run_job_closed :
    (outside : Surroundings) (i : ℕ) (jobs : List ScheduledJob) (job : ScheduledJob)
    → job_row i jobs ≡ job ∷ []
    → may_run job.status ≡ false
    → run_job outside i jobs ≡ ([], jobs)
unfolding run_job
run_job_closed outside i jobs job found closed = ground (arith, found)

done_table :
    (outside : Surroundings) (i : ℕ) (jobs : List ScheduledJob) (job : ScheduledJob)
    → job_row i jobs ≡ job ∷ []
    → may_run job.status ≡ true
    → is_heartbeat job ≡ false
    → outside.agent_found ≡ true
    → outside.session_found ≡ true
    → (outside.has_channel && outside.send_fails) ≡ false
    → job.cron_expr ≡ none
    → (effects : List Effect) × (run_job outside i jobs ≡ (
      effects,
      put_job
          (record job { last_run_at = some outside.now; next_run_at = none; status = done })
          jobs,
    ))
unfolding run_job
done_table outside i jobs job found may plain agent session delivered once = (
  sends outside.has_channel job,
  ground (arith, found, may, plain, agent, session, delivered, once),
)

retry_table :
    (outside : Surroundings) (i : ℕ) (jobs : List ScheduledJob) (job : ScheduledJob)
    → job_row i jobs ≡ job ∷ []
    → may_run job.status ≡ true
    → is_heartbeat job ≡ false
    → outside.agent_found ≡ true
    → outside.session_found ≡ true
    → (outside.has_channel && outside.send_fails) ≡ true
    → (effects : List Effect) × (run_job outside i jobs ≡ (
      effects,
      put_job
          (record job {
            last_run_at = some outside.now;
            next_run_at = some (outside.now + 60);
            status = active;
          })
          jobs,
    ))
unfolding run_job
retry_table outside i jobs job found may plain agent session failed =
    (sends outside.has_channel job, ground (arith, found, may, plain, agent, session, failed))

-- A reminder that was delivered, without a cron expression, is done, and is never due again.
pub one_time_job_is_done :
    (outside : Surroundings) (i later : ℕ) (jobs : List ScheduledJob) (job : ScheduledJob)
    → job_row i jobs ≡ job ∷ []
    → may_run job.status ≡ true
    → is_heartbeat job ≡ false
    → outside.agent_found ≡ true
    → outside.session_found ≡ true
    → (outside.has_channel && outside.send_fails) ≡ false
    → job.cron_expr ≡ none
    → (after : ScheduledJob) × (job_row i (run_job outside i jobs).1 ≡ after ∷ [])
      × (after.status ≡ done)
      × (is_due later after ≡ false)
      × (run_job outside i (run_job outside i jobs).1 ≡ ([], (run_job outside i jobs).1))
unfolding is_due
one_time_job_is_done outside i later jobs job found may plain agent session delivered once =
    let after : ScheduledJob = record job {
      last_run_at = some outside.now;
      next_run_at = none;
      status = done;
    } in
    let (effects, ran) =
      done_table outside i jobs job found may plain agent session delivered once in
    let row : job_row i (put_job after jobs) ≡ after ∷ [] =
      job_row-put_job i job after jobs found (row_id i jobs job found) in
    (
      after,
      rw ran row,
      refl,
      ground arith,
      rw ran (run_job_closed outside i (put_job after jobs) after row refl),
    )

-- A failed delivery is tried again: the job is active and due exactly from one minute after it on.
pub failed_delivery_is_retried :
    (outside : Surroundings) (i later : ℕ) (jobs : List ScheduledJob) (job : ScheduledJob)
    → job_row i jobs ≡ job ∷ []
    → may_run job.status ≡ true
    → is_heartbeat job ≡ false
    → outside.agent_found ≡ true
    → outside.session_found ≡ true
    → (outside.has_channel && outside.send_fails) ≡ true
    → (after : ScheduledJob) × (job_row i (run_job outside i jobs).1 ≡ after ∷ [])
      × (after.status ≡ active)
      × (is_due later after ≡ leb (outside.now + 60) later)
unfolding is_due
failed_delivery_is_retried outside i later jobs job found may plain agent session failed =
    let after : ScheduledJob = record job {
      last_run_at = some outside.now;
      next_run_at = some (outside.now + 60);
      status = active;
    } in
    let (effects, ran) = retry_table outside i jobs job found may plain agent session failed in
    let row : job_row i (put_job after jobs) ≡ after ∷ [] =
      job_row-put_job i job after jobs found (row_id i jobs job found) in
    (after, rw ran row, refl, ground arith)
