-- ===== src/Scheduler/Claims.antt =====
-- What a tick claims, and in which order.
use self_managed_agents.Base.{
  nat_eq, string_eq, ℕ, ◌+◌, ◌<◌, ◌≡◌, refl, sym, ◌∙◌, Bool, true, false, not, ◌&&◌, List, [], ◌∷◌,
  map, ◌==◌, where_, update, contains, Distinct, arith, Bool-cases, inl, inr,
}
use self_managed_agents.Scheduler.{
  ScheduledJob, stale_after, is_due, comes_before, insert_job, sort_jobs, claim, tick,
}

abbrev pub job_ids : List ScheduledJob → List ℕ
job_ids jobs = map (λ j. j.id) jobs

abbrev MayLead : ScheduledJob → List ScheduledJob → Type 0
MayLead j [] = Unit
MayLead j (k ∷ ks) = comes_before j k ≡ true

-- Each job may stand before the one that follows.
abbrev pub IsOrdered : List ScheduledJob → Type 0
IsOrdered [] = Unit
IsOrdered (j ∷ js) = MayLead j js × IsOrdered js

comes_before_total : (a b : ScheduledJob) → comes_before a b ≡ false → comes_before b a ≡ true
unfolding comes_before
comes_before_total a b h = ground arith

contains-insert_job :
    (i : ℕ) (job : ScheduledJob) (jobs : List ScheduledJob)
    → contains i (job_ids (insert_job job jobs)) ≡ contains i (job.id ∷ job_ids jobs)
unfolding insert_job
contains-insert_job i job [] = refl
contains-insert_job i job (j ∷ js) = ground (arith, contains-insert_job i job js)

contains-sort_jobs :
    (i : ℕ) (jobs : List ScheduledJob)
    → contains i (job_ids (sort_jobs jobs)) ≡ contains i (job_ids jobs)
unfolding sort_jobs
contains-sort_jobs i [] = refl
contains-sort_jobs i (job ∷ jobs) =
    ground (arith, contains-insert_job i job (sort_jobs jobs), contains-sort_jobs i jobs)

claimed_is_not_due :
    (now later : ℕ) (job : ScheduledJob)
    → later < now + stale_after
    → is_due later (claim now job) ≡ false
unfolding is_due
claimed_is_not_due now later job h = ground arith

absent_stays :
    (i : ℕ) (p q : ScheduledJob → Bool) (f : ScheduledJob → ScheduledJob) (jobs : List ScheduledJob)
    → ((j : ScheduledJob) → (f j).id ≡ j.id)
    → contains i (job_ids jobs) ≡ false
    → contains i (job_ids (where_ q (update p f jobs))) ≡ false
absent_stays i p q f [] h k = refl
absent_stays i p q f (j ∷ js) h k = ground (arith, absent_stays i p q f js h, h j)

absent-where :
    (i : ℕ) (p : ScheduledJob → Bool) (jobs : List ScheduledJob)
    → contains i (job_ids jobs) ≡ false
    → contains i (job_ids (where_ p jobs)) ≡ false
absent-where i p [] k = refl
absent-where i p (j ∷ js) k = ground (arith, absent-where i p js)

not_picked_again :
    (i now later : ℕ) (skipped skipped' : ℕ → Bool) (jobs : List ScheduledJob)
    → Distinct (job_ids jobs)
    → later < now + stale_after
    → contains i (job_ids (where_ (λ j. is_due now j && not (skipped j.id)) jobs)) ≡ true
    → contains i (
        job_ids (
          where_
            (λ j. is_due later j && not (skipped' j.id))
            (update (λ j. is_due now j && not (skipped j.id)) (claim now) jobs)))
      ≡ false
not_picked_again i now later skipped skipped' [] d h k = refl
not_picked_again i now later skipped skipped' (j ∷ js) (new, d) h k =
    elim (Bool-cases (j.id == i)) [
      | inl same ↦ ground (
        arith,
        absent_stays i (λ j. is_due now j && not (skipped j.id))
            (λ j. is_due later j && not (skipped' j.id)) (claim now) js (λ j. refl),
        absent-where i (λ j. is_due now j && not (skipped j.id)) js,
        claimed_is_not_due now later j h,
      )
      | inr other ↦ ground (arith, not_picked_again i now later skipped skipped' js d h)
    ]

-- A job that a tick has started is not started again by a later tick within 15 minutes of it, where
-- no other write comes between, whichever rows other transactions hold.
pub tick_once :
    (i now later : ℕ) (skipped skipped' : ℕ → Bool) (jobs : List ScheduledJob)
    → Distinct (job_ids jobs)
    → later < now + stale_after
    → contains i (tick skipped now jobs).0 ≡ true
    → contains i (tick skipped' later (tick skipped now jobs).1).0 ≡ false
unfolding tick
tick_once i now later skipped skipped' jobs d h started =
    contains-sort_jobs i _
    ∙ not_picked_again i now later skipped skipped' jobs d h
        (sym (contains-sort_jobs i _) ∙ started)

insert_job-MayLead :
    (j job : ScheduledJob) (jobs : List ScheduledJob)
    → comes_before j job ≡ true
    → MayLead j jobs
    → MayLead j (insert_job job jobs)
unfolding insert_job
insert_job-MayLead j job [] h k = h
insert_job-MayLead j job (x ∷ xs) h k = elim (Bool-cases (comes_before job x)) [
  | inl e ↦ rw e h
  | inr e ↦ rw e k
]

insert_job-IsOrdered :
    (job : ScheduledJob) (jobs : List ScheduledJob)
    → IsOrdered jobs
    → IsOrdered (insert_job job jobs)
unfolding insert_job
insert_job-IsOrdered job [] h = (tt, tt)
insert_job-IsOrdered job (j ∷ js) (lead, h) = elim (Bool-cases (comes_before job j)) [
  | inl e ↦ rw e (e, (lead, h))
  | inr e ↦
      rw e (
        insert_job-MayLead j job js (comes_before_total job j e) lead,
        insert_job-IsOrdered job js h,
      )
]

sort_jobs-IsOrdered : (jobs : List ScheduledJob) → IsOrdered (sort_jobs jobs)
unfolding sort_jobs
sort_jobs-IsOrdered [] = tt
sort_jobs-IsOrdered (job ∷ jobs) =
    insert_job-IsOrdered job (sort_jobs jobs) (sort_jobs-IsOrdered jobs)

-- A tick starts exactly the jobs that are due and not locked by another transaction: reminders before
-- heartbeats, and among each the earlier due first.
pub tick_starts :
    (now : ℕ) (skipped : ℕ → Bool) (jobs : List ScheduledJob)
    → (started : List ScheduledJob) × ((tick skipped now jobs).0 ≡ job_ids started)
      × IsOrdered started
      × ((i : ℕ)
          → contains i (job_ids started)
            ≡ contains i (job_ids (where_ (λ j. is_due now j && not (skipped j.id)) jobs)))
unfolding tick
tick_starts now skipped jobs =
    let picked = where_ (λ j. is_due now j && not (skipped j.id)) jobs in
    (sort_jobs picked, refl, sort_jobs-IsOrdered picked, λ i. contains-sort_jobs i picked)
