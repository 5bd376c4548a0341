-- ===== src/Scheduler/Reminders/Labels.antt =====
-- app/core/tools/scheduler_tool.py: a label is always found for a new reminder.
use self_managed_agents.Base.{
  nat_eq, string_eq, ℕ, zero, suc, ◌+◌, ◌-◌, ◌≤◌, ◌<◌, ◌≡◌, refl, subst, ap, ◌⊎◌, inl, inr, String,
  true, false, Option, some, List, [], ◌∷◌, ◌==◌, map, contains, length, eq_iff, arith, Bool-cases,
}
use Prim.Native.String.{◌++◌ as join_text}
use self_managed_agents.Base.Decimal.{show_nat, show_nat-inj, join_text-inj}
use self_managed_agents.Base.Pigeonhole.{pigeonhole}
use self_managed_agents.Base.Outcome.{Outcome, ok}
use self_managed_agents.Scheduler.{ScheduledJob}
use self_managed_agents.Scheduler.Reminders.{
  is_active_label, active_jobs, candidate, find_free, choose_label, Schedule, set_as, NewRow,
  new_job, next_of, set_reminder,
}

-- no session has two active jobs of one label
abbrev pub IsUnambiguous : List ScheduledJob → Type 0
IsUnambiguous jobs = (session : ℕ) (label : String) → length (active_jobs session label jobs) ≤ 1

abbrev labels : List ScheduledJob → List String
labels jobs = map (λ j. j.label) jobs

at_most_one :
    (xs : List ScheduledJob) → length xs ≤ 1 → (xs ≡ []) ⊎ ((x : ScheduledJob) × (xs ≡ x ∷ []))
at_most_one [] l = inl refl
at_most_one (x ∷ []) l = inr (x, refl)
at_most_one (x ∷ y ∷ xs) l = absurd (omega (arith, l))

active_jobs-no_label :
    (session : ℕ) (label : String) (jobs : List ScheduledJob)
    → contains label (labels jobs) ≡ false
    → active_jobs session label jobs ≡ []
unfolding is_active_label
active_jobs-no_label session label [] h = refl
active_jobs-no_label session label (j ∷ jobs) h =
    ground (arith, active_jobs-no_label session label jobs)

label-taken :
    (session : ℕ) (label : String) (jobs : List ScheduledJob) (job : ScheduledJob)
    → active_jobs session label jobs ≡ job ∷ []
    → contains label (labels jobs) ≡ true
label-taken session label jobs job e = elim (Bool-cases (contains label (labels jobs))) [
  | inl h ↦ h
  | inr h ↦ let none_ = active_jobs-no_label session label jobs h in absurd cc
]

first_and_rest :
    (base : String) (fuel suffix : ℕ) (ls : List String)
    → contains (candidate base suffix) ls ≡ true
    → ((i : ℕ) → i < fuel → contains (candidate base (suffix + 1 + i)) ls ≡ true)
    → (i : ℕ) → i < suc fuel
    → contains (candidate base (suffix + i)) ls ≡ true
first_and_rest base fuel suffix ls here rest i l = elim (Bool-cases (i == 0)) [
  | inl z ↦ subst (λ n. contains (candidate base n) ls ≡ true) (ground arith) here
  | inr z ↦
      subst (λ n. contains (candidate base n) ls ≡ true) (ground arith)
        (rest (i - 1) (ground arith))
]

candidate-inj : (base : String) (i j : ℕ) → candidate base i ≡ candidate base j → i ≡ j
candidate-inj base i j h = show_nat-inj i j (
    join_text-inj "_" (show_nat i) (show_nat j)
      (join_text-inj base (join_text "_" (show_nat i)) (join_text "_" (show_nat j)) h))

find_free-found :
    (fuel suffix : ℕ) (base : String) (session : ℕ) (jobs : List ScheduledJob)
    → IsUnambiguous jobs
    → ((l : String) × (find_free fuel suffix base session jobs ≡ ok (some l))
        × (active_jobs session l jobs ≡ []))
      ⊎ ((i : ℕ) → i < fuel → contains (candidate base (suffix + i)) (labels jobs) ≡ true)
unfolding find_free
find_free-found zero suffix base session jobs u = inr (λ i l. absurd (omega (arith, l)))
find_free-found (suc fuel) suffix base session jobs u =
    elim (at_most_one (active_jobs session (candidate base suffix) jobs)
      (u session (candidate base suffix))) [
        | inl e ↦ inl (candidate base suffix, rw e refl, e)
        | inr (job, e) ↦ elim (find_free-found fuel (suffix + 1) base session jobs u) [
          | inl (l, found, free) ↦ inl (l, rw e found, free)
          | inr all ↦ inr (λ i l.
              first_and_rest base fuel suffix (labels jobs)
                (label-taken session (candidate base suffix) jobs job e) all i l)
        ]
      ]

length-labels : (jobs : List ScheduledJob) → length (labels jobs) ≡ length jobs
length-labels [] = refl
length-labels (j ∷ jobs) = ap suc (length-labels jobs)

choose_label-found :
    (label : String) (session : ℕ) (jobs : List ScheduledJob)
    → IsUnambiguous jobs
    → (l : String) × (choose_label label session jobs ≡ ok (some l))
      × (active_jobs session l jobs ≡ [])
unfolding choose_label
choose_label-found label session jobs u =
    elim (at_most_one (active_jobs session label jobs) (u session label)) [
      | inl e ↦ (label, rw e refl, e)
      | inr (job, e) ↦ elim (find_free-found (suc (length jobs)) 2 label session jobs u) [
        | inl (l, found, free) ↦ (l, rw e found, free)
        | inr all ↦ absurd (
            omega (
              arith,
              pigeonhole (suc (length jobs)) 2 (candidate label) (labels jobs) (candidate-inj label)
                  all,
              length-labels jobs,
            ))
      ]
    ]

new_job-IsUnambiguous :
    (row : NewRow) (label message : String) (schedule : Schedule) (at : ℕ)
    (jobs : List ScheduledJob)
    → IsUnambiguous jobs
    → active_jobs row.session_id label jobs ≡ []
    → IsUnambiguous (new_job row label message schedule at ∷ jobs)
unfolding is_active_label
new_job-IsUnambiguous row label message schedule at jobs u free session l =
    elim (Bool-cases (is_active_label session l (new_job row label message schedule at))) [
      | inl e ↦
          let s : row.session_id ≡ session = ground arith in
          let t : label ≡ l = (eq_iff label l).0 (ground arith) in
          let none_ : active_jobs session l jobs ≡ [] =
            subst (λ x. active_jobs x l jobs ≡ []) s
              (subst (λ x. active_jobs row.session_id x jobs ≡ []) t free) in
          rw (e, none_) (omega arith)
      | inr e ↦ rw e (u session l)
    ]

-- Where no session has two active jobs of one label and the schedule is understood, the search for a
-- free label ends, the reminder is set under a label that no active job of the session has, and still
-- no session has two active jobs of one label.
pub set_reminder-ends :
    (parse : String → Option Schedule) (next_run : String → Outcome ℕ) (row : NewRow)
    (label message text_ : String) (jobs : List ScheduledJob) (schedule : Schedule) (at : ℕ)
    → IsUnambiguous jobs
    → parse text_ ≡ some schedule
    → next_of parse next_run schedule ≡ ok at
    → (l : String) × (set_reminder parse next_run row label message text_ jobs
        ≡ ok (set_as l, new_job row l message schedule at ∷ jobs))
      × (active_jobs row.session_id l jobs ≡ [])
      × IsUnambiguous (new_job row l message schedule at ∷ jobs)
unfolding set_reminder
set_reminder-ends parse next_run row label message text_ jobs schedule at u parsed next =
    let (l, chosen, free) = choose_label-found label row.session_id jobs u in
    (
      l,
      rw (chosen, parsed, next) refl,
      free,
      new_job-IsUnambiguous row l message schedule at jobs u free,
    )
