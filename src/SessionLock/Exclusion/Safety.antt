-- ===== src/SessionLock/Exclusion/Safety.antt =====
-- Every step keeps what makes the lock exclusive.
use self_managed_agents.Base.{
  nat_eq, option_eq, ℕ, ◌+◌, ◌<◌, Bool, List, Option-cases, ◌||◌, or_zero, ◌≡◌, refl, sym, ap, ◌∙◌,
  subst, ◌⊎◌, inl, inr, true, false, Option, none, some, ◌==◌, if◌then◌else◌, arith, Bool-cases,
}
use self_managed_agents.Base.Dict.{lookup, insert, remove}
use self_managed_agents.SessionLock.{
  Entry, Registry, get_lock, set_acquired, maybe_evict, is_session_busy, acquire, release, new_lock,
  Unwinding, already_done, stops_in_time, raises_in_time, too_slow, cancel_active_run,
  force_release_session_lock, register_active_task, unregister_active_task,
  mark_latest_session_turn,
}
use self_managed_agents.SessionLock.Exclusion.{
  waiting, holding, Call, System, set_call, Stays, Step, enters, acquires, releases, gives_up,
  evicts, cancels, registers, unregisters, marks_turn, displace, calls_after, Steps, done,
  next_step, IsExclusive,
}
use self_managed_agents.SessionLock.Exclusion.Laws.{
  Has, IsMade, new_lock-Has_other, new_lock-IsMade, new_lock-holder, get_lock-known, get_lock-next,
  set_acquired-next, get_lock-Has, get_lock-Has_other, get_lock-holder, get_lock-IsMade,
  enter-get_lock, set_acquired-Has, set_acquired-IsMade, set_acquired-holder, keep_fresh-lookup,
  keep_fresh-AllValues,
}

set_call-cases :
    (run : ℕ) (o : Option Call) (calls : ℕ → Option Call) (r : ℕ) (c : Call)
    → set_call run o calls r ≡ some c
    → ((r ≡ run) × (o ≡ some c)) ⊎ (((r == run) ≡ false) × (calls r ≡ some c))
set_call-cases run o calls r c h = elim (Bool-cases (r == run)) [
  | inl e ↦ inl (ground arith, ground arith)
  | inr e ↦ inr (e, ground arith)
]

-- The system after a call has asked for the registered lock.
abbrev entered : ℕ → ℕ → ℕ → System → ℕ × Registry → System
entered run session now sys (lock, r) = record {
  registry = r;
  calls =
      set_call run
        (some (record { session = session; lock = lock; phase = waiting; displaced = false }))
        sys.calls;
}

entered-IsExclusive :
    (run session now : ℕ) (sys : System)
    → IsExclusive sys
    → IsExclusive (entered run session now sys (get_lock session now sys.registry))
entered-IsExclusive run session now sys h =
    let c₀ : Call = record {
      session = session;
      lock = (get_lock session now sys.registry).0;
      phase = waiting;
      displaced = false;
    } in
    record {
      registered = λ r c e u. elim (set_call-cases run (some c₀) sys.calls r c e) [
        | inl (_, new) ↦
            let same : c₀ ≡ c = ground arith in
            subst (λ (x : Call). Has x.session x.lock (get_lock session now sys.registry).1) same
              (get_lock-Has session now sys.registry)
        | inr (_, old) ↦
            get_lock-Has_other session c.session c.lock now sys.registry (h.registered r c old u)
      ];
      held = λ r c e p. elim (set_call-cases run (some c₀) sys.calls r c e) [
        | inl (_, new) ↦ absurd (ground arith)
        | inr (_, old) ↦
            get_lock-holder session c.lock now sys.registry (h.known r c old) ∙ h.held r c old p
      ];
      known = λ r c e. elim (set_call-cases run (some c₀) sys.calls r c e) [
        | inl (_, new) ↦
            let same : c₀ ≡ c = ground arith in
            subst (λ (x : Call). x.lock < (get_lock session now sys.registry).1.next) same
              (get_lock-known session now sys.registry h.made)
        | inr (_, old) ↦ omega (arith, h.known r c old, get_lock-next session now sys.registry)
      ];
      made = get_lock-IsMade session now sys.registry h.made;
    }

acquired-IsExclusive :
    (run session lock now : ℕ) (displaced : Bool) (sys : System) (r : Registry)
    → IsExclusive sys
    → sys.calls run
      ≡ some (record { session = session; lock = lock; phase = waiting; displaced = displaced })
    → acquire run session lock now sys.registry ≡ some r
    → IsExclusive (record {
      registry = r;
      calls =
          set_call run
            (some
              (record { session = session; lock = lock; phase = holding; displaced = displaced }))
            sys.calls;
    })
unfolding acquire
acquired-IsExclusive run session lock now displaced sys r h mine got =
    let c₁ : Call = record {
      session = session;
      lock = lock;
      phase = holding;
      displaced = displaced;
    } in
    let taken : Registry = record sys.registry {
      holder = λ l. if l == lock then some run else sys.registry.holder l;
    } in
    let free : sys.registry.holder lock ≡ none = ground (arith, got) in
    let same : set_acquired session (some now) taken ≡ r = ground (arith, got) in
    let holders : r.holder ≡ taken.holder =
      ap (λ (x : Registry). x.holder) (sym same) ∙ set_acquired-holder session (some now) taken in
    record {
      registered = λ q c e u.
          subst (λ x. Has c.session c.lock x) same
            (set_acquired-Has session c.session c.lock (some now) taken
              (elim (set_call-cases run (some c₁) sys.calls q c e) [
                | inl (_, new) ↦
                    let this : c₁ ≡ c = ground arith in
                    subst (λ (x : Call). Has x.session x.lock sys.registry) this
                      (h.registered run _ mine (ground (arith, u, this)))
                | inr (_, old) ↦ h.registered q c old u
              ]));
      held = λ q c e p.
          ap (λ f. f c.lock) holders ∙ elim (set_call-cases run (some c₁) sys.calls q c e) [
            | inl (this, new) ↦ ground arith
            | inr (other, old) ↦ ground (arith, h.held q c old p)
          ];
      known = λ q c e.
          let next : r.next ≡ sys.registry.next =
            ap (λ (x : Registry). x.next) (sym same) ∙ set_acquired-next session (some now) taken in
          elim (set_call-cases run (some c₁) sys.calls q c e) [
            | inl (_, new) ↦
                let this : c₁ ≡ c = ground arith in
                rw next (subst (λ (x : Call). x.lock < sys.registry.next) this (h.known run _ mine))
            | inr (_, old) ↦ rw next (h.known q c old)
          ];
      made = subst IsMade same (set_acquired-IsMade session (some now) taken h.made);
    }

released-IsExclusive :
    (run session lock : ℕ) (displaced : Bool) (sys : System)
    → IsExclusive sys
    → sys.calls run
      ≡ some (record { session = session; lock = lock; phase = holding; displaced = displaced })
    → IsExclusive (record {
      registry = release session lock sys.registry;
      calls = set_call run none sys.calls;
    })
unfolding release
released-IsExclusive run session lock displaced sys h mine = record {
  registered = λ q c e u. elim (set_call-cases run none sys.calls q c e) [
    | inl (_, new) ↦ absurd (ground arith)
    | inr (_, old) ↦
        set_acquired-Has session c.session c.lock none sys.registry (h.registered q c old u)
  ];
  held = λ q c e p. elim (set_call-cases run none sys.calls q c e) [
    | inl (_, new) ↦ absurd (ground arith)
    | inr (other, old) ↦ ground (
      arith,
      ap (λ f. f c.lock) (set_acquired-holder session none sys.registry),
      h.held q c old p,
      h.held run _ mine refl,
    )
  ];
  known = λ q c e. elim (set_call-cases run none sys.calls q c e) [
    | inl (_, new) ↦ absurd (ground arith)
    | inr (_, old) ↦ rw (set_acquired-next session none sys.registry) (h.known q c old)
  ];
  made = set_acquired-IsMade session none sys.registry h.made;
}

left-IsExclusive :
    (run : ℕ) (sys : System)
    → IsExclusive sys
    → IsExclusive (record sys { calls = set_call run none sys.calls })
left-IsExclusive run sys h = record {
  registered = λ q c e u. elim (set_call-cases run none sys.calls q c e) [
    | inl (_, new) ↦ absurd (ground arith)
    | inr (_, old) ↦ h.registered q c old u
  ];
  held = λ q c e p. elim (set_call-cases run none sys.calls q c e) [
    | inl (_, new) ↦ absurd (ground arith)
    | inr (_, old) ↦ h.held q c old p
  ];
  known = λ q c e. elim (set_call-cases run none sys.calls q c e) [
    | inl (_, new) ↦ absurd (ground arith)
    | inr (_, old) ↦ h.known q c old
  ];
  made = h.made;
}

evicted-IsExclusive :
    (sys : System) (now : ℕ)
    → IsExclusive sys
    → ((run : ℕ) (c : Call) (entry : Entry)
        → sys.calls run ≡ some c
        → c.displaced ≡ false
        → lookup c.session sys.registry.locks ≡ some entry
        → Stays now sys.registry entry)
    → IsExclusive (record sys { registry = maybe_evict now sys.registry })
unfolding maybe_evict
evicted-IsExclusive sys now h fresh = record {
  registered = λ q c e u.
      let (entry, found, same) = h.registered q c e u in
      (
        entry,
        keep_fresh-lookup now c.session sys.registry sys.registry.locks entry found
            (fresh q c entry e u found),
        same,
      );
  held = λ q c e p. h.held q c e p;
  known = λ q c e. h.known q c e;
  made =
      keep_fresh-AllValues (λ (x : Entry). x.lock < sys.registry.next) now sys.registry
        sys.registry.locks h.made;
}

-- A displaced call was one before, and keeps its lock and its phase.
displace-cases :
    (session : ℕ) (calls : ℕ → Option Call) (run : ℕ) (c : Call)
    → displace session calls run ≡ some c
    → (d : Call) × (calls run ≡ some d)
      × (c.lock ≡ d.lock)
      × (c.phase ≡ d.phase)
      × (c.displaced ≡ false → (d ≡ c) × ((session == c.session) ≡ false))
displace-cases session calls run c h = elim (Option-cases (calls run)) [
  | inl e ↦ absurd (ground arith)
  | inr (d, e) ↦ elim (Bool-cases (d.session == session)) [
    | inl g ↦
        let same : record d { displaced = true } ≡ c = ground arith in
        (
          d,
          e,
          ap (λ (x : Call). x.lock) (sym same),
          ap (λ (x : Call). x.phase) (sym same),
          λ u. let t = ap (λ (x : Call). x.displaced) same in absurd cc,
        )
    | inr g ↦
        let same : d ≡ c = ground arith in
        (
          d,
          e,
          ap (λ (x : Call). x.lock) (sym same),
          ap (λ (x : Call). x.phase) (sym same),
          λ u. (same, let t = ap (λ (x : Call). x.session) same in ground arith),
        )
  ]
]

forced-IsExclusive :
    (session now : ℕ) (sys : System)
    → IsExclusive sys
    → IsExclusive (record {
      registry = (new_lock session now sys.registry).1;
      calls = displace session sys.calls;
    })
forced-IsExclusive session now sys h = record {
  registered = λ q c e u.
      let (d, old, lock, phase, kept) = displace-cases session sys.calls q c e in
      let (same, differs) = kept u in
      new_lock-Has_other session c.session c.lock now sys.registry differs
        (h.registered q c (old ∙ ap (λ x. some x) same) u);
  held = λ q c e p.
      let (d, old, lock, phase, kept) = displace-cases session sys.calls q c e in
      rw lock (
        new_lock-holder session d.lock now sys.registry (h.known q d old)
        ∙ h.held q d old (sym phase ∙ p));
  known = λ q c e.
      let (d, old, lock, phase, kept) = displace-cases session sys.calls q c e in
      rw lock (omega (arith, h.known q d old));
  made = new_lock-IsMade session now sys.registry h.made;
}

cancelled-IsExclusive :
    (session now : ℕ) (unwinding : ℕ → Unwinding) (sys : System)
    → IsExclusive sys
    → IsExclusive (record {
      registry = (cancel_active_run session unwinding now sys.registry).1;
      calls = calls_after session unwinding sys.registry sys.calls;
    })
unfolding cancel_active_run force_release_session_lock
cancelled-IsExclusive session now unwinding sys h =
    elim (Option-cases (lookup session sys.registry.active_tasks)) [
      | inl e ↦ rw (cancel_active_run, calls_after, e) h
      | inr (task, e) ↦ by_unwinding task e (unwinding task) refl
    ]
  where
    by_unwinding :
        (task : ℕ)
        → lookup session sys.registry.active_tasks ≡ some task
        → (w : Unwinding) → unwinding task ≡ w
        → IsExclusive (record {
          registry = (cancel_active_run session unwinding now sys.registry).1;
          calls = calls_after session unwinding sys.registry sys.calls;
        })
    by_unwinding task e already_done w = rw (cancel_active_run, calls_after, e, w) h
    by_unwinding task e stops_in_time w = rw (cancel_active_run, calls_after, e, w) h
    by_unwinding task e raises_in_time w = rw (cancel_active_run, calls_after, e, w) h
    by_unwinding task e too_slow w =
        rw (cancel_active_run, calls_after, e, w) (forced-IsExclusive session now sys h)

-- A step that writes neither to the locks nor to the calls.
unlocked-IsExclusive :
    (sys : System) (tasks generations : List (ℕ × ℕ))
    → IsExclusive sys
    → IsExclusive (record sys {
      registry = record sys.registry { active_tasks = tasks; turn_generations = generations };
    })
unlocked-IsExclusive sys tasks generations h = record {
  registered = h.registered;
  held = h.held;
  known = h.known;
  made = h.made;
}

step-IsExclusive : {timeout : ℕ} {a b : System} → Step timeout a b → IsExclusive a → IsExclusive b
unfolding register_active_task unregister_active_task mark_latest_session_turn
step-IsExclusive {timeout} (enters sys run session now new usual) h =
    subst
      (λ x. IsExclusive (record {
        registry = x.1;
        calls =
            set_call run
              (some (record { session = session; lock = x.0; phase = waiting; displaced = false }))
              sys.calls;
      }))
      (sym (enter-get_lock timeout session now sys.registry usual))
      (entered-IsExclusive run session now sys h)
step-IsExclusive (acquires sys run session lock now displaced r mine got) h =
    acquired-IsExclusive run session lock now displaced sys r h mine got
step-IsExclusive (releases sys run session lock displaced mine) h =
    released-IsExclusive run session lock displaced sys h mine
step-IsExclusive (gives_up sys run session lock displaced mine) h = left-IsExclusive run sys h
step-IsExclusive (evicts sys now fresh) h = evicted-IsExclusive sys now h fresh
step-IsExclusive (cancels sys session now unwinding) h =
    cancelled-IsExclusive session now unwinding sys h
step-IsExclusive (registers sys session task) h =
    unlocked-IsExclusive sys (insert session task sys.registry.active_tasks)
      sys.registry.turn_generations h
step-IsExclusive (unregisters sys session task) h =
    elim (Bool-cases (task == none || lookup session sys.registry.active_tasks == task)) [
      | inl e ↦
          rw (unregister_active_task, e)
            (unlocked-IsExclusive sys (remove session sys.registry.active_tasks)
              sys.registry.turn_generations h)
      | inr e ↦ rw (unregister_active_task, e) h
    ]
step-IsExclusive (marks_turn sys session) h =
    unlocked-IsExclusive sys sys.registry.active_tasks
      (insert session (or_zero (lookup session sys.registry.turn_generations) + 1)
        sys.registry.turn_generations)
      h

Steps-IsExclusive : {timeout : ℕ} {a b : System} → Steps timeout a b → IsExclusive a → IsExclusive b
Steps-IsExclusive (done sys) h = h
Steps-IsExclusive (next_step a b c s ss) h = Steps-IsExclusive ss (step-IsExclusive s h)

-- Through any steps, slow cancellations included, in which no run outlives the time that a run may take
-- and eviction meets no free lock that a call waits for past its time to live: two calls of one session
-- that hold their locks, and of which a slow cancellation has displaced neither, are the same run, and
-- the session is then reported busy.
pub one_run_at_a_time :
    {timeout : ℕ} {start end_ : System} (p q : ℕ) (c d : Call)
    → Steps timeout start end_
    → IsExclusive start
    → end_.calls p ≡ some c
    → end_.calls q ≡ some d
    → c.phase ≡ holding
    → d.phase ≡ holding
    → c.displaced ≡ false
    → d.displaced ≡ false
    → c.session ≡ d.session
    → (p ≡ q) × (is_session_busy c.session end_.registry ≡ true)
unfolding is_session_busy
one_run_at_a_time {end_ = sys} p q c d ss h ec ed hc hd uc ud same =
    let i = Steps-IsExclusive ss h in
    let (e, found, lock) = i.registered p c ec uc in
    let (f, found', lock') = i.registered q d ed ud in
    let one : e ≡ f = ground (arith, same) in
    let locks : c.lock ≡ d.lock = sym lock ∙ ap (λ (x : Entry). x.lock) one ∙ lock' in
    let held = i.held p c ec hc in
    let held' = i.held q d ed hd in
    (ground (arith, locks, held, held'), ground (arith, found, lock, held))
