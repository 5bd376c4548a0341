-- ===== src/Subscription/Lookup/Best.antt =====
-- The choice among several subscriptions.
use self_managed_agents.Base.{
  where_, subst, sym, ◌∙◌, nat_eq, ℕ, ◌≡◌, inl, inr, Bool, true, false, Option, some, List, [], ◌∷◌,
  arith, All, All-imp, Bool-cases, if◌then◌else◌, String,
}
use self_managed_agents.Subscription.Lookup.{
  identifier_variants, is_candidate, join, get_best_subscription_by_external_ids, Row, Score, score,
  worse, max_from, choose_best,
}
use self_managed_agents.Subscription.Data.{Db}

worse_irrefl : (a : Score) → worse a a ≡ false
unfolding worse
worse_irrefl a = ground arith

-- a row that a best one is not worse than stays so when the best one grows
worse_step : (a b c : Score) → worse a b ≡ true → worse a c ≡ false → worse b c ≡ false
unfolding worse
worse_step a b c h k = ground arith

worse_asym : (a b : Score) → worse a b ≡ true → worse b a ≡ false
unfolding worse
worse_asym a b h = ground arith

module _ (key : Row → Score) where
  -- The maximum is no worse than the row that the search starts from, nor than any other.
  max_from_start :
      (best : Row) (rs : List Row) (c : Score)
      → worse (key best) c ≡ false
      → worse (key (max_from key best rs)) c ≡ false
  unfolding max_from
  max_from_start best [] c h = h
  max_from_start best (r ∷ rs) c h = elim (Bool-cases (worse (key best) (key r))) [
    | inl e ↦ rw e (max_from_start r rs c (worse_step (key best) (key r) c e h))
    | inr e ↦ rw e (max_from_start best rs c h)
  ]

  abbrev NoneBetter : List Row → Row → Type 0
  NoneBetter rows m = All (λ r. worse (key m) (key r) ≡ false) rows

  max_from_cons :
      (best r : Row) (rs : List Row)
      → max_from key best (r ∷ rs)
        ≡ (if worse (key best) (key r) then max_from key r rs else max_from key best rs)
  unfolding max_from
  max_from_cons best r rs = elim (Bool-cases (worse (key best) (key r))) [
    | inl e ↦ rw e
    | inr e ↦ rw e
  ]

  max_from_maximal : (best : Row) (rs : List Row) → NoneBetter (best ∷ rs) (max_from key best rs)
  unfolding max_from
  max_from_maximal best [] = (worse_irrefl (key best), tt)
  max_from_maximal best (r ∷ rs) = elim (Bool-cases (worse (key best) (key r))) [
    | inl e ↦
        subst (NoneBetter (best ∷ r ∷ rs)) (sym (max_from_cons best r rs ∙ rw e))
          (max_from_start r rs (key best) (worse_asym (key best) (key r) e), max_from_maximal r rs)
    | inr e ↦
        let (start, others) = max_from_maximal best rs in
        subst (NoneBetter (best ∷ r ∷ rs)) (sym (max_from_cons best r rs ∙ rw e))
          (start, (max_from_start best rs (key r) e, others))
  ]

-- A row on a trial is the best only where every candidate is on a trial.
trial_if_best :
    (identifiers : List String) (m r : Row)
    → worse (score identifiers m) (score identifiers r) ≡ false
    → m.plan.is_trial ≡ true
    → r.plan.is_trial ≡ true
unfolding worse score
trial_if_best identifiers m r h t = ground arith

-- The rows that the lookup chooses from.
abbrev pub candidates : (String → Option ℕ) → List (Option String) → Db → List Row
candidates uuid_of external_ids db =
    let (identifiers, user_ids) = identifier_variants uuid_of external_ids in
    join (where_ (is_candidate identifiers user_ids) db.users) db.subscriptions db.plans

module _ (uuid_of : String → Option ℕ) (ilike : Option String → String → Bool) where
  -- What a paid name match returns is paid, so a trial that is returned is the best candidate.
  choose_best_trial :
      (identifiers : List String) (name : String) (db : Db) (rows : List Row) (m : Row)
      → choose_best uuid_of ilike identifiers name db rows ≡ some m
      → m.plan.is_trial ≡ true
      → All (λ r. r.plan.is_trial ≡ true) rows
  unfolding choose_best
  choose_best_trial identifiers name db [] m h t = tt
  choose_best_trial identifiers name db (r ∷ rs) m h t =
      let best = max_from (score identifiers) r rs in
      let on_trial : best.plan.is_trial ≡ true = elim (Bool-cases best.plan.is_trial) [
        | inl e ↦ e
        | inr e ↦ ground arith
      ] in
      All-imp (λ x. worse (score identifiers best) (score identifiers x) ≡ false)
        (λ x. x.plan.is_trial ≡ true) (λ x p. trial_if_best identifiers best x p on_trial) (r ∷ rs)
        (max_from_maximal (score identifiers) r rs)

  -- A trial row is returned only where every subscription found under the sender's identifiers is a
  -- trial: a paid plan among them is never passed over for a trial.
  pub get_best_subscription_by_external_ids_trial :
      (external_ids : List (Option String)) (sender_name : Option String) (db : Db) (m : Row)
      → get_best_subscription_by_external_ids uuid_of ilike external_ids sender_name db ≡ some m
      → m.plan.is_trial ≡ true
      → All (λ r. r.plan.is_trial ≡ true) (candidates uuid_of external_ids db)
  unfolding get_best_subscription_by_external_ids
  get_best_subscription_by_external_ids_trial external_ids sender_name db m h t =
      choose_best_trial _ _ db (candidates uuid_of external_ids db) m h t
