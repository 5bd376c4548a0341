-- ===== src/Subscription/Plans/Seeding.antt =====
-- The seeding of the core plans.
use self_managed_agents.Base.{
  ap, nat_eq, ℕ, ◌≡◌, refl, true, false, none, some, List, [], ◌∷◌, map, arith, ◌==◌, ==_refl,
  if◌then◌else◌, where_, update, contains, All, All-update, All-imp, update-eq_self, map-update,
  Bool-cases, inl, inr, ◌⊎◌,
}
use self_managed_agents.Base.Outcome.{first}
use self_managed_agents.Subscription.Data.{SubscriptionPlan, Db}
use self_managed_agents.Subscription.Plans.{
  repair, ensure_plan, ensure_plans, default_subscription_plans, ensure_default_subscription_plans,
}

abbrev pub plan_ids : List SubscriptionPlan → List ℕ
plan_ids = map (λ p. p.id)

repair_idem : (p : SubscriptionPlan) → repair (repair p) ≡ repair p
unfolding repair
repair_idem p = ground arith

id-repair : (p : SubscriptionPlan) → (repair p).id ≡ p.id
unfolding repair
id-repair p = ground arith

first-id :
    (k : ℕ) (ps : List SubscriptionPlan)
    → ((p : SubscriptionPlan) × (first (where_ (λ p. p.id == k) ps) ≡ some p)
        × (p.id ≡ k)
        × (contains k (plan_ids ps) ≡ true))
      ⊎ ((first (where_ (λ p. p.id == k) ps) ≡ none) × (contains k (plan_ids ps) ≡ false))
first-id k [] = inr (refl, refl)
first-id k (p ∷ ps) = elim (Bool-cases (p.id == k)) [
  | inl e ↦ inl (p, rw e, ground arith, rw e)
  | inr e ↦ rw e (first-id k ps)
]

-- one round, by whether the snapshot has the plan
ensure_plan_lem :
    (snap ps : List SubscriptionPlan) (d : SubscriptionPlan)
    → ensure_plan snap ps d
      ≡ (if contains d.id (plan_ids snap) then update (λ p. p.id == d.id) repair ps else d ∷ ps)
unfolding ensure_plan
ensure_plan_lem snap ps d = elim (first-id d.id snap) [
  | inl (p, found, same, has) ↦ rw (found, ensure_plan) (simp same (rw has))
  | inr (missing, has) ↦ rw (missing, ensure_plan) (rw has)
]

-- The rows of a plan id are as the seeding leaves them.
abbrev pub IsFixed : ℕ → List SubscriptionPlan → Type 0
IsFixed k = All (λ p. (p.id == k) ≡ true → repair p ≡ p)

-- Rows that are not in the snapshot are.
abbrev NewFixed : List SubscriptionPlan → List SubscriptionPlan → Type 0
NewFixed snap = All (λ p. contains p.id (plan_ids snap) ≡ false → repair p ≡ p)

repaired_keeps :
    (P : SubscriptionPlan → Type 0) (k : ℕ) (d : SubscriptionPlan) (snap ps : List SubscriptionPlan)
    → ((p : SubscriptionPlan) → repair p ≡ p → P p)
    → repair d ≡ d
    → All P ps
    → All P (ensure_plan snap ps d)
repaired_keeps P k d snap ps good fixed h =
    rw (ensure_plan_lem snap ps d) (elim (Bool-cases (contains d.id (plan_ids snap))) [
      | inl e ↦
          rw e
            (All-update P P _ repair (λ p _ _. good (repair p) (repair_idem p)) (λ p x _. x) ps h)
      | inr e ↦ rw e (good d fixed, h)
    ])

makes-IsFixed :
    (d : SubscriptionPlan) (snap ps : List SubscriptionPlan)
    → repair d ≡ d
    → NewFixed snap ps
    → IsFixed d.id (ensure_plan snap ps d)
makes-IsFixed d snap ps fixed h =
    rw (ensure_plan_lem snap ps d) (elim (Bool-cases (contains d.id (plan_ids snap))) [
      | inl e ↦ rw e (
          All-update (λ p. contains p.id (plan_ids snap) ≡ false → repair p ≡ p)
            (λ p. (p.id == d.id) ≡ true → repair p ≡ p) _ repair (λ p _ _ _. repair_idem p)
            (λ p _ no_ yes_. cc) ps h)
      | inr e ↦ rw e (
        λ _. fixed,
        All-imp (λ p. contains p.id (plan_ids snap) ≡ false → repair p ≡ p)
            (λ p. (p.id == d.id) ≡ true → repair p ≡ p)
            (λ p new same. new (let k : p.id ≡ d.id = ground arith in rw k e)) ps h,
      )
    ])

keeps_id :
    (k : ℕ) (snap ps : List SubscriptionPlan) (d : SubscriptionPlan)
    → contains k (plan_ids ps) ≡ true
    → contains k (plan_ids (ensure_plan snap ps d)) ≡ true
keeps_id k snap ps d h =
    rw (ensure_plan_lem snap ps d) (elim (Bool-cases (contains d.id (plan_ids snap))) [
      | inl e ↦
          rw
            (e, map-update (λ (p : SubscriptionPlan). p.id) (λ p. p.id == d.id) repair ps id-repair)
            h
      | inr e ↦ rw e (ground arith)
    ])

-- A plan of the snapshot, or one that has just been added, is there.
adds_id :
    (snap ps : List SubscriptionPlan) (d : SubscriptionPlan)
    → (contains d.id (plan_ids snap) ≡ true → contains d.id (plan_ids ps) ≡ true)
    → contains d.id (plan_ids (ensure_plan snap ps d)) ≡ true
adds_id snap ps d h = elim (Bool-cases (contains d.id (plan_ids snap))) [
  | inl e ↦ keeps_id d.id snap ps d (h e)
  | inr e ↦ rw (ensure_plan_lem snap ps d) (rw e (rw (==_refl d.id) refl))
]

-- A round on rows that have the plan and are as the seeding leaves them changes nothing.
settled :
    (ps : List SubscriptionPlan) (d : SubscriptionPlan)
    → contains d.id (plan_ids ps) ≡ true
    → IsFixed d.id ps
    → ensure_plan ps ps d ≡ ps
settled ps d has fixed = rw (ensure_plan_lem ps ps d) (rw has (update-eq_self _ repair ps fixed))

AllFixed : List SubscriptionPlan → Type 0
AllFixed = All (λ d. repair d ≡ d)

-- What the loop has established for a plan stays so.
abbrev pub IsSettled : List SubscriptionPlan → SubscriptionPlan → Type 0
IsSettled ps d = (contains d.id (plan_ids ps) ≡ true) × IsFixed d.id ps

module _ (snap : List SubscriptionPlan) where
  rounds_keep :
      (d : SubscriptionPlan) (ps ds : List SubscriptionPlan)
      → AllFixed ds
      → IsSettled ps d
      → IsSettled (ensure_plans snap ps ds) d
  unfolding ensure_plans AllFixed
  rounds_keep d ps [] fixed s = s
  rounds_keep d ps (x ∷ ds) (fix_x, fixed) (has, s) =
      rounds_keep d (ensure_plan snap ps x) ds fixed (
        keeps_id d.id snap ps x has,
        repaired_keeps (λ p. (p.id == d.id) ≡ true → repair p ≡ p) d.id x snap ps (λ p e _. e) fix_x
            s,
      )

  rounds_settle :
      (ps ds : List SubscriptionPlan)
      → AllFixed ds
      → NewFixed snap ps
      → ((k : ℕ) → contains k (plan_ids snap) ≡ true → contains k (plan_ids ps) ≡ true)
      → All (IsSettled (ensure_plans snap ps ds)) ds
  unfolding ensure_plans AllFixed
  rounds_settle ps [] fixed new sub = tt
  rounds_settle ps (x ∷ ds) (fix_x, fixed) new sub = (
    rounds_keep x (ensure_plan snap ps x) ds fixed
        (adds_id snap ps x (sub x.id), makes-IsFixed x snap ps fix_x new),
    rounds_settle (ensure_plan snap ps x) ds fixed
        (repaired_keeps (λ p. contains p.id (plan_ids snap) ≡ false → repair p ≡ p) 0 x snap ps
          (λ p e _. e) fix_x new)
        (λ k h. keeps_id k snap ps x (sub k h)),
  )

settled_rounds :
    (ps ds : List SubscriptionPlan) → All (IsSettled ps) ds → ensure_plans ps ps ds ≡ ps
unfolding ensure_plans
settled_rounds ps [] h = refl
settled_rounds ps (d ∷ ds) ((has, fixed), h) = rw (settled ps d has fixed) (settled_rounds ps ds h)

snapshot-NewFixed :
    (snap ps : List SubscriptionPlan)
    → All (λ p. contains p.id (plan_ids snap) ≡ true) ps
    → NewFixed snap ps
snapshot-NewFixed snap ps =
    All-imp (λ p. contains p.id (plan_ids snap) ≡ true)
      (λ p. contains p.id (plan_ids snap) ≡ false → repair p ≡ p) (λ p old new. cc) ps

self_contained : (ps : List SubscriptionPlan) → All (λ p. contains p.id (plan_ids ps) ≡ true) ps
self_contained [] = tt
self_contained (p ∷ ps) = (
  rw (==_refl p.id) refl,
  All-imp (λ x. contains x.id (plan_ids ps) ≡ true) (λ x. contains x.id (plan_ids (p ∷ ps)) ≡ true)
      (λ x h. ground arith) ps (self_contained ps),
)

default-AllFixed : AllFixed default_subscription_plans
unfolding AllFixed repair
default-AllFixed = (refl, (refl, (refl, (refl, tt))))

-- After the seeding, whatever was there, each of the four core plans is present, and every row of
-- one of their ids already holds what the seeding would write to it.
pub ensure_default_subscription_plans_settles :
    (db : Db)
    → All (IsSettled (ensure_default_subscription_plans db).plans) default_subscription_plans
unfolding ensure_default_subscription_plans
ensure_default_subscription_plans_settles db =
    rounds_settle db.plans db.plans default_subscription_plans default-AllFixed
      (snapshot-NewFixed db.plans db.plans (self_contained db.plans)) (λ k h. h)

-- Seeding twice is seeding once, from any tables.
pub ensure_default_subscription_plans_idem :
    (db : Db)
    → ensure_default_subscription_plans (ensure_default_subscription_plans db)
      ≡ ensure_default_subscription_plans db
unfolding ensure_default_subscription_plans
ensure_default_subscription_plans_idem db =
    ap (λ ps. record db { plans = ps })
      (settled_rounds (ensure_plans db.plans db.plans default_subscription_plans)
        default_subscription_plans (ensure_default_subscription_plans_settles db))
