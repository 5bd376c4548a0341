-- ===== src/Subscription/Plans.antt =====
-- The four core plans and the seeding of them (subscription_service.py).
pub mod Seeding
use self_managed_agents.Base.{
  nat_eq, string_eq, ℕ, String, Bool, true, false, Option, none, some, List, [], ◌∷◌, ◌==◌,
  if◌then◌else◌, where_, update,
}
use self_managed_agents.Base.Outcome.{first}
use self_managed_agents.Subscription.Data.{
  SubscriptionPlan, trial_id, tier_1_id, tier_2_id, tier_3_id, Db,
}

abbrev pub tier_3_token_quota : ℕ
tier_3_token_quota = 100_000_000

-- DEFAULT_SUBSCRIPTION_PLANS
abbrev pub trial_plan : SubscriptionPlan
trial_plan = record {
  id = trial_id;
  code = "trial";
  label = "Trial";
  max_agents = some 1;
  token_quota = 5_000_000;
  period_days = some 14;
  grace_period_days = 3;
  allowed_models = "openai/gpt-4.1-mini" ∷ [];
  subagents_allowed = true;
  wa_connect = true;
  is_trial = true;
  is_active = true;
}

abbrev pub tier_1_plan : SubscriptionPlan
tier_1_plan = record {
  id = tier_1_id;
  code = "tier_1";
  label = "Starter";
  max_agents = some 1;
  token_quota = 10_000_000;
  period_days = some 30;
  grace_period_days = 3;
  allowed_models = "openai/gpt-4.1-mini" ∷ [];
  subagents_allowed = true;
  wa_connect = true;
  is_trial = false;
  is_active = true;
}

abbrev pub tier_2_plan : SubscriptionPlan
tier_2_plan = record {
  id = tier_2_id;
  code = "tier_2";
  label = "Pro";
  max_agents = some 2;
  token_quota = 20_000_000;
  period_days = some 30;
  grace_period_days = 3;
  allowed_models = "openai/gpt-4.1-mini" ∷ "deepseek/deepseek-v4-flash" ∷ [];
  subagents_allowed = true;
  wa_connect = true;
  is_trial = false;
  is_active = true;
}

abbrev pub tier_3_plan : SubscriptionPlan
tier_3_plan = record {
  id = tier_3_id;
  code = "tier_3";
  label = "Enterprise";
  max_agents = none;
  token_quota = tier_3_token_quota;
  period_days = none;
  grace_period_days = 7;
  allowed_models = [];
  subagents_allowed = true;
  wa_connect = true;
  is_trial = false;
  is_active = true;
}

abbrev pub default_subscription_plans : List SubscriptionPlan
default_subscription_plans = trial_plan ∷ tier_1_plan ∷ tier_2_plan ∷ tier_3_plan ∷ []

-- what the loop writes to a plan that exists
unfoldable pub repair_tier_3 : SubscriptionPlan → SubscriptionPlan
repair_tier_3 plan =
    if plan.id == tier_3_id
    then record plan { max_agents = none; token_quota = tier_3_token_quota }
    else plan

unfoldable pub repair_trial : SubscriptionPlan → SubscriptionPlan
repair_trial plan =
    if plan.id == trial_id
    then record plan {
      max_agents = some 1;
      token_quota = 5_000_000;
      period_days = some 14;
      allowed_models = "openai/gpt-4.1-mini" ∷ [];
      subagents_allowed = true;
    }
    else plan

unfoldable pub repair : SubscriptionPlan → SubscriptionPlan
unfolding repair_tier_3 repair_trial
repair plan = repair_trial (repair_tier_3 plan)

-- one round of the loop; `existing_plans` is the snapshot that is queried before it
unfoldable pub ensure_plan :
    List SubscriptionPlan → List SubscriptionPlan → SubscriptionPlan → List SubscriptionPlan
unfolding repair
ensure_plan existing_plans plans plan =
    elim (first (where_ (λ p. p.id == plan.id) existing_plans)) [
      | none ↦ plan ∷ plans
      | some existing ↦ update (λ p. p.id == existing.id) repair plans
    ]

unfoldable pub ensure_plans :
    List SubscriptionPlan → List SubscriptionPlan → List SubscriptionPlan → List SubscriptionPlan
unfolding ensure_plan
ensure_plans existing_plans plans [] = plans
ensure_plans existing_plans plans (plan ∷ rest) =
    ensure_plans existing_plans (ensure_plan existing_plans plans plan) rest

unfoldable pub ensure_default_subscription_plans : Db → Db
unfolding ensure_plans
ensure_default_subscription_plans db = record db {
  plans = ensure_plans db.plans db.plans default_subscription_plans;
}
