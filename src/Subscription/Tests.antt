-- ===== src/Subscription/Tests.antt =====
-- Runs of the subscription code on small tables.
use self_managed_agents.Base.{
  is_value, nat_eq, string_eq, ℕ, ◌+◌, ◌<◌, ◌≤◌, ◌≡◌, ◌≢◌, ◌↔◌, ◌⊎◌, inl, inr, refl, String, Bool,
  true, false, Option, none, some, List, [], ◌∷◌, arith, contains, All, eq_iff, where_,
}
use self_managed_agents.Base.Outcome.{ok, err, http}
use self_managed_agents.Subscription.Data.{
  trial, active, grace_period, User, UserSubscription, Db, tokens_remaining,
}
use self_managed_agents.Subscription.Plans.{
  trial_plan, default_subscription_plans, ensure_default_subscription_plans,
}
use self_managed_agents.Subscription.Billing.{
  activate_subscription, upgrade_subscription, topup_tokens, get_active_subscription,
  get_plan_by_id, get_plan_by_code, check_reference_id_unique, flush_accepts, upgraded, topped_up,
  subscription_response, get_subscription_status, Request, activate, upgrade, topup, handle, serve,
  TopUpResponse,
}
use self_managed_agents.Subscription.Billing.Consistency.{IsConsistent, serve-IsConsistent}
use self_managed_agents.Subscription.Billing.Replay.{topup_replayed}
use self_managed_agents.Subscription.Billing.Balance.{IsBalanced, serve-IsBalanced}
use self_managed_agents.Subscription.Provision.{
  Fresh, get_or_create_wa_user, find_or_create_user, learn_wa_lid, find_or_create_subscription,
  create_trial_subscription, ensure_api_key, get_subscription_by_external_id,
}
use self_managed_agents.Subscription.Provision.Idempotence.{get_or_create_wa_user_idem}
use self_managed_agents.Subscription.Quota.{
  Agent, one, allowed, check_agent_quota, is_quota_exempt_builder_agent, get_owner_subscription,
  record_agent_token_usage,
}
use self_managed_agents.Subscription.Quota.Gate.{
  HasRoom, OwnerCanRun, InTerm, IsRefused, check_agent_quota-eq-allowed_iff,
  record_agent_token_usage-get_owner_subscription, check_agent_quota-record_agent_token_usage,
}
use self_managed_agents.Subscription.Lookup.{
  Row, get_best_subscription_by_external_ids, identifier_variants, is_candidate, choose_best,
  max_from, score,
}
use self_managed_agents.Subscription.Lookup.Best.{
  candidates, get_best_subscription_by_external_ids_trial,
}
use self_managed_agents.Subscription.Entitlements.{OwnedAgent}

-- what the tests below compute with
billing : Unit {0}
unfolding activate_subscription upgrade_subscription topup_tokens get_active_subscription
    get_plan_by_id get_plan_by_code check_reference_id_unique flush_accepts upgraded topped_up
    subscription_response get_subscription_status handle serve tokens_remaining
billing = tt

abbrev budi : User
budi = record {
  id = 1;
  email = "budi@example.com";
  full_name = some "Budi";
  phone_number = some "628111";
  wa_lid = none;
  external_id = "628111";
  has_used_trial = false;
  email_verified = true;
}

abbrev budi_sub : UserSubscription
budi_sub = record {
  id = 10;
  user_id = 1;
  plan_id = 1;
  status = grace_period;
  token_quota = 100;
  tokens_used = 40;
  started_at = 0;
  expires_at = some 1000;
  grace_until = some 2000;
}

abbrev start : Db
start = record {
  plans = default_subscription_plans;
  users = budi ∷ [];
  subscriptions = budi_sub ∷ [];
  topups = [];
  api_keys = [];
}

start-IsConsistent : IsConsistent start
start-IsConsistent = record { ids = (refl, tt); user_ids = (refl, tt); references = tt }

abbrev requests : List Request
requests =
    topup 1 50 "pay-1"
    ∷ upgrade 5 1 "tier_2" "pay-2"
    ∷ activate 11 6 1 "trial"
    ∷ topup 1 7 "pay-1"
    ∷ []

requests_quota :
    (serve requests start).subscriptions
    ≡ record budi_sub {
      plan_id = 3;
      status = active;
      token_quota = 20_000_000;
      tokens_used = 0;
      started_at = 5;
      expires_at = some 2592005;
      grace_until = some 2851205;
    }
      ∷ []
unfolding billing
requests_quota = refl

activate_missing_user : activate_subscription 12 0 9 "trial" start ≡ err (http 404)
unfolding billing
activate_missing_user = refl

serve-IsConsistent_example : IsConsistent (serve requests start)
serve-IsConsistent_example = serve-IsConsistent requests start start-IsConsistent

abbrev paid_response : TopUpResponse
paid_response = record {
  user_id = 1;
  tokens_added = 50;
  token_quota_before = 100;
  token_quota_after = 150;
  tokens_used = 40;
  tokens_remaining = 110;
  subscription_status = active;
  reference_id = "pay-1";
}

abbrev paid_db : Db
paid_db = handle (topup 1 50 "pay-1") start

first_payment : topup_tokens 1 50 "pay-1" start ≡ ok (paid_response, paid_db)
unfolding billing
first_payment = refl

topup_replayed_example :
    (topup_tokens 2 9 "pay-1" (serve requests paid_db) ≡ err (http 409))
    × (upgrade_subscription 3 2 "tier_1" "pay-1" (serve requests paid_db) ≡ err (http 409))
topup_replayed_example =
    topup_replayed 1 50 "pay-1" start requests 3 2 9 "tier_1" start-IsConsistent first_payment
      (omega arith) (ground (arith, eq_iff "tier_1" "trial"))

serve-IsBalanced_example : IsBalanced 10 start (serve requests start)
serve-IsBalanced_example = serve-IsBalanced 10 requests start start-IsConsistent refl

abbrev bare : Db
bare = record start { plans = record trial_plan { token_quota = 1 } ∷ []; subscriptions = [] }

abbrev fresh : Fresh
fresh = record { user_id = 21; subscription_id = 31; key_id = 41; key_hash = "h1"; now = 100 }

abbrev later : Fresh
later = record { user_id = 22; subscription_id = 32; key_id = 42; key_hash = "h2"; now = 900 }

abbrev siti : User
siti = record {
  id = 21;
  email = "628222@wa.placeholder";
  full_name = none;
  phone_number = none;
  wa_lid = none;
  external_id = "+628222";
  has_used_trial = true;
  email_verified = false;
}

abbrev siti_sub : UserSubscription
siti_sub = record {
  id = 31;
  user_id = 21;
  plan_id = 1;
  status = trial;
  token_quota = 5_000_000;
  tokens_used = 0;
  started_at = 100;
  expires_at = some 1209700;
  grace_until = some 1468900;
}

abbrev with_siti : Db
with_siti = record start {
  users = siti ∷ budi ∷ [];
  subscriptions = siti_sub ∷ budi_sub ∷ [];
  api_keys =
      record {
        id = 41;
        key_hash = "h1";
        label = some "wa:+628222";
        expires_at = 1209700;
        revoked = false;
      }
      ∷ [];
}

first_call : get_or_create_wa_user fresh "+628222" none start ≡ ok (siti, siti_sub, with_siti)
unfolding get_or_create_wa_user find_or_create_user learn_wa_lid find_or_create_subscription
    create_trial_subscription ensure_api_key ensure_default_subscription_plans
    self_managed_agents.Base.Text.without_char
first_call = refl

get_or_create_wa_user_idem_example :
    get_or_create_wa_user later "+628222" none with_siti ≡ ok (siti, siti_sub, with_siti)
get_or_create_wa_user_idem_example =
    get_or_create_wa_user_idem fresh later "+628222" start first_call

abbrev agent : Agent
agent = record {
  id = 7;
  capabilities = one "sales";
  tools_config = none;
  owner_external_id = some "628111";
  active_until = some 500;
  tokens_used = 10;
  token_quota = 0;
}

agent_owner : get_owner_subscription agent start ≡ ok (some budi_sub)
unfolding get_owner_subscription
agent_owner = refl

agent_plain : is_quota_exempt_builder_agent agent ≡ false
unfolding is_quota_exempt_builder_agent
agent_plain = refl

gate_example :
    (check_agent_quota agent 400 start ≡ ok allowed)
    ↔ (InTerm (some 500) 400 × HasRoom 10 0 × OwnerCanRun (some budi_sub))
gate_example =
    check_agent_quota-eq-allowed_iff agent 400 start (some budi_sub) agent_owner agent_plain

abbrev agent_after : Agent
agent_after = record agent { tokens_used = 70 }

abbrev start_after : Db
start_after = record start { subscriptions = record budi_sub { tokens_used = 100 } ∷ [] }

usage : record_agent_token_usage agent 60 start ≡ ok (agent_after, start_after)
unfolding record_agent_token_usage get_owner_subscription is_quota_exempt_builder_agent
usage = refl

usage_example :
    (agent_after ≡ record agent { tokens_used = 10 + 60 })
    × (get_owner_subscription agent_after start_after
        ≡ ok (some (record budi_sub { tokens_used = 40 + 60 })))
usage_example =
    record_agent_token_usage-get_owner_subscription agent 60 start budi_sub agent_owner agent_plain
      (omega arith) usage

closes_example : IsRefused (check_agent_quota agent_after 20 start_after)
closes_example =
    check_agent_quota-record_agent_token_usage agent 60 20 start budi_sub agent_owner agent_plain
      (omega arith) (omega arith) (omega arith) usage

abbrev best_row : Row
best_row = record { user = budi; sub = budi_sub; plan = trial_plan }

budi_found :
    get_best_subscription_by_external_ids
      (λ s. none)
      (λ o s. false)
      (some " 628111" ∷ [])
      none
      start
    ≡ some best_row
unfolding get_best_subscription_by_external_ids choose_best identifier_variants is_candidate
    max_from score
budi_found = refl

best_trial_example :
    All (λ r. r.plan.is_trial ≡ true) (candidates (λ s. none) (some " 628111" ∷ []) start)
best_trial_example =
    get_best_subscription_by_external_ids_trial (λ s. none) (λ o s. false) (some " 628111" ∷ [])
      none start best_row budi_found refl

abbrev owned : List OwnedAgent
owned = record { owner_external_id = none; operator_ids = "628111" ∷ []; is_deleted = false } ∷ []

budi_plan : get_subscription_by_external_id "628111" start ≡ ok (some (budi, budi_sub, trial_plan))
unfolding get_subscription_by_external_id
budi_plan = refl
