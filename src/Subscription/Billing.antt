-- ===== src/Subscription/Billing.antt =====
-- The endpoints of app/api/subscriptions.py: activate, upgrade, top up and read a subscription, and
-- a run of several requests. The id of a new row (uuid4) and the time are arguments.
pub mod Balance
pub mod Consistency
pub mod Replay
use self_managed_agents.Base.{
  nat_eq, string_eq, ℕ, ◌+◌, String, Bool, true, false, not, ◌&&◌, ◌||◌, Option, none, some, List,
  [], ◌∷◌, map, ◌==◌, ltb, if◌then◌else◌, where_, update, any, contains,
}
use self_managed_agents.Base.Outcome.{
  Outcome, ok, err, Error, http, ◌>>=◌, ◌>>◌, require, scalar_one_or_none, scalar_one, or_raise,
}
use self_managed_agents.Subscription.Data.{
  Status, active, trial, SubscriptionPlan, UserSubscription, TokenTopup, Db, pos, sub_ℕ, ℤ, days,
  truthy, tokens_remaining, is_expired_status, is_grace_status,
}

-- SubscriptionResponse, without the labels of the plan
pub record SubscriptionResponse : Type 0 where
  pub user_id : ℕ
  pub plan_code : String
  pub plan_label : String
  pub subscription_status : Status
  pub token_quota : ℕ
  pub tokens_used : ℕ
  pub tokens_remaining : ℕ
  pub max_agents : Option ℕ
  pub subagents_allowed : Bool
  pub wa_connect : Bool
  pub expires_at : Option ℕ
  pub grace_until : Option ℕ

pub record TopUpResponse : Type 0 where
  pub user_id : ℕ
  pub tokens_added : ℕ
  pub token_quota_before : ℕ
  pub token_quota_after : ℕ
  pub tokens_used : ℕ
  pub tokens_remaining : ℕ
  pub subscription_status : Status
  pub reference_id : String

pub record UpgradeResponse : Type 0 where
  pub user_id : ℕ
  pub previous_plan : String
  pub new_plan : String
  pub subscription_status : Status
  pub token_quota : ℕ
  pub tokens_used : ℕ
  pub tokens_remaining : ℕ
  pub expires_at : Option ℕ
  pub reference_id : String
  pub upgraded_at : ℕ

unfoldable pub subscription_response : SubscriptionPlan → UserSubscription → SubscriptionResponse
unfolding tokens_remaining
subscription_response plan sub = record {
  user_id = sub.user_id;
  plan_code = plan.code;
  plan_label = plan.label;
  subscription_status = sub.status;
  token_quota = sub.token_quota;
  tokens_used = sub.tokens_used;
  tokens_remaining = tokens_remaining sub;
  max_agents = plan.max_agents;
  subagents_allowed = plan.subagents_allowed;
  wa_connect = plan.wa_connect;
  expires_at = sub.expires_at;
  grace_until = sub.grace_until;
}

-- `_get_plan_by_code`
unfoldable pub get_plan_by_code : String → Db → Outcome SubscriptionPlan
get_plan_by_code code db = do
  plan ← scalar_one_or_none (where_ (λ p. p.code == code && p.is_active) db.plans)
  or_raise plan (http 404)

-- `_get_active_subscription`
unfoldable pub get_active_subscription : ℕ → Db → Outcome UserSubscription
get_active_subscription user_id db = do
  sub ← scalar_one_or_none (where_ (λ s. s.user_id == user_id) db.subscriptions)
  or_raise sub (http 404)

-- `_check_reference_id_unique`
unfoldable pub check_reference_id_unique : String → Db → Outcome (Unit {0})
check_reference_id_unique reference_id db = do
  existing ← scalar_one_or_none (where_ (λ t. t.reference_id == reference_id) db.topups)
  elim existing [ none ↦ ok tt | some t ↦ err (http 409) ]

-- `select(SubscriptionPlan).where(SubscriptionPlan.id == id)`, `scalar_one`
unfoldable pub get_plan_by_id : ℕ → Db → Outcome SubscriptionPlan
get_plan_by_id plan_id db = scalar_one (where_ (λ p. p.id == plan_id) db.plans)

-- `now + timedelta(days=plan.period_days) if plan.period_days else None`, and the grace after it
abbrev pub expiry : ℕ → SubscriptionPlan → Option ℕ
expiry now plan = elim (truthy plan.period_days) [ none ↦ none | some n ↦ some (now + days n) ]

abbrev pub grace : ℕ → SubscriptionPlan → Option ℕ
grace now plan = elim (truthy plan.period_days) [
  | none ↦ none
  | some n ↦ some (now + days n + days plan.grace_period_days)
]

abbrev pub new_subscription : ℕ → ℕ → ℕ → SubscriptionPlan → Status → UserSubscription
new_subscription id now user_id plan status = record {
  id = id;
  user_id = user_id;
  plan_id = plan.id;
  status = status;
  token_quota = plan.token_quota;
  tokens_used = 0;
  started_at = now;
  expires_at = expiry now plan;
  grace_until = grace now plan;
}

-- The flush fails, and answers 404, where the user does not exist or the id is taken.
unfoldable pub flush_accepts : ℕ → ℕ → Db → Bool
flush_accepts id user_id db =
    any (λ u. u.id == user_id) db.users && not (contains id (map (λ s. s.id) db.subscriptions))

unfoldable pub activate_subscription : ℕ → ℕ → ℕ → String → Db → Outcome (SubscriptionResponse × Db)
activate_subscription id now user_id plan_code db = do
  existing ← scalar_one_or_none (where_ (λ s. s.user_id == user_id) db.subscriptions)
  elim existing [ none ↦ ok tt | some s ↦ err (http 409) ]
  plan ← get_plan_by_code plan_code db
  let sub = new_subscription id now user_id plan (if plan.is_trial then trial else active)
  require (flush_accepts id user_id db) (http 404)
  ok (subscription_response plan sub, record db { subscriptions = sub ∷ db.subscriptions })

-- the writes of `upgrade_subscription` to the subscription's row
unfoldable pub upgraded : ℕ → SubscriptionPlan → UserSubscription → UserSubscription
upgraded now new_plan sub = record sub {
  plan_id = new_plan.id;
  status = active;
  token_quota = new_plan.token_quota;
  tokens_used = 0;
  started_at = now;
  expires_at = expiry now new_plan;
  grace_until = grace now new_plan;
}

-- the TokenTopup row that an upgrade adds
abbrev pub upgrade_row : ℕ → SubscriptionPlan → String → UserSubscription → TokenTopup
upgrade_row user_id new_plan reference_id sub = record {
  user_id = user_id;
  subscription_id = sub.id;
  tokens_added = sub_ℕ new_plan.token_quota sub.token_quota;
  token_quota_before = sub.token_quota;
  token_quota_after = new_plan.token_quota;
  reference_id = reference_id;
}

-- `UpgradeRequest` wants a reference id of at least one character, else 422
unfoldable pub upgrade_subscription : ℕ → ℕ → String → String → Db → Outcome (UpgradeResponse × Db)
upgrade_subscription now user_id plan_code reference_id db = do
  require (not (reference_id == "")) (http 422)
  require (not (plan_code == "trial")) (http 400)
  check_reference_id_unique reference_id db
  sub ← get_active_subscription user_id db
  old_plan ← get_plan_by_id sub.plan_id db
  new_plan ← get_plan_by_code plan_code db
  let after = upgraded now new_plan sub
  ok (
    record {
      user_id = user_id;
      previous_plan = old_plan.code;
      new_plan = new_plan.code;
      subscription_status = after.status;
      token_quota = after.token_quota;
      tokens_used = after.tokens_used;
      tokens_remaining = tokens_remaining after;
      expires_at = after.expires_at;
      reference_id = reference_id;
      upgraded_at = now;
    },
    record db {
      subscriptions = update (λ s. s.id == sub.id) (upgraded now new_plan) db.subscriptions;
      topups = upgrade_row user_id new_plan reference_id sub ∷ db.topups;
    },
  )

-- the writes of `topup_tokens` to the subscription's row, at its new quota
unfoldable pub topped_up : ℕ → UserSubscription → UserSubscription
topped_up quota sub = record sub {
  token_quota = quota;
  status = if is_grace_status sub.status then active else sub.status;
}

-- the TokenTopup row that a top-up adds
abbrev pub topup_row : ℕ → ℕ → String → UserSubscription → TokenTopup
topup_row user_id tokens reference_id sub = record {
  user_id = user_id;
  subscription_id = sub.id;
  tokens_added = pos tokens;
  token_quota_before = sub.token_quota;
  token_quota_after = sub.token_quota + tokens;
  reference_id = reference_id;
}

-- `TopUpRequest` wants tokens above 0 and a reference id of at least one character, else 422
unfoldable pub topup_tokens : ℕ → ℕ → String → Db → Outcome (TopUpResponse × Db)
topup_tokens user_id tokens reference_id db = do
  require (ltb 0 tokens && not (reference_id == "")) (http 422)
  check_reference_id_unique reference_id db
  sub ← get_active_subscription user_id db
  require (not (is_expired_status sub.status)) (http 400)
  let after = topped_up (sub.token_quota + tokens) sub
  ok (
    record {
      user_id = user_id;
      tokens_added = tokens;
      token_quota_before = sub.token_quota;
      token_quota_after = after.token_quota;
      tokens_used = after.tokens_used;
      tokens_remaining = tokens_remaining after;
      subscription_status = after.status;
      reference_id = reference_id;
    },
    record db {
      subscriptions =
          update (λ s. s.id == sub.id) (topped_up (sub.token_quota + tokens)) db.subscriptions;
      topups = topup_row user_id tokens reference_id sub ∷ db.topups;
    },
  )

unfoldable pub get_subscription_status : ℕ → Db → Outcome SubscriptionResponse
get_subscription_status user_id db = do
  sub ← get_active_subscription user_id db
  plan ← get_plan_by_id sub.plan_id db
  ok (subscription_response plan sub)

-- What the endpoints are asked, with the time and the new id of the moment.
pub data Request : Type 0 where
  activate : ℕ → ℕ → ℕ → String → Request
  upgrade : ℕ → ℕ → String → String → Request
  topup : ℕ → ℕ → String → Request

-- The database after one request; an HTTP error leaves it as it was.
abbrev pub committed {ℓ} : {A : Type ℓ} → Db → Outcome (A × Db) → Db
committed db (ok (a, db')) = db'
committed db (err e) = db

unfoldable pub handle : Request → Db → Db
handle (activate id now user_id plan_code) db =
    committed db (activate_subscription id now user_id plan_code db)
handle (upgrade now user_id plan_code reference_id) db =
    committed db (upgrade_subscription now user_id plan_code reference_id db)
handle (topup user_id tokens reference_id) db =
    committed db (topup_tokens user_id tokens reference_id db)

unfoldable pub serve : List Request → Db → Db
serve [] db = db
serve (r ∷ rs) db = serve rs (handle r db)
