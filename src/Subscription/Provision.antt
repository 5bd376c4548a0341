-- ===== src/Subscription/Provision.antt =====
-- Users found by their WhatsApp identity and provisioned with a trial (subscription_service.py). The
-- ids, the key's hash and the time of one call are a record of arguments.
pub mod Idempotence
use self_managed_agents.Base.{
  nat_eq, string_eq, option_eq, is_value, ℕ, ◌+◌, String, Bool, true, false, not, ◌&&◌, ◌||◌,
  Option, none, some, List, [], ◌∷◌, map, ◌==◌, ltb, if◌then◌else◌, where_, update, or_empty,
}
use Prim.Native.String.{◌++◌}
use self_managed_agents.Base.Outcome.{
  or_raise, type_error, Outcome, ok, err, ◌>>=◌, ◌>>◌, scalar_one_or_none, scalar_one, first,
}
use self_managed_agents.Base.Text.{strip, without_char}
use self_managed_agents.Subscription.Data.{
  trial, active, User, UserSubscription, SubscriptionPlan, UserApiKey, Db, trial_id, tier_1_id,
  days, truthy,
}
use self_managed_agents.Subscription.Plans.{ensure_default_subscription_plans}

-- what one call draws from outside: uuid4 twice, the hash of a fresh key, and the clock
pub record Fresh : Type 0 where
  pub user_id : ℕ
  pub subscription_id : ℕ
  pub key_id : ℕ
  pub key_hash : String
  pub now : ℕ

-- `or_(User.external_id == x, User.phone_number == x, User.wa_lid == x)`
unfoldable pub has_identity : String → User → Bool
has_identity x u = u.external_id == x || is_value u.phone_number x || is_value u.wa_lid x

abbrev pub new_user : String → ℕ → User
new_user external_id id = record {
  id = id;
  email = without_char b' ' (without_char b'+' external_id) ++ "@wa.placeholder";
  full_name = none;
  phone_number = none;
  wa_lid = none;
  external_id = external_id;
  has_used_trial = false;
  email_verified = false;
}

-- `_create_trial_subscription`; `plan.period_days or 14`
unfoldable pub create_trial_subscription : Fresh → ℕ → Db → Outcome (UserSubscription × Db)
create_trial_subscription fresh user_id db = do
  plan ← scalar_one (where_ (λ p. p.id == trial_id) db.plans)
  let period : ℕ = elim (truthy plan.period_days) [ none ↦ 14 | some n ↦ n ]
  let expires_at = fresh.now + days period
  let sub : UserSubscription = record {
    id = fresh.subscription_id;
    user_id = user_id;
    plan_id = plan.id;
    status = trial;
    token_quota = plan.token_quota;
    tokens_used = 0;
    started_at = fresh.now;
    expires_at = some expires_at;
    grace_until = some (expires_at + days plan.grace_period_days);
  }
  ok (sub, record db { subscriptions = sub ∷ db.subscriptions })

-- `_create_tier1_subscription`; a plan without a period makes `timedelta` raise
unfoldable pub create_tier1_subscription : Fresh → ℕ → Db → Outcome (UserSubscription × Db)
create_tier1_subscription fresh user_id db = do
  plan ← scalar_one (where_ (λ p. p.id == tier_1_id) db.plans)
  period ← or_raise plan.period_days type_error
  let expires_at = fresh.now + days period
  let sub : UserSubscription = record {
    id = fresh.subscription_id;
    user_id = user_id;
    plan_id = plan.id;
    status = active;
    token_quota = plan.token_quota;
    tokens_used = 0;
    started_at = fresh.now;
    expires_at = some expires_at;
    grace_until = some (expires_at + days plan.grace_period_days);
  }
  ok (sub, record db { subscriptions = sub ∷ db.subscriptions })

-- the user of an identity, created where there is none
unfoldable pub find_or_create_user : Fresh → String → Db → Outcome (User × Db)
unfolding has_identity
find_or_create_user fresh external_id db = do
  user ← scalar_one_or_none (where_ (has_identity external_id) db.users)
  elim user [
    | none ↦
        let u = new_user external_id fresh.user_id in ok (u, record db { users = u ∷ db.users })
    | some u ↦ ok (u, db)
  ]

-- `if wa_lid and user.wa_lid != wa_lid: user.wa_lid = wa_lid`
unfoldable pub learn_wa_lid : Option String → User → Db → User × Db
learn_wa_lid wa_lid user db =
    if or_empty wa_lid == "" || user.wa_lid == wa_lid then (user, db) else (
      record user { wa_lid = wa_lid },
      record db {
        users = update (λ u. u.id == user.id) (λ u. record u { wa_lid = wa_lid }) db.users;
      },
    )

-- the subscription of the user, a trial where there is none
unfoldable pub find_or_create_subscription :
    Fresh → User → Db → Outcome (User × UserSubscription × Db)
find_or_create_subscription fresh user db = do
  found ← scalar_one_or_none (where_ (λ s. s.user_id == user.id) db.subscriptions)
  elim found [
    | some sub ↦ ok (user, sub, db)
    | none ↦ create_trial_subscription fresh user.id db >>= λ (sub, db'). ok (
      record user { has_used_trial = true },
      sub,
      record db' {
        users = update (λ u. u.id == user.id) (λ u. record u { has_used_trial = true }) db'.users;
      },
    )
  ]

abbrev pub key_label : String → String
key_label external_id = "wa:" ++ external_id

abbrev pub new_key : Fresh → String → UserSubscription → UserApiKey
new_key fresh external_id sub = record {
  id = fresh.key_id;
  key_hash = fresh.key_hash;
  label = some (key_label external_id);
  expires_at = elim sub.expires_at [ none ↦ fresh.now + days 30 | some t ↦ t ];
  revoked = false;
}

-- one API key to an identity
unfoldable pub ensure_api_key : Fresh → String → UserSubscription → Db → Outcome Db
ensure_api_key fresh external_id sub db = do
  existing ← scalar_one_or_none (where_ (λ k. is_value k.label (key_label external_id)) db.api_keys)
  elim existing [
    | some k ↦ ok db
    | none ↦ ok (record db { api_keys = new_key fresh external_id sub ∷ db.api_keys })
  ]

unfoldable pub get_or_create_wa_user :
    Fresh → String → Option String → Db → Outcome (User × UserSubscription × Db)
get_or_create_wa_user fresh external_id wa_lid db =
    find_or_create_user fresh external_id (ensure_default_subscription_plans db) >>= λ (found, db₁).
    let (user, db₂) = learn_wa_lid wa_lid found db₁ in
    find_or_create_subscription fresh user db₂ >>= λ (owner, sub, db₃).
    ensure_api_key fresh external_id sub db₃ >>= λ db₄. ok (owner, sub, db₄)

-- `get_subscription_by_external_id`
unfoldable pub get_subscription_by_external_id :
    String → Db → Outcome (Option (User × UserSubscription × SubscriptionPlan))
unfolding has_identity
get_subscription_by_external_id external_id db = do
  user ← scalar_one_or_none (where_ (has_identity external_id) db.users)
  elim user [
    | none ↦ ok none
    | some u ↦ scalar_one_or_none (where_ (λ s. s.user_id == u.id) db.subscriptions) >>= λ found.
        elim found [
          | none ↦ ok none
          | some sub ↦ scalar_one (where_ (λ p. p.id == sub.plan_id) db.plans) >>= λ plan.
              ok (some (u, sub, plan))
        ]
  ]

-- `resolve_phone_for_wa_lid`
unfoldable pub resolve_phone_for_wa_lid : Option String → Db → Option String
resolve_phone_for_wa_lid wa_lid db =
    let lid = strip (or_empty wa_lid) in
    if lid == ""
    then none
    else elim (first
        (where_ (λ u. is_value u.wa_lid lid && not (u.phone_number == none)) db.users)) [
          | none ↦ none
          | some u ↦
              let phone = strip (or_empty u.phone_number) in
              if phone == "" then none else some phone
        ]
