-- ===== src/Subscription/Data.antt =====
-- The rows of app/models/subscription.py and app/models/user_api_key.py, and the tables that hold
-- them. Ids (UUIDs) and times (seconds) are numbers, and a nullable column is an Option. A table is
-- the list of its rows, the newest first.
use self_managed_agents.Base.{
  ℕ, ◌*◌, ◌-◌, String, Bool, true, false, Option, none, some, List, ltb, leb, if◌then◌else◌,
}

-- `status` of a subscription; "merged" is written by wa_link_service.py
pub data Status : Type 0 where
  trial active grace_period expired merged : Status

pub record User : Type 0 where
  pub id : ℕ
  pub email : String
  pub full_name : Option String
  pub phone_number : Option String
  pub wa_lid : Option String
  pub external_id : String
  pub has_used_trial : Bool
  pub email_verified : Bool

pub record SubscriptionPlan : Type 0 where
  pub id : ℕ
  pub code : String
  pub label : String
  pub max_agents : Option ℕ
  pub token_quota : ℕ
  pub period_days : Option ℕ
  pub grace_period_days : ℕ
  pub allowed_models : List String
  pub subagents_allowed : Bool
  pub wa_connect : Bool
  pub is_trial : Bool
  pub is_active : Bool

pub record UserSubscription : Type 0 where
  pub id : ℕ
  pub user_id : ℕ
  pub plan_id : ℕ
  pub status : Status
  pub token_quota : ℕ
  pub tokens_used : ℕ
  pub started_at : ℕ
  pub expires_at : Option ℕ
  pub grace_until : Option ℕ

-- A signed column: a downgrade records a negative grant. `negsuc n` is -(n + 1).
pub data ℤ : Type 0 where
  pos : ℕ → ℤ
  negsuc : ℕ → ℤ

abbrev pub sub_ℕ : ℕ → ℕ → ℤ
sub_ℕ a b = if leb b a then pos (a - b) else negsuc (b - a - 1)

pub record TokenTopup : Type 0 where
  pub user_id : ℕ
  pub subscription_id : ℕ
  pub tokens_added : ℤ
  pub token_quota_before : ℕ
  pub token_quota_after : ℕ
  pub reference_id : String

pub record UserApiKey : Type 0 where
  pub id : ℕ
  pub key_hash : String
  pub label : Option String
  pub expires_at : ℕ
  pub revoked : Bool

pub record Db : Type 0 where
  pub plans : List SubscriptionPlan
  pub users : List User
  pub subscriptions : List UserSubscription
  pub topups : List TokenTopup
  pub api_keys : List UserApiKey

abbrev pub trial_id : ℕ
trial_id = 1

abbrev pub tier_1_id : ℕ
tier_1_id = 2

abbrev pub tier_2_id : ℕ
tier_2_id = 3

abbrev pub tier_3_id : ℕ
tier_3_id = 4

-- `timedelta(days=n)`
abbrev pub days : ℕ → ℕ
days n = n * 86400

-- `UserSubscription.tokens_remaining`, where `-` stops at 0 as `max(0, ...)` does
unfoldable pub tokens_remaining : UserSubscription → ℕ
tokens_remaining sub = sub.token_quota - sub.tokens_used

-- `UserSubscription.is_usable`
abbrev pub is_usable_status : Status → Bool
is_usable_status trial = true
is_usable_status active = true
is_usable_status grace_period = true
is_usable_status _ = false

unfoldable pub is_usable : UserSubscription → Bool
is_usable sub = is_usable_status sub.status

-- `status == "active"`, `status == "expired"` and `status == "grace_period"`
abbrev pub is_active_status : Status → Bool
is_active_status active = true
is_active_status _ = false

abbrev pub is_expired_status : Status → Bool
is_expired_status expired = true
is_expired_status _ = false

abbrev pub is_grace_status : Status → Bool
is_grace_status grace_period = true
is_grace_status _ = false

-- `UserApiKey.is_active`, at the time `now`
unfoldable pub key_is_active : UserApiKey → ℕ → Bool
key_is_active key now = if key.revoked then false else ltb now key.expires_at

-- `if plan.period_days`: None and 0 are false
abbrev pub truthy : Option ℕ → Option ℕ
truthy none = none
truthy (some n) = if ltb 0 n then some n else none
