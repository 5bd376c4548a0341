-- ===== src/Subscription/Quota.antt =====
-- app/core/domain/agent_quota_service.py, and the token guard of subscription_service.py.
pub mod Gate
use self_managed_agents.Base.{
  nat_eq, string_eq, is_value, ℕ, ◌+◌, String, Bool, true, false, not, ◌&&◌, ◌||◌, Option, none,
  some, List, [], ◌∷◌, ◌==◌, ltb, leb, if◌then◌else◌, where_, update, contains,
}
use self_managed_agents.Base.Outcome.{Outcome, ok, err, quota_exceeded, ◌>>=◌, scalar_one_or_none}
use self_managed_agents.Base.Json.{Json, obj, Fields, get_truthy}
use self_managed_agents.Subscription.Data.{User, UserSubscription, Db, is_usable}

-- The columns of an agent that are read here. `capabilities` may be missing, one text, or a list.
pub data Capabilities : Type 0 where
  missing : Capabilities
  one : String → Capabilities
  many : List String → Capabilities

pub record Agent : Type 0 where
  pub id : ℕ
  pub capabilities : Capabilities
  pub tools_config : Option Json
  pub owner_external_id : Option String
  pub active_until : Option ℕ
  pub tokens_used : ℕ
  pub token_quota : ℕ

-- `AgentQuotaCheck`, without the texts for people
pub data Reason : Type 0 where
  agent_subscription_expired agent_token_quota_exhausted : Reason
  owner_subscription_inactive owner_subscription_token_quota_exhausted : Reason

pub data AgentQuotaCheck : Type 0 where
  allowed : AgentQuotaCheck
  refused : Reason → AgentQuotaCheck

-- `_quota_exhausted`: a quota of 0 is no limit
unfoldable pub is_quota_exhausted : ℕ → ℕ → Bool
is_quota_exhausted used quota = if leb quota 0 then false else leb quota used

abbrev capability_list : Capabilities → List String
capability_list missing = []
capability_list (one c) = c ∷ []
capability_list (many cs) = cs

abbrev builder_config : Option Json → Bool
builder_config (some (obj fields)) = get_truthy "builder" fields
builder_config _ = false

unfoldable pub is_quota_exempt_builder_agent : Agent → Bool
is_quota_exempt_builder_agent agent =
    contains "builder" (capability_list agent.capabilities)
    || contains "system" (capability_list agent.capabilities)
    || builder_config agent.tools_config

abbrev no_owner : Option String → Bool
no_owner none = true
no_owner (some s) = s == ""

unfoldable pub get_owner_subscription : Agent → Db → Outcome (Option UserSubscription)
get_owner_subscription agent db =
    if no_owner agent.owner_external_id
    then ok none
    else scalar_one_or_none (where_ (λ u. is_value agent.owner_external_id u.external_id) db.users)
      >>= λ user. elim user [
        | none ↦ ok none
        | some u ↦ scalar_one_or_none (where_ (λ s. s.user_id == u.id) db.subscriptions)
      ]

-- `active_until and active_until < current`
abbrev is_past : Option ℕ → ℕ → Bool
is_past none now = false
is_past (some t) now = ltb t now

unfoldable pub check_owner : Option UserSubscription → AgentQuotaCheck
check_owner none = allowed
check_owner (some sub) =
    if not (is_usable sub)
    then refused owner_subscription_inactive
    else if is_quota_exhausted sub.tokens_used sub.token_quota
    then refused owner_subscription_token_quota_exhausted
    else allowed

unfoldable pub check_agent_quota : Agent → ℕ → Db → Outcome AgentQuotaCheck
check_agent_quota agent now db =
    if is_quota_exempt_builder_agent agent
    then ok allowed
    else if is_past agent.active_until now
    then ok (refused agent_subscription_expired)
    else if is_quota_exhausted agent.tokens_used agent.token_quota
    then ok (refused agent_token_quota_exhausted)
    else get_owner_subscription agent db >>= λ sub. ok (check_owner sub)

-- the write to the owner's subscription, where there is one
abbrev pub add_usage : ℕ → Option UserSubscription → Db → Db
add_usage tokens none db = db
add_usage tokens (some sub) db = record db {
  subscriptions =
      update (λ s. s.id == sub.id) (λ s. record s { tokens_used = sub.tokens_used + tokens })
        db.subscriptions;
}

unfoldable pub record_agent_token_usage : Agent → ℕ → Db → Outcome (Agent × Db)
record_agent_token_usage agent tokens_used db =
    if leb tokens_used 0 || is_quota_exempt_builder_agent agent
    then ok (agent, db)
    else get_owner_subscription agent db >>= λ sub. ok (
      record agent { tokens_used = agent.tokens_used + tokens_used },
      add_usage tokens_used sub db,
    )

-- `assert_token_quota_available`: the quota of a subscription, None for none, with the grace period
unfoldable pub assert_token_quota_available : ℕ → Option ℕ → ℕ → Option ℕ → Outcome (Unit {0})
assert_token_quota_available now none used grace_until = ok tt
assert_token_quota_available now (some quota) used grace_until =
    if not (leb quota used) then ok tt else elim grace_until [
      | none ↦ err quota_exceeded
      | some t ↦ if ltb now t then ok tt else err quota_exceeded
    ]
