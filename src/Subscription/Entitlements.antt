-- ===== src/Subscription/Entitlements.antt =====
-- What a plan allows: `validate_agent_entitlements` and `check_can_create_agent` of
-- subscription_service.py.
use self_managed_agents.Base.{
  Option-cases, nat_eq, string_eq, is_value, ℕ, ◌<◌, String, ◌≡◌, ◌↔◌, ◌⊎◌, inl, inr, Bool, true,
  false, not, ◌&&◌, ◌||◌, Option, none, some, List, [], ◌∷◌, ◌++◌, leb, length, if◌then◌else◌,
  where_, contains, arith,
}
use self_managed_agents.Base.Outcome.{Outcome, ok, ◌>>=◌}
use self_managed_agents.Base.Json.{Json, null, bool, obj, Fields, get, truthy}
use self_managed_agents.Subscription.Data.{
  User, UserSubscription, SubscriptionPlan, Db, is_usable, tokens_remaining,
}
use self_managed_agents.Subscription.Provision.{get_subscription_by_external_id}

-- the entries of the list of violations, without their texts
pub data Violation : Type 0 where
  model_unavailable subagents_forbidden whatsapp_forbidden : Violation

-- `bool(cfg.get("enabled", default))`
abbrev enabled_field : Option Json → Bool → Bool
enabled_field none default = default
enabled_field (some v) default = truthy v

-- `_tool_enabled`
abbrev config_enabled : Option Json → Bool → Bool
config_enabled none default = default
config_enabled (some null) default = default
config_enabled (some (bool b)) default = b
config_enabled (some (obj fields)) default = enabled_field (get "enabled" fields) default
config_enabled (some _) default = default

unfoldable pub tool_enabled : Fields → String → Bool → Bool
tool_enabled tools_config key default = config_enabled (get key tools_config) default

abbrev when : Bool → Violation → List Violation
when true v = v ∷ []
when false v = []

abbrev is_empty : List String → Bool
is_empty [] = true
is_empty _ = false

unfoldable pub validate_agent_entitlements :
    SubscriptionPlan → String → Fields → Option String → List Violation
unfolding tool_enabled
validate_agent_entitlements plan model tools_config channel_type =
    when (not (is_empty plan.allowed_models) && not (contains model plan.allowed_models))
      model_unavailable
    ++ (when (tool_enabled tools_config "subagents" false && not plan.subagents_allowed)
          subagents_forbidden
        ++ when (is_value channel_type "whatsapp" && not plan.wa_connect) whatsapp_forbidden)

-- A configuration has no violation exactly when each of the three entitlements is met.
pub validate_agent_entitlements-eq-nil_iff :
    (plan : SubscriptionPlan) (model : String) (tools_config : Fields)
    (channel_type : Option String)
    → (validate_agent_entitlements plan model tools_config channel_type ≡ []) ↔ (
        ((plan.allowed_models ≡ []) ⊎ (contains model plan.allowed_models ≡ true))
        × ((tool_enabled tools_config "subagents" false ≡ false) ⊎ (plan.subagents_allowed ≡ true))
        × ((is_value channel_type "whatsapp" ≡ false) ⊎ (plan.wa_connect ≡ true)))
unfolding validate_agent_entitlements
validate_agent_entitlements-eq-nil_iff plan model tools_config channel_type =
    (λ h. (ground arith, ground arith, ground arith), λ h. ground arith)

-- the columns of an agent that are counted
pub record OwnedAgent : Type 0 where
  pub owner_external_id : Option String
  pub operator_ids : List String
  pub is_deleted : Bool

-- `Agent.owner_external_id == x or Agent.operator_ids @> [x]`, not deleted
unfoldable pub is_active_agent_of : String → OwnedAgent → Bool
is_active_agent_of x agent =
    not agent.is_deleted && (is_value agent.owner_external_id x || contains x agent.operator_ids)

pub data CanCreate : Type 0 where
  no_subscription unusable : CanCreate
  limit_reached : ℕ → ℕ → CanCreate
  can_create : ℕ → Option ℕ → ℕ → Option ℕ → CanCreate

abbrev at_limit : Option ℕ → ℕ → Bool
at_limit none used = false
at_limit (some limit) used = leb limit used

abbrev limit_of : Option ℕ → ℕ
limit_of none = 0
limit_of (some limit) = limit

abbrev decide_create : ℕ → Option (User × UserSubscription × SubscriptionPlan) → CanCreate
decide_create agents_used none = no_subscription
decide_create agents_used (some (user, sub, plan)) =
    if not (is_usable sub)
    then unusable
    else if at_limit plan.max_agents agents_used
    then limit_reached agents_used (limit_of plan.max_agents)
    else can_create agents_used plan.max_agents (tokens_remaining sub) sub.expires_at

unfoldable pub check_can_create_agent : String → List OwnedAgent → Db → Outcome CanCreate
check_can_create_agent external_id agents db =
    get_subscription_by_external_id external_id db >>= λ found.
    ok (decide_create (length (where_ (is_active_agent_of external_id) agents)) found)

-- the agents that count against the limit of `external_id`
abbrev pub agents_used : String → List OwnedAgent → ℕ
agents_used external_id agents = length (where_ (is_active_agent_of external_id) agents)

-- With a subscription found, one more agent is allowed exactly when the subscription is usable and
-- its plan is unlimited or has more room than the agents that are counted; the answer then carries
-- that count, the limit and what is left of the subscription.
pub check_can_create_agent-eq-can_create_iff :
    (x : String) (agents : List OwnedAgent) (db : Db) (user : User) (sub : UserSubscription)
    (plan : SubscriptionPlan)
    → get_subscription_by_external_id x db ≡ ok (some (user, sub, plan))
    → (check_can_create_agent x agents db
        ≡ ok (
            can_create
              (agents_used x agents)
              plan.max_agents
              (tokens_remaining sub)
              sub.expires_at))
      ↔ ((is_usable sub ≡ true)
          × ((plan.max_agents ≡ none)
              ⊎ ((limit : ℕ) × (plan.max_agents ≡ some limit) × (agents_used x agents < limit))))
unfolding check_can_create_agent
check_can_create_agent-eq-can_create_iff x agents db user sub plan found = (
  λ h. (
    ground arith,
    elim (Option-cases plan.max_agents) [
      | inl e ↦ inl e
      | inr (limit, e) ↦ inr (limit, e, ground arith)
    ],
  ),
  λ h. elim h.1 [ inl e ↦ ground arith | inr r ↦ ground arith ],
)
