-- ===== src/Agents/Tests.antt =====
-- Agents made, changed, listed, renewed and deleted over the API, on concrete rows.
use self_managed_agents.Base.{
  nat_eq, string_eq, ℕ, ◌≡◌, ◌↔◌, refl, String, Bool, true, false, Option, none, some, List, [],
  ◌∷◌, ltb, arith,
}
use self_managed_agents.Base.Order.{sort_rows, sort_rows-AddsNone}
use self_managed_agents.Base.Outcome.{ok, err, http}
use self_managed_agents.Base.Json.{Json, bool, obj, Fields, end, field, get, get_truthy}
use self_managed_agents.Subscription.Data.{Db}
use self_managed_agents.Subscription.Quota.{
  allowed, check_agent_quota, get_owner_subscription, is_quota_exempt_builder_agent,
}
use self_managed_agents.Subscription.Quota.Gate.{OwnerCanRun}
use self_managed_agents.Agents.Config.{
  put, coerce_mcp, switch, switches_ok, subagents_ok, accepts, validate_tools_config,
}
use self_managed_agents.Agents.Configured.{AreConfigured, serve_all-AreConfigured}
use self_managed_agents.Agents.Gone.{IsNotFound, delete_agent-gone}
use self_managed_agents.Agents.Renewed.{renew_agent-allowed_iff}
use self_managed_agents.Agents.{
  Agent, AgentCreate, AgentUpdate, FreshAgent, unset, set, new_agent, create_ok, update_ok,
  create_agent, update_agent, delete_agent, renew_agent, connect_whatsapp, get_active_agent,
  on_agent, patched, deleted, renewed, is_listed, list_agents, quota_view, Request, creates,
  updates, deletes, renews, serve_all, AgentList,
}

-- a coercion that takes JSON's own truth values only
abbrev strict : Json → Option Bool
strict (bool b) = some b
strict _ = none

abbrev bot : AgentCreate
bot = record {
  name = "Toko Ani";
  description = none;
  instructions = "";
  model = "m";
  temperature = 700;
  max_tokens = none;
  tools_config = end;
  sandbox_config = end;
  safety_policy = end;
  escalation_config = end;
  operator_ids = [];
  allowed_senders = none;
  capabilities = "builder" ∷ [];
  token_quota = 1000;
  quota_period_days = 30;
  channel_type = some "whatsapp";
  owner_external_id = none;
  created_by_type = none;
}

abbrev fresh : ℕ → String → FreshAgent
fresh id key = record { id = id; device_id = key; api_key = key; now = 100 }

abbrev ani : Agent
ani = new_agent (fresh 1 "k1") bot end

abbrev budi : Agent
budi = new_agent (fresh 2 "k2") (record bot { channel_type = none }) end

abbrev both : List Agent
both = budi ∷ ani ∷ []

-- The capability of the request is not written, and the service is down.
created : create_agent strict (fresh 1 "k1") bot none [] ≡ ok ((ani, none), ani ∷ [])
unfolding create_agent create_ok validate_tools_config
created = refl

same_id : create_agent strict (fresh 1 "k9") bot none (ani ∷ []) ≡ err (http 500)
unfolding create_agent create_ok validate_tools_config
same_id = refl

abbrev with_tools : Fields → AgentUpdate
with_tools fs = record {
  name = unset;
  description = unset;
  instructions = unset;
  model = unset;
  temperature = unset;
  max_tokens = unset;
  tools_config = set fs;
  sandbox_config = unset;
  safety_policy = unset;
  escalation_config = unset;
  operator_ids = unset;
  allowed_senders = unset;
  capabilities = unset;
}

abbrev tools_only : Fields
tools_only = field "tool_creator" (bool true) end

-- Tools cannot be created without a sandbox.
no_sandbox : update_agent strict 1 (with_tools tools_only) both ≡ err (http 422)
unfolding update_agent update_ok on_agent get_active_agent patched validate_tools_config coerce_mcp
    accepts switches_ok subagents_ok switch get
no_sandbox = refl

-- A false mcp is stored as an object.
coerced :
    validate_tools_config strict (field "mcp" (bool false) end) ≡ ok (field "mcp" (obj end) end)
unfolding validate_tools_config coerce_mcp put accepts switches_ok subagents_ok switch get
coerced = refl

service_down : connect_whatsapp 2 "d9" none both ≡ err (http 502)
unfolding connect_whatsapp on_agent get_active_agent
service_down = refl

was_deleted : delete_agent 1 both ≡ ok (deleted ani, budi ∷ deleted ani ∷ [])
unfolding delete_agent on_agent get_active_agent
was_deleted = refl

abbrev later : List Request
later = creates (fresh 1 "k5") bot none ∷ renews 1 500 ∷ deletes 2 ∷ []

abbrev newest_first : List Agent → List Agent
newest_first = sort_rows (λ a b. ltb b.created_at a.created_at)

gone_example : IsNotFound newest_first strict 1 (serve_all strict later (budi ∷ deleted ani ∷ []))
gone_example =
    delete_agent-gone newest_first strict 1 both (budi ∷ deleted ani ∷ []) (deleted ani) later
      (sort_rows-AddsNone (λ a b. ltb b.created_at a.created_at)) was_deleted

configured : AreConfigured strict both
unfolding validate_tools_config switch get
configured = ((refl, λ on. absurd cc), ((refl, λ on. absurd cc), tt))

configured_example :
    AreConfigured strict (serve_all strict (updates 1 (with_tools tools_only) ∷ later) both)
configured_example =
    serve_all-AreConfigured strict (updates 1 (with_tools tools_only) ∷ later) both configured

abbrev first_page : AgentList
first_page = record { items = budi ∷ []; total = 2; limit = 1; offset = 0 }

first_read : list_agents newest_first 1 0 none both ≡ ok first_page
unfolding list_agents is_listed
first_read = refl

abbrev no_rows : Db
no_rows = record { plans = []; users = []; subscriptions = []; topups = []; api_keys = [] }

abbrev spent : Agent
spent = record ani { tokens_used = 5000 }

was_renewed : renew_agent 1 9000 (spent ∷ []) ≡ ok (renewed 9000 spent, renewed 9000 spent ∷ [])
unfolding renew_agent on_agent get_active_agent
was_renewed = refl

plain : is_quota_exempt_builder_agent (quota_view (renewed 9000 spent)) ≡ false
unfolding is_quota_exempt_builder_agent get get_truthy
plain = refl

no_owner : get_owner_subscription (quota_view (renewed 9000 spent)) no_rows ≡ ok none
unfolding get_owner_subscription
no_owner = refl

renewed_example :
    (check_agent_quota (quota_view (renewed 9000 spent)) 10000 no_rows ≡ ok allowed)
    ↔ OwnerCanRun none
renewed_example =
    renew_agent-allowed_iff 1 9000 10000 (spent ∷ []) (renewed 9000 spent ∷ []) (renewed 9000 spent)
      no_rows none was_renewed plain no_owner (omega arith)
