-- ===== src/Agents.antt =====
-- app/api/agents.py with app/models/agent.py and app/schemas/agent.py: agents over the HTTP API, for
-- requests that carry the key of the API. The ids, keys and devices of new rows, the clock and the
-- answers of the WhatsApp service are arguments; a temperature is counted in thousandths, as only
-- its bounds are read. updated_at and the
-- created_by_agent columns, which nothing here reads or writes but the answers, are left out.
pub mod Changes
pub mod Config
pub mod Configured
pub mod Gone
pub mod Renewed
mod Tests
use self_managed_agents.Base.{
  nat_eq, string_eq, option_eq, is_value, ℕ, ◌+◌, String, Bool, true, false, not, ◌&&◌, ◌||◌,
  Option, none, some, List, [], ◌∷◌, ◌==◌, leb, if◌then◌else◌, where_, update, or_empty, any, map,
  contains, length, take, drop,
}
use self_managed_agents.Base.Outcome.{
  Outcome, ok, err, http, ◌>>=◌, ◌>>◌, require, scalar_one_or_none, or_raise,
}
use self_managed_agents.Base.Json.{Json, obj, Fields}
use self_managed_agents.Base.Text.{len_text}
use self_managed_agents.Phone.{normalize_phone}
use self_managed_agents.Subscription.Data.{days}
use self_managed_agents.Subscription.Quota
use self_managed_agents.Agents.Config.{validate_tools_config}

pub record Agent : Type 0 where
  pub id : ℕ
  pub name : String
  pub description : Option String
  pub instructions : String
  pub model : String
  pub temperature : ℕ
  pub max_tokens : Option ℕ
  pub tools_config : Fields
  pub sandbox_config : Fields
  pub safety_policy : Fields
  pub escalation_config : Fields
  pub operator_ids : List String
  pub allowed_senders : Option (List String)
  pub capabilities : List String
  pub version : ℕ
  pub is_deleted : Bool
  pub wa_device_id : Option String
  pub channel_type : Option String
  pub owner_external_id : Option String
  pub created_by_type : Option String
  pub api_key : String
  pub token_quota : ℕ
  pub tokens_used : ℕ
  pub active_until : ℕ
  pub quota_period_days : ℕ
  pub created_at : ℕ

-- what the quota gate reads of an agent
abbrev pub quota_view : Agent → Quota.Agent
quota_view a = record {
  id = a.id;
  capabilities = Quota.many a.capabilities;
  tools_config = some (obj a.tools_config);
  owner_external_id = a.owner_external_id;
  active_until = some a.active_until;
  tokens_used = a.tokens_used;
  token_quota = a.token_quota;
}

-- AgentCreate; its `capabilities` are read by nothing
pub record AgentCreate : Type 0 where
  pub name : String
  pub description : Option String
  pub instructions : String
  pub model : String
  pub temperature : ℕ
  pub max_tokens : Option ℕ
  pub tools_config : Fields
  pub sandbox_config : Fields
  pub safety_policy : Fields
  pub escalation_config : Fields
  pub operator_ids : List String
  pub allowed_senders : Option (List String)
  pub capabilities : List String
  pub token_quota : ℕ
  pub quota_period_days : ℕ
  pub channel_type : Option String
  pub owner_external_id : Option String
  pub created_by_type : Option String

-- a field of a PATCH: left out, null, or a value
pub data Patch {ℓ} (A : Type ℓ) : Type ℓ where
  unset : Patch A
  null : Patch A
  set : A → Patch A

pub record AgentUpdate : Type 0 where
  pub name : Patch String
  pub description : Patch String
  pub instructions : Patch String
  pub model : Patch String
  pub temperature : Patch ℕ
  pub max_tokens : Patch ℕ
  pub tools_config : Patch Fields
  pub sandbox_config : Patch Fields
  pub safety_policy : Patch Fields
  pub escalation_config : Patch Fields
  pub operator_ids : Patch (List String)
  pub allowed_senders : Patch (List String)
  pub capabilities : Patch (List String)

-- the bounds that pydantic checks of a field that may be null, before the handler runs
abbrev checked {ℓ} : {A : Type ℓ} → (A → Bool) → Option A → Bool
checked test none = true
checked test (some v) = test v

abbrev checked_patch {ℓ} : {A : Type ℓ} → (A → Bool) → Patch A → Bool
checked_patch test (set v) = test v
checked_patch test _ = true

abbrev is_name : String → Bool
is_name s = leb 1 (len_text s) && leb (len_text s) 255

unfoldable pub create_ok : AgentCreate → Bool
create_ok payload =
    is_name payload.name
    && leb payload.temperature 2000
    && checked (leb 64) payload.max_tokens
    && leb 1 payload.token_quota
    && leb 1 payload.quota_period_days
    && checked (λ s. leb (len_text s) 64) payload.owner_external_id
    && checked (λ s. leb (len_text s) 32) payload.created_by_type

unfoldable pub update_ok : AgentUpdate → Bool
update_ok payload =
    checked_patch is_name payload.name
    && checked_patch (λ t. leb t 2000) payload.temperature
    && checked_patch (leb 64) payload.max_tokens

-- `payload.created_by_type or "api"`
abbrev created_by : Option String → String
created_by none = "api"
created_by (some s) = if s == "" then "api" else s

-- what one creation draws from outside: two uuid4s, the key of the agent and the clock
pub record FreshAgent : Type 0 where
  pub id : ℕ
  pub device_id : String
  pub api_key : String
  pub now : ℕ

abbrev pub new_agent : FreshAgent → AgentCreate → Fields → Agent
new_agent fresh payload tools_config = record {
  id = fresh.id;
  name = payload.name;
  description = payload.description;
  instructions = payload.instructions;
  model = payload.model;
  temperature = payload.temperature;
  max_tokens = payload.max_tokens;
  tools_config = tools_config;
  sandbox_config = payload.sandbox_config;
  safety_policy = payload.safety_policy;
  escalation_config = payload.escalation_config;
  operator_ids = payload.operator_ids;
  allowed_senders = payload.allowed_senders;
  capabilities = [];
  version = 1;
  is_deleted = false;
  wa_device_id = if is_value payload.channel_type "whatsapp" then some fresh.device_id else none;
  channel_type = payload.channel_type;
  owner_external_id = payload.owner_external_id;
  created_by_type = some (created_by payload.created_by_type);
  api_key = fresh.api_key;
  token_quota = payload.token_quota;
  tokens_used = 0;
  active_until = fresh.now + days payload.quota_period_days;
  quota_period_days = payload.quota_period_days;
  created_at = fresh.now;
}

-- the primary key and the unique indexes, where several rows may have no device
abbrev pub is_taken_device : Option String → List Agent → Bool
is_taken_device none db = false
is_taken_device (some device) db = any (λ a. is_value a.wa_device_id device) db

abbrev pub is_new : Agent → List Agent → Bool
is_new agent db =
    not (contains agent.id (map (λ a. a.id) db))
    && not (contains agent.api_key (map (λ a. a.api_key) db))
    && not (is_taken_device agent.wa_device_id db)

-- `create_agent`; the QR code is what the WhatsApp service answers, None where the call raises
unfoldable pub create_agent :
    (Json → Option Bool)
    → FreshAgent
    → AgentCreate
    → Option String
    → List Agent
    → Outcome ((Agent × Option String) × List Agent)
unfolding create_ok
create_agent to_bool fresh payload wa_result db = do
  require (create_ok payload) (http 422)
  tools_config ← validate_tools_config to_bool payload.tools_config
  let agent = new_agent fresh payload tools_config
  require (is_new agent db) (http 500)
  ok ((agent, if is_value payload.channel_type "whatsapp" then wa_result else none), agent ∷ db)

-- `_get_active_agent`
abbrev pub is_active : ℕ → Agent → Bool
is_active agent_id a = a.id == agent_id && not a.is_deleted

unfoldable pub get_active_agent : ℕ → List Agent → Outcome Agent
get_active_agent agent_id db = do
  found ← scalar_one_or_none (where_ (is_active agent_id) db)
  or_raise found (http 404)

unfoldable pub get_agent : ℕ → List Agent → Outcome Agent
unfolding get_active_agent
get_agent agent_id db = get_active_agent agent_id db

-- the flush of a changed row
abbrev pub save : Agent → List Agent → List Agent
save agent db = update (λ a. a.id == agent.id) (λ a. agent) db

-- an endpoint that reads the active agent, changes it and answers with it
unfoldable pub on_agent : ℕ → (Agent → Outcome Agent) → List Agent → Outcome (Agent × List Agent)
unfolding get_active_agent
on_agent agent_id change db = do
  agent ← get_active_agent agent_id db
  changed ← change agent
  ok (changed, save changed db)

-- `setattr` of a column, and what the flush or the answer makes of a null where there can be none
abbrev pub set_value {ℓ} : {A : Type ℓ} → Patch A → A → Outcome A
set_value unset old = ok old
set_value null old = err (http 500)
set_value (set v) old = ok v

abbrev set_nullable {ℓ} : {A : Type ℓ} → Patch A → Option A → Option A
set_nullable unset old = old
set_nullable null old = none
set_nullable (set v) old = some v

abbrev pub validate_patch : (Json → Option Bool) → Patch Fields → Outcome (Patch Fields)
validate_patch to_bool (set values) = validate_tools_config to_bool values >>= λ v. ok (set v)
validate_patch to_bool patch = ok patch

unfoldable pub patched : (Json → Option Bool) → AgentUpdate → Agent → Outcome Agent
patched to_bool payload agent = do
  tools ← validate_patch to_bool payload.tools_config
  name ← set_value payload.name agent.name
  instructions ← set_value payload.instructions agent.instructions
  model ← set_value payload.model agent.model
  temperature ← set_value payload.temperature agent.temperature
  tools_config ← set_value tools agent.tools_config
  sandbox_config ← set_value payload.sandbox_config agent.sandbox_config
  safety_policy ← set_value payload.safety_policy agent.safety_policy
  escalation_config ← set_value payload.escalation_config agent.escalation_config
  operator_ids ← set_value payload.operator_ids agent.operator_ids
  capabilities ← set_value payload.capabilities agent.capabilities
  ok (record agent {
    name = name;
    description = set_nullable payload.description agent.description;
    instructions = instructions;
    model = model;
    temperature = temperature;
    max_tokens = set_nullable payload.max_tokens agent.max_tokens;
    tools_config = tools_config;
    sandbox_config = sandbox_config;
    safety_policy = safety_policy;
    escalation_config = escalation_config;
    operator_ids = operator_ids;
    allowed_senders = set_nullable payload.allowed_senders agent.allowed_senders;
    capabilities = capabilities;
    version = agent.version + 1;
  })

unfoldable pub update_agent :
    (Json → Option Bool) → ℕ → AgentUpdate → List Agent → Outcome (Agent × List Agent)
unfolding on_agent update_ok patched
update_agent to_bool agent_id payload db =
    require (update_ok payload) (http 422) >> on_agent agent_id (patched to_bool payload) db

abbrev pub deleted : Agent → Agent
deleted a = record a { is_deleted = true }

-- `delete_agent`; an error of the WhatsApp service is only logged
unfoldable pub delete_agent : ℕ → List Agent → Outcome (Agent × List Agent)
unfolding on_agent
delete_agent agent_id db = on_agent agent_id (λ a. ok (deleted a)) db

abbrev pub renewed : ℕ → Agent → Agent
renewed now a = record a { active_until = now + days a.quota_period_days; tokens_used = 0 }

unfoldable pub renew_agent : ℕ → ℕ → List Agent → Outcome (Agent × List Agent)
unfolding on_agent
renew_agent agent_id now db = on_agent agent_id (λ a. ok (renewed now a)) db

-- `not agent.wa_device_id`
abbrev pub no_device : Agent → Bool
no_device a = or_empty a.wa_device_id == ""

abbrev pub disconnected : Agent → Outcome Agent
disconnected a =
    require (not (no_device a)) (http 404)
    >> ok (record a { wa_device_id = none; channel_type = none })

unfoldable pub disconnect_whatsapp : ℕ → List Agent → Outcome (Agent × List Agent)
unfolding on_agent
disconnect_whatsapp agent_id db = on_agent agent_id disconnected db

-- what the WhatsApp service answers: the QR code and its status
pub record WaReply : Type 0 where
  pub qr_image : String
  pub status : String

-- `connect_whatsapp`: a device that is missing gets the id `device`
abbrev pub with_device : String → List Agent → Agent → Outcome Agent
with_device device db a =
    if no_device a
    then require (not (is_taken_device (some device) db)) (http 500)
      >> ok (record a { wa_device_id = some device; channel_type = some "whatsapp" })
    else ok a

unfoldable pub connect_whatsapp :
    ℕ → String → Option WaReply → List Agent → Outcome ((Agent × WaReply) × List Agent)
unfolding on_agent
connect_whatsapp agent_id device wa_result db = do
  (agent, after) ← on_agent agent_id (with_device device db) db
  reply ← or_raise wa_result (http 502)
  ok ((agent, reply), after)

-- `get_whatsapp_qr` and `get_whatsapp_status`, with the answer of the service for the device
unfoldable pub get_whatsapp : ℕ → (String → Option WaReply) → List Agent → Outcome WaReply
unfolding get_active_agent
get_whatsapp agent_id service db = do
  agent ← get_active_agent agent_id db
  require (not (no_device agent)) (http 404)
  or_raise (service (or_empty agent.wa_device_id)) (http 502)

-- `owner_filter` of app/core/tools/builder_identity.py, for an owner that is not empty
unfoldable pub owner_variants : String → List String
owner_variants owner_phone =
    let normalized = normalize_phone owner_phone in
    if normalized == "" || normalized == owner_phone
    then owner_phone ∷ []
    else owner_phone ∷ normalized ∷ []

abbrev among : List String → Option String → Bool
among variants none = false
among variants (some owner) = contains owner variants

unfoldable pub owner_filter : String → Agent → Bool
unfolding owner_variants
owner_filter owner_phone a =
    among (owner_variants owner_phone) a.owner_external_id
    || any (λ variant. contains variant a.operator_ids) (owner_variants owner_phone)

unfoldable pub is_listed : Option String → Agent → Bool
unfolding owner_filter
is_listed owner a = not a.is_deleted && (or_empty owner == "" || owner_filter (or_empty owner) a)

pub record AgentList : Type 0 where
  pub items : List Agent
  pub total : ℕ
  pub limit : ℕ
  pub offset : ℕ

-- `order_by` is the database's `order_by(Agent.created_at.desc())`, whatever it makes of equal times.
unfoldable pub list_agents :
    (List Agent → List Agent) → ℕ → ℕ → Option String → List Agent → Outcome AgentList
unfolding is_listed
list_agents order_by limit offset owner db = do
  require (leb 1 limit && leb limit 100) (http 422)
  require (leb (len_text (or_empty owner)) 64) (http 422)
  let rows = where_ (is_listed owner) db
  ok (record {
    items = take limit (drop offset (order_by rows));
    total = length rows;
    limit = limit;
    offset = offset;
  })

-- the requests that write, one after the other; one that fails leaves the table as it was
pub data Request : Type 0 where
  creates : FreshAgent → AgentCreate → Option String → Request
  updates : ℕ → AgentUpdate → Request
  deletes : ℕ → Request
  renews : ℕ → ℕ → Request
  disconnects : ℕ → Request
  connects : ℕ → String → Option WaReply → Request

abbrev pub left {ℓ} : {A : Type ℓ} → List Agent → Outcome (A × List Agent) → List Agent
left db (ok (answer, after)) = after
left db (err e) = db

unfoldable pub serve : (Json → Option Bool) → Request → List Agent → List Agent
unfolding create_agent update_agent delete_agent renew_agent disconnect_whatsapp connect_whatsapp
serve to_bool (creates fresh payload wa_result) db =
    left db (create_agent to_bool fresh payload wa_result db)
serve to_bool (updates id payload) db = left db (update_agent to_bool id payload db)
serve to_bool (deletes id) db = left db (delete_agent id db)
serve to_bool (renews id now) db = left db (renew_agent id now db)
serve to_bool (disconnects id) db = left db (disconnect_whatsapp id db)
serve to_bool (connects id device wa_result) db = left db (connect_whatsapp id device wa_result db)

unfoldable pub serve_all : (Json → Option Bool) → List Request → List Agent → List Agent
unfolding serve
serve_all to_bool [] db = db
serve_all to_bool (r ∷ rs) db = serve_all to_bool rs (serve to_bool r db)
