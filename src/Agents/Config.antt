-- ===== src/Agents/Config.antt =====
-- app/core/config_schema.py: the schema of an agent's tools_config, as _validate_tools_config of
-- app/api/agents.py applies it. What pydantic takes for a bool is a parameter, `to_bool`.
use self_managed_agents.Base.{
  string_eq, String, Bool, true, false, not, ◌&&◌, ◌||◌, Option, none, some, List, [], ◌∷◌, ◌==◌,
  if◌then◌else◌,
}
use self_managed_agents.Base.Outcome.{Outcome, ok, http, require, ◌>>◌}
use self_managed_agents.Base.Json.{
  Json, null, str, arr, obj, Items, nil, cons, Fields, end, field, get,
}

-- `d[key] = value`
unfoldable pub put : String → Json → Fields → Fields
put key value end = field key value end
put key value (field name old rest) =
    let later = put key value rest in
    if name == key then field name value rest else field name old later

abbrev pub is_object : Json → Bool
is_object (obj fields) = true
is_object _ = false

abbrev pub is_null : Json → Bool
is_null null = true
is_null _ = false

-- `coerce_mcp_to_dict`, which writes to the dict that it is given
unfoldable pub coerce_mcp : Fields → Fields
unfolding put
coerce_mcp values = elim (get "mcp" values) [
  | none ↦ values
  | some mcp ↦ if is_null mcp || is_object mcp then values else put "mcp" (obj end) values
]

abbrev all_texts : Items → Bool
all_texts nil = true
all_texts (cons (str s) rest) = all_texts rest
all_texts (cons _ rest) = false

-- a field of type list[str] that may be missing
abbrev text_list : Option Json → Bool
text_list none = true
text_list (some (arr items)) = all_texts items
text_list (some _) = false

abbrev pub is_known : Option Bool → Bool
is_known none = false
is_known (some b) = true

-- the fields of type bool
abbrev pub switches : List String
switches =
    "sandbox" ∷ "tool_creator" ∷ "scheduler" ∷ "http" ∷ "tavily" ∷ "escalation" ∷ "rag" ∷ "memory"
    ∷ "skills" ∷ "whatsapp_media" ∷ "wa_agent_manager" ∷ "deploy" ∷ []

module _ (to_bool : Json → Option Bool) where
  -- a field of type bool, with its default
  unfoldable pub switch : String → Bool → Fields → Option Bool
  switch key default values = elim (get key values) [ none ↦ some default | some v ↦ to_bool v ]

  -- the bools are bools; of the defaults only those of sandbox and tool_creator, False, are read
  unfoldable pub switches_ok : List String → Fields → Bool
  unfolding switch
  switches_ok [] values = true
  switches_ok (key ∷ keys) values = is_known (switch key false values) && switches_ok keys values

  -- `SubagentsConfig | bool`
  unfoldable pub subagents_ok : Option Json → Bool
  unfolding switch
  subagents_ok none = true
  subagents_ok (some (obj values)) =
      is_known (switch "enabled" false values) && text_list (get "agent_ids" values)
  subagents_ok (some v) = is_known (to_bool v)

  -- `dict[str, Any]`
  abbrev pub mcp_ok : Option Json → Bool
  mcp_ok none = true
  mcp_ok (some mcp) = is_object mcp

  abbrev pub is_on : Option Bool → Bool
  is_on none = false
  is_on (some b) = b

  -- what the fields and `tool_creator_requires_sandbox` accept
  unfoldable pub accepts : Fields → Bool
  unfolding switches_ok subagents_ok switch
  accepts values =
      switches_ok switches values
      && subagents_ok (get "subagents" values)
      && mcp_ok (get "mcp" values)
      && not (
          is_on (switch "tool_creator" false values) && not (is_on (switch "sandbox" false values)))

  -- `_validate_tools_config`, with the dict as it is left
  unfoldable pub validate_tools_config : Fields → Outcome Fields
  validate_tools_config end = ok end
  validate_tools_config (field name value rest) = do
    let values = coerce_mcp (field name value rest)
    require (accepts values) (http 422)
    ok values
