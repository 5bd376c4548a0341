-- ===== src/Capabilities.antt =====
-- app/core/engine/tool_capability_registry.py: which capabilities a run has, what the prompt says of
-- them, and which of them a reply claims without having them. `re.search`, ignoring case, is the
-- parameter `search`; the descriptions for people are left out, so that the contract of the prompt is
-- the two lists of capabilities that its lines are about.
pub mod Registry
pub mod Claims
mod Tests
use self_managed_agents.Base.{
  string_eq, String, Bool, true, false, not, ◌&&◌, ◌||◌, Option, none, some, List, [], ◌∷◌, ◌==◌,
  if◌then◌else◌, where_, contains, any,
}
use self_managed_agents.Base.Outcome.{Outcome, ok, err, type_error, ◌>>=◌}
use self_managed_agents.Base.Json.{
  Json, null, bool, num, str, arr, obj, Items, nil, cons, Fields, end, field, get, truthy,
  get_truthy,
}
use self_managed_agents.Base.Text.{codes, is_prefix, is_infix, strip, lower}
use self_managed_agents.Capabilities.Registry.{ToolCapability, all_capabilities}

abbrev has_item : String → Items → Bool
has_item key nil = false
has_item key (cons (str s) rest) = s == key || has_item key rest
has_item key (cons _ rest) = has_item key rest

abbrev is_some : Option Json → Bool
is_some none = false
is_some (some value) = true

-- `key in (value or {})`, which raises on a number and on True
abbrev is_in : String → Json → Outcome Bool
is_in key null = ok false
is_in key (bool b) = if b then err type_error else ok false
is_in key (num n) = if truthy (num n) then err type_error else ok false
is_in key (str s) = ok (not (s == "") && is_infix (codes key) (codes s))
is_in key (arr items) = ok (has_item key items)
is_in key (obj fields) = ok (is_some (get key fields))

abbrev value_or_null : Option Json → Json
value_or_null none = null
value_or_null (some value) = value

abbrev is_dict : Option Json → Bool
is_dict (some (obj fields)) = true
is_dict _ = false

-- the branch for Google Workspace, of the value of "mcp"
unfoldable pub google_configured : Option Json → Outcome Bool
unfolding get is_infix get_truthy truthy
google_configured (some (obj mcp)) =
    if is_some (get "servers" mcp) || is_some (get "enabled" mcp)
    then if get_truthy "enabled" mcp
      then is_in "google_workspace" (value_or_null (get "servers" mcp))
      else ok false
    else ok (is_dict (get "google_workspace" mcp))
google_configured _ = ok false

abbrev subagents_configured : Option Json → Bool
subagents_configured none = false
subagents_configured (some (obj fields)) = get_truthy "enabled" fields
subagents_configured (some value) = truthy value

-- `_tools_config_enabled`
unfoldable pub tools_config_enabled : Fields → String → Outcome Bool
unfolding google_configured get get_truthy truthy
tools_config_enabled tools_config capability =
    if capability == "google_workspace"
    then google_configured (get "mcp" tools_config)
    else if capability == "subagents"
    then ok (subagents_configured (get "subagents" tools_config))
    else ok (get_truthy capability tools_config)

abbrev starts_with : String → String → Bool
starts_with prefix s = is_prefix (codes prefix) (codes s)

-- `tools_config if isinstance(tools_config, dict) else {}`
abbrev config_of : Option Json → Fields
config_of (some (obj fields)) = fields
config_of _ = end

unfoldable pub is_capability_enabled : String → Option Json → List String → Outcome Bool
unfolding tools_config_enabled is_prefix
is_capability_enabled capability tools_config active_groups =
    let cfg = config_of tools_config in
    let groups = where_ (λ g. not (g == "")) active_groups in
    if capability == "subagents" && any (starts_with "subagents(") groups
    then ok true
    else if capability == "google_workspace"
        && (contains "mcp" groups
            || any (starts_with "mcp(") groups
            || contains "google_reauth" groups)
    then tools_config_enabled cfg "google_workspace"
    else if contains capability groups
    then ok true
    else tools_config_enabled cfg capability

-- the lines of the contract: what is active, and what is at risk of being made up and is not
pub record Contract : Type 0 where
  pub enabled : List ToolCapability
  pub disabled : List ToolCapability

-- the loop of `build_runtime_tool_contract_text`
abbrev pub add_line : ToolCapability → Bool → Contract → Contract
add_line cap active c =
    if active
    then record c { enabled = cap ∷ c.enabled }
    else if cap.high_risk
    then record c { disabled = cap ∷ c.disabled }
    else c

unfoldable pub contract_of : Option Json → List String → List ToolCapability → Outcome Contract
contract_of tools_config active_groups [] = ok (record { enabled = []; disabled = [] })
contract_of tools_config active_groups (cap ∷ caps) =
    is_capability_enabled cap.key tools_config active_groups >>= λ active.
    contract_of tools_config active_groups caps >>= λ c. ok (add_line cap active c)

unfoldable pub build_runtime_tool_contract : Option Json → List String → Outcome Contract
build_runtime_tool_contract tools_config active_groups =
    contract_of tools_config active_groups all_capabilities

module _ (search : String → String → Bool) where
  abbrev pub is_claimed : String → ToolCapability → Bool
  is_claimed reply cap = any (λ pattern. search pattern reply) cap.claim_patterns

  -- the loop of `disabled_capability_claims`; what is enabled is asked of high-risk capabilities only
  unfoldable pub claims_of :
      String → Option Json → List String → List ToolCapability → Outcome (List ToolCapability)
  claims_of reply tools_config active_groups [] = ok []
  claims_of reply tools_config active_groups (cap ∷ caps) =
      let later = claims_of reply tools_config active_groups caps in
      if not cap.high_risk
      then later
      else is_capability_enabled cap.key tools_config active_groups >>= λ active.
          later >>= λ blocked.
          ok (if active then blocked else if is_claimed reply cap then cap ∷ blocked else blocked)

  unfoldable pub disabled_capability_claims :
      String → Option Json → List String → Outcome (List ToolCapability)
  unfolding strip lower claims_of
  disabled_capability_claims reply tools_config active_groups =
      let said = lower (strip reply) in
      if said == "" then ok [] else claims_of said tools_config active_groups all_capabilities
