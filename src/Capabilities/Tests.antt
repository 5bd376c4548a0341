-- ===== src/Capabilities/Tests.antt =====
-- The capabilities of a small configuration, and a reply that claims too much.
use self_managed_agents.Base.{
  string_eq, String, ◌≡◌, refl, Bool, true, false, Option, some, [], ◌∷◌, ◌==◌, where_,
}
use self_managed_agents.Base.Outcome.{ok, err, type_error}
use self_managed_agents.Base.Json.{Json, bool, num, obj, end, field, get, get_truthy, truthy}
use self_managed_agents.Base.Text.{strip, rstrip, lower, drop_while, is_space}
use self_managed_agents.Capabilities.Registry.{
  memory_capability, escalation_capability, deploy_capability, sandbox_capability, rag_capability,
  scheduler_capability, whatsapp_media_capability, google_workspace_capability,
}
use self_managed_agents.Capabilities.{
  Contract, is_capability_enabled, google_configured, contract_of, build_runtime_tool_contract,
  is_claimed, disabled_capability_claims,
}
use self_managed_agents.Capabilities.Claims.{IsRight, disabled_capability_claims-IsRight}

abbrev config : Option Json
config = some (obj (field "memory" (bool true) end))

abbrev contract : Contract
contract = record {
  enabled = memory_capability ∷ scheduler_capability ∷ [];
  disabled =
      escalation_capability ∷ sandbox_capability ∷ deploy_capability ∷ rag_capability
      ∷ whatsapp_media_capability ∷ google_workspace_capability ∷ [];
}

listed : build_runtime_tool_contract config ("scheduler" ∷ []) ≡ ok contract
unfolding build_runtime_tool_contract contract_of is_capability_enabled
listed = refl

-- A number of servers is no collection to look into.
no_servers :
    google_configured (some (obj (field "enabled" (bool true) (field "servers" (num 1) end))))
    ≡ err type_error
unfolding google_configured get get_truthy truthy
no_servers = refl

-- a search that finds the pattern of a deployment only
abbrev finds_deploy : String → String → Bool
finds_deploy pattern reply = pattern == "\\b(sudah|telah)\\s+(saya\\s+)?deploy\\b"

speaks : (lower (strip "Sudah saya deploy") == "") ≡ false
unfolding lower strip rstrip drop_while is_space
speaks = refl

claims_example :
    IsRight config ("scheduler" ∷ []) contract
    × (disabled_capability_claims finds_deploy "Sudah saya deploy" config ("scheduler" ∷ [])
        ≡ ok (
            where_ (is_claimed finds_deploy (lower (strip "Sudah saya deploy"))) contract.disabled))
claims_example =
    disabled_capability_claims-IsRight finds_deploy "Sudah saya deploy" config ("scheduler" ∷ [])
      contract listed speaks

only_deploy :
    disabled_capability_claims finds_deploy "Sudah saya deploy" config ("scheduler" ∷ [])
    ≡ ok (deploy_capability ∷ [])
unfolding disabled_capability_claims is_capability_enabled
only_deploy = refl
