-- ===== src/Capabilities/Claims.antt =====
-- What the prompt says of the capabilities of a run, and what is held against its reply.
use self_managed_agents.Base.{
  string_eq, String, ◌≡◌, refl, ap, subst, All, Bool, true, false, not, Option, List, [], ◌∷◌, ◌==◌,
  where_, if◌then◌else◌, arith,
}
use self_managed_agents.Base.Outcome.{ok, >>=-eq-ok}
use self_managed_agents.Base.Json.{Json}
use self_managed_agents.Base.Text.{strip, lower}
use self_managed_agents.Capabilities.Registry.{ToolCapability, all_capabilities}
use self_managed_agents.Capabilities.{
  is_capability_enabled, Contract, add_line, contract_of, build_runtime_tool_contract, is_claimed,
  claims_of, disabled_capability_claims,
}

module _ (search : String → String → Bool) where
  -- One capability, asked for where it is of high risk.
  weighed :
      (reply : String) (cap : ToolCapability) (active : Bool) (c : Contract)
      → (if not cap.high_risk
          then ok (where_ (is_claimed search reply) c.disabled)
          else ok (
              if active
              then where_ (is_claimed search reply) c.disabled
              else if is_claimed search reply cap
              then cap ∷ where_ (is_claimed search reply) c.disabled
              else where_ (is_claimed search reply) c.disabled))
        ≡ ok (where_ (is_claimed search reply) (add_line cap active c).disabled)
  weighed reply cap active c = ground arith

  claims_of-contract_of :
      (reply : String) (tools_config : Option Json) (groups : List String)
      (caps : List ToolCapability) (c : Contract)
      → contract_of tools_config groups caps ≡ ok c
      → claims_of search reply tools_config groups caps
        ≡ ok (where_ (is_claimed search reply) c.disabled)
  unfolding contract_of claims_of
  claims_of-contract_of reply tools_config groups [] c went =
      let same : record { enabled = []; disabled = [] } ≡ c = cc in
      ap (λ (k : Contract). ok (where_ (is_claimed search reply) k.disabled)) same
  claims_of-contract_of reply tools_config groups (cap ∷ caps) c went =
      let (active, asked, rest) =
        >>=-eq-ok (is_capability_enabled cap.key tools_config groups) _ went in
      let (c', listed, added) = >>=-eq-ok (contract_of tools_config groups caps) _ rest in
      let later = claims_of-contract_of reply tools_config groups caps c' listed in
      let same : add_line cap active c' ≡ c = cc in
      subst
        (λ (k : Contract).
          claims_of search reply tools_config groups (cap ∷ caps)
          ≡ ok (where_ (is_claimed search reply) k.disabled))
        same (rw (claims_of, asked, later) (weighed reply cap active c'))

-- What the contract lists is as it says.
abbrev pub IsRight : Option Json → List String → Contract → Type 0
IsRight tools_config groups c =
    All (λ cap. is_capability_enabled cap.key tools_config groups ≡ ok true) c.enabled
    × All
        (λ cap.
          (is_capability_enabled cap.key tools_config groups ≡ ok false) × (cap.high_risk ≡ true))
        c.disabled

add_line-IsRight :
    (tools_config : Option Json) (groups : List String) (cap : ToolCapability) (active : Bool)
    (c : Contract)
    → is_capability_enabled cap.key tools_config groups ≡ ok active
    → IsRight tools_config groups c
    → IsRight tools_config groups (add_line cap active c)
add_line-IsRight tools_config groups cap true c asked (on, off) = ((asked, on), off)
add_line-IsRight tools_config groups cap false c asked (on, off) = by_risk cap.high_risk refl
  where
    by_risk :
        (risk : Bool)
        → cap.high_risk ≡ risk
        → IsRight tools_config groups (if risk then record c { disabled = cap ∷ c.disabled } else c)
    by_risk true e = (on, ((asked, e), off))
    by_risk false e = (on, off)

contract_of-IsRight :
    (tools_config : Option Json) (groups : List String) (caps : List ToolCapability) (c : Contract)
    → contract_of tools_config groups caps ≡ ok c
    → IsRight tools_config groups c
unfolding contract_of
contract_of-IsRight tools_config groups [] c went =
    let same : record { enabled = []; disabled = [] } ≡ c = cc in
    subst (IsRight tools_config groups) same (tt, tt)
contract_of-IsRight tools_config groups (cap ∷ caps) c went =
    let (active, asked, rest) =
      >>=-eq-ok (is_capability_enabled cap.key tools_config groups) _ went in
    let (c', listed, added) = >>=-eq-ok (contract_of tools_config groups caps) _ rest in
    let same : add_line cap active c' ≡ c = cc in
    subst (IsRight tools_config groups) same (
      add_line-IsRight tools_config groups cap active c' asked
        (contract_of-IsRight tools_config groups caps c' listed))

-- Where the contract of a run can be made: what it lists as active is enabled, what it lists as
-- unavailable is of high risk and not enabled; and a reply that is not blank is held to claim exactly
-- those of the unavailable ones that one of their patterns finds in it.
pub disabled_capability_claims-IsRight :
    (search : String → String → Bool) (reply : String) (tools_config : Option Json)
    (groups : List String) (c : Contract)
    → build_runtime_tool_contract tools_config groups ≡ ok c
    → (lower (strip reply) == "") ≡ false
    → IsRight tools_config groups c
      × (disabled_capability_claims search reply tools_config groups
          ≡ ok (where_ (is_claimed search (lower (strip reply))) c.disabled))
unfolding disabled_capability_claims build_runtime_tool_contract
disabled_capability_claims-IsRight search reply tools_config groups c went said = (
  contract_of-IsRight tools_config groups all_capabilities c went,
  rw said (
      claims_of-contract_of search (lower (strip reply)) tools_config groups all_capabilities c
        went),
)
