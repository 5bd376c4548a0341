-- ===== src/Agents/Configured.antt =====
-- The configurations that the API lets into the table.
use self_managed_agents.Base.{
  nat_eq, string_eq, ℕ, String, ◌≡◌, refl, sym, subst, Bool, true, false, ◌||◌, Option, none, some,
  List, ◌==◌, arith, Bool-cases, Option-cases, inl, inr, All, ==_refl, All-update, All-where_kept,
}
use self_managed_agents.Base.Outcome.{ok, http, require, Holds, >>=-Holds}
use self_managed_agents.Base.Json.{Json, obj, Fields, end, field, get}
use self_managed_agents.Agents.Config.{
  put, coerce_mcp, is_object, is_null, accepts, validate_tools_config, is_on, switch,
}
use self_managed_agents.Agents.{Agent, is_active, get_active_agent, Request, serve_all}
use self_managed_agents.Agents.Changes.{Changed, serve_all-Keeps}
use self_managed_agents.Agents.Gone.{get_active_agent-eq_ok}

get-put : (key : String) (value : Json) (fs : Fields) → get key (put key value fs) ≡ some value
unfolding get put
get-put key value end = rw (==_refl key) refl
get-put key value (field name old rest) = elim (Bool-cases (name == key)) [
  | inl e ↦ rw (e, e) refl
  | inr e ↦ rw (e, e) (get-put key value rest)
]

abbrev is_accepted : Option Json → Bool
is_accepted none = true
is_accepted (some mcp) = is_null mcp || is_object mcp

coerce_mcp-eq_self :
    (fs : Fields) (o : Option Json) → get "mcp" fs ≡ o → is_accepted o ≡ true → coerce_mcp fs ≡ fs
unfolding coerce_mcp
coerce_mcp-eq_self fs none e h = rw (coerce_mcp, e) refl
coerce_mcp-eq_self fs (some mcp) e h = rw (coerce_mcp, e) (rw h refl)

coerce_mcp-eq_put :
    (fs : Fields) (mcp : Json)
    → get "mcp" fs ≡ some mcp
    → (is_null mcp || is_object mcp) ≡ false
    → coerce_mcp fs ≡ put "mcp" (obj end) fs
unfolding coerce_mcp
coerce_mcp-eq_put fs mcp e h = rw (coerce_mcp, e) (rw h refl)

-- What the coercion leaves, it leaves again.
coerce_mcp_idem : (fs : Fields) → coerce_mcp (coerce_mcp fs) ≡ coerce_mcp fs
coerce_mcp_idem fs = elim (Option-cases (get "mcp" fs)) [
  | inl e ↦ let same = coerce_mcp-eq_self fs none e refl in rw (same, same) refl
  | inr (mcp, e) ↦ elim (Bool-cases (is_null mcp || is_object mcp)) [
    | inl k ↦ let same = coerce_mcp-eq_self fs (some mcp) e k in rw (same, same) refl
    | inr k ↦
        let written = coerce_mcp-eq_put fs mcp e k in
        let again =
          coerce_mcp-eq_self (put "mcp" (obj end) fs) (some (obj end)) (get-put "mcp" (obj end) fs)
            refl in
        rw (written, again) refl
  ]
]

module _ (to_bool : Json → Option Bool) where
  -- The schema takes the configuration and leaves it as it is, and who may create tools has a sandbox.
  abbrev pub IsConfigured : Fields → Type 0
  IsConfigured fs =
      (validate_tools_config to_bool fs ≡ ok fs)
      × (is_on to_bool (switch to_bool "tool_creator" false fs) ≡ true
          → is_on to_bool (switch to_bool "sandbox" false fs) ≡ true)

  validate-coerced :
      (fs : Fields)
      → accepts to_bool fs ≡ true
      → coerce_mcp fs ≡ fs
      → validate_tools_config to_bool fs ≡ ok fs
  unfolding validate_tools_config
  validate-coerced end accepted same = refl
  validate-coerced (field name value rest) accepted same = rw (same, accepted) refl

  accepts-sandbox :
      (fs : Fields)
      → accepts to_bool fs ≡ true
      → is_on to_bool (switch to_bool "tool_creator" false fs) ≡ true
      → is_on to_bool (switch to_bool "sandbox" false fs) ≡ true
  unfolding accepts
  accepts-sandbox fs accepted on = ground arith

  validate_tools_config-IsConfigured :
      (fs : Fields) → Holds IsConfigured (validate_tools_config to_bool fs)
  unfolding validate_tools_config switch get
  validate_tools_config-IsConfigured end = (refl, λ on. absurd cc)
  validate_tools_config-IsConfigured (field name value rest) =
      let fs = coerce_mcp (field name value rest) in
      >>=-Holds _ (require (accepts to_bool fs) (http 422)) _ λ _ passed.
        let accepted : accepts to_bool fs ≡ true = ground arith in
        (
          validate-coerced fs accepted (coerce_mcp_idem (field name value rest)),
          accepts-sandbox fs accepted,
        )

  abbrev pub HasConfig : Agent → Type 0
  HasConfig a = IsConfigured a.tools_config

  abbrev pub AreConfigured : List Agent → Type 0
  AreConfigured db = All HasConfig db

  found-HasConfig :
      (id : ℕ) (db : List Agent) (a : Agent)
      → AreConfigured db
      → get_active_agent id db ≡ ok a
      → HasConfig a
  found-HasConfig id db a good found =
      let (one, _) = get_active_agent-eq_ok id db a found in
      (subst (All HasConfig) one (All-where_kept HasConfig (is_active id) db good)).0

  Changed-HasConfig : (a b : Agent) → HasConfig a → Changed to_bool a b → HasConfig b
  Changed-HasConfig a b good (_, inl same) = subst IsConfigured (sym same) good
  Changed-HasConfig a b good (_, inr (fs, went)) =
      subst (Holds IsConfigured) went (validate_tools_config-IsConfigured fs)

  -- Through any requests: every tools_config in the table is one that the schema accepts as it
  -- stands, and one with tool_creator on has the sandbox on.
  pub serve_all-AreConfigured :
      (rs : List Request) (db : List Agent)
      → AreConfigured db
      → AreConfigured (serve_all to_bool rs db)
  serve_all-AreConfigured =
      serve_all-Keeps to_bool AreConfigured
        (λ agent db _ (fs, went) good.
          (subst (Holds IsConfigured) went (validate_tools_config-IsConfigured fs), good))
        (λ id a b db found changed good.
          let fine = Changed-HasConfig a b (found-HasConfig id db a good found) changed in
          All-update HasConfig HasConfig (λ x. x.id == b.id) (λ x. b) (λ x h e. fine) (λ x h e. h)
            db good)
