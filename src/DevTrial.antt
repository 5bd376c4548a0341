-- ===== src/DevTrial.antt =====
-- app/core/domain/wa_dev_trial_service.py: the short code by which an agent is tried over a shared
-- WhatsApp number. The codes that are drawn at random are an argument, and so is how `str` shows a
-- value that is no text.
pub mod Reach
mod Tests
use self_managed_agents.Base.{
  string_eq, nat_eq, ℕ, zero, suc, ◌+◌, String, Bool, true, false, not, ◌&&◌, ◌||◌, Option, none,
  some, List, [], ◌∷◌, ◌==◌, leb, if◌then◌else◌, where_, update,
}
use self_managed_agents.Base.Outcome.{Outcome, ok, err, runtime_error}
use self_managed_agents.Base.Json.{
  Json, null, bool, num, str, arr, obj, Fields, end, field, get, truthy,
}
use self_managed_agents.Base.Text.{upper, keep_chars, take_text, is_digit, len_text}

pub record Agent : Type 0 where
  pub id : ℕ
  pub is_deleted : Bool
  pub safety_policy : Fields

-- `ch.isalnum()` after `upper()`, on ASCII
unfoldable pub is_alnum : ℕ → Bool
unfolding is_digit
is_alnum c = is_digit c || leb b'A' c && leb c b'Z' || leb b'a' c && leb c b'z'

-- `normalize_wa_dev_trial_code`, of a text
unfoldable pub normalize_wa_dev_trial_code : String → String
unfolding upper keep_chars take_text is_alnum
normalize_wa_dev_trial_code code = take_text 6 (keep_chars is_alnum (upper code))

-- `_trial_policy`
unfoldable pub trial_policy : Agent → Fields
unfolding get
trial_policy agent = elim (get "wa_dev_trial" agent.safety_policy) [
  | some (obj fields) ↦ fields
  | _ ↦ end
]

abbrev is_false : Option Json → Bool
is_false (some (bool b)) = not b
is_false _ = false

-- `policy[key] = value`
unfoldable pub put : String → Json → Fields → Fields
put key value end = field key value end
put key value (field name old rest) =
    if name == key then field name value rest else field name old (put key value rest)

abbrev show_text : (Json → String) → Json → String
show_text show (str s) = s
show_text show value = show value

-- `collision is None or collision.id == agent.id`
abbrev pub no_collision : Agent → Option Agent → Bool
no_collision agent none = true
no_collision agent (some collision) = collision.id == agent.id

abbrev pub code_fields : String → String → Fields
code_fields candidate created_at = field "code" (str candidate) (
    field "enabled" (bool true)
      (field "created_at" (str created_at) (field "reusable" (bool true) end)))

abbrev pub new_policy : String → String → Fields → Fields
new_policy candidate created_at policy =
    put "wa_dev_trial" (obj (code_fields candidate created_at)) policy

abbrev pub write_code : ℕ → String → String → List Agent → List Agent
write_code id candidate created_at agents =
    update (λ a. a.id == id)
      (λ a. record a { safety_policy = new_policy candidate created_at a.safety_policy }) agents

module _ (show : Json → String) where
  -- `str(value or "")`
  abbrev text_of : Option Json → String
  text_of none = ""
  text_of (some value) = if truthy value then show_text show value else ""

  -- `get_agent_wa_dev_trial_code`
  unfoldable pub get_agent_wa_dev_trial_code : Agent → String
  unfolding trial_policy normalize_wa_dev_trial_code get truthy
  get_agent_wa_dev_trial_code agent =
      let trial = trial_policy agent in
      if is_false (get "enabled" trial)
      then ""
      else normalize_wa_dev_trial_code (text_of (get "code" trial))

  -- the first agent that is not deleted and has the code
  unfoldable pub first_with_code : String → List Agent → Option Agent
  unfolding get_agent_wa_dev_trial_code
  first_with_code code [] = none
  first_with_code code (a ∷ agents) =
      let later = first_with_code code agents in
      if not a.is_deleted && get_agent_wa_dev_trial_code a == code then some a else later

  -- `find_agent_by_wa_dev_trial_code`
  unfoldable pub find_agent_by_wa_dev_trial_code : List Agent → String → Option Agent
  unfolding first_with_code normalize_wa_dev_trial_code
  find_agent_by_wa_dev_trial_code agents code =
      let normalized = normalize_wa_dev_trial_code code in
      if len_text normalized == 6 then first_with_code normalized agents else none

  -- the first of so many draws that does not collide
  unfoldable pub draw_code : ℕ → (ℕ → String) → List Agent → Agent → Option String
  unfolding find_agent_by_wa_dev_trial_code
  draw_code zero drawn agents agent = none
  draw_code (suc n) drawn agents agent =
      let later = draw_code n (λ i. drawn (suc i)) agents agent in
      if no_collision agent (find_agent_by_wa_dev_trial_code agents (drawn 0))
      then some (drawn 0)
      else later

  -- `ensure_wa_dev_trial_code`
  unfoldable pub ensure_wa_dev_trial_code :
      (ℕ → String) → String → List Agent → Agent → Bool → Outcome (String × List Agent)
  unfolding draw_code put get_agent_wa_dev_trial_code
  ensure_wa_dev_trial_code drawn created_at agents agent force_new =
      let existing = get_agent_wa_dev_trial_code agent in
      if not force_new && not (existing == "")
      then ok (existing, agents)
      else elim (draw_code 40 drawn agents agent) [
        | none ↦ err runtime_error
        | some candidate ↦ ok (candidate, write_code agent.id candidate created_at agents)
      ]
