-- ===== src/DevTrial/Tests.antt =====
-- Two agents; the first code drawn is the other's.
use self_managed_agents.Base.{
  ℕ, zero, suc, string_eq, nat_eq, ◌≡◌, refl, String, true, false, ◌||◌, some, List, [], ◌∷◌, ◌==◌,
  arith,
}
use self_managed_agents.Base.Outcome.{ok}
use self_managed_agents.Base.Json.{Json, Fields, obj, end, field}
use self_managed_agents.DevTrial.{
  Agent, get_agent_wa_dev_trial_code, find_agent_by_wa_dev_trial_code, no_collision,
  ensure_wa_dev_trial_code,
}
use self_managed_agents.DevTrial.Reach.{is_new_code, ensure_wa_dev_trial_code-finds}

abbrev show_none : Json → String
show_none v = "None"

abbrev agent : ℕ → Fields → Agent
agent id policy = record { id = id; is_deleted = false; safety_policy = policy }

abbrev agents : List Agent
agents =
    agent 2 (field "wa_dev_trial" (obj (field "code" (Json.str "abc-234") end)) end)
    ∷ agent 1 end
    ∷ []

abbrev drawn : ℕ → String
drawn zero = "ABC234"
drawn (suc i) = "XYZ789"

drawn-new : (j : ℕ) → is_new_code (drawn j) ≡ true
unfolding is_new_code
drawn-new zero = refl
drawn-new (suc j) = refl

taken :
    no_collision (agent 1 end) (find_agent_by_wa_dev_trial_code show_none agents (drawn 0)) ≡ false
unfolding find_agent_by_wa_dev_trial_code
taken = refl

free :
    no_collision (agent 1 end) (find_agent_by_wa_dev_trial_code show_none agents (drawn 1)) ≡ true
unfolding find_agent_by_wa_dev_trial_code
free = refl

asked : (false || get_agent_wa_dev_trial_code show_none (agent 1 end) == "") ≡ true
unfolding get_agent_wa_dev_trial_code
asked = refl

trial_example :
    (code : String) × (after : List Agent) × (r : Agent) × (ensure_wa_dev_trial_code show_none drawn
        "now" agents
        (agent 1 end)
        false
      ≡ ok (code, after))
    × (find_agent_by_wa_dev_trial_code show_none after code ≡ some r)
    × ((r.id == 1) ≡ true)
trial_example =
    ensure_wa_dev_trial_code-finds show_none drawn "now" agents (agent 1 end) false 1 drawn-new
      (refl, (λ _. refl, (λ _. refl, tt))) asked (omega arith) free
