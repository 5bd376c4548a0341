-- ===== src/Agents/Changes.antt =====
-- What the requests of app/api/agents.py do to the table: they add a new agent, or save a changed one
-- that was found active. What both keep, any history of requests keeps.
use self_managed_agents.Base.{
  ℕ, String, ◌≡◌, ◌⊎◌, inl, inr, refl, subst, Bool, true, not, Option, some, List, [], ◌∷◌,
  Bool-cases,
}
use self_managed_agents.Base.Outcome.{
  Outcome, ok, err, http, require, or_raise, require-eq_ok, Holds, >>=-Holds,
}
use self_managed_agents.Base.Json.{Json, Fields}
use self_managed_agents.Agents.Config.{validate_tools_config}
use self_managed_agents.Agents.{
  Agent, AgentUpdate, get_active_agent, save, on_agent, patched, validate_patch, set_value,
  with_device, Request, creates, updates, deletes, renews, disconnects, connects, left, serve,
  serve_all, create_agent, update_agent, delete_agent, renew_agent, disconnect_whatsapp,
  connect_whatsapp, create_ok, update_ok, new_agent, is_new, deleted, renewed, disconnected,
  no_device, is_taken_device, Patch, unset, null, set,
}

module _ (to_bool : Json → Option Bool) where
  -- a configuration that came out of the validation
  abbrev pub Validated : Fields → Type 0
  Validated fs = (given : Fields) × (validate_tools_config to_bool given ≡ ok fs)

  -- A change keeps the id, and the configuration unless a validated one replaces it.
  abbrev pub Changed : Agent → Agent → Type 0
  Changed a b = (b.id ≡ a.id) × ((b.tools_config ≡ a.tools_config) ⊎ Validated b.tools_config)

  abbrev ValidPatch : Patch Fields → Type 0
  ValidPatch (set fs) = Validated fs
  ValidPatch _ = Unit

  validate_patch-ValidPatch : (p : Patch Fields) → Holds ValidPatch (validate_patch to_bool p)
  validate_patch-ValidPatch unset = tt
  validate_patch-ValidPatch null = tt
  validate_patch-ValidPatch (set fs) =
      >>=-Holds _ (validate_tools_config to_bool fs) _ λ v went. (fs, went)

  set_value-Changed :
      (p : Patch Fields) (old : Fields)
      → ValidPatch p
      → Holds (λ fs. (fs ≡ old) ⊎ Validated fs) (set_value p old)
  set_value-Changed unset old h = inl refl
  set_value-Changed null old h = tt
  set_value-Changed (set v) old h = inr h

  patched-Changed :
      (payload : AgentUpdate) (a : Agent) → Holds (Changed a) (patched to_bool payload a)
  unfolding patched
  patched-Changed payload a =
      >>=-Holds _ (validate_patch to_bool payload.tools_config) _ λ tools validated.
        >>=-Holds _ (set_value payload.name a.name) _ λ _ _.
          >>=-Holds _ (set_value payload.instructions a.instructions) _ λ _ _.
            >>=-Holds _ (set_value payload.model a.model) _ λ _ _.
              >>=-Holds _ (set_value payload.temperature a.temperature) _ λ _ _.
                >>=-Holds _ (set_value tools a.tools_config) _ λ _ written.
                  >>=-Holds _ (set_value payload.sandbox_config a.sandbox_config) _ λ _ _.
                    >>=-Holds _ (set_value payload.safety_policy a.safety_policy) _ λ _ _.
                      >>=-Holds _ (set_value payload.escalation_config a.escalation_config) _ λ _ _.
                        >>=-Holds _ (set_value payload.operator_ids a.operator_ids) _ λ _ _.
                          >>=-Holds _ (set_value payload.capabilities a.capabilities) _ λ _ _.
                            let patch =
                              subst (Holds ValidPatch) validated
                                (validate_patch-ValidPatch payload.tools_config) in
                            (
                              refl,
                              subst (Holds (λ fs. (fs ≡ a.tools_config) ⊎ Validated fs)) written
                                  (set_value-Changed tools a.tools_config patch),
                            )

  with_device-Changed :
      (device : String) (db : List Agent) (a : Agent) → Holds (Changed a) (with_device device db a)
  with_device-Changed device db a = elim (Bool-cases (no_device a)) [
    | inl e ↦ rw e (
        >>=-Holds _ (require (not (is_taken_device (some device) db)) (http 500)) _
          λ _ _. (refl, inl refl))
    | inr e ↦ rw e (refl, inl refl)
  ]

  disconnected-Changed : (a : Agent) → Holds (Changed a) (disconnected a)
  disconnected-Changed a =
      >>=-Holds _ (require (not (no_device a)) (http 404)) _ λ _ _. (refl, inl refl)

module _ (to_bool : Json → Option Bool) (I : List Agent → Type 0)
    (added : (agent : Agent) (db : List Agent)
      → is_new agent db ≡ true
      → Validated to_bool agent.tools_config
      → I db
      → I (agent ∷ db))
    (saved : (id : ℕ) (a b : Agent) (db : List Agent)
      → get_active_agent id db ≡ ok a
      → Changed to_bool a b
      → I db
      → I (save b db)) where
  abbrev Keeps {ℓ} : {A : Type ℓ} → Outcome (A × List Agent) → Type 0
  Keeps o = Holds (λ (answer, after). I after) o

  on_agent-Keeps :
      (id : ℕ) (change : Agent → Outcome Agent) (db : List Agent)
      → ((a : Agent) → Holds (Changed to_bool a) (change a))
      → I db
      → Keeps (on_agent id change db)
  unfolding on_agent
  on_agent-Keeps id change db changes good = >>=-Holds _ (get_active_agent id db) _ λ a found.
      >>=-Holds _ (change a) _ λ b changed.
        saved id a b db found (subst (Holds (Changed to_bool a)) changed (changes a)) good

  left-Keeps {ℓ} :
      {A : Type ℓ} (db : List Agent) (o : Outcome (A × List Agent)) → I db → Keeps o → I (left db o)
  left-Keeps db (ok (answer, after)) good h = h
  left-Keeps db (err e) good h = good

  serve-Keeps : (r : Request) (db : List Agent) → I db → I (serve to_bool r db)
  unfolding serve create_agent update_agent delete_agent renew_agent disconnect_whatsapp
      connect_whatsapp
  serve-Keeps (creates fresh payload wa_result) db good = left-Keeps db _ good (
      >>=-Holds _ (require (create_ok payload) (http 422)) _ λ _ _.
        >>=-Holds _ (validate_tools_config to_bool payload.tools_config) _ λ v went.
          >>=-Holds _ (require (is_new (new_agent fresh payload v) db) (http 500)) _ λ _ passed.
            added (new_agent fresh payload v) db
              (require-eq_ok (is_new (new_agent fresh payload v) db) (http 500) passed)
              (payload.tools_config, went) good)
  serve-Keeps (updates id payload) db good = left-Keeps db _ good (
      >>=-Holds _ (require (update_ok payload) (http 422)) _
        λ _ _. on_agent-Keeps id _ db (patched-Changed to_bool payload) good)
  serve-Keeps (deletes id) db good =
      left-Keeps db _ good (on_agent-Keeps id (λ a. ok (deleted a)) db (λ a. (refl, inl refl)) good)
  serve-Keeps (renews id now) db good =
      left-Keeps db _ good
        (on_agent-Keeps id (λ a. ok (renewed now a)) db (λ a. (refl, inl refl)) good)
  serve-Keeps (disconnects id) db good =
      left-Keeps db _ good (on_agent-Keeps id disconnected db (disconnected-Changed to_bool) good)
  serve-Keeps (connects id device wa_result) db good = left-Keeps db _ good (
      >>=-Holds _ (on_agent id (with_device device db) db) _ λ (agent, after) went.
        >>=-Holds _ (or_raise wa_result (http 502)) _ λ _ _.
          subst (λ (o : Outcome (Agent × List Agent)). Keeps o) went
            (on_agent-Keeps id (with_device device db) db (with_device-Changed to_bool device db)
              good))

  pub serve_all-Keeps : (rs : List Request) (db : List Agent) → I db → I (serve_all to_bool rs db)
  unfolding serve_all
  serve_all-Keeps [] db good = good
  serve_all-Keeps (r ∷ rs) db good = serve_all-Keeps rs (serve to_bool r db) (serve-Keeps r db good)
