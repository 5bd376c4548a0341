-- ===== src/DevTrial/Reach.antt =====
-- app/core/domain/wa_dev_trial_service.py: a code that was drawn leads to its agent.
use self_managed_agents.Base.{
  string_eq, nat_eq, ℕ, zero, suc, ◌-◌, ◌≤◌, ◌<◌, ◌≡◌, refl, String, Bool, true, false, not, ◌&&◌,
  ◌||◌, some, List, [], ◌∷◌, ◌==◌, ==_refl, leb, All, contains, map, arith, Bool-cases, inl, inr,
  eq_iff,
}
use self_managed_agents.Base.Outcome.{ok}
use self_managed_agents.Base.Json.{Json, obj, Fields, end, field, get, truthy}
use self_managed_agents.Base.Text.{upper, keep_chars, take_text, is_digit, len_text, all_chars}
use self_managed_agents.DevTrial.{
  Agent, is_alnum, normalize_wa_dev_trial_code, trial_policy, put, get_agent_wa_dev_trial_code,
  first_with_code, find_agent_by_wa_dev_trial_code, no_collision, draw_code, new_policy,
  code_fields, write_code, ensure_wa_dev_trial_code,
}

-- `_CODE_ALPHABET`: no I, O, 0 or 1
unfoldable pub in_alphabet : ℕ → Bool
in_alphabet c =
    leb b'A' c && leb c b'Z' && not (c == b'I') && not (c == b'O') || leb b'2' c && leb c b'9'

-- what `_new_code` draws
unfoldable pub is_new_code : String → Bool
unfolding in_alphabet all_chars
is_new_code c = len_text c == 6 && all_chars in_alphabet c

upper-alphabet : (c : String) → all_chars in_alphabet c ≡ true → upper c ≡ c
unfolding upper all_chars in_alphabet
upper-alphabet String.[] h = refl
upper-alphabet (String.◌∷◌ c s) h = ground (arith, upper-alphabet s)

keep_chars-alphabet : (c : String) → all_chars in_alphabet c ≡ true → keep_chars is_alnum c ≡ c
unfolding keep_chars all_chars in_alphabet is_alnum is_digit
keep_chars-alphabet String.[] h = refl
keep_chars-alphabet (String.◌∷◌ c s) h = ground (arith, keep_chars-alphabet s)

take_text-all : (n : ℕ) (c : String) → len_text c ≤ n → take_text n c ≡ c
unfolding take_text
take_text-all n String.[] h = refl
take_text-all n (String.◌∷◌ c s) h = ground (arith, take_text-all (n - 1) s)

normalize-new_code : (c : String) → is_new_code c ≡ true → normalize_wa_dev_trial_code c ≡ c
unfolding normalize_wa_dev_trial_code is_new_code
normalize-new_code c h =
    let alphabet : all_chars in_alphabet c ≡ true = ground arith in
    let short : len_text c ≤ 6 = ground arith in
    rw (upper-alphabet c alphabet, keep_chars-alphabet c alphabet) (take_text-all 6 c short)

get-put :
    (key : String) (value : Json) (fields : Fields) → get key (put key value fields) ≡ some value
unfolding get put
get-put key value end = rw (==_refl key) refl
get-put key value (field name old rest) = ground (arith, get-put key value rest)

new_code-nonempty : (c : String) → is_new_code c ≡ true → (c == "") ≡ false
unfolding is_new_code
new_code-nonempty c h = elim (Bool-cases (c == "")) [
  | inl e ↦ let empty : c ≡ "" = (eq_iff c "").0 e in absurd (let q = rw empty at h in cc)
  | inr e ↦ e
]

module _ (show : Json → String) where
  give-code :
      (a : Agent) (candidate created_at : String)
      → is_new_code candidate ≡ true
      → get_agent_wa_dev_trial_code show
          (record a { safety_policy = new_policy candidate created_at a.safety_policy })
        ≡ candidate
  unfolding get_agent_wa_dev_trial_code trial_policy get truthy is_new_code
  give-code a candidate created_at h =
      let given = record a { safety_policy = new_policy candidate created_at a.safety_policy } in
      let policy : trial_policy given ≡ code_fields candidate created_at =
        rw
          (
            trial_policy,
            get-put "wa_dev_trial" (obj (code_fields candidate created_at)) a.safety_policy,
          )
          refl in
      rw (policy, new_code-nonempty candidate h) (normalize-new_code candidate h)

  -- the agent's row is there, and no row of its id is deleted
  abbrev pub IsLive : ℕ → List Agent → Type 0
  IsLive id agents =
      (contains id (map (λ a. a.id) agents) ≡ true)
      × All (λ a. (a.id == id) ≡ true → a.is_deleted ≡ false) agents

  draw_code-found :
      (n i : ℕ) (drawn : ℕ → String) (agents : List Agent) (agent : Agent)
      → ((j : ℕ) → is_new_code (drawn j) ≡ true)
      → i < n
      → no_collision agent (find_agent_by_wa_dev_trial_code show agents (drawn i)) ≡ true
      → (c : String) × (draw_code show n drawn agents agent ≡ some c)
        × (is_new_code c ≡ true)
        × (no_collision agent (find_agent_by_wa_dev_trial_code show agents c) ≡ true)
  unfolding draw_code
  draw_code-found zero i drawn agents agent new l free = absurd (omega (arith, l))
  draw_code-found (suc n) i drawn agents agent new l free =
      elim (Bool-cases
        (no_collision agent (find_agent_by_wa_dev_trial_code show agents (drawn 0)))) [
          | inl e ↦ (drawn 0, rw e refl, new 0, e)
          | inr e ↦ elim (Bool-cases (i == 0)) [
            | inl z ↦ let zero_ : i ≡ 0 = ground arith in absurd (let q = rw zero_ at free in cc)
            | inr z ↦
                let next : suc (i - 1) ≡ i = ground arith in
                let (c, found, k, m) =
                  draw_code-found n (i - 1) (λ j. drawn (suc j)) agents agent (λ j. new (suc j))
                    (ground arith) (rw next free) in
                (c, rw e found, k, m)
          ]
        ]

  -- After the code is written, it leads to a row of the agent.
  first_with_code-written :
      (agent : Agent) (candidate created_at : String) (agents : List Agent)
      → is_new_code candidate ≡ true
      → IsLive agent.id agents
      → no_collision agent (first_with_code show candidate agents) ≡ true
      → (r : Agent) × (first_with_code show candidate
            (write_code agent.id candidate created_at agents)
          ≡ some r)
        × ((r.id == agent.id) ≡ true)
  unfolding first_with_code
  first_with_code-written agent candidate created_at [] new (here, live) free = absurd cc
  first_with_code-written agent candidate created_at (a ∷ agents) new (here, (p, live)) free =
      elim (Bool-cases (a.id == agent.id)) [
        | inl e ↦ (
          record a { safety_policy = new_policy candidate created_at a.safety_policy },
          rw (e, p e, give-code a candidate created_at new, ==_refl candidate) refl,
          e,
        )
        | inr e ↦
            elim (Bool-cases
              (not a.is_deleted && get_agent_wa_dev_trial_code show a == candidate)) [
                | inl g ↦ absurd (let q = rw g at free in cc)
                | inr g ↦
                    let (r, found, k) =
                      first_with_code-written agent candidate created_at agents new
                        (rw e at here, live) (rw g at free) in
                    (r, rw (e, g) found, k)
              ]
      ]

  -- Where a new code is asked for and one of the 40 codes drawn is no other agent's, a code is
  -- returned, and it leads to the agent.
  pub ensure_wa_dev_trial_code-finds :
      (drawn : ℕ → String) (created_at : String) (agents : List Agent) (agent : Agent)
      (force_new : Bool) (i : ℕ)
      → ((j : ℕ) → is_new_code (drawn j) ≡ true)
      → IsLive agent.id agents
      → (force_new || get_agent_wa_dev_trial_code show agent == "") ≡ true
      → i < 40
      → no_collision agent (find_agent_by_wa_dev_trial_code show agents (drawn i)) ≡ true
      → (code : String) × (after : List Agent) × (r : Agent) × (ensure_wa_dev_trial_code show drawn
            created_at agents agent force_new
          ≡ ok (code, after))
        × (find_agent_by_wa_dev_trial_code show after code ≡ some r)
        × ((r.id == agent.id) ≡ true)
  unfolding ensure_wa_dev_trial_code find_agent_by_wa_dev_trial_code is_new_code
  ensure_wa_dev_trial_code-finds drawn created_at agents agent force_new i new live asked l free =
      let go : (not force_new && not (get_agent_wa_dev_trial_code show agent == "")) ≡ false =
        ground arith in
      let (c, found, k, m) = draw_code-found 40 i drawn agents agent new l free in
      let long : (len_text c == 6) ≡ true = ground arith in
      let normal = normalize-new_code c k in
      let (r, reached, same) =
        first_with_code-written agent c created_at agents k live (rw (normal, long) at m) in
      (
        c,
        write_code agent.id c created_at agents,
        r,
        rw (ensure_wa_dev_trial_code, go, found) refl,
        rw (normal, long) reached,
        same,
      )
