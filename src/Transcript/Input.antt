-- ===== src/Transcript/Input.antt =====
-- app/core/engine/agent_input.py: the messages that a run starts from.
use self_managed_agents.Base.{
  string_eq, option_eq, ℕ, ◌-◌, ◌≤◌, ◌≡◌, refl, ◌∙◌, ap, String, Bool, true, false, not, ◌&&◌,
  Option, none, List, [], ◌∷◌, ◌++◌, ◌==◌, if◌then◌else◌, length, length-append, length-drop, map,
  ltb, or_empty, take_last, any, arith, Bool-cases, inl, inr,
}
use self_managed_agents.Base.Text.{codes, is_prefix}
use self_managed_agents.Context.{BaseMessage, is_user, is_agent, db_messages_to_lc}
use self_managed_agents.Context as History
use self_managed_agents.Transcript.{
  Content, text, Message, human, system, ai, sanitize_input_messages,
}

-- `MAX_PRIOR_MESSAGES`
abbrev pub max_prior_messages : ℕ
max_prior_messages = 30

-- a message of the history as LangChain's
abbrev pub as_message : BaseMessage → Message
as_message (History.human t) = human (text t)
as_message (History.ai t) = ai (record { content = text t; tool_calls = []; total_tokens = none })

-- a row of the agent with a text that is not the note of a tool call
abbrev pub is_final_reply : History.Message → Bool
is_final_reply row =
    let t = or_empty row.content in
    is_agent row.role && not (t == "") && not (is_prefix (codes "[tool_call]") (codes t))

abbrev has_user : List History.Message → Bool
has_user rows = any (λ r. is_user r.role) rows

-- the rows after the last row of the user, where there is one
unfoldable pub after_last_user : List History.Message → List History.Message
after_last_user [] = []
after_last_user (r ∷ rs) =
    let later = after_last_user rs in
    if has_user rs then later else if is_user r.role then rs else later

-- `tail_dirty`: a user's row without a final reply after it
unfoldable pub tail_dirty : List History.Message → Bool
unfolding after_last_user is_prefix
tail_dirty rows = has_user rows && not (any is_final_reply (after_last_user rows))

-- the rows up to and including the first final reply
unfoldable pub through_first_reply : List History.Message → List History.Message
through_first_reply [] = []
through_first_reply (r ∷ rs) =
    let later = through_first_reply rs in if is_final_reply r then r ∷ [] else r ∷ later

-- the rows up to and including the last of the user
unfoldable pub through_last_user : List History.Message → List History.Message
through_last_user [] = []
through_last_user (r ∷ rs) =
    let later = through_last_user rs in
    if has_user rs then r ∷ later else if is_user r.role then r ∷ [] else []

unfoldable pub kept_rows : List History.Message → List History.Message
unfolding through_last_user through_first_reply after_last_user is_prefix
kept_rows rows = through_last_user rows ++ through_first_reply (after_last_user rows)

-- `sanitized_prior[-MAX_PRIOR_MESSAGES:]`, where it is longer
unfoldable pub trimmed : List Message → List Message
trimmed ms = if ltb max_prior_messages (length ms) then take_last max_prior_messages ms else ms

-- What stands before the notes. A dirty tail that is cut is converted anew, and not trimmed.
unfoldable pub prior_part : List Message → List History.Message → List Message
unfolding trimmed tail_dirty kept_rows
prior_part prior_messages history_rows =
    if tail_dirty history_rows && ltb (length (kept_rows history_rows)) (length history_rows)
    then sanitize_input_messages (map as_message (db_messages_to_lc (kept_rows history_rows)))
    else trimmed (sanitize_input_messages prior_messages)

abbrev note : Bool → String → List Message
note true t = system (text t) ∷ []
note false t = []

-- `build_input_messages`; the two notes are prompts, the second with the name of the attachment
unfoldable pub build_input_messages :
    String → String → List Message → List History.Message → Content → Option String → List Message
unfolding prior_part
build_input_messages override attachment_note prior_messages history_rows human_content attachment =
    prior_part prior_messages history_rows
    ++ (note (tail_dirty history_rows) override
        ++ (note (not (or_empty attachment == "")) attachment_note ++ human human_content ∷ []))

-- A dirty tail has no final reply after the last row of the user, so all rows are kept.
no_reply-through :
    (rows : List History.Message)
    → any is_final_reply rows ≡ false
    → through_first_reply rows ≡ rows
unfolding through_first_reply
no_reply-through [] h = refl
no_reply-through (r ∷ rs) h = elim (Bool-cases (is_final_reply r)) [
  | inl e ↦ absurd (ground arith)
  | inr e ↦ rw e (ap (λ l. r ∷ l) (no_reply-through rs (rw e at h)))
]

last_user-split :
    (rows : List History.Message)
    → has_user rows ≡ true
    → through_last_user rows ++ after_last_user rows ≡ rows
unfolding through_last_user after_last_user
last_user-split [] h = cc
last_user-split (r ∷ rs) h = elim (Bool-cases (has_user rs)) [
  | inl e ↦ rw e (ap (λ l. r ∷ l) (last_user-split rs e))
  | inr e ↦ elim (Bool-cases (is_user r.role)) [
    | inl u ↦ rw (e, u) refl
    | inr u ↦ absurd (ground arith)
  ]
]

kept_rows-dirty : (rows : List History.Message) → tail_dirty rows ≡ true → kept_rows rows ≡ rows
unfolding tail_dirty kept_rows
kept_rows-dirty rows h =
    let user : has_user rows ≡ true = ground arith in
    let none_after : any is_final_reply (after_last_user rows) ≡ false = ground arith in
    ap (λ l. through_last_user rows ++ l) (no_reply-through (after_last_user rows) none_after)
    ∙ last_user-split rows user

ltb_irrefl : (n : ℕ) → ltb n n ≡ false
ltb_irrefl n = ground arith

prior_part-eq :
    (prior : List Message) (rows : List History.Message)
    → prior_part prior rows ≡ trimmed (sanitize_input_messages prior)
unfolding prior_part
prior_part-eq prior rows = elim (Bool-cases (tail_dirty rows)) [
  | inl e ↦ rw (e, kept_rows-dirty rows e, ltb_irrefl (length rows)) refl
  | inr e ↦ rw e refl
]

trimmed-le : (ms : List Message) → length (trimmed ms) ≤ max_prior_messages
unfolding trimmed
trimmed-le ms = ground (arith, length-drop {0} (length ms - max_prior_messages) ms)

note-le : (b : Bool) (t : String) → length (note b t) ≤ 1
note-le true t = omega arith
note-le false t = omega arith

-- Whatever the history, what stands before the notes is the cleaned prior_messages, cut to the last 30
-- messages: the branch that would strip a dirty tail is never taken. So a run starts from at most 33
-- messages.
pub build_input_messages_bounds :
    (override attachment_note : String) (prior : List Message) (rows : List History.Message)
    (content : Content) (attachment : Option String)
    → (prior_part prior rows ≡ trimmed (sanitize_input_messages prior))
      × (length (build_input_messages override attachment_note prior rows content attachment) ≤ 33)
unfolding build_input_messages
build_input_messages_bounds override attachment_note prior rows content attachment =
    let first_ = note (tail_dirty rows) override in
    let second = note (not (or_empty attachment == "")) attachment_note in
    let same = prior_part-eq prior rows in
    (
      same,
      omega (
        arith,
        length-append {0} (prior_part prior rows) (first_ ++ (second ++ human content ∷ [])),
        length-append {0} first_ (second ++ human content ∷ []),
        length-append {0} second (human content ∷ []),
        ap length same,
        trimmed-le (sanitize_input_messages prior),
        note-le (tail_dirty rows) override,
        note-le (not (or_empty attachment == "")) attachment_note,
      ),
    )
