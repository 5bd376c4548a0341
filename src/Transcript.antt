-- ===== src/Transcript.antt =====
-- app/core/engine/result_parser.py: the messages of a run. LangChain's messages are data with the
-- fields that are read here; a tool call whose id is None or missing has none.
pub mod Input
pub mod Numbering
pub mod Numbers
pub mod Pairing
pub mod Parse
pub mod Sanitized
mod Tests
use self_managed_agents.Base.{
  string_eq, ℕ, ◌+◌, String, Bool, true, false, not, ◌&&◌, ◌||◌, Option, none, some, List, [], ◌∷◌,
  ◌++◌, ◌==◌, contains, if◌then◌else◌, where_,
}
use self_managed_agents.Base.Json.{Json}
use Prim.Native.String.{◌++◌ as join_text}

pub record ToolCall : Type 0 where
  pub id : Option String
  pub name : String
  pub args : Json

-- An item of a content that is a list: a dict of type "text" with its text, or anything else.
pub data Block : Type 0 where
  text_block : String → Block
  other_block : Block

pub data Content : Type 0 where
  text : String → Content
  blocks : List Block → Content

pub record AiMessage : Type 0 where
  pub content : Content
  pub tool_calls : List ToolCall
  -- `usage_metadata["total_tokens"]`
  pub total_tokens : Option ℕ

-- The content of a ToolMessage is the text that `str` makes of it.
pub data Message : Type 0 where
  human system : Content → Message
  ai : AiMessage → Message
  tool : (content : String) (tool_call_id : String) → Message

-- `bool(msg.content)`
abbrev pub has_content : Content → Bool
has_content (text t) = not (t == "")
has_content (blocks []) = false
has_content (blocks (b ∷ bs)) = true

-- the `tool_call_id`s of the ToolMessages
abbrev pub answered_ids : List Message → List String
answered_ids [] = []
answered_ids (tool content id ∷ ms) = id ∷ answered_ids ms
answered_ids (_ ∷ ms) = answered_ids ms

-- `tc.get("id", "") in answered_ids`
abbrev pub is_answered : List String → ToolCall → Bool
is_answered ids tc = elim tc.id [ none ↦ false | some id ↦ contains id ids ]

-- `tc_id and tc_id not in answered_ids`
abbrev pub wants_answer : List String → Option String → Bool
wants_answer ids none = false
wants_answer ids (some id) = not (id == "") && not (contains id ids)

abbrev pub id_text : Option String → String
id_text none = ""
id_text (some id) = id

abbrev pub no_output : ToolCall → Message
no_output tc =
    tool
      (join_text "Tool call '"
        (join_text tc.name "' did not produce output — execution was interrupted or timed out."))
      (id_text tc.id)

-- the loop over the calls of one AIMessage: the messages that it adds, and the ids seen by then
unfoldable pub answer_calls : List ToolCall → List String → List Message × List String
answer_calls [] ids = ([], ids)
answer_calls (tc ∷ tcs) ids =
    if wants_answer ids tc.id
    then (
      no_output tc ∷ (answer_calls tcs (id_text tc.id ∷ ids)).0,
      (answer_calls tcs (id_text tc.id ∷ ids)).1,
    )
    else answer_calls tcs ids

abbrev pub calls : Message → List ToolCall
calls (ai m) = m.tool_calls
calls _ = []

unfoldable pub complete_from : List Message → List String → List Message
unfolding answer_calls
complete_from [] ids = []
complete_from (m ∷ ms) ids =
    let (added, seen) = answer_calls (calls m) ids in m ∷ (added ++ complete_from ms seen)

-- `ensure_tool_messages_complete`
unfoldable pub ensure_tool_messages_complete : List Message → List Message
unfolding complete_from
ensure_tool_messages_complete messages = complete_from messages (answered_ids messages)

abbrev pub is_nil : List ToolCall → Bool
is_nil [] = true
is_nil _ = false

-- `msg.content or ""`
abbrev pub content_or_empty : Content → Content
content_or_empty c = if has_content c then c else text ""

-- What the loop of `sanitize_input_messages` appends for an AIMessage; the new one has no usage.
unfoldable pub sanitize_ai : List String → AiMessage → List Message
sanitize_ai ids m =
    let kept = where_ (is_answered ids) m.tool_calls in
    if is_nil (where_ (λ tc. not (is_answered ids tc)) m.tool_calls)
    then ai m ∷ []
    else if has_content m.content || not (is_nil kept)
    then ai
        (record { content = content_or_empty m.content; tool_calls = kept; total_tokens = none })
      ∷ []
    else []

unfoldable pub sanitize_message : List String → Message → List Message
unfolding sanitize_ai
sanitize_message ids (ai m) = sanitize_ai ids m
sanitize_message ids m = m ∷ []

unfoldable pub sanitize_from : List String → List Message → List Message
unfolding sanitize_message
sanitize_from ids [] = []
sanitize_from ids (m ∷ ms) = sanitize_message ids m ++ sanitize_from ids ms

-- `sanitize_input_messages`
unfoldable pub sanitize_input_messages : List Message → List Message
unfolding sanitize_from
sanitize_input_messages messages = sanitize_from (answered_ids messages) messages
