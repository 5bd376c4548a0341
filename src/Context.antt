-- ===== src/Context.antt =====
-- app/core/engine/context_service.py: the history of a session as it is given to the model.
pub mod History
pub mod Speech
mod Tests
use self_managed_agents.Base.{
  nat_eq, string_eq, ℕ, ◌*◌, String, Bool, true, false, not, ◌&&◌, ◌||◌, Option, none, some, List,
  [], ◌∷◌, ◌++◌, ◌==◌, is_value, ltb, if◌then◌else◌, where_, take, map, contains, or_empty,
}
use Prim.Native.Char.{Char}
use Prim.Native.String
use Prim.Native.String.{◌++◌ as join_text}
use self_managed_agents.Base.Text.{codes, rstrip, is_prefix}

-- the `role` column; system rows and the like are `other`
pub data Role : Type 0 where
  user agent other : Role

-- The columns of `messages` that are read here.
pub record Message : Type 0 where
  pub id : ℕ
  pub session_id : ℕ
  pub role : Role
  pub content : Option String
  pub tool_name : Option String
  pub run_id : Option ℕ
  pub step_index : ℕ
  pub timestamp : ℕ

-- the `status` of a run, the live ones together
pub data RunStatus : Type 0 where
  abandoned cancelled timed_out failed live : RunStatus

-- `HumanMessage` and `AIMessage` with their contents
pub data BaseMessage : Type 0 where
  human ai : String → BaseMessage

-- `status in DEAD_RUN_STATUSES`
abbrev pub is_dead : Option RunStatus → Bool
is_dead (some live) = false
is_dead (some _) = true
is_dead none = false

abbrev pub is_cancelled : Option RunStatus → Bool
is_cancelled (some cancelled) = true
is_cancelled _ = false

abbrev pub is_user : Role → Bool
is_user user = true
is_user _ = false

abbrev pub is_agent : Role → Bool
is_agent agent = true
is_agent _ = false

-- what `filter_dead_run_messages` keeps
unfoldable pub keeps : (ℕ → Option RunStatus) → Message → Bool
keeps run_status row = elim row.run_id [
  | none ↦ true
  | some id ↦
      not (is_user row.role || is_agent row.role)
      || not (is_dead (run_status id))
      || is_cancelled (run_status id) && is_user row.role
]

unfoldable pub filter_dead_run_messages : (ℕ → Option RunStatus) → List Message → List Message
filter_dead_run_messages run_status rows = where_ (keeps run_status) rows

-- `order_by(Message.step_index, Message.timestamp)`; the other way round, the order of the subquery
abbrev pub earlier : Message → Message → Bool
earlier a b =
    ltb a.step_index b.step_index || a.step_index == b.step_index && ltb a.timestamp b.timestamp

abbrev pub in_session : ℕ → Message → Bool
in_session session_id r = r.session_id == session_id

-- the rows of `sub`
abbrev pub last_turns :
    ((Message → Message → Bool) → List Message → List Message) → ℕ → ℕ → List Message → List Message
last_turns order_by session_id n messages = take (n * 2) (
    order_by (λ a b. earlier b a)
      (where_ (λ r. in_session session_id r && (is_user r.role || is_agent r.role)) messages))

-- The rows of `result`, of the table `messages`. `order_by` is the database's, whatever it makes of rows
-- that are equal in step and time.
unfoldable pub history_rows :
    ((Message → Message → Bool) → List Message → List Message)
    → ℕ
    → Option ℕ
    → List Message
    → List Message
history_rows order_by session_id max_turns messages = elim max_turns [
  | none ↦ order_by earlier (where_ (in_session session_id) messages)
  | some n ↦ order_by earlier (
      where_ (λ r. contains r.id (map (λ m. m.id) (last_turns order_by session_id n messages)))
        messages)
]

-- `load_history`, with the statuses of the runs
unfoldable pub load_history :
    ((Message → Message → Bool) → List Message → List Message)
    → (ℕ → Option RunStatus)
    → ℕ
    → Option ℕ
    → List Message
    → List Message
unfolding history_rows filter_dead_run_messages
load_history order_by run_status session_id max_turns messages =
    filter_dead_run_messages run_status (history_rows order_by session_id max_turns messages)

-- "Isi dokumen:"
abbrev pub attachment_body_marker : String
attachment_body_marker = "Isi dokumen:"

-- `DELIVERY_STATUS_TAG`
abbrev pub delivery_status_tag : String
delivery_status_tag = "__delivery_status__"

abbrev prepend : Char → Option String → Option String
prepend c none = none
prepend c (some s) = some (String.◌∷◌ c s)

-- `content[:content.find(marker)]`, where the marker is found
unfoldable pub text_before : List ℕ → String → Option String
unfolding is_prefix
text_before marker String.[] = none
text_before marker (String.◌∷◌ c s) =
    let later = text_before marker s in
    if is_prefix marker (codes (String.◌∷◌ c s)) then some "" else prepend c later

-- `_elide_stale_attachment_body`
unfoldable pub elide_stale_attachment_body : String → String
unfolding text_before rstrip
elide_stale_attachment_body content = elim (text_before (codes attachment_body_marker) content) [
  | none ↦ content
  | some head ↦
      join_text (rstrip head)
        "\n[isi lampiran turn sebelumnya disembunyikan — bukan lampiran aktif]"
]

-- `result[-1]` widened where it is a HumanMessage, and a new message otherwise
unfoldable pub push_human : String → List BaseMessage → List BaseMessage
push_human content [] = human content ∷ []
push_human content (human prev ∷ []) = human (join_text prev (join_text "\n" content)) ∷ []
push_human content (ai text ∷ []) = ai text ∷ human content ∷ []
push_human content (m ∷ n ∷ rest) = m ∷ push_human content (n ∷ rest)

-- one turn of the loop of `db_messages_to_lc`
unfoldable pub add_message : Message → List BaseMessage → List BaseMessage
add_message msg result =
    let content = or_empty msg.content in
    if content == ""
    then result
    else if is_user msg.role
    then push_human (elide_stale_attachment_body content) result
    else if is_agent msg.role && not (is_value msg.tool_name delivery_status_tag)
    then result ++ ai content ∷ []
    else result

unfoldable pub add_messages : List Message → List BaseMessage → List BaseMessage
add_messages [] result = result
add_messages (msg ∷ msgs) result = add_messages msgs (add_message msg result)

-- `db_messages_to_lc`
unfoldable pub db_messages_to_lc : List Message → List BaseMessage
db_messages_to_lc db_messages = add_messages db_messages []
