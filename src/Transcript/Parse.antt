-- ===== src/Transcript/Parse.antt =====
-- `parse_agent_result` of result_parser.py: the reply, the steps and the rows of a finished run. The
-- source keeps a step and a row of each tool call by reference; here they are found by their numbers.
use Prim.Native.String.{◌++◌ as join_text}
use self_managed_agents.Base.{
  nat_eq, string_eq, ℕ, ◌+◌, String, Bool, true, false, not, ◌&&◌, ◌||◌, Option, none, some, List,
  [], ◌∷◌, ◌++◌, ◌==◌, if◌then◌else◌, length, drop, update, or_zero,
}
use self_managed_agents.Base.Dict.{lookup, insert}
use self_managed_agents.Base.Json.{Json}
use self_managed_agents.Base.Text.{codes, rstrip, strip, without_char, take_text}
use self_managed_agents.Context.{text_before}
use self_managed_agents.Transcript.{
  ToolCall, Block, text_block, other_block, Content, text, blocks, Message, ai, tool, has_content,
  id_text, ensure_tool_messages_complete,
}

pub record StepEntry : Type 0 where
  pub step : ℕ
  pub tool_name : String
  pub args : Json
  pub result : String
  pub tool_call_id : String

pub data RowRole : Type 0 where
  agent_row tool_row : RowRole

-- The row of `messages` that is made for a text or a tool call; session and run are the same for all.
pub record Row : Type 0 where
  pub role : RowRole
  pub content : Option String
  pub tool_name : Option String
  pub tool_args : Option Json
  pub tool_result : Option String
  pub step_index : ℕ

-- the local variables of the loop
pub record Progress : Type 0 where
  pub final_reply : String
  pub steps : List StepEntry
  pub total_tokens_used : ℕ
  pub db_messages : List Row
  pub step_counter : ℕ
  pub tool_step : ℕ
  pub step_by_tool_call_id : List (String × ℕ)
  pub record_by_tool_call_id : List (String × ℕ)

-- the text before a marker, if it is there
unfoldable pub cut_at : String → String → String
unfolding text_before rstrip
cut_at marker t = elim (text_before (codes marker) t) [ none ↦ t | some head ↦ rstrip head ]

-- `_clean_final_reply`
unfoldable pub clean_final_reply : String → String
unfolding cut_at
clean_final_reply t = cut_at "Tulis respons singkat" (cut_at "Tuliskan respons singkat" t)

-- `" ".join(...)` over the blocks of type "text"
unfoldable pub join_blocks : Bool → List Block → String
join_blocks first_ [] = ""
join_blocks first_ (text_block t ∷ bs) =
    join_text (if first_ then "" else " ") (join_text t (join_blocks false bs))
join_blocks first_ (other_block ∷ bs) = join_blocks first_ bs

unfoldable pub content_text : Content → String
unfolding join_blocks strip
content_text (text t) = t
content_text (blocks bs) = strip (join_blocks true bs)

-- the part of the loop for the content of an AIMessage
unfoldable pub add_content : Content → Progress → Progress
unfolding content_text
add_content content p =
    let t = content_text content in
    if has_content content
    then record p {
      final_reply = if t == "" then p.final_reply else clean_final_reply t;
      db_messages =
          p.db_messages
          ++ record {
            role = agent_row;
            content = some t;
            tool_name = none;
            tool_args = none;
            tool_result = none;
            step_index = p.step_counter;
          }
            ∷ [];
      step_counter = p.step_counter + 1;
    }
    else p

-- the part for one tool call; an id that is missing or empty is not kept in the two dicts
unfoldable pub add_call : ToolCall → Progress → Progress
add_call tc p =
    let id = id_text tc.id in
    let n = p.tool_step + 1 in
    record p {
      steps =
          p.steps
          ++ record {
            step = n;
            tool_name = tc.name;
            args = tc.args;
            result = "";
            tool_call_id = id;
          }
            ∷ [];
      tool_step = n;
      db_messages =
          p.db_messages
          ++ record {
            role = tool_row;
            content = none;
            tool_name = some tc.name;
            tool_args = some tc.args;
            tool_result = none;
            step_index = p.step_counter;
          }
            ∷ [];
      step_by_tool_call_id =
          if id == "" then p.step_by_tool_call_id else insert id n p.step_by_tool_call_id;
      record_by_tool_call_id =
          if id == ""
          then p.record_by_tool_call_id
          else insert id p.step_counter p.record_by_tool_call_id;
      step_counter = p.step_counter + 1;
    }

unfoldable pub add_calls : List ToolCall → Progress → Progress
add_calls [] p = p
add_calls (tc ∷ tcs) p = add_calls tcs (add_call tc p)

abbrev has_empty_result : List StepEntry → Bool
has_empty_result [] = false
has_empty_result (e ∷ es) = e.result == "" || has_empty_result es

-- the last step without a result is given one
unfoldable pub set_last_empty : String → List StepEntry → List StepEntry
set_last_empty output [] = []
set_last_empty output (e ∷ es) =
    if e.result == "" && not (has_empty_result es)
    then record e { result = output } ∷ es
    else e ∷ set_last_empty output es

-- the results of the steps after a ToolMessage
unfoldable pub answer_step : Option ℕ → String → List StepEntry → List StepEntry
answer_step (some n) output steps =
    update (λ e. e.step == n) (λ e. record e { result = output }) steps
answer_step none output steps = set_last_empty output steps

unfoldable pub answer_row : Option ℕ → String → List Row → List Row
answer_row (some i) output rows =
    update (λ r. r.step_index == i) (λ r. record r { tool_result = some output }) rows
answer_row none output rows = rows

-- the part for a ToolMessage
unfoldable pub add_answer : String → String → Progress → Progress
add_answer content tool_call_id p =
    let output = without_char 0 content in
    record p {
      steps =
          answer_step (lookup tool_call_id p.step_by_tool_call_id) (take_text 4000 output) p.steps;
      db_messages =
          answer_row (lookup tool_call_id p.record_by_tool_call_id) (take_text 2000 output)
            p.db_messages;
    }

-- one turn of the loop
unfoldable pub add_message : Message → Progress → Progress
add_message (ai m) p = add_calls m.tool_calls (
    add_content m.content
      (record p { total_tokens_used = p.total_tokens_used + or_zero m.total_tokens }))
add_message (tool content id) p = add_answer content id p
add_message _ p = p

unfoldable pub add_messages : List Message → Progress → Progress
add_messages [] p = p
add_messages (m ∷ ms) p = add_messages ms (add_message m p)

abbrev pub start : ℕ → Progress
start step_start = record {
  final_reply = "";
  steps = [];
  total_tokens_used = 0;
  db_messages = [];
  step_counter = step_start;
  tool_step = 0;
  step_by_tool_call_id = [];
  record_by_tool_call_id = [];
}

-- `all_messages[len(input_messages):]`, completed
unfoldable pub new_messages : List Message → List Message → List Message
new_messages input_messages all_messages =
    drop (length input_messages) (ensure_tool_messages_complete all_messages)

abbrev is_empty : List Message → Bool
is_empty [] = true
is_empty _ = false

pub record ParsedResult : Type 0 where
  pub final_reply : String
  pub steps : List StepEntry
  pub total_tokens_used : ℕ
  pub db_messages : List Row
  pub has_output : Bool

-- `parse_agent_result`, without what it logs
unfoldable pub parse_agent_result : List Message → List Message → ℕ → ParsedResult
unfolding new_messages
parse_agent_result all_messages input_messages step_start =
    let new = new_messages input_messages all_messages in
    let p = add_messages new (start step_start) in
    record {
      final_reply = p.final_reply;
      steps = p.steps;
      total_tokens_used = p.total_tokens_used;
      db_messages = p.db_messages;
      has_output = not (is_empty new);
    }
