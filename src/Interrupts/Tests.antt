-- ===== src/Interrupts/Tests.antt =====
-- A tool call that waits for its user, on concrete messages.
use self_managed_agents.Base.{
  nat_eq, string_eq, ℕ, String, ◌≡◌, refl, Bool, true, false, Option, none, some, List, [], ◌∷◌,
  map,
}
use self_managed_agents.Base.Dict.{lookup, insert}
use self_managed_agents.Base.Json.{str, Fields, end, field}
use self_managed_agents.Base.Text.{strip, upper, is_infix}
use self_managed_agents.Transcript.{Message, human, ai, text, ensure_tool_messages_complete}
use self_managed_agents.Transcript.Parse.{
  Row, parse_agent_result, add_messages, add_message, add_calls, add_content,
}
use self_managed_agents.Interrupts.{
  Interrupt, Run, RunStatus, running, interrupted, State, Answer, approve, reject, returned,
  Services, said, call_cancelled, with_requests, malformed, GraphOutput, decision_of,
  handle_pending_interrupt, handle_graph_interrupt, take_turn,
}
use self_managed_agents.Interrupts.Waiting.{waits}

-- Of two keywords the first one that is looked for counts.
read : decision_of " reject " ≡ some reject
unfolding decision_of strip upper is_infix
read = refl

both_words : decision_of "DISAPPROVE" ≡ some approve
unfolding decision_of strip upper is_infix
both_words = refl

abbrev request : Fields
request = field "name" (str "send_mail") end

abbrev pending : Interrupt
pending = record { graph = 7; checkpointer = 8; thread_id = "3"; action_requests = request ∷ [] }

abbrev says : String → Message
says t = ai (record { content = text t; tool_calls = []; total_tokens = none })

-- the whole thread: two messages of an earlier run, the request and what came of it
abbrev thread : List Message
thread = human (text "hi") ∷ says "hello" ∷ human (text "mail Budi") ∷ says "sent" ∷ []

abbrev obliging : Services
obliging = record {
  classify = λ message name args. said "APPROVE";
  humanize = λ r. said "Kirim?";
  resume = λ p command. returned [] thread;
}

abbrev fresh_run : Run
fresh_run = record { status = running; completed_at = none; error_message = none }

abbrev waiting : State
waiting = record { store = (3, pending) ∷ (4, pending) ∷ []; run = fresh_run; rows = [] }

-- The rows of the resumed run hold the answer of the earlier run once more, numbered from 1.
abbrev rows_of : Answer × State → List (Option String × ℕ)
rows_of (answer, after) = map (λ (r : Row). (r.content, r.step_index)) after.rows

earlier_answer_again :
    rows_of (handle_pending_interrupt obliging 3 "ya" 900 waiting)
    ≡ (some "hello", 1) ∷ (some "sent", 2) ∷ []
unfolding handle_pending_interrupt parse_agent_result ensure_tool_messages_complete lookup
    add_messages add_message add_calls add_content
earlier_answer_again = refl

-- New interrupts that cannot be read: the run is marked, and nothing is stored.
abbrev broken : GraphOutput
broken = record {
  interrupts = malformed "'str' object has no attribute 'get'" ∷ [];
  graph = 7;
  checkpointer = 8;
  thread_id = "3";
}

abbrev marked : State → Bool × RunStatus
marked s = (waits 3 s.store, s.run.status)

nothing_stored :
    marked (take_turn obliging 3 "ya" 900 (some broken) (record waiting { store = [] })).1
    ≡ (false, interrupted)
unfolding take_turn handle_pending_interrupt handle_graph_interrupt lookup insert
nothing_stored = refl

-- The wording of a new question is cancelled: the call waits, and the run is not marked.
abbrev asking : GraphOutput
asking = record broken { interrupts = with_requests (request ∷ []) ∷ [] }

abbrev hurried : Services
hurried = record obliging { humanize = λ r. call_cancelled }

wording_cancelled :
    marked (take_turn hurried 3 "ya" 900 (some asking) (record waiting { store = [] })).1
    ≡ (true, running)
unfolding take_turn handle_pending_interrupt handle_graph_interrupt lookup insert
wording_cancelled = refl
