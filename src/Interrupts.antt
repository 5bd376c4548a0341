-- ===== src/Interrupts.antt =====
-- app/core/engine/interrupt_store.py and app/core/engine/agent_hitl.py: runs that are paused until the
-- user allows a tool call. The language model that reads the user's answer and the one that words the
-- question are parameters, and so is the graph that is resumed; graphs and checkpointers are numbers.
-- Action requests are dicts, and a flush does not fail.
pub mod Waiting
mod Tests
use self_managed_agents.Base.{
  nat_eq, string_eq, ℕ, String, Bool, true, false, Option, none, some, List, [], ◌∷◌, ◌++◌, ◌==◌,
  if◌then◌else◌, or_text,
}
use self_managed_agents.Base.Dict.{lookup, insert, remove}
use self_managed_agents.Base.Json.{Json, obj, str, Fields, end, get}
use self_managed_agents.Base.Text.{strip, upper, codes, is_infix, take_text}
use self_managed_agents.Transcript.{Message, human, text}
use self_managed_agents.Transcript.Parse.{Row, StepEntry, parse_agent_result}

pub record Interrupt : Type 0 where
  pub graph : ℕ
  pub checkpointer : ℕ
  pub thread_id : String
  pub action_requests : List Fields

-- `_store`, by session
abbrev pub Store : Type 0
Store = List (ℕ × Interrupt)

unfoldable pub save_interrupt : ℕ → Interrupt → Store → Store
save_interrupt session_id pending store = insert session_id pending store

unfoldable pub get_interrupt : ℕ → Store → Option Interrupt
get_interrupt session_id store = lookup session_id store

unfoldable pub clear_interrupt : ℕ → Store → Store
clear_interrupt session_id store = remove session_id store

-- the statuses of a run that are written here
pub data RunStatus : Type 0 where
  running interrupted completed failed : RunStatus

pub record Run : Type 0 where
  pub status : RunStatus
  pub completed_at : Option ℕ
  pub error_message : Option String

-- the store, the record of the run that serves the message, and the rows added to `messages`
pub record State : Type 0 where
  pub store : Store
  pub run : Run
  pub rows : List Row

pub record Reply : Type 0 where
  pub reply : String
  pub steps : List StepEntry
  pub tokens_used : ℕ

-- None lets the run go on; a cancellation passes through
pub data Answer : Type 0 where
  proceeds cancelled : Answer
  replies : Reply → Answer

pub data Decision : Type 0 where
  approve reject respond : Decision

-- `Command(resume=...)`, where respond carries the message
pub data Command : Type 0 where
  decides : Decision → Command
  responds : String → Command

-- what a call of the model comes to
pub data Called : Type 0 where
  said : String → Called
  fails call_cancelled : Called

-- the `value` of an interrupt: false or without requests, with a list of them, or one at which reading
-- them raises an exception with its text
pub data Value : Type 0 where
  missing : Value
  with_requests : List Fields → Value
  malformed : String → Value

-- what `ainvoke` and `aget_state` of a graph come to: an exception with its text (a timeout is one), a
-- cancellation, or the values of the new interrupts and the messages of the thread
pub data Resumed : Type 0 where
  raised : String → Resumed
  is_cancelled : Resumed
  returned : List Value → List Message → Resumed

-- the services that are called
pub record Services : Type 0 where
  -- of the user's message, and the name and arguments of the pending tool
  pub classify : String → Json → Json → Called
  pub humanize : Fields → Called
  pub resume : Interrupt → Command → Resumed

-- `_classify_hitl_decision`, of the answer of the model
unfoldable pub decision_of : String → Option Decision
unfolding strip upper is_infix
decision_of content =
    let answer = codes (upper (strip content)) in
    if is_infix (codes "APPROVE") answer
    then some approve
    else if is_infix (codes "REJECT") answer
    then some reject
    else if is_infix (codes "RESPOND") answer
    then some respond
    else none

-- a cancellation is no Exception and passes through
pub data Verdict : Type 0 where
  stopped : Verdict
  judged : Option Decision → Verdict

abbrev verdict_of : Called → Verdict
verdict_of (said content) = judged (decision_of content)
verdict_of fails = judged none
verdict_of call_cancelled = stopped

-- `request.get(key, default)` of the first request
abbrev first_field : String → Json → List Fields → Json
first_field key default [] = default
first_field key default (request ∷ rest) = elim (get key request) [
  | none ↦ default
  | some value ↦ value
]

unfoldable pub classify_hitl_decision : Services → String → List Fields → Verdict
unfolding decision_of
classify_hitl_decision services user_message requests = verdict_of (
    services.classify user_message (first_field "name" (str "unknown") requests)
      (first_field "args" (obj end) requests))

abbrev pub default_question : String
default_question = "Saya memerlukan konfirmasi sebelum melanjutkan. Boleh?"

abbrev worded : Called → Option String
worded (said content) = some (or_text (strip content) default_question)
worded fails = some default_question
worded call_cancelled = none

-- `_build_interrupt_confirmation_reply`; None where it is cancelled
unfoldable pub build_confirmation_reply : Services → List Fields → Option String
build_confirmation_reply services [] = some default_question
build_confirmation_reply services (request ∷ rest) = worded (services.humanize request)

-- the action requests of all interrupts, or the text of the exception
pub data Collected : Type 0 where
  failed_with : String → Collected
  collected : List Fields → Collected

abbrev extend : List Fields → Collected → Collected
extend first (failed_with why) = failed_with why
extend first (collected rest) = collected (first ++ rest)

abbrev pub collect_requests : List Value → Collected
collect_requests [] = collected []
collect_requests (missing ∷ rest) = collect_requests rest
collect_requests (with_requests first ∷ rest) = extend first (collect_requests rest)
collect_requests (malformed why ∷ rest) = failed_with why

abbrev pub no_steps : String → Reply
no_steps reply = record { reply = reply; steps = []; tokens_used = 0 }

abbrev finished : RunStatus → ℕ → Run → Run
finished status now run = record run { status = status; completed_at = some now }

-- the run waits, and the user is asked
abbrev pub ask : String → ℕ → State → Answer × State
ask reply now s = (replies (no_steps reply), record s { run = finished interrupted now s.run })

-- The end of a pause; where the wording is cancelled, so is the turn.
abbrev pub ask_if : Option String → ℕ → State → Answer × State
ask_if none now s = (cancelled, s)
ask_if (some reply) now s = ask reply now s

-- a pause: the interrupt is stored, and then the question is worded
unfoldable pub pause : Services → ℕ → ℕ → Interrupt → State → Answer × State
unfolding save_interrupt build_confirmation_reply
pause services session_id now pending s =
    ask_if (build_confirmation_reply services pending.action_requests) now
      (record s { store = save_interrupt session_id pending s.store })

abbrev closing : Decision → String
closing approve = "Selesai."
closing _ = "Dibatalkan."

abbrev pub command_of : Decision → String → Command
command_of respond user_message = responds user_message
command_of decision user_message = decides decision

-- the except branch of a resumption
unfoldable pub resume_failed : ℕ → ℕ → String → State → Answer × State
unfolding clear_interrupt
resume_failed session_id now why s = (
  replies (no_steps "Maaf, gagal melanjutkan. Silakan coba lagi dari awal."),
  record s {
    store = clear_interrupt session_id s.store;
    run = record (finished failed now s.run) { error_message = some (take_text 2000 why) };
  },
)

-- the new interrupts of a graph that was resumed
abbrev pub pause_again : Services → ℕ → ℕ → Interrupt → Collected → State → Answer × State
pause_again services session_id now pending (failed_with why) s = resume_failed session_id now why s
pause_again services session_id now pending (collected all) s =
    pause services session_id now (record pending { action_requests = all }) s

-- What follows the resumption; the interrupt that was pending is cleared first, also after an error.
unfoldable pub after_resume :
    Services → ℕ → String → ℕ → Interrupt → Decision → Resumed → State → Answer × State
unfolding clear_interrupt resume_failed pause
after_resume services session_id user_message now pending decision is_cancelled s = (cancelled, s)
after_resume services session_id user_message now pending decision (raised why) s =
    resume_failed session_id now why s
after_resume services session_id user_message now pending decision (returned [] messages) s =
    let parsed = parse_agent_result messages (human (text user_message) ∷ []) 1 in
    (
      replies (record {
        reply = or_text parsed.final_reply (closing decision);
        steps = parsed.steps;
        tokens_used = parsed.total_tokens_used;
      }),
      record s {
        store = clear_interrupt session_id s.store;
        run = finished completed now s.run;
        rows = s.rows ++ parsed.db_messages;
      },
    )
after_resume services session_id user_message now pending decision (returned (i ∷ is) messages) s =
    pause_again services session_id now pending (collect_requests (i ∷ is))
      (record s { store = clear_interrupt session_id s.store })

-- what follows the classification
abbrev pub by_verdict : Services → ℕ → String → ℕ → Interrupt → Verdict → State → Answer × State
by_verdict services session_id user_message now pending stopped s = (cancelled, s)
by_verdict services session_id user_message now pending (judged none) s =
    (proceeds, record s { store = clear_interrupt session_id s.store })
by_verdict services session_id user_message now pending (judged (some decision)) s =
    after_resume services session_id user_message now pending decision
      (services.resume pending (command_of decision user_message)) s

unfoldable pub handle_pending_interrupt : Services → ℕ → String → ℕ → State → Answer × State
unfolding get_interrupt clear_interrupt classify_hitl_decision after_resume
handle_pending_interrupt services session_id user_message now s =
    elim (get_interrupt session_id s.store) [
      | none ↦ (proceeds, s)
      | some pending ↦
          by_verdict services session_id user_message now pending
            (classify_hitl_decision services user_message pending.action_requests) s
    ]

-- the output of a new graph: its interrupts, and what is needed to resume it
pub record GraphOutput : Type 0 where
  pub interrupts : List Value
  pub graph : ℕ
  pub checkpointer : ℕ
  pub thread_id : String

-- In the except branch the run is marked as interrupted although nothing was stored.
abbrev pub pause_new : Services → ℕ → ℕ → GraphOutput → Collected → State → Answer × State
pause_new services session_id now output (failed_with why) s = ask default_question now s
pause_new services session_id now output (collected all) s =
    pause services session_id now
      (record {
        graph = output.graph;
        checkpointer = output.checkpointer;
        thread_id = output.thread_id;
        action_requests = all;
      })
      s

unfoldable pub handle_graph_interrupt : Services → ℕ → ℕ → GraphOutput → State → Answer × State
unfolding pause
handle_graph_interrupt services session_id now output s = elim output.interrupts [
  | [] ↦ (proceeds, s)
  | i ∷ is ↦ pause_new services session_id now output (collect_requests (i ∷ is)) s
]

-- the part for interrupts of a run that serves a message (agent_runner.py): what is pending is handled
-- first, and only if the run goes on and its graph returns are its own interrupts handled
abbrev pub or_go_on : (State → Answer × State) → Answer × State → Answer × State
or_go_on next (proceeds, s) = next s
or_go_on next (cancelled, s) = (cancelled, s)
or_go_on next (replies r, s) = (replies r, s)

abbrev pub go_on : Services → ℕ → ℕ → Option GraphOutput → State → Answer × State
go_on services session_id now none t = (proceeds, t)
go_on services session_id now (some output) t =
    handle_graph_interrupt services session_id now output t

unfoldable pub take_turn : Services → ℕ → String → ℕ → Option GraphOutput → State → Answer × State
unfolding handle_pending_interrupt
take_turn services session_id user_message now output s =
    or_go_on (go_on services session_id now output)
      (handle_pending_interrupt services session_id user_message now s)
