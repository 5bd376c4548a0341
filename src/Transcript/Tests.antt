-- ===== src/Transcript/Tests.antt =====
-- A run with one tool call that was answered and one that was not.
use self_managed_agents.Base.{
  nat_eq, string_eq, ℕ, ◌+◌, ◌≤◌, ◌≡◌, refl, String, Bool, true, false, Option, none, some, List,
  [], ◌∷◌, contains, length, where_, map,
}
use self_managed_agents.Base.Json.{null}
use self_managed_agents.Context as History
use self_managed_agents.Transcript.{
  ToolCall, text, Message, human, ai, tool, answered_ids, answer_calls, complete_from,
  ensure_tool_messages_complete, sanitize_input_messages,
}
use self_managed_agents.Transcript.Input.{
  tail_dirty, after_last_user, as_message, prior_part, trimmed, build_input_messages,
  build_input_messages_bounds,
}
use self_managed_agents.Transcript.Numbers.{AreNumbered, AreCounted}
use self_managed_agents.Transcript.Numbering.{
  count_calls, count_texts, parse_agent_result-AreNumbered,
}
use self_managed_agents.Transcript.Pairing.{
  Extends, AreCovered, ensure_tool_messages_complete-AreCovered,
}
use self_managed_agents.Transcript.Parse.{
  content_text, cut_at, clean_final_reply, add_content, add_call, add_calls, add_answer,
  add_message, add_messages, new_messages, parse_agent_result,
}
use self_managed_agents.Transcript.Sanitized.{
  AreAnswered, not_ai, sanitize_input_messages-AreAnswered,
}

abbrev call : String → ToolCall
call id = record { id = some id; name = "search"; args = null }

abbrev turn : List Message
turn =
    human (text "hi")
    ∷ ai (record {
      content = text "wait";
      tool_calls = call "a" ∷ call "b" ∷ [];
      total_tokens = some 7;
    })
    ∷ tool "found" "a"
    ∷ ai (record {
      content = text "done. Tulis respons singkat";
      tool_calls = [];
      total_tokens = some 5;
    })
    ∷ []

completed : answered_ids (ensure_tool_messages_complete turn) ≡ "b" ∷ "a" ∷ []
unfolding ensure_tool_messages_complete complete_from answer_calls
completed = refl

-- The second answer is the one that was put in, and the reply is cut at the leaked instruction.
parsed : (parse_agent_result turn (human (text "hi") ∷ []) 3).final_reply ≡ "done."
unfolding parse_agent_result new_messages ensure_tool_messages_complete complete_from answer_calls
    add_messages add_message add_content content_text clean_final_reply cut_at add_calls add_call
    add_answer self_managed_agents.Context.text_before self_managed_agents.Base.Text.is_prefix
    self_managed_agents.Base.Text.rstrip self_managed_agents.Base.Text.is_space
parsed = refl

complete_example :
    Extends turn (ensure_tool_messages_complete turn)
    × AreCovered
        (answered_ids (ensure_tool_messages_complete turn))
        (ensure_tool_messages_complete turn)
    × (AreCovered (answered_ids turn) turn → ensure_tool_messages_complete turn ≡ turn)
complete_example = ensure_tool_messages_complete-AreCovered turn

sanitized_example :
    AreAnswered (answered_ids (sanitize_input_messages turn)) (sanitize_input_messages turn)
    × (not_ai (sanitize_input_messages turn) ≡ not_ai turn)
    × (sanitize_input_messages (sanitize_input_messages turn) ≡ sanitize_input_messages turn)
sanitized_example = sanitize_input_messages-AreAnswered turn

parse_example :
    AreNumbered 3 (parse_agent_result turn [] 3).db_messages
    × AreCounted 1 (parse_agent_result turn [] 3).steps
    × (length (parse_agent_result turn [] 3).db_messages
        ≡ count_texts (new_messages [] turn) + count_calls (new_messages [] turn))
    × (length (parse_agent_result turn [] 3).steps ≡ count_calls (new_messages [] turn))
parse_example = parse_agent_result-AreNumbered turn [] 3

abbrev asked : List History.Message
asked =
    record {
      id = 1;
      session_id = 1;
      role = History.user;
      content = some "hi";
      tool_name = none;
      run_id = none;
      step_index = 1;
      timestamp = 100;
    }
    ∷ record {
      id = 2;
      session_id = 1;
      role = History.other;
      content = none;
      tool_name = some "search";
      run_id = none;
      step_index = 2;
      timestamp = 101;
    }
    ∷ []

input_example :
    (prior_part turn asked ≡ trimmed (sanitize_input_messages turn))
    × (length (build_input_messages "only this" "this file" turn asked (text "ok?") none) ≤ 33)
input_example = build_input_messages_bounds "only this" "this file" turn asked (text "ok?") none

-- After a question that was followed by a delivery notice only, the new question comes next: the notice
-- counts as a final reply, but is not shown.
abbrev notified : List History.Message
notified =
    record {
      id = 1;
      session_id = 1;
      role = History.user;
      content = some "hi";
      tool_name = none;
      run_id = none;
      step_index = 1;
      timestamp = 100;
    }
    ∷ record {
      id = 2;
      session_id = 1;
      role = History.agent;
      content = some "Gagal mengirim";
      tool_name = some History.delivery_status_tag;
      run_id = none;
      step_index = 2;
      timestamp = 101;
    }
    ∷ []

two_questions :
    build_input_messages "only this" "this file"
      (map as_message (History.db_messages_to_lc notified))
      notified
      (text "ok?")
      none
    ≡ human (text "hi") ∷ human (text "ok?") ∷ []
unfolding build_input_messages prior_part tail_dirty after_last_user trimmed
    History.db_messages_to_lc History.add_messages History.add_message History.push_human
    History.elide_stale_attachment_body History.text_before self_managed_agents.Base.Text.is_prefix
    sanitize_input_messages
two_questions = refl
