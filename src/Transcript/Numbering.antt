-- ===== src/Transcript/Numbering.antt =====
-- The numbers of the rows and steps of a finished run.
use self_managed_agents.Base.{
  nat_eq, string_eq, ℕ, suc, ◌+◌, ◌≡◌, refl, sym, String, List, [], ◌∷◌, if◌then◌else◌, length,
  length-append, arith, or_zero, Bool-cases, inl, inr,
}
use self_managed_agents.Base.Dict.{lookup}
use self_managed_agents.Transcript.{
  ToolCall, Content, has_content, Message, human, system, ai, tool, calls,
}
use self_managed_agents.Transcript.Parse.{
  Progress, add_content, add_call, add_calls, add_answer, add_message, add_messages, start,
  new_messages, parse_agent_result,
}
use self_managed_agents.Transcript.Numbers.{
  AreNumbered, AreCounted, AreNumbered-append, AreCounted-append, answered_rows, same_rows,
  answered_steps, same_steps,
}

-- the number of tool calls and of messages of the model with a content
abbrev pub count_calls : List Message → ℕ
count_calls [] = 0
count_calls (m ∷ ms) = length (calls m) + count_calls ms

abbrev speaks : Message → ℕ
speaks (ai m) = if has_content m.content then 1 else 0
speaks _ = 0

abbrev pub count_texts : List Message → ℕ
count_texts [] = 0
count_texts (m ∷ ms) = speaks m + count_texts ms

-- What holds in the loop, for the messages already read.
record IsInStep (n texts called : ℕ) (p : Progress) : Type 0 where
  numbered : AreNumbered n p.db_messages
  counter : p.step_counter ≡ n + length p.db_messages
  rows : length p.db_messages ≡ texts + called
  counted : AreCounted 1 p.steps
  tool_steps : p.tool_step ≡ length p.steps
  steps : length p.steps ≡ called

module _ (n : ℕ) where
  no_more :
      (texts called : ℕ) (p : Progress)
      → IsInStep n texts called p
      → IsInStep n (texts + 0) (called + 0) p
  no_more texts called p h = record {
    numbered = h.numbered;
    counter = h.counter;
    rows = omega (arith, h.rows);
    counted = h.counted;
    tool_steps = h.tool_steps;
    steps = omega (arith, h.steps);
  }

  add_content-IsInStep :
      (c : Content) (texts called : ℕ) (p : Progress)
      → IsInStep n texts called p
      → IsInStep n (texts + (if has_content c then 1 else 0)) called (add_content c p)
  unfolding add_content
  add_content-IsInStep c texts called p h = elim (Bool-cases (has_content c)) [
    | inl e ↦ rw e (record {
      numbered = AreNumbered-append n p.db_messages _ h.numbered h.counter;
      counter = omega (arith, h.counter, length-append p.db_messages (_ ∷ []));
      rows = omega (arith, h.rows, length-append p.db_messages (_ ∷ []));
      counted = h.counted;
      tool_steps = h.tool_steps;
      steps = h.steps;
    })
    | inr e ↦ rw e (record {
      numbered = h.numbered;
      counter = h.counter;
      rows = omega (arith, h.rows);
      counted = h.counted;
      tool_steps = h.tool_steps;
      steps = h.steps;
    })
  ]

  add_call-IsInStep :
      (tc : ToolCall) (texts called : ℕ) (p : Progress)
      → IsInStep n texts called p
      → IsInStep n texts (called + 1) (add_call tc p)
  unfolding add_call
  add_call-IsInStep tc texts called p h = record {
    numbered = AreNumbered-append n p.db_messages _ h.numbered h.counter;
    counter = omega (arith, h.counter, length-append p.db_messages (_ ∷ []));
    rows = omega (arith, h.rows, length-append p.db_messages (_ ∷ []));
    counted = AreCounted-append 1 p.steps _ h.counted (omega (arith, h.tool_steps));
    tool_steps = omega (arith, h.tool_steps, length-append p.steps (_ ∷ []));
    steps = omega (arith, h.steps, length-append p.steps (_ ∷ []));
  }

  add_calls-IsInStep :
      (tcs : List ToolCall) (texts called : ℕ) (p : Progress)
      → IsInStep n texts called p
      → IsInStep n texts (called + length tcs) (add_calls tcs p)
  unfolding add_calls
  add_calls-IsInStep [] texts called p h = let e : called + 0 ≡ called = omega arith in rw e h
  add_calls-IsInStep (tc ∷ tcs) texts called p h =
      let e : called + 1 + length tcs ≡ called + suc (length tcs) = omega arith in
      rw (sym e) (
        add_calls-IsInStep tcs texts (called + 1) (add_call tc p)
          (add_call-IsInStep tc texts called p h))

  add_answer-IsInStep :
      (content id : String) (texts called : ℕ) (p : Progress)
      → IsInStep n texts called p
      → IsInStep n texts called (add_answer content id p)
  unfolding add_answer
  add_answer-IsInStep content id texts called p h = record {
    numbered = answered_rows n (lookup id p.record_by_tool_call_id) _ p.db_messages h.numbered;
    counter =
        omega (arith, h.counter, same_rows (lookup id p.record_by_tool_call_id) _ p.db_messages);
    rows = omega (arith, h.rows, same_rows (lookup id p.record_by_tool_call_id) _ p.db_messages);
    counted = answered_steps 1 (lookup id p.step_by_tool_call_id) _ p.steps h.counted;
    tool_steps =
        omega (arith, h.tool_steps, same_steps (lookup id p.step_by_tool_call_id) _ p.steps);
    steps = omega (arith, h.steps, same_steps (lookup id p.step_by_tool_call_id) _ p.steps);
  }

  add_message-IsInStep :
      (m : Message) (texts called : ℕ) (p : Progress)
      → IsInStep n texts called p
      → IsInStep n (texts + speaks m) (called + length (calls m)) (add_message m p)
  unfolding add_message
  add_message-IsInStep (ai m) texts called p h = add_calls-IsInStep m.tool_calls _ called _ (
      add_content-IsInStep m.content texts called
        (record p { total_tokens_used = p.total_tokens_used + or_zero m.total_tokens })
        (record {
          numbered = h.numbered;
          counter = h.counter;
          rows = h.rows;
          counted = h.counted;
          tool_steps = h.tool_steps;
          steps = h.steps;
        }))
  add_message-IsInStep (tool content id) texts called p h =
      no_more texts called _ (add_answer-IsInStep content id texts called p h)
  add_message-IsInStep (human c) texts called p h = no_more texts called p h
  add_message-IsInStep (system c) texts called p h = no_more texts called p h

  add_messages-IsInStep :
      (ms : List Message) (texts called : ℕ) (p : Progress)
      → IsInStep n texts called p
      → IsInStep n (texts + count_texts ms) (called + count_calls ms) (add_messages ms p)
  unfolding add_messages
  add_messages-IsInStep [] texts called p h = no_more texts called p h
  add_messages-IsInStep (m ∷ ms) texts called p h =
      let t : texts + speaks m + count_texts ms ≡ texts + (speaks m + count_texts ms) =
        omega arith in
      let c : called + length (calls m) + count_calls ms
          ≡ called + (length (calls m) + count_calls ms) =
        omega arith in
      rw (sym t) (
        rw (sym c) (
          add_messages-IsInStep ms (texts + speaks m) (called + length (calls m)) (add_message m p)
            (add_message-IsInStep m texts called p h)))

-- The rows of a run are numbered one after the other from the first free index, one to each message
-- of the model with a content and one to each tool call; the steps are numbered from 1, one to each
-- tool call.
pub parse_agent_result-AreNumbered :
    (all_messages input_messages : List Message) (step_start : ℕ)
    → AreNumbered step_start (parse_agent_result all_messages input_messages step_start).db_messages
      × AreCounted 1 (parse_agent_result all_messages input_messages step_start).steps
      × (length (parse_agent_result all_messages input_messages step_start).db_messages
          ≡ count_texts (new_messages input_messages all_messages)
            + count_calls (new_messages input_messages all_messages))
      × (length (parse_agent_result all_messages input_messages step_start).steps
          ≡ count_calls (new_messages input_messages all_messages))
unfolding parse_agent_result
parse_agent_result-AreNumbered all_messages input_messages step_start =
    let new = new_messages input_messages all_messages in
    let p = add_messages new (start step_start) in
    let at_start : IsInStep step_start 0 0 (start step_start) = record {
      numbered = tt;
      counter = omega arith;
      rows = refl;
      counted = tt;
      tool_steps = refl;
      steps = refl;
    } in
    let h = add_messages-IsInStep step_start new 0 0 (start step_start) at_start in
    (h.numbered, h.counted, omega (arith, h.rows), omega (arith, h.steps))
