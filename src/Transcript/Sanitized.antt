-- ===== src/Transcript/Sanitized.antt =====
-- No tool call without its answer.
use self_managed_agents.Base.{
  string_eq, ◌≡◌, refl, sym, ◌∙◌, ap, inl, inr, String, Bool, true, false, not, ◌||◌, none, List,
  [], ◌∷◌, ◌++◌, where_, All, All-where, arith, Bool-cases,
}
use self_managed_agents.Transcript.{
  ToolCall, AiMessage, Message, human, system, ai, tool, has_content, answered_ids, is_answered,
  is_nil, calls, content_or_empty, sanitize_ai, sanitize_message, sanitize_from,
  sanitize_input_messages,
}

abbrev pub IsAnswered : List String → ToolCall → Type 0
IsAnswered ids tc = is_answered ids tc ≡ true

-- Every call of the messages has its answer among the ids.
abbrev pub AreAnswered : List String → List Message → Type 0
AreAnswered ids [] = Unit
AreAnswered ids (m ∷ ms) = All (IsAnswered ids) (calls m) × AreAnswered ids ms

-- the messages that are not the model's
abbrev pub is_ai : Message → Bool
is_ai (ai m) = true
is_ai _ = false

abbrev dangling : List String → List ToolCall → List ToolCall
dangling ids tcs = where_ (λ tc. not (is_answered ids tc)) tcs

none_dangling :
    (ids : List String) (tcs : List ToolCall)
    → is_nil (dangling ids tcs) ≡ true
    → All (IsAnswered ids) tcs
none_dangling ids [] h = tt
none_dangling ids (tc ∷ tcs) h = elim (Bool-cases (is_answered ids tc)) [
  | inl e ↦ (e, none_dangling ids tcs (rw e at h))
  | inr e ↦ absurd (ground arith)
]

dangling-nil :
    (ids : List String) (tcs : List ToolCall) → All (IsAnswered ids) tcs → dangling ids tcs ≡ []
dangling-nil ids [] h = refl
dangling-nil ids (tc ∷ tcs) (p, h) = rw p (dangling-nil ids tcs h)

-- The three things that become of an AIMessage.
sanitize_ai-cases :
    (P : List Message → Type 0) (ids : List String) (m : AiMessage)
    → (All (IsAnswered ids) m.tool_calls → P (ai m ∷ []))
    → P (
        ai (record {
          content = content_or_empty m.content;
          tool_calls = where_ (is_answered ids) m.tool_calls;
          total_tokens = none;
        })
        ∷ [])
    → P []
    → P (sanitize_ai ids m)
unfolding sanitize_ai
sanitize_ai-cases P ids m whole part nothing =
    elim (Bool-cases (is_nil (dangling ids m.tool_calls))) [
      | inl e ↦ rw e (whole (none_dangling ids m.tool_calls e))
      | inr e ↦
          elim (Bool-cases
            (has_content m.content || not (is_nil (where_ (is_answered ids) m.tool_calls)))) [
              | inl k ↦ rw (e, k) part
              | inr k ↦ rw (e, k) nothing
            ]
    ]

sanitize_message-AreAnswered :
    (ids : List String) (m : Message) → AreAnswered ids (sanitize_message ids m)
unfolding sanitize_message
sanitize_message-AreAnswered ids (ai m) =
    sanitize_ai-cases (AreAnswered ids) ids m (λ h. (h, tt))
      (All-where (is_answered ids) m.tool_calls, tt) tt
sanitize_message-AreAnswered ids (human c) = (tt, tt)
sanitize_message-AreAnswered ids (system c) = (tt, tt)
sanitize_message-AreAnswered ids (tool content id) = (tt, tt)

AreAnswered-append :
    (ids : List String) (ms ns : List Message)
    → AreAnswered ids ms
    → AreAnswered ids ns
    → AreAnswered ids (ms ++ ns)
AreAnswered-append ids [] ns h k = k
AreAnswered-append ids (m ∷ ms) ns (p, h) k = (p, AreAnswered-append ids ms ns h k)

sanitize_from-AreAnswered :
    (ids : List String) (ms : List Message) → AreAnswered ids (sanitize_from ids ms)
unfolding sanitize_from
sanitize_from-AreAnswered ids [] = tt
sanitize_from-AreAnswered ids (m ∷ ms) =
    AreAnswered-append ids (sanitize_message ids m) (sanitize_from ids ms)
      (sanitize_message-AreAnswered ids m) (sanitize_from-AreAnswered ids ms)

-- What is not the model's is kept, in order.
abbrev pub not_ai : List Message → List Message
not_ai ms = where_ (λ m. not (is_ai m)) ms

not_ai-sanitize_message :
    (ids : List String) (m : Message) (ms : List Message)
    → not_ai (sanitize_message ids m ++ ms) ≡ not_ai (m ∷ ms)
unfolding sanitize_message
not_ai-sanitize_message ids (ai m) ms =
    sanitize_ai-cases (λ ns. not_ai (ns ++ ms) ≡ not_ai ms) ids m (λ h. refl) refl refl
not_ai-sanitize_message ids (human c) ms = refl
not_ai-sanitize_message ids (system c) ms = refl
not_ai-sanitize_message ids (tool content id) ms = refl

not_ai-cons :
    (m : Message) (ms ns : List Message) → not_ai ms ≡ not_ai ns → not_ai (m ∷ ms) ≡ not_ai (m ∷ ns)
not_ai-cons m ms ns h = ground (arith, h)

not_ai-sanitize_from :
    (ids : List String) (ms : List Message) → not_ai (sanitize_from ids ms) ≡ not_ai ms
unfolding sanitize_from
not_ai-sanitize_from ids [] = refl
not_ai-sanitize_from ids (m ∷ ms) =
    not_ai-sanitize_message ids m (sanitize_from ids ms)
    ∙ not_ai-cons m (sanitize_from ids ms) ms (not_ai-sanitize_from ids ms)

answered-not_ai : (ms : List Message) → answered_ids (not_ai ms) ≡ answered_ids ms
answered-not_ai [] = refl
answered-not_ai (tool content id ∷ ms) = ap (λ ids. id ∷ ids) (answered-not_ai ms)
answered-not_ai (human c ∷ ms) = answered-not_ai ms
answered-not_ai (system c ∷ ms) = answered-not_ai ms
answered-not_ai (ai m ∷ ms) = answered-not_ai ms

answered-sanitize :
    (ms : List Message) → answered_ids (sanitize_input_messages ms) ≡ answered_ids ms
unfolding sanitize_input_messages
answered-sanitize ms =
    sym (answered-not_ai (sanitize_from (answered_ids ms) ms))
    ∙ ap answered_ids (not_ai-sanitize_from (answered_ids ms) ms)
    ∙ answered-not_ai ms

sanitize_from-answered :
    (ids : List String) (ms : List Message) → AreAnswered ids ms → sanitize_from ids ms ≡ ms
unfolding sanitize_from sanitize_message sanitize_ai
sanitize_from-answered ids [] h = refl
sanitize_from-answered ids (ai m ∷ ms) (p, h) =
    rw (dangling-nil ids m.tool_calls p) (ap (λ r. ai m ∷ r) (sanitize_from-answered ids ms h))
sanitize_from-answered ids (human c ∷ ms) (p, h) =
    ap (λ r. human c ∷ r) (sanitize_from-answered ids ms h)
sanitize_from-answered ids (system c ∷ ms) (p, h) =
    ap (λ r. system c ∷ r) (sanitize_from-answered ids ms h)
sanitize_from-answered ids (tool content id ∷ ms) (p, h) =
    ap (λ r. tool content id ∷ r) (sanitize_from-answered ids ms h)

-- After the cleaning every tool call that is left has an answer, the messages that are not the
-- model's are kept in order, and cleaning again changes nothing.
pub sanitize_input_messages-AreAnswered :
    (ms : List Message)
    → AreAnswered (answered_ids (sanitize_input_messages ms)) (sanitize_input_messages ms)
      × (not_ai (sanitize_input_messages ms) ≡ not_ai ms)
      × (sanitize_input_messages (sanitize_input_messages ms) ≡ sanitize_input_messages ms)
unfolding sanitize_input_messages
sanitize_input_messages-AreAnswered ms =
    let same : answered_ids (sanitize_from (answered_ids ms) ms) ≡ answered_ids ms =
      answered-sanitize ms in
    let answered = sanitize_from-AreAnswered (answered_ids ms) ms in
    (
      rw same answered,
      not_ai-sanitize_from (answered_ids ms) ms,
      rw same
          (sanitize_from-answered (answered_ids ms) (sanitize_from (answered_ids ms) ms) answered),
    )
