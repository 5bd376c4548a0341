-- ===== src/Transcript/Pairing.antt =====
-- Every tool call with its answer.
use self_managed_agents.Base.{
  string_eq, ◌≡◌, refl, sym, ap, subst, inl, inr, String, Bool, true, false, ◌||◌, Option, none,
  some, List, [], ◌∷◌, ◌++◌, ==_refl, contains, if◌then◌else◌, All, All-imp, arith, Bool-cases,
}
use self_managed_agents.Transcript.{
  ToolCall, Message, human, system, ai, tool, answered_ids, wants_answer, id_text, answer_calls,
  calls, complete_from, ensure_tool_messages_complete,
}

-- A call that has an id is answered by one of the ids.
abbrev pub IsCovered : List String → ToolCall → Type 0
IsCovered ids tc = wants_answer ids tc.id ≡ false

-- Every call of the messages is answered by one of the ids.
abbrev pub AreCovered : List String → List Message → Type 0
AreCovered ids [] = Unit
AreCovered ids (m ∷ ms) = All (IsCovered ids) (calls m) × AreCovered ids ms

-- The ids of one list are among those of another.
abbrev pub Within : List String → List String → Type 0
Within ids jds = (x : String) → contains x ids ≡ true → contains x jds ≡ true

answered-append :
    (ms ns : List Message) → answered_ids (ms ++ ns) ≡ answered_ids ms ++ answered_ids ns
answered-append [] ns = refl
answered-append (tool content id ∷ ms) ns = ap (λ ids. id ∷ ids) (answered-append ms ns)
answered-append (human c ∷ ms) ns = answered-append ms ns
answered-append (system c ∷ ms) ns = answered-append ms ns
answered-append (ai m ∷ ms) ns = answered-append ms ns

contains-append_left :
    (x : String) (ids jds : List String) → contains x ids ≡ true → contains x (ids ++ jds) ≡ true
contains-append_left x [] jds h = cc
contains-append_left x (i ∷ ids) jds h = ground (arith, contains-append_left x ids jds)

contains-append_right :
    (x : String) (ids jds : List String) → contains x jds ≡ true → contains x (ids ++ jds) ≡ true
contains-append_right x [] jds h = h
contains-append_right x (i ∷ ids) jds h = ground (arith, contains-append_right x ids jds)

IsCovered-Within :
    (ids jds : List String) (tc : ToolCall) → Within ids jds → IsCovered ids tc → IsCovered jds tc
IsCovered-Within ids jds tc h c = covered tc.id c
  where
    covered : (o : Option String) → wants_answer ids o ≡ false → wants_answer jds o ≡ false
    covered none k = refl
    covered (some id) k = ground (arith, h id)

-- What one AIMessage adds: the ids seen after it are those before and those of the added messages.
answer_calls-answered :
    (tcs : List ToolCall) (ids : List String) (x : String)
    → contains x (answer_calls tcs ids).1
      ≡ (contains x (answered_ids (answer_calls tcs ids).0) || contains x ids)
unfolding answer_calls
answer_calls-answered [] ids x = refl
answer_calls-answered (tc ∷ tcs) ids x =
    ground
      (arith, answer_calls-answered tcs ids x, answer_calls-answered tcs (id_text tc.id ∷ ids) x)

Within-answer_calls :
    (tcs : List ToolCall) (ids : List String) → Within ids (answer_calls tcs ids).1
Within-answer_calls tcs ids x h = ground (arith, answer_calls-answered tcs ids x)

own_id : (ids : List String) (tc : ToolCall) → IsCovered (id_text tc.id ∷ ids) tc
own_id ids tc = covered tc.id
  where
    covered : (o : Option String) → wants_answer (id_text o ∷ ids) o ≡ false
    covered none = refl
    covered (some id) = ground (arith, ==_refl id)

-- the ids seen after one call and then the others
seen_after : (tc : ToolCall) (tcs : List ToolCall) (ids : List String) → List String
seen_after tc tcs ids =
    if wants_answer ids tc.id
    then (answer_calls tcs (id_text tc.id ∷ ids)).1
    else (answer_calls tcs ids).1

answer_calls-seen :
    (tc : ToolCall) (tcs : List ToolCall) (ids : List String)
    → (answer_calls (tc ∷ tcs) ids).1 ≡ seen_after tc tcs ids
unfolding answer_calls seen_after
answer_calls-seen tc tcs ids = ground arith

answer_calls-covers :
    (tcs : List ToolCall) (ids : List String) → All (IsCovered (answer_calls tcs ids).1) tcs
unfolding seen_after
answer_calls-covers [] ids = tt
answer_calls-covers (tc ∷ tcs) ids =
    subst (λ seen. All (IsCovered seen) (tc ∷ tcs)) (sym (answer_calls-seen tc tcs ids))
      (elim (Bool-cases (wants_answer ids tc.id)) [
        | inl e ↦
            let ids' = id_text tc.id ∷ ids in
            subst
              (λ (b : Bool).
                All (IsCovered (if b then (answer_calls tcs ids').1 else (answer_calls tcs ids).1))
                  (tc ∷ tcs))
              (sym e)
              (
                IsCovered-Within ids' (answer_calls tcs ids').1 tc (Within-answer_calls tcs ids')
                    (own_id ids tc),
                answer_calls-covers tcs ids',
              )
        | inr e ↦
            subst
              (λ (b : Bool).
                All
                  (IsCovered (
                    if b
                    then (answer_calls tcs (id_text tc.id ∷ ids)).1
                    else (answer_calls tcs ids).1))
                  (tc ∷ tcs))
              (sym e)
              (
                IsCovered-Within ids (answer_calls tcs ids).1 tc (Within-answer_calls tcs ids) e,
                answer_calls-covers tcs ids,
              )
      ])

AreCovered-append :
    (ids : List String) (ms ns : List Message)
    → AreCovered ids ms
    → AreCovered ids ns
    → AreCovered ids (ms ++ ns)
AreCovered-append ids [] ns h k = k
AreCovered-append ids (m ∷ ms) ns (p, h) k = (p, AreCovered-append ids ms ns h k)

answer_calls-AreCovered :
    (jds : List String) (tcs : List ToolCall) (ids : List String)
    → AreCovered jds (answer_calls tcs ids).0
unfolding answer_calls
answer_calls-AreCovered jds [] ids = tt
answer_calls-AreCovered jds (tc ∷ tcs) ids = elim (Bool-cases (wants_answer ids tc.id)) [
  | inl e ↦ rw e (tt, answer_calls-AreCovered jds tcs (id_text tc.id ∷ ids))
  | inr e ↦ rw e (answer_calls-AreCovered jds tcs ids)
]

answered-cons : (m : Message) (ms : List Message) → Within (answered_ids ms) (answered_ids (m ∷ ms))
answered-cons (tool content id) ms x h = ground (arith)
answered-cons (human c) ms x h = h
answered-cons (system c) ms x h = h
answered-cons (ai m) ms x h = h

complete_from-AreCovered :
    (jds : List String) (ms : List Message) (ids : List String)
    → Within ids jds
    → Within (answered_ids (complete_from ms ids)) jds
    → AreCovered jds (complete_from ms ids)
unfolding complete_from
complete_from-AreCovered jds [] ids h k = tt
complete_from-AreCovered jds (m ∷ ms) ids h k =
    let added = (answer_calls (calls m) ids).0 in
    let seen = (answer_calls (calls m) ids).1 in
    let rest = complete_from ms seen in
    let both : Within (answered_ids (added ++ rest)) jds =
      λ x p. k x (answered-cons m (added ++ rest) x p) in
    let new : Within (answered_ids added) jds = λ x p. both x (
      rw (answered-append added rest)
        (contains-append_left x (answered_ids added) (answered_ids rest) p)) in
    let later : Within (answered_ids rest) jds = λ x p. both x (
      rw (answered-append added rest)
        (contains-append_right x (answered_ids added) (answered_ids rest) p)) in
    let all : Within seen jds =
      λ x p. ground (arith, answer_calls-answered (calls m) ids x, h x, new x) in
    (
      All-imp (IsCovered seen) (IsCovered jds) (λ tc c. IsCovered-Within seen jds tc all c)
          (calls m) (answer_calls-covers (calls m) ids),
      AreCovered-append jds added rest (answer_calls-AreCovered jds (calls m) ids)
          (complete_from-AreCovered jds ms seen all later),
    )

answer_calls-covered :
    (tcs : List ToolCall) (ids : List String)
    → All (IsCovered ids) tcs
    → answer_calls tcs ids ≡ ([], ids)
unfolding answer_calls
answer_calls-covered [] ids h = refl
answer_calls-covered (tc ∷ tcs) ids (p, h) = rw p (answer_calls-covered tcs ids h)

complete_from-covered :
    (ms : List Message) (ids : List String) → AreCovered ids ms → complete_from ms ids ≡ ms
unfolding complete_from
complete_from-covered [] ids h = refl
complete_from-covered (m ∷ ms) ids (p, h) =
    rw (answer_calls-covered (calls m) ids p) (ap (λ r. m ∷ r) (complete_from-covered ms ids h))

-- The messages of one list in order, with tool answers put between them.
pub data Extends : List Message → List Message → Type 0 where
  nil : Extends [] []
  keep : (m : Message) (ms ns : List Message) → Extends ms ns → Extends (m ∷ ms) (m ∷ ns)
  answer :
      (content id : String) (ms ns : List Message)
      → Extends ms ns
      → Extends ms (tool content id ∷ ns)

answer_calls-Extends :
    (tcs : List ToolCall) (ids : List String) (ms ns : List Message)
    → Extends ms ns
    → Extends ms ((answer_calls tcs ids).0 ++ ns)
unfolding answer_calls
answer_calls-Extends [] ids ms ns h = h
answer_calls-Extends (tc ∷ tcs) ids ms ns h = elim (Bool-cases (wants_answer ids tc.id)) [
  | inl e ↦ rw e (
      answer _ _ ms ((answer_calls tcs (id_text tc.id ∷ ids)).0 ++ ns)
        (answer_calls-Extends tcs (id_text tc.id ∷ ids) ms ns h))
  | inr e ↦ rw e (answer_calls-Extends tcs ids ms ns h)
]

complete_from-Extends : (ms : List Message) (ids : List String) → Extends ms (complete_from ms ids)
unfolding complete_from
complete_from-Extends [] ids = nil
complete_from-Extends (m ∷ ms) ids = keep m ms _ (
    answer_calls-Extends (calls m) ids ms (complete_from ms (answer_calls (calls m) ids).1)
      (complete_from-Extends ms (answer_calls (calls m) ids).1))

Extends-Within : {ms ns : List Message} → Extends ms ns → Within (answered_ids ms) (answered_ids ns)
Extends-Within nil x h = h
Extends-Within (keep (tool content id) ms ns e) x h = ground (arith, Extends-Within e x)
Extends-Within (keep (human c) ms ns e) x h = Extends-Within e x h
Extends-Within (keep (system c) ms ns e) x h = Extends-Within e x h
Extends-Within (keep (ai m) ms ns e) x h = Extends-Within e x h
Extends-Within (answer content id ms ns e) x h = ground (arith, Extends-Within e x)

-- The completed messages are those given, in order, with tool answers put between them; every tool
-- call with an id then has an answer; and messages whose calls all have answers stay as they are.
pub ensure_tool_messages_complete-AreCovered :
    (ms : List Message)
    → Extends ms (ensure_tool_messages_complete ms)
      × AreCovered
          (answered_ids (ensure_tool_messages_complete ms))
          (ensure_tool_messages_complete ms)
      × (AreCovered (answered_ids ms) ms → ensure_tool_messages_complete ms ≡ ms)
unfolding ensure_tool_messages_complete
ensure_tool_messages_complete-AreCovered ms = (
  complete_from-Extends ms (answered_ids ms),
  complete_from-AreCovered (answered_ids (complete_from ms (answered_ids ms))) ms (answered_ids ms)
      (Extends-Within (complete_from-Extends ms (answered_ids ms))) (λ x p. p),
  complete_from-covered ms (answered_ids ms),
)
