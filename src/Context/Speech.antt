-- ===== src/Context/Speech.antt =====
-- What the user said is shown in full and in order.
use Prim.Native.String.{◌++◌ as join_text}
use text.Mathlib.TextLemmas.{
  append-nil as text_nil, nil-append as nil_text, append_assoc as text_assoc,
}
use self_managed_agents.Base.{
  string_eq, ◌≡◌, refl, sym, ap, ◌∙◌, String, not, ◌&&◌, List, [], ◌∷◌, ◌++◌, ◌==◌, is_value,
  if◌then◌else◌, or_empty, Bool-cases, inl, inr,
}
use self_managed_agents.Context.History.{NoDoubleHuman, db_messages_to_lc-NoDoubleHuman}
use self_managed_agents.Context.{
  Message, BaseMessage, human, ai, is_user, is_agent, delivery_status_tag,
  elide_stale_attachment_body, push_human, add_message, add_messages, db_messages_to_lc,
}

-- one text on a line of its own
abbrev pub line : String → String
line t = join_text "\n" t

-- The texts of the HumanMessages, line by line.
abbrev pub shown_as_user : List BaseMessage → String
shown_as_user [] = ""
shown_as_user (human t ∷ ms) = join_text (line t) (shown_as_user ms)
shown_as_user (ai t ∷ ms) = shown_as_user ms

-- The texts of the user's rows, line by line, without the bodies of attachments.
abbrev pub said_by_user : List Message → String
said_by_user [] = ""
said_by_user (msg ∷ msgs) =
    let rest = said_by_user msgs in
    if not (or_empty msg.content == "") && is_user msg.role
    then join_text (line (elide_stale_attachment_body (or_empty msg.content))) rest
    else rest

shown-push_human :
    (c : String) (ms : List BaseMessage)
    → shown_as_user (push_human c ms) ≡ join_text (shown_as_user ms) (line c)
unfolding push_human
shown-push_human c [] = text_nil (line c) ∙ sym (nil_text (line c))
shown-push_human c (human t ∷ []) =
    text_nil (line (join_text t (line c)))
    ∙ sym (text_assoc "\n" t (line c))
    ∙ ap (λ s. join_text s (line c)) (sym (text_nil (line t)))
shown-push_human c (ai t ∷ []) = text_nil (line c) ∙ sym (nil_text (line c))
shown-push_human c (human t ∷ n ∷ rest) =
    ap (join_text (line t)) (shown-push_human c (n ∷ rest))
    ∙ sym (text_assoc (line t) (shown_as_user (n ∷ rest)) (line c))
shown-push_human c (ai t ∷ n ∷ rest) = shown-push_human c (n ∷ rest)

shown-append :
    (t : String) (ms : List BaseMessage) → shown_as_user (ms ++ ai t ∷ []) ≡ shown_as_user ms
shown-append t [] = refl
shown-append t (human u ∷ ms) = ap (join_text (line u)) (shown-append t ms)
shown-append t (ai u ∷ ms) = shown-append t ms

shown-add_message :
    (msg : Message) (result : List BaseMessage) (rest : List Message)
    → join_text (shown_as_user (add_message msg result)) (said_by_user rest)
      ≡ join_text (shown_as_user result) (said_by_user (msg ∷ rest))
unfolding add_message
shown-add_message msg result rest = elim (Bool-cases (or_empty msg.content == "")) [
  | inl e ↦ rw e refl
  | inr e ↦ elim (Bool-cases (is_user msg.role)) [
    | inl u ↦
        let c = elide_stale_attachment_body (or_empty msg.content) in
        rw (e, u)
          (ap (λ s. join_text s (said_by_user rest)) (shown-push_human c result)
            ∙ text_assoc (shown_as_user result) (line c) (said_by_user rest))
    | inr u ↦
        elim (Bool-cases (is_agent msg.role && not (is_value msg.tool_name delivery_status_tag))) [
          | inl a ↦
              rw (e, u, a)
                (ap (λ s. join_text s (said_by_user rest))
                  (shown-append (or_empty msg.content) result))
          | inr a ↦ rw (e, u, a) refl
        ]
  ]
]

shown-add_messages :
    (msgs : List Message) (result : List BaseMessage)
    → shown_as_user (add_messages msgs result)
      ≡ join_text (shown_as_user result) (said_by_user msgs)
unfolding add_messages
shown-add_messages [] result = sym (text_nil (shown_as_user result))
shown-add_messages (msg ∷ msgs) result =
    shown-add_messages msgs (add_message msg result) ∙ shown-add_message msg result msgs

-- Whatever rows the history has, its conversion has no two HumanMessages in a row; and read line by
-- line, its HumanMessages are what the user's rows say, in their order: joining them loses, adds and
-- repeats nothing but the bodies of attachments, which are replaced by a note.
pub db_messages_to_lc-joins :
    (msgs : List Message)
    → NoDoubleHuman (db_messages_to_lc msgs)
      × (shown_as_user (db_messages_to_lc msgs) ≡ said_by_user msgs)
unfolding db_messages_to_lc
db_messages_to_lc-joins msgs = (
  db_messages_to_lc-NoDoubleHuman msgs,
  shown-add_messages msgs [] ∙ nil_text (said_by_user msgs),
)
