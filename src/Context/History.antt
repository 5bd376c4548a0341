-- ===== src/Context/History.antt =====
-- What the model is shown of a session.
use self_managed_agents.Base.{
  nat_eq, string_eq, ℕ, ◌*◌, ◌≡◌, refl, ◌∙◌, String, Bool, true, false, not, ◌&&◌, ◌||◌, Option,
  none, some, List, [], ◌∷◌, ◌++◌, ◌==◌, ==_refl, is_value, where_, take, map, contains, Distinct,
  sym, nat_beq_iff, any, or_empty, All, All-append, All-imp, arith, Bool-cases, inl, inr,
}
use self_managed_agents.Base.Order.{
  AddsNone, take-AddsNone, AddsNone-any, In, In-any, any-In, In-where, Distinct-In,
}
use self_managed_agents.Context.{
  Message, RunStatus, BaseMessage, human, ai, is_dead, is_user, is_agent, keeps,
  filter_dead_run_messages, load_history, delivery_status_tag, earlier, in_session, last_turns,
  history_rows, elide_stale_attachment_body, push_human, add_message, add_messages,
  db_messages_to_lc,
}

abbrev starts_human : List BaseMessage → Bool
starts_human (human t ∷ ms) = true
starts_human _ = false

-- No two HumanMessages follow each other.
abbrev pub NoDoubleHuman : List BaseMessage → Type 0
NoDoubleHuman [] = Unit
NoDoubleHuman (human t ∷ ms) = (starts_human ms ≡ false) × NoDoubleHuman ms
NoDoubleHuman (ai t ∷ ms) = NoDoubleHuman ms

push_human-starts :
    (c : String) (m : BaseMessage) (ms : List BaseMessage)
    → starts_human (push_human c (m ∷ ms)) ≡ starts_human (m ∷ ms)
unfolding push_human
push_human-starts c (human t) [] = refl
push_human-starts c (ai t) [] = refl
push_human-starts c (human t) (n ∷ rest) = refl
push_human-starts c (ai t) (n ∷ rest) = refl

push_human-NoDoubleHuman :
    (c : String) (ms : List BaseMessage) → NoDoubleHuman ms → NoDoubleHuman (push_human c ms)
unfolding push_human
push_human-NoDoubleHuman c [] h = (refl, tt)
push_human-NoDoubleHuman c (human t ∷ []) h = (refl, tt)
push_human-NoDoubleHuman c (ai t ∷ []) h = (refl, tt)
push_human-NoDoubleHuman c (human t ∷ n ∷ rest) (e, h) =
    (push_human-starts c n rest ∙ e, push_human-NoDoubleHuman c (n ∷ rest) h)
push_human-NoDoubleHuman c (ai t ∷ n ∷ rest) h = push_human-NoDoubleHuman c (n ∷ rest) h

starts_human-append :
    (t : String) (ms : List BaseMessage)
    → starts_human ms ≡ false
    → starts_human (ms ++ ai t ∷ []) ≡ false
starts_human-append t [] h = refl
starts_human-append t (human u ∷ ms) h = h
starts_human-append t (ai u ∷ ms) h = refl

append-NoDoubleHuman :
    (t : String) (ms : List BaseMessage) → NoDoubleHuman ms → NoDoubleHuman (ms ++ ai t ∷ [])
append-NoDoubleHuman t [] h = tt
append-NoDoubleHuman t (human u ∷ ms) (e, h) =
    (starts_human-append t ms e, append-NoDoubleHuman t ms h)
append-NoDoubleHuman t (ai u ∷ ms) h = append-NoDoubleHuman t ms h

-- What the loop does with one row: nothing, a HumanMessage for a user row, or an AIMessage for an
-- agent row that is no delivery notice.
add_message-keeps :
    (P : List BaseMessage → Type 0) (msg : Message) (result : List BaseMessage)
    → P result
    → (is_user msg.role ≡ true
        → P (push_human (elide_stale_attachment_body (or_empty msg.content)) result))
    → (is_agent msg.role ≡ true
        → is_value msg.tool_name delivery_status_tag ≡ false
        → (or_empty msg.content == "") ≡ false
        → P (result ++ ai (or_empty msg.content) ∷ []))
    → P (add_message msg result)
unfolding add_message
add_message-keeps P msg result same said answered = elim (Bool-cases (or_empty msg.content == "")) [
  | inl e ↦ rw e same
  | inr e ↦ elim (Bool-cases (is_user msg.role)) [
    | inl u ↦ rw (e, u) (said u)
    | inr u ↦
        elim (Bool-cases (is_agent msg.role && not (is_value msg.tool_name delivery_status_tag))) [
          | inl a ↦ rw (e, u, a) (answered (ground arith) (ground arith) e)
          | inr a ↦ rw (e, u, a) same
        ]
  ]
]

add_messages-NoDoubleHuman :
    (msgs : List Message) (result : List BaseMessage)
    → NoDoubleHuman result
    → NoDoubleHuman (add_messages msgs result)
unfolding add_messages
add_messages-NoDoubleHuman [] result h = h
add_messages-NoDoubleHuman (msg ∷ msgs) result h =
    add_messages-NoDoubleHuman msgs (add_message msg result) (
      add_message-keeps NoDoubleHuman msg result h (λ u. push_human-NoDoubleHuman _ result h)
        (λ a n s. append-NoDoubleHuman _ result h))

-- The conversion gives no two HumanMessages in a row.
pub db_messages_to_lc-NoDoubleHuman : (msgs : List Message) → NoDoubleHuman (db_messages_to_lc msgs)
unfolding db_messages_to_lc
db_messages_to_lc-NoDoubleHuman msgs = add_messages-NoDoubleHuman msgs [] tt

-- A row that the agent said: its text, of a run that is not dead, and no delivery notice.
abbrev pub run_is_dead : (ℕ → Option RunStatus) → Option ℕ → Bool
run_is_dead run_status none = false
run_is_dead run_status (some id) = is_dead (run_status id)

abbrev pub says : (ℕ → Option RunStatus) → String → Message → Bool
says run_status text row =
    is_agent row.role
    && is_value row.content text
    && not (is_value row.tool_name delivery_status_tag)
    && not (run_is_dead run_status row.run_id)

present : (o : Option String) → (or_empty o == "") ≡ false → o ≡ some (or_empty o)
present none h = cc
present (some t) h = refl

module _ (run_status : ℕ → Option RunStatus) (rows : List Message) where
  abbrev pub IsSaid : BaseMessage → Type 0
  IsSaid (human t) = Unit
  IsSaid (ai t) = any (says run_status t) rows ≡ true

  push_human-IsSaid :
      (c : String) (ms : List BaseMessage) → All IsSaid ms → All IsSaid (push_human c ms)
  unfolding push_human
  push_human-IsSaid c [] h = (tt, tt)
  push_human-IsSaid c (human t ∷ []) h = (tt, tt)
  push_human-IsSaid c (ai t ∷ []) (p, h) = (p, (tt, tt))
  push_human-IsSaid c (m ∷ n ∷ rest) (p, h) = (p, push_human-IsSaid c (n ∷ rest) h)

  -- a row of the history that is not of a dead run's agent, and stands in `rows`
  abbrev IsSource : Message → Type 0
  IsSource msg =
      (t : String)
      → is_agent msg.role ≡ true
      → is_value msg.tool_name delivery_status_tag ≡ false
      → msg.content ≡ some t
      → any (says run_status t) rows ≡ true

  add_messages-IsSaid :
      (msgs : List Message) (result : List BaseMessage)
      → All IsSource msgs
      → All IsSaid result
      → All IsSaid (add_messages msgs result)
  unfolding add_messages
  add_messages-IsSaid [] result s h = h
  add_messages-IsSaid (msg ∷ msgs) result (source, s) h =
      add_messages-IsSaid msgs (add_message msg result) s (
        add_message-keeps (All IsSaid) msg result h (λ u. push_human-IsSaid _ result h)
          (λ a n e.
            All-append IsSaid result (ai (or_empty msg.content) ∷ []) h
              (source (or_empty msg.content) a n (present msg.content e), tt)))

any-cons :
    {A : Type 0} (p : A → Bool) (x : A) (xs : List A) → any p xs ≡ true → any p (x ∷ xs) ≡ true
any-cons p x xs h = ground arith

contains-any :
    (id : ℕ) (xs : List Message) → contains id (map (λ m. m.id) xs) ≡ any (λ m. m.id == id) xs
contains-any id [] = refl
contains-any id (x ∷ xs) = rw (contains-any id xs) refl

module _ (run_status : ℕ → Option RunStatus) where
  kept_row-IsSource :
      (rows : List Message) (row : Message)
      → keeps run_status row ≡ true
      → IsSource run_status (row ∷ rows) row
  unfolding keeps
  kept_row-IsSource rows row kept t a n c = ground (arith, ==_refl t)

  filtered-IsSource :
      (rows : List Message)
      → All (IsSource run_status rows) (filter_dead_run_messages run_status rows)
  unfolding filter_dead_run_messages
  filtered-IsSource [] = tt
  filtered-IsSource (row ∷ rows) =
      let later =
        All-imp (IsSource run_status rows) (IsSource run_status (row ∷ rows))
          (λ m s t a n c. any-cons (says run_status t) row rows (s t a n c))
          (where_ (keeps run_status) rows) (filtered-IsSource rows) in
      elim (Bool-cases (keeps run_status row)) [
        | inl e ↦ rw e (kept_row-IsSource rows row e, later)
        | inr e ↦ rw e later
      ]

  filtered-IsSaid :
      (rows : List Message)
      → All (IsSaid run_status rows) (db_messages_to_lc (filter_dead_run_messages run_status rows))
  unfolding db_messages_to_lc
  filtered-IsSaid rows =
      add_messages-IsSaid run_status rows (filter_dead_run_messages run_status rows) []
        (filtered-IsSource rows) tt

-- A row that the agent said in the session.
abbrev pub says_in : (ℕ → Option RunStatus) → ℕ → String → Message → Bool
says_in run_status session_id text row = in_session session_id row && says run_status text row

-- Every text that is shown as the agent's is that of such a row of the table.
abbrev pub IsSaidIn : (ℕ → Option RunStatus) → ℕ → List Message → BaseMessage → Type 0
IsSaidIn run_status session_id messages (human t) = Unit
IsSaidIn run_status session_id messages (ai t) =
    any (says_in run_status session_id t) messages ≡ true

-- `history_rows` reads rows of the session only, as the ids of the table are distinct.
module _ (order_by : (Message → Message → Bool) → List Message → List Message)
    (adds : (before : Message → Message → Bool) → AddsNone (order_by before)) (session_id : ℕ)
    (messages : List Message) where
  of_session :
      (p : Message → Bool) (x : Message)
      → In x messages
      → in_session session_id x ≡ true
      → p x ≡ true
      → any (λ r. in_session session_id r && p r) messages ≡ true
  of_session p x i s h = In-any (λ r. in_session session_id r && p r) x messages i (rw (s, h) refl)

  history_rows-any :
      Distinct (map (λ r. r.id) messages)
      → (p : Message → Bool) (max_turns : Option ℕ)
      → any p (history_rows order_by session_id max_turns messages) ≡ true
      → any (λ r. in_session session_id r && p r) messages ≡ true
  unfolding history_rows
  history_rows-any distinct p none h =
      let found = AddsNone-any (order_by earlier) p _ (adds earlier) h in
      let (x, i, hx) = any-In p (where_ (in_session session_id) messages) found in
      let (there, s) = In-where (in_session session_id) x messages i in of_session p x there s hx
  history_rows-any distinct p (some n) h =
      let talk : Message → Bool =
        λ r. in_session session_id r && (is_user r.role || is_agent r.role) in
      let later : Message → Message → Bool = λ a b. earlier b a in
      let ids = map (λ m. m.id) (last_turns order_by session_id n messages) in
      let found = AddsNone-any (order_by earlier) p _ (adds earlier) h in
      let (x, i, hx) = any-In p (where_ (λ r. contains r.id ids) messages) found in
      let (there, listed) = In-where (λ r. contains r.id ids) x messages i in
      let same_id : Message → Bool = λ r. r.id == x.id in
      let ordered = order_by later (where_ talk messages) in
      let chosen : any same_id (take (n * 2) ordered) ≡ true =
        sym (contains-any x.id (take (n * 2) ordered)) ∙ listed in
      let kept : any same_id ordered ≡ true =
        AddsNone-any (take (n * 2)) same_id ordered (take-AddsNone (n * 2)) chosen in
      let source : any same_id (where_ talk messages) ≡ true =
        AddsNone-any (order_by later) same_id (where_ talk messages) (adds later) kept in
      let (y, j, hy) = any-In same_id (where_ talk messages) source in
      let (there_too, talks) = In-where talk y messages j in
      let one : y ≡ x =
        Distinct-In (λ r. r.id) y x messages distinct there_too there
          ((nat_beq_iff y.id x.id).0 hy) in
      let s : in_session session_id x ≡ true = rw (sym one) (ground arith) in
      of_session p x there s hx

  -- What the model is shown as its own words is the text of an agent row of the session whose run did
  -- not fail, time out or get cancelled or abandoned, and which is no delivery notice: also with the
  -- last turns only, whatever other sessions the table holds, if the ids of its rows are distinct and
  -- the order of the database adds no rows.
  pub load_history-IsSaid :
      Distinct (map (λ r. r.id) messages)
      → (run_status : ℕ → Option RunStatus) (max_turns : Option ℕ)
      → All
          (IsSaidIn run_status session_id messages)
          (db_messages_to_lc (load_history order_by run_status session_id max_turns messages))
  unfolding load_history
  load_history-IsSaid distinct run_status max_turns =
      let rows = history_rows order_by session_id max_turns messages in
      All-imp (IsSaid run_status rows) (IsSaidIn run_status session_id messages) said
        (db_messages_to_lc (filter_dead_run_messages run_status rows))
        (filtered-IsSaid run_status rows)
    where
      said :
          (m : BaseMessage)
          → IsSaid run_status (history_rows order_by session_id max_turns messages) m
          → IsSaidIn run_status session_id messages m
      said (human t) h = tt
      said (ai t) h = history_rows-any distinct (says run_status t) max_turns h
