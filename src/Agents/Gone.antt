-- ===== src/Agents/Gone.antt =====
-- What becomes of an agent that was deleted.
use self_managed_agents.Base.{
  nat_eq, string_eq, ℕ, String, ◌≡◌, refl, sym, ap, subst, ◌∙◌, Bool, true, false, Option, some,
  List, [], ◌∷◌, ◌==◌, where_, map, contains, arith, Bool-cases, inl, inr, nat_beq_iff, All,
  All-where, ==_refl, any, leb, ◌&&◌, or_empty, if◌then◌else◌,
}
use self_managed_agents.Base.Outcome.{
  Outcome, ok, err, http, scalar_one_or_none, or_raise, scalar_one_or_none-some, or_raise-eq_ok,
  >>=-eq-ok,
}
use self_managed_agents.Base.Json.{Json}
use self_managed_agents.Base.Order.{AddsNone, take-AddsNone, drop-AddsNone}
use self_managed_agents.Base.Text.{len_text}
use self_managed_agents.Agents.Changes.{Changed, serve_all-Keeps}
use self_managed_agents.Agents.{
  Agent, is_active, get_active_agent, save, on_agent, deleted, is_new, delete_agent, is_listed,
  AgentUpdate, WaReply, AgentList, update_ok, get_agent, update_agent, renew_agent, get_whatsapp,
  disconnect_whatsapp, connect_whatsapp, list_agents, Request, serve_all,
}

-- There is a row of this id, and it is deleted.
abbrev pub IsGone : ℕ → List Agent → Type 0
IsGone id db = (where_ (is_active id) db ≡ []) × (contains id (map (λ a. a.id) db) ≡ true)

pub get_active_agent-eq_ok :
    (id : ℕ) (db : List Agent) (a : Agent)
    → get_active_agent id db ≡ ok a
    → (where_ (is_active id) db ≡ a ∷ []) × (is_active id a ≡ true)
unfolding get_active_agent
get_active_agent-eq_ok id db a went =
    let (found, read, raised) =
      >>=-eq-ok (scalar_one_or_none (where_ (is_active id) db)) (λ o. or_raise o (http 404)) went in
    let same : found ≡ some a = or_raise-eq_ok found (http 404) a raised in
    let one : where_ (is_active id) db ≡ a ∷ [] =
      scalar_one_or_none-some (where_ (is_active id) db) a (read ∙ ap (λ o. ok o) same) in
    (one, (subst (λ l. All (λ x. is_active id x ≡ true) l) one (All-where (is_active id) db)).0)

-- A flush writes to no row of another id, and changes no id.
save-other :
    (id : ℕ) (agent : Agent) (db : List Agent)
    → (agent.id == id) ≡ false
    → where_ (is_active id) (save agent db) ≡ where_ (is_active id) db
save-other id agent [] other = refl
save-other id agent (x ∷ db) other = elim (Bool-cases (x.id == agent.id)) [
  | inl e ↦
      let same : x.id ≡ agent.id = (nat_beq_iff x.id agent.id).0 e in
      rw (e, same, other) (save-other id agent db other)
  | inr e ↦ rw (e, save-other id agent db other) refl
]

pub save-ids :
    (agent : Agent) (db : List Agent) → map (λ a. a.id) (save agent db) ≡ map (λ a. a.id) db
save-ids agent [] = refl
save-ids agent (x ∷ db) = elim (Bool-cases (x.id == agent.id)) [
  | inl e ↦
      let same : x.id ≡ agent.id = (nat_beq_iff x.id agent.id).0 e in
      rw (e, same, save-ids agent db) refl
  | inr e ↦ rw (e, save-ids agent db) refl
]

-- The agent that an endpoint finds is not the deleted one.
found-other :
    (id other : ℕ) (db : List Agent) (a : Agent)
    → where_ (is_active id) db ≡ []
    → get_active_agent other db ≡ ok a
    → (a.id == id) ≡ false
found-other id other db a gone found =
    let (one, active) = get_active_agent-eq_ok other db a found in
    elim (Bool-cases (a.id == id)) [
      | inl e ↦
          let same : a.id ≡ id = (nat_beq_iff a.id id).0 e in
          let named : a.id ≡ other = (nat_beq_iff a.id other).0 (ground arith) in
          let one : where_ (is_active id) db ≡ a ∷ [] =
            subst (λ i. where_ (is_active i) db ≡ a ∷ []) (sym named ∙ same) one in
          absurd cc
      | inr e ↦ e
    ]

contains-where :
    (id : ℕ) (b : Agent) (db : List Agent)
    → where_ (is_active id) db ≡ b ∷ []
    → contains id (map (λ a. a.id) db) ≡ true
contains-where id b [] one = absurd cc
contains-where id b (x ∷ db) one = elim (Bool-cases (is_active id x)) [
  | inl e ↦ ground arith
  | inr e ↦ ground (arith, contains-where id b db (rw e at one))
]

new_agent-IsGone :
    (id : ℕ) (agent : Agent) (db : List Agent)
    → is_new agent db ≡ true
    → IsGone id db
    → IsGone id (agent ∷ db)
new_agent-IsGone id agent db new (gone, there) = elim (Bool-cases (agent.id == id)) [
  | inl e ↦ let same : agent.id ≡ id = (nat_beq_iff agent.id id).0 e in ground (arith, same)
  | inr e ↦ (rw e gone, rw e there)
]

saved-IsGone :
    (to_bool : Json → Option Bool) (id other : ℕ) (a b : Agent) (db : List Agent)
    → get_active_agent other db ≡ ok a
    → Changed to_bool a b
    → IsGone id db
    → IsGone id (save b db)
saved-IsGone to_bool id other a b db found (same, _) (gone, there) =
    let different : (b.id == id) ≡ false = rw same (found-other id other db a gone found) in
    (save-other id b db different ∙ gone, rw (save-ids b db) there)

serve_all-IsGone :
    (to_bool : Json → Option Bool) (id : ℕ) (rs : List Request) (db : List Agent)
    → IsGone id db
    → IsGone id (serve_all to_bool rs db)
serve_all-IsGone to_bool id rs db gone =
    serve_all-Keeps to_bool (IsGone id) (λ agent db new _ h. new_agent-IsGone id agent db new h)
      (saved-IsGone to_bool id) rs db gone

-- What is written at the deletion.
save-deleted :
    (a : Agent) (db : List Agent) → a.is_deleted ≡ true → where_ (is_active a.id) (save a db) ≡ []
save-deleted a [] deleted = refl
save-deleted a (x ∷ db) deleted = elim (Bool-cases (x.id == a.id)) [
  | inl e ↦ rw (e, deleted, ==_refl a.id) (save-deleted a db deleted)
  | inr e ↦ rw (e, e) (save-deleted a db deleted)
]

is_listed-active :
    (owner : Option String) (id : ℕ) (db : List Agent)
    → where_ (is_active id) db ≡ []
    → contains id (map (λ a. a.id) (where_ (is_listed owner) db)) ≡ false
unfolding is_listed
is_listed-active owner id [] gone = refl
is_listed-active owner id (x ∷ db) gone = elim (Bool-cases (x.id == id)) [
  | inl e ↦ elim (Bool-cases x.is_deleted) [
    | inl d ↦ ground (arith, is_listed-active owner id db)
    | inr d ↦ absurd (ground arith)
  ]
  | inr e ↦ ground (arith, is_listed-active owner id db)
]

deleted-IsGone :
    (id : ℕ) (db after : List Agent) (a : Agent)
    → delete_agent id db ≡ ok (a, after)
    → IsGone id after
unfolding delete_agent on_agent
deleted-IsGone id db after a went =
    let (b, found, saved) = >>=-eq-ok (get_active_agent id db) _ went in
    let (one, active) = get_active_agent-eq_ok id db b found in
    let same : b.id ≡ id = (nat_beq_iff b.id id).0 (ground arith) in
    let written : save (deleted b) db ≡ after = cc in
    subst (IsGone id) written (
      subst (λ i. where_ (is_active i) (save (deleted b) db) ≡ []) same
          (save-deleted (deleted b) db refl),
      rw (save-ids (deleted b) db) (contains-where id b db one),
    )

-- The agents that a page shows.
abbrev shown : Outcome AgentList → List Agent
shown (ok page) = page.items
shown (err e) = []

contains-any :
    (id : ℕ) (xs : List Agent) → contains id (map (λ a. a.id) xs) ≡ any (λ a. a.id == id) xs
contains-any id [] = refl
contains-any id (x ∷ xs) = rw (contains-any id xs) refl

list_agents-any :
    (order_by : List Agent → List Agent) (p : Agent → Bool) (limit offset : ℕ)
    (owner : Option String) (db : List Agent)
    → AddsNone order_by
    → any p (where_ (is_listed owner) db) ≡ false
    → any p (shown (list_agents order_by limit offset owner db)) ≡ false
unfolding list_agents
list_agents-any order_by p limit offset owner db adds h =
    elim (Bool-cases (leb 1 limit && leb limit 100)) [
      | inl e ↦ elim (Bool-cases (leb (len_text (or_empty owner)) 64)) [
        | inl f ↦ rw (e, f) (take-AddsNone limit p _ (drop-AddsNone offset p _ (adds p _ h)))
        | inr f ↦ rw (e, f) refl
      ]
      | inr e ↦ rw e refl
    ]

-- What each endpoint answers for the id `id`: 404, but for the schema's 422 where the body of an update
-- is refused, and a page of the list that is without it.
abbrev pub IsNotFound : (List Agent → List Agent) → (Json → Option Bool) → ℕ → List Agent → Type 0
IsNotFound order_by to_bool id db =
    (get_agent id db ≡ err (http 404))
    × ((payload : AgentUpdate)
        → update_agent to_bool id payload db ≡ err (http (if update_ok payload then 404 else 422)))
    × (delete_agent id db ≡ err (http 404))
    × ((now : ℕ) → renew_agent id now db ≡ err (http 404))
    × ((service : String → Option WaReply) → get_whatsapp id service db ≡ err (http 404))
    × (disconnect_whatsapp id db ≡ err (http 404))
    × ((device : String) (answer : Option WaReply)
        → connect_whatsapp id device answer db ≡ err (http 404))
    × ((limit offset : ℕ) (owner : Option String)
        → any (λ a. a.id == id) (shown (list_agents order_by limit offset owner db)) ≡ false)

updated-IsNotFound :
    (to_bool : Json → Option Bool) (id : ℕ) (payload : AgentUpdate) (db : List Agent)
    → where_ (is_active id) db ≡ []
    → update_agent to_bool id payload db ≡ err (http (if update_ok payload then 404 else 422))
unfolding update_agent on_agent get_active_agent
updated-IsNotFound to_bool id payload db gone = elim (Bool-cases (update_ok payload)) [
  | inl e ↦ rw (update_agent, on_agent, get_active_agent, e, gone) refl
  | inr e ↦ rw (update_agent, e) refl
]

-- Once an agent is deleted, then whatever is requested, creations included: reading it, deleting it
-- again, renewing it and every endpoint of its WhatsApp device answer 404, an update does so too where
-- its body passes the schema (and 422 where it does not), and no page of any owner's list shows it. The
-- order of the list may be any that adds no rows.
pub delete_agent-gone :
    (order_by : List Agent → List Agent) (to_bool : Json → Option Bool) (id : ℕ)
    (db after : List Agent) (a : Agent) (rs : List Request)
    → AddsNone order_by
    → delete_agent id db ≡ ok (a, after)
    → IsNotFound order_by to_bool id (serve_all to_bool rs after)
unfolding get_agent delete_agent renew_agent get_whatsapp disconnect_whatsapp connect_whatsapp
    on_agent get_active_agent
delete_agent-gone order_by to_bool id db after a rs adds went =
    let (gone, there) = serve_all-IsGone to_bool id rs after (deleted-IsGone id db after a went) in
    (
      rw gone refl,
      λ payload. updated-IsNotFound to_bool id payload (serve_all to_bool rs after) gone,
      rw gone refl,
      λ now. rw gone refl,
      λ service. rw gone refl,
      rw gone refl,
      λ device answer. rw gone refl,
      λ limit offset owner.
          list_agents-any order_by (λ a. a.id == id) limit offset owner (serve_all to_bool rs after)
            adds
            (sym (contains-any id (where_ (is_listed owner) (serve_all to_bool rs after)))
              ∙ is_listed-active owner id (serve_all to_bool rs after) gone),
    )
