-- ===== src/EventBus/Delivery.antt =====
-- Who receives an event, and the bound of the queues.
use self_managed_agents.Base.{
  nat_eq, string_eq, ℕ, ◌≡◌, refl, String, true, false, List, [], ◌∷◌, ◌++◌, ◌==◌, ltb, length,
  if◌then◌else◌, contains, Distinct, Bool-cases, inl, inr, arith,
}
use self_managed_agents.Base.Dict.{lookup}
use self_managed_agents.EventBus.{Bus, maxsize, or_nil, put_nowait, put_all, publish}

module _ {Event : Type 0} where
  -- what a publication makes of one queue
  abbrev pub accept : Event → List Event → List Event
  accept event items = if ltb (length items) maxsize then items ++ event ∷ [] else items

  put_all_other :
      (event : Event) (qs : List ℕ) (queues : ℕ → List Event) (q : ℕ)
      → contains q qs ≡ false
      → put_all event qs queues q ≡ queues q
  unfolding put_all
  put_all_other event [] queues q h = refl
  put_all_other event (r ∷ qs) queues q h =
      ground (arith, put_all_other event qs (put_nowait event queues r) q)

  put_all_subscriber :
      (event : Event) (qs : List ℕ) (queues : ℕ → List Event) (q : ℕ)
      → Distinct qs
      → contains q qs ≡ true
      → put_all event qs queues q ≡ accept event (queues q)
  unfolding put_all
  put_all_subscriber event [] queues q d h = cc
  put_all_subscriber event (r ∷ qs) queues q (new, d) h = elim (Bool-cases (r == q)) [
    | inl same ↦ ground (arith, put_all_other event qs (put_nowait event queues r) q)
    | inr other ↦ ground (arith, put_all_subscriber event qs (put_nowait event queues r) q d)
  ]

  -- A publication appends the event once to every queue subscribed to the session that is not full,
  -- drops it at a full one, and touches no other queue and no subscription.
  pub publish_delivers :
      (session_id : String) (event : Event) (bus : Bus Event) (q : ℕ)
      → Distinct (or_nil (lookup session_id bus.subscribers))
      → ((publish session_id event bus).queues q ≡ (
          if contains q (or_nil (lookup session_id bus.subscribers))
          then accept event (bus.queues q)
          else bus.queues q))
        × ((publish session_id event bus).subscribers ≡ bus.subscribers)
  unfolding publish
  publish_delivers session_id event bus q d =
      let subs = or_nil (lookup session_id bus.subscribers) in
      (
        elim (Bool-cases (contains q subs)) [
          | inl e ↦ rw e (put_all_subscriber event subs bus.queues q d e)
          | inr e ↦ rw e (put_all_other event subs bus.queues q e)
        ],
        refl,
      )
