-- ===== src/EventBus.antt =====
-- app/core/workers/event_bus.py: publish and subscribe per session, over bounded queues. A queue is
-- an object with an identity, so the queues stand in a heap, by number.
pub mod Delivery
pub mod Invariant
mod Tests
use self_managed_agents.Base.{
  nat_eq, string_eq, ℕ, ◌+◌, String, Bool, true, false, Option, none, some, List, [], ◌∷◌, ◌++◌,
  ◌==◌, ltb, length, if◌then◌else◌,
}
use self_managed_agents.Base.Dict.{lookup, insert, remove}

-- `asyncio.Queue(maxsize=100)`
abbrev pub maxsize : ℕ
maxsize = 100

pub record Bus (Event : Type 0) : Type 0 where
  pub subscribers : List (String × List ℕ)
  pub queues : ℕ → List Event
  -- the identity of the next queue
  pub next : ℕ

abbrev pub or_nil : Option (List ℕ) → List ℕ
or_nil none = []
or_nil (some qs) = qs

-- the heap with one queue rewritten
abbrev pub set_queue : {Event : Type 0} → ℕ → List Event → (ℕ → List Event) → ℕ → List Event
set_queue q items queues r = if r == q then items else queues r

-- `list.remove(q)`: the first occurrence, and nothing where there is none (ValueError is passed over)
unfoldable pub remove_first : ℕ → List ℕ → List ℕ
remove_first q [] = []
remove_first q (r ∷ rs) = if r == q then rs else r ∷ remove_first q rs

abbrev pub is_empty : List ℕ → Bool
is_empty [] = true
is_empty _ = false

pub data Step (Event : Type 0) : Type 0 where
  subscribing : String → Step Event
  unsubscribing : String → ℕ → Step Event
  publishing : String → Event → Step Event
  reading : ℕ → Step Event

module _ {Event : Type 0} where
  unfoldable pub subscribe : String → Bus Event → ℕ × Bus Event
  subscribe session_id bus = (
    bus.next,
    record bus {
      subscribers =
          insert session_id (or_nil (lookup session_id bus.subscribers) ++ bus.next ∷ [])
            bus.subscribers;
      queues = set_queue bus.next [] bus.queues;
      next = bus.next + 1;
    },
  )

  -- the list that is left is stored in place; an empty one is popped
  unfoldable pub unsubscribe : String → ℕ → Bus Event → Bus Event
  unfolding remove_first
  unsubscribe session_id q bus =
      let subs = remove_first q (or_nil (lookup session_id bus.subscribers)) in
      record bus {
        subscribers =
            if is_empty subs
            then remove session_id bus.subscribers
            else insert session_id subs bus.subscribers;
      }

  -- `put_nowait`, and QueueFull passed over
  unfoldable pub put_nowait : Event → (ℕ → List Event) → ℕ → ℕ → List Event
  put_nowait event queues q =
      if ltb (length (queues q)) maxsize
      then set_queue q (queues q ++ event ∷ []) queues
      else queues

  unfoldable pub put_all : Event → List ℕ → (ℕ → List Event) → ℕ → List Event
  unfolding put_nowait
  put_all event [] queues = queues
  put_all event (q ∷ qs) queues = put_all event qs (put_nowait event queues q)

  unfoldable pub publish : String → Event → Bus Event → Bus Event
  unfolding put_all
  publish session_id event bus = record bus {
    queues = put_all event (or_nil (lookup session_id bus.subscribers)) bus.queues;
  }

  abbrev tail_of : List Event → List Event
  tail_of [] = []
  tail_of (x ∷ xs) = xs

  -- the reader of a queue takes its first event
  unfoldable pub take_event : ℕ → Bus Event → Bus Event
  take_event q bus = record bus { queues = set_queue q (tail_of (bus.queues q)) bus.queues }

  unfoldable pub step : Step Event → Bus Event → Bus Event
  step (subscribing s) bus = (subscribe s bus).1
  step (unsubscribing s q) bus = unsubscribe s q bus
  step (publishing s event) bus = publish s event bus
  step (reading q) bus = take_event q bus

  unfoldable pub run : List (Step Event) → Bus Event → Bus Event
  run [] bus = bus
  run (s ∷ ss) bus = run ss (step s bus)
