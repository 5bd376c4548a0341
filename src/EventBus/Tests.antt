-- ===== src/EventBus/Tests.antt =====
-- The event bus on one session with two readers.
use self_managed_agents.Base.{
  nat_eq, string_eq, ◌≡◌, refl, String, List, [], ◌∷◌, contains, if◌then◌else◌, arith,
}
use self_managed_agents.Base.Dict.{lookup, insert}
use self_managed_agents.EventBus.{
  Bus, or_nil, subscribe, unsubscribe, publish, take_event, step, run, Step, subscribing,
  publishing, reading, unsubscribing,
}
use self_managed_agents.EventBus.Delivery.{accept, publish_delivers}
use self_managed_agents.EventBus.Invariant.{IsSound, run-IsSound}

abbrev empty_bus : Bus String
empty_bus = record { subscribers = []; queues = λ q. []; next = 0 }

empty_bus-IsSound : IsSound empty_bus
unfolding lookup
empty_bus-IsSound = record { bounded = λ q. omega arith; listed = λ k v h. absurd (ground arith) }

abbrev two_readers : Bus String
two_readers = record { subscribers = ("s", 0 ∷ 1 ∷ []) ∷ []; queues = λ q. []; next = 2 }

abbrev calls : List (Step String)
calls =
    subscribing "s" ∷ subscribing "s" ∷ publishing "s" "done" ∷ reading 1 ∷ unsubscribing "s" 0 ∷ []

calls_left : (run calls empty_bus).subscribers ≡ ("s", 1 ∷ []) ∷ []
unfolding run step subscribe unsubscribe publish take_event lookup insert
calls_left = refl

run-IsSound_example : IsSound (run calls empty_bus)
run-IsSound_example = run-IsSound calls empty_bus empty_bus-IsSound

publish_delivers_example :
    ((publish "s" "done" two_readers).queues 1 ≡ (
      if contains 1 (or_nil (lookup "s" two_readers.subscribers))
      then accept "done" (two_readers.queues 1)
      else two_readers.queues 1))
    × ((publish "s" "done" two_readers).subscribers ≡ two_readers.subscribers)
unfolding lookup
publish_delivers_example = publish_delivers "s" "done" two_readers 1 (refl, (refl, tt))
