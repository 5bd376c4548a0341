-- ===== src/Memory/Tests.antt =====
-- Memories of one agent.
use self_managed_agents.Base.{
  nat_eq, string_eq, option_eq, ℕ, ◌≡◌, refl, String, false, Option, none, some, List, [], ◌∷◌,
  arith, if◌then◌else◌,
}
use self_managed_agents.Base.Outcome.{ok}
use self_managed_agents.Base.Text.{drop_text}
use self_managed_agents.Memory.{Memory, is_entry, upsert_memory, get_memory}
use self_managed_agents.Memory.Runtime.{
  append_memory_line, Turn, is_heartbeat, recorded, record_runtime_memory,
}
use self_managed_agents.Memory.Recorded.{Writes, turn_dictionary, record_runtime_memory-Writes}
use self_managed_agents.Memory.Laws.{IsUnique, same_entry, get_memory-upsert_memory}

abbrev soul : Memory
soul = record { id = 1; agent_id = 3; scope = none; key = "soul"; value_data = "calm" }

-- The same key in the scope of a user is another entry.
scoped : get_memory 3 "soul" (some "628111") (soul ∷ []) ≡ none
unfolding get_memory is_entry
scoped = refl

empty-IsUnique : IsUnique []
empty-IsUnique a s k = omega arith

upsert_example :
    (m : Memory) × (after : List Memory) × (upsert_memory 5 3 "soul" "kind" none [] ≡ ok (m, after))
    × (m.value_data ≡ "kind")
    × (get_memory 3 "soul" none after ≡ some m)
    × ((b : ℕ) (t : Option String) (l : String)
        → same_entry 3 none "soul" b t l ≡ false
        → get_memory b l t after ≡ get_memory b l t [])
    × IsUnique after
upsert_example = get_memory-upsert_memory 5 3 "soul" "kind" none [] empty-IsUnique

-- Blank lines go, a line that is said again is not added, and only the last lines are kept.
appended : append_memory_line (some "one\r\n\n two ") "three " 2 100 ≡ " two\nthree"
unfolding append_memory_line
appended = refl

said_again : append_memory_line (some "one\ntwo") "two" 80 100 ≡ "one\ntwo"
unfolding append_memory_line
said_again = refl

cut_to_length : append_memory_line (some "one") "two" 80 4 ≡ "two"
unfolding append_memory_line drop_text
cut_to_length = refl

abbrev turn : Turn
turn = record {
  user_message = "hi";
  user_summary = "hi";
  reply_summary = "hello";
  attachment = "";
  artifact = "a.pdf";
}

recorded_example :
    Writes
      (λ n. n)
      3
      (some "628111")
      (if is_heartbeat turn then (λ d. d) else turn_dictionary "2026-01-05" turn)
      []
      (record_runtime_memory (λ n. n) 3 (some "628111") "2026-01-05" turn [])
recorded_example =
    record_runtime_memory-Writes (λ n. n) 3 (some "628111") "2026-01-05" turn [] empty-IsUnique

last :
    recorded
      (λ n. n)
      3
      (some "628111")
      "last_turn"
      (record_runtime_memory (λ n. n) 3 (some "628111") "2026-01-05" turn [])
    ≡ some "User: hi\nAgent: hello"
unfolding record_runtime_memory get_memory is_heartbeat upsert_memory is_entry
last = refl
