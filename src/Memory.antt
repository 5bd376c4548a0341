-- ===== src/Memory.antt =====
-- app/core/domain/memory_service.py and app/models/memory.py: what an agent remembers, by scope and
-- key. A scope that is NULL is the agent's own.
pub mod Laws
pub mod Runtime
pub mod Recorded
mod Tests
use self_managed_agents.Base.{
  nat_eq, string_eq, option_eq, ℕ, String, Bool, true, false, not, ◌&&◌, Option, none, some, List,
  [], ◌∷◌, ◌==◌, if◌then◌else◌, where_, update,
}
use self_managed_agents.Base.Outcome.{Outcome, ok, err, ◌>>=◌, scalar_one_or_none, first}

pub record Memory : Type 0 where
  pub id : ℕ
  pub agent_id : ℕ
  pub scope : Option String
  pub key : String
  pub value_data : String

-- `Memory.agent_id == agent_id, Memory.scope == scope, Memory.key == key`, where a scope that is None
-- becomes IS NULL
unfoldable pub is_entry : ℕ → Option String → String → Memory → Bool
is_entry agent_id scope key m = m.agent_id == agent_id && m.scope == scope && m.key == key

abbrev pub new_memory : ℕ → ℕ → Option String → String → String → Memory
new_memory id agent_id scope key value = record {
  id = id;
  agent_id = agent_id;
  scope = scope;
  key = key;
  value_data = value;
}

abbrev pub set_value : String → Memory → Memory
set_value value m = record m { value_data = value }

-- The branch of `upsert_memory` for a NULL scope: a select, and then an update or an insert.
unfoldable pub upsert_global :
    ℕ → ℕ → String → String → List Memory → Outcome (Memory × List Memory)
upsert_global id agent_id key value table = do
  existing ← scalar_one_or_none (where_ (is_entry agent_id none key) table)
  elim existing [
    | some m ↦ ok (set_value value m, update (is_entry agent_id none key) (set_value value) table)
    | none ↦
        ok (new_memory id agent_id none key value, new_memory id agent_id none key value ∷ table)
  ]

-- `insert ... on conflict do update ... returning`
abbrev pub insert_or_update :
    ℕ → ℕ → Option String → String → String → List Memory → Option Memory → Memory × List Memory
insert_or_update id agent_id scope key value table (some m) =
    (set_value value m, update (is_entry agent_id scope key) (set_value value) table)
insert_or_update id agent_id scope key value table none =
    (new_memory id agent_id scope key value, new_memory id agent_id scope key value ∷ table)

-- `upsert_memory`; `id` is the fresh uuid
unfoldable pub upsert_memory :
    ℕ → ℕ → String → String → Option String → List Memory → Outcome (Memory × List Memory)
unfolding upsert_global
upsert_memory id agent_id key value none table = upsert_global id agent_id key value table
upsert_memory id agent_id key value (some scope) table = ok (
    insert_or_update id agent_id (some scope) key value table
      (first (where_ (is_entry agent_id (some scope) key) table)))

-- `get_memory`
unfoldable pub get_memory : ℕ → String → Option String → List Memory → Option Memory
get_memory agent_id key scope table = first (where_ (is_entry agent_id scope key) table)

abbrev is_empty : List Memory → Bool
is_empty [] = true
is_empty _ = false

-- `delete_memory`: whether a row was deleted, and the table
unfoldable pub delete_memory : ℕ → String → Option String → List Memory → Bool × List Memory
delete_memory agent_id key scope table = (
  not (is_empty (where_ (is_entry agent_id scope key) table)),
  where_ (λ m. not (is_entry agent_id scope key m)) table,
)
