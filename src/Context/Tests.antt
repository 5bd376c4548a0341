-- ===== src/Context/Tests.antt =====
-- The history of a session of three rows.
use self_managed_agents.Base.{
  nat_eq, ℕ, ◌≡◌, refl, ◌==◌, Option, none, some, List, [], ◌∷◌, if◌then◌else◌, All,
}
use self_managed_agents.Base.Order.{sort_rows, sort_rows-AddsNone}
use self_managed_agents.Context.{
  Role, user, agent, Message, RunStatus, cancelled, human, ai, keeps, filter_dead_run_messages,
  load_history, history_rows, text_before, elide_stale_attachment_body, push_human, add_message,
  add_messages, db_messages_to_lc,
}
use self_managed_agents.Context.History.{NoDoubleHuman, IsSaidIn, load_history-IsSaid}
use self_managed_agents.Context.Speech.{shown_as_user, said_by_user, db_messages_to_lc-joins}

abbrev row : ℕ → ℕ → Role → Option ℕ → Message
row id session_id role run_id = record {
  id = id;
  session_id = session_id;
  role = role;
  content = some "hi";
  tool_name = none;
  run_id = run_id;
  step_index = id;
  timestamp = 100;
}

-- a table with the rows of two sessions, the newest first
abbrev rows : List Message
rows = row 4 1 user none ∷ row 3 2 agent none ∷ row 2 1 agent (some 1) ∷ row 1 1 user (some 1) ∷ []

abbrev one_cancelled : ℕ → Option RunStatus
one_cancelled id = if id == 1 then some cancelled else none

-- The answer of the cancelled run is dropped, and the two questions are joined.
shown :
    db_messages_to_lc (load_history sort_rows one_cancelled 1 (some 5) rows) ≡ human "hi\nhi" ∷ []
unfolding db_messages_to_lc load_history history_rows filter_dead_run_messages keeps add_messages
    add_message push_human elide_stale_attachment_body text_before
    self_managed_agents.Base.Text.is_prefix
shown = refl

-- Of the last turn only, and of the other session.
last_turn : load_history sort_rows one_cancelled 1 (some 1) rows ≡ row 4 1 user none ∷ []
unfolding load_history history_rows filter_dead_run_messages keeps
last_turn = refl

other_session : load_history sort_rows one_cancelled 2 none rows ≡ row 3 2 agent none ∷ []
unfolding load_history history_rows filter_dead_run_messages keeps
other_session = refl

-- Two rows of the agent give two answers in a row.
two_answers :
    db_messages_to_lc (row 1 1 agent none ∷ row 2 1 agent none ∷ []) ≡ ai "hi" ∷ ai "hi" ∷ []
unfolding db_messages_to_lc add_messages add_message
two_answers = refl

joins_example :
    NoDoubleHuman (db_messages_to_lc rows)
    × (shown_as_user (db_messages_to_lc rows) ≡ said_by_user rows)
joins_example = db_messages_to_lc-joins rows

IsSaid-example :
    All
      (IsSaidIn one_cancelled 1 rows)
      (db_messages_to_lc (load_history sort_rows one_cancelled 1 (some 5) rows))
IsSaid-example =
    load_history-IsSaid sort_rows sort_rows-AddsNone 1 rows (refl, (refl, (refl, (refl, tt))))
      one_cancelled (some 5)
