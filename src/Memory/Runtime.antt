-- ===== src/Memory/Runtime.antt =====
-- record_runtime_memory of app/core/domain/memory_service.py: what a finished run leaves in the memory
-- of its agent. The texts it records are arguments as _compact_memory_text has cut them down, `fresh`
-- draws the ids of new rows, and `today` is the date. An error stops the recording where it is.
use Prim.Native.Char.{Char, code}
use Prim.Native.String.{String}
use Prim.Native.String.{◌++◌ as join_text}
use self_managed_agents.Base.{
  nat_eq, string_eq, ℕ, ◌-◌, Bool, false, ◌&&◌, ◌||◌, Option, none, some, List, [], ◌∷◌, ◌++◌, ◌==◌,
  leb, if◌then◌else◌, take_last, or_empty, or_text,
}
use self_managed_agents.Base.Outcome.{ok, err}
use self_managed_agents.Base.Text.{
  strip, rstrip, drop_while, drop_text, len_text, is_space, is_prefix, codes,
}
use self_managed_agents.Memory.{Memory, upsert_memory, get_memory}

-- where `str.splitlines` ends a line
abbrev is_break : ℕ → Bool
is_break c = leb 10 c && leb c 13 || leb 28 c && leb c 30 || c == 133 || c == 8232 || c == 8233

abbrev starts_with_newline : String → Bool
starts_with_newline String.[] = false
starts_with_newline (String.◌∷◌ c s) = code c == 10

abbrev add_char : Char → List String → List String
add_char c [] = String.◌∷◌ c "" ∷ []
add_char c (line ∷ lines) = String.◌∷◌ c line ∷ lines

-- a line feed after a carriage return belongs to the same end
unfoldable pub splitlines : String → List String
splitlines String.[] = []
splitlines (String.◌∷◌ c s) =
    let rest = splitlines s in
    if code c == 13 && starts_with_newline s
    then rest
    else if is_break (code c)
    then "" ∷ rest
    else add_char c rest

-- `[item.rstrip() for item in lines if item.strip()]`
unfoldable pub clean_lines : List String → List String
unfolding strip rstrip
clean_lines [] = []
clean_lines (item ∷ items) =
    let rest = clean_lines items in if strip item == "" then rest else rstrip item ∷ rest

abbrev is_last : String → List String → Bool
is_last line [] = false
is_last line (l ∷ []) = l == line
is_last line (l ∷ ls) = is_last line ls

unfoldable pub join_lines : List String → String
join_lines [] = ""
join_lines (l ∷ []) = l
join_lines (l ∷ ls) = join_text l (join_text "\n" (join_lines ls))

-- `_append_memory_line`
unfoldable pub append_memory_line : Option String → String → ℕ → ℕ → String
unfolding strip clean_lines splitlines join_lines drop_while is_space
append_memory_line existing line max_lines max_chars =
    let clean = strip line in
    let old = clean_lines (splitlines (or_empty existing)) in
    let lines = if clean == "" || is_last clean old then old else old ++ clean ∷ [] in
    let joined = join_lines (take_last max_lines lines) in
    if leb (len_text joined) max_chars
    then joined
    else drop_while is_space (drop_text (len_text joined - max_chars) joined)

-- what was said in the run, after `_compact_memory_text`
pub record Turn : Type 0 where
  pub user_message : String
  pub user_summary : String
  pub reply_summary : String
  pub attachment : String
  pub artifact : String

-- a part that is there if its text is not empty
abbrev optional : String → String → List String
optional label part = if part == "" then [] else join_text label part ∷ []

unfoldable pub join_parts : List String → String
join_parts [] = ""
join_parts (p ∷ []) = p
join_parts (p ∷ ps) = join_text p (join_text " | " (join_parts ps))

abbrev or_nothing : String → String
or_nothing s = or_text s "(kosong)"

unfoldable pub daily_line : String → Turn → String
unfolding join_parts
daily_line today turn = join_parts (
    join_text "- " (join_text today (join_text ": User: " (or_nothing turn.user_summary)))
    ∷ (optional "Lampiran terbaru: " turn.attachment
        ++ (optional "Artifact: " turn.artifact ++ optional "Agent: " turn.reply_summary)))

unfoldable pub active_context : String → Turn → String
unfolding join_lines
active_context today turn = join_lines (
    join_text "Tanggal: " today
    ∷ (join_text "Pesan terbaru user: " (or_nothing turn.user_summary)
        ∷ (optional "Lampiran terbaru: " turn.attachment
            ++ (optional "Artifact terakhir: " turn.artifact
                ++ (optional "Jawaban final agent: " turn.reply_summary
                    ++ "Prioritas: konteks runtime ini adalah konteks terbaru dan mengalahkan history, daily, atau longterm lama jika bertentangan."
                      ∷ [])))))

unfoldable pub last_turn : Turn → String
last_turn turn = join_text "User: " (
    join_text (or_nothing turn.user_summary)
      (join_text "\nAgent: " (or_nothing turn.reply_summary)))

unfoldable pub longterm_line : String → Turn → String
unfolding join_parts
longterm_line today turn = join_parts (
    join_text "- "
      (join_text today (join_text ": Latest completed user turn: " (or_nothing turn.user_summary)))
    ∷ (optional "latest attachment=" turn.attachment
        ++ (optional "latest artifact=" turn.artifact ++ optional "result=" turn.reply_summary)))

abbrev pub value_of : Option Memory → Option String
value_of none = none
value_of (some m) = some m.value_data

unfoldable pub is_heartbeat : Turn → Bool
unfolding is_prefix drop_while is_space
is_heartbeat turn = is_prefix (codes "[HEARTBEAT]") (codes (drop_while is_space turn.user_message))

module _ (fresh : ℕ → ℕ) (agent_id : ℕ) (scope : Option String) where
  -- one write of the recording, and what follows it
  abbrev pub write : ℕ → String → String → (List Memory → List Memory) → List Memory → List Memory
  write draw key value next table =
      elim (upsert_memory (fresh draw) agent_id key value scope table) [
        | ok (m, after) ↦ next after
        | err e ↦ table
      ]

  -- a text that is recorded unless it is empty
  abbrev pub write_text :
      ℕ → String → String → (List Memory → List Memory) → List Memory → List Memory
  write_text draw key value next table =
      if value == "" then next table else write draw key value next table

  abbrev pub recorded : String → List Memory → Option String
  recorded key table = value_of (get_memory agent_id key scope table)

  -- the writes of the try block, in their order
  unfoldable pub record_turn : String → Turn → List Memory → List Memory
  unfolding append_memory_line daily_line active_context last_turn longterm_line
  record_turn today turn table =
      write 0 (join_text "daily:" today)
        (append_memory_line (recorded (join_text "daily:" today) table) (daily_line today turn) 120
          9000)
        (write 1 "active_context" (active_context today turn) (
          write 2 "last_turn" (last_turn turn) (
            write_text 3 "last_attachment" turn.attachment (
              write_text 4 "last_generated_artifact" turn.artifact (λ after.
                write 5 "longterm"
                  (append_memory_line (recorded "longterm" after) (longterm_line today turn) 80
                    8000)
                  (λ final. final) after)))))
        table

  -- `record_runtime_memory`
  unfoldable pub record_runtime_memory : String → Turn → List Memory → List Memory
  unfolding record_turn
  record_runtime_memory today turn table =
      if is_heartbeat turn then table else record_turn today turn table
