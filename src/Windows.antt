-- ===== src/Windows.antt =====
-- app/core/engine/wa_outbound_guard.py and the windows of app/api/wa_helpers.py: how often a sender
-- wrote, or was written to, of late, and which messages were seen. These are the tables in memory, used
-- where Redis is missing or fails; what Redis answers is an argument, `none` where it gave nothing.
-- A time is a number of seconds.
pub mod Pruned
pub mod Dedup
pub mod Exact
pub mod Fits
mod Tests
use Prim.Native.String.{◌++◌ as join_text}
use self_managed_agents.Base.{
  string_eq, nat_eq, ℕ, ◌+◌, ◌-◌, ◌*◌, String, Bool, true, false, not, ◌||◌, Option, none, some,
  List, [], ◌∷◌, ◌++◌, ◌==◌, ltb, leb, if◌then◌else◌, where_, length, or_empty, or_text,
}
use self_managed_agents.Base.Dict.{lookup, insert, remove}
use self_managed_agents.Base.Text.{strip, codes, is_prefix, take_while, lower}
use self_managed_agents.Phone.{normalize_phone}

-- `_mem_spam_windows` and `_mem_outbound_windows`
abbrev pub Windows : Type 0
Windows = List (String × List ℕ)

abbrev pub or_nil : Option (List ℕ) → List ℕ
or_nil none = []
or_nil (some ts) = ts

abbrev pub last_or : ℕ → List ℕ → ℕ
last_or d [] = d
last_or d (t ∷ ts) = last_or t ts

-- `not values or now - values[-1] > window_seconds * 2`
abbrev pub is_stale : ℕ → ℕ → List ℕ → Bool
is_stale window now [] = true
is_stale window now (t ∷ ts) = ltb (window * 2) (now - last_or t ts)

-- the keys of the items that pass a test
abbrev pub keys_where : {V : Type 0} → (V → Bool) → List (String × V) → List String
keys_where p [] = []
keys_where p ((k, v) ∷ d) = let rest = keys_where p d in if p v then k ∷ rest else rest

abbrev pub pop_all : {V : Type 0} → List String → List (String × V) → List (String × V)
pop_all [] d = d
pop_all (k ∷ ks) d = pop_all ks (remove k d)

-- the times of a key with the new one, and the table after it
unfoldable pub slide : String → ℕ → ℕ → Windows → List ℕ × Windows
slide key window now windows =
    let kept = where_ (λ t. leb (now - t) window) (or_nil (lookup key windows)) in
    let timestamps = kept ++ now ∷ [] in
    let written = insert key timestamps windows in
    (
      timestamps,
      if ltb 5000 (length written)
          then pop_all (keys_where (is_stale window now) written) written
          else written,
    )

-- `key` of the spam window; the ids are texts
unfoldable pub spam_key : String → String → String → String
unfolding normalize_phone
spam_key agent_id session_id sender_id =
    join_text "wa_spam:"
      (join_text agent_id (join_text ":" (or_text (normalize_phone sender_id) session_id)))

-- `check_wa_spam_window`; the first argument is what Redis counted
unfoldable pub check_wa_spam_window :
    Option ℕ → String → String → String → ℕ → ℕ → ℕ → Windows → (Bool × ℕ) × Windows
unfolding slide spam_key
check_wa_spam_window (some count) agent_id session_id sender_id limit window now windows =
    ((ltb limit count, count), windows)
check_wa_spam_window none agent_id session_id sender_id limit window now windows =
    let (timestamps, after) = slide (spam_key agent_id session_id sender_id) window now windows in
    ((ltb limit (length timestamps), length timestamps), after)

-- `reset_wa_spam_window`
unfoldable pub reset_wa_spam_window : String → String → String → Windows → Windows
unfolding spam_key
reset_wa_spam_window agent_id session_id sender_id windows =
    remove (spam_key agent_id session_id sender_id) windows

-- `normalize_wa_outbound_target`
unfoldable pub normalize_wa_outbound_target : Option String → String
unfolding strip take_while normalize_phone lower
normalize_wa_outbound_target value =
    let raw = strip (or_empty value) in
    if raw == ""
    then ""
    else let user = take_while (λ c. not (c == b'@')) raw in
      or_text (normalize_phone user) (lower user)

-- `normalize_wa_outbound_source`
unfoldable pub normalize_wa_outbound_source : Option String → String
unfolding strip lower is_prefix
normalize_wa_outbound_source device_id =
    let raw = lower (strip (or_empty device_id)) in
    if raw == ""
    then "unknown"
    else if raw == "wa-dev-service" || is_prefix (codes "wadev_") (codes raw)
    then "wadev_shared"
    else raw

unfoldable pub outbound_key : Option String → String → String
unfolding normalize_wa_outbound_source
outbound_key device_id target_key =
    join_text "wa_outbound_direct:"
      (join_text (normalize_wa_outbound_source device_id) (join_text ":" target_key))

-- `check_wa_outbound_direct_window`
unfoldable pub check_wa_outbound_direct_window :
    Option ℕ → Option String → Option String → ℕ → ℕ → ℕ → Windows → (Bool × ℕ) × Windows
unfolding slide outbound_key normalize_wa_outbound_target
check_wa_outbound_direct_window redis device_id target limit window now windows =
    let target_key = normalize_wa_outbound_target target in
    let (timestamps, after) = slide (outbound_key device_id target_key) window now windows in
    if target_key == "" then ((true, 0), windows) else elim redis [
      | some count ↦ ((leb count limit, count), windows)
      | none ↦ ((leb (length timestamps) limit, length timestamps), after)
    ]

-- `_mem_dedup_cache`
abbrev pub Seen : Type 0
Seen = List (String × ℕ)

module _ (show_timestamp : Option ℕ → String) where
  unfoldable pub dedup_key : String → String → Option ℕ → Option String → String
  unfolding strip
  dedup_key device_id from_phone timestamp message_id =
      let clean = strip (or_empty message_id) in
      let device = join_text device_id (join_text ":" (join_text from_phone ":")) in
      if clean == ""
      then join_text "wa_dedup_ts:" (join_text device (show_timestamp timestamp))
      else join_text "wa_dedup_msg:" (join_text device clean)

-- what was seen more than 300 seconds ago is popped from a table that has grown too large
unfoldable pub prune_seen : ℕ → Seen → Seen
prune_seen now cache =
    if ltb 5000 (length cache)
    then pop_all (keys_where (λ v. ltb 300 (now - v)) cache) cache
    else cache

-- the table's part of `is_duplicate_message`
unfoldable pub see : String → ℕ → Seen → Bool × Seen
unfolding prune_seen
see key now cache =
    let pruned = prune_seen now cache in
    elim (lookup key pruned) [ some t ↦ (true, pruned) | none ↦ (false, insert key now pruned) ]

-- `is_duplicate_message`; the first argument is whether Redis set the key
unfoldable pub is_duplicate_message :
    (show_timestamp : Option ℕ → String)
    → Option Bool
    → String
    → String
    → Option ℕ
    → Option String
    → ℕ
    → Seen
    → Bool × Seen
unfolding see dedup_key
is_duplicate_message show_timestamp (some is_new) device_id from_phone timestamp message_id now
      cache =
    (not is_new, cache)
is_duplicate_message show_timestamp none device_id from_phone timestamp message_id now cache =
    see (dedup_key show_timestamp device_id from_phone timestamp message_id) now cache
