-- ===== src/BuilderJson.antt =====
-- app/core/tools/builder_json.py: how a JSON object is cut out of what a model wrote, and how one that
-- breaks off is completed. A text is the list of its code points.
pub mod Nested
pub mod Extracted
pub mod Completed
mod Tests
use self_managed_agents.Base.{
  nat_eq, ℕ, zero, suc, ◌+◌, ◌-◌, Bool, true, false, not, ◌&&◌, ◌||◌, Option, none, some, List, [],
  ◌∷◌, ◌++◌, ◌==◌, leb, if◌then◌else◌, drop, any,
}
use self_managed_agents.Base.Outcome.{Outcome, ok, err, value_error}
use self_managed_agents.Base.Text.{codes, is_prefix, is_space, to_lower}

abbrev pub Text : Type 0
Text = List ℕ

-- `s.lstrip()` and `s.rstrip()`
unfoldable pub lstrip : Text → Text
unfolding is_space
lstrip [] = []
lstrip (c ∷ cs) = let rest = lstrip cs in if is_space c then rest else c ∷ cs

abbrev pub is_nil : Text → Bool
is_nil [] = true
is_nil _ = false

unfoldable pub rstrip : Text → Text
unfolding is_space
rstrip [] = []
rstrip (c ∷ cs) = let rest = rstrip cs in if is_nil rest && is_space c then [] else c ∷ rest

-- how many characters there are up to the end of the first `mark`
unfoldable pub end_of : Text → Text → Option ℕ
unfolding is_prefix
end_of mark [] = none
end_of mark (c ∷ cs) =
    let later = end_of mark cs in
    if is_prefix mark (c ∷ cs)
    then some (length_of mark)
    else elim later [ none ↦ none | some n ↦ some (suc n) ]
  where
    length_of : Text → ℕ
    length_of [] = 0
    length_of (m ∷ ms) = suc (length_of ms)

-- the length of a match of `<think>.*?</think>` at the start
unfoldable pub think_match : Text → Option ℕ
unfolding end_of is_prefix
think_match t =
    if is_prefix (codes "<think>") t
    then elim (end_of (codes "</think>") (drop 7 t)) [ none ↦ none | some n ↦ some (7 + n) ]
    else none

-- `re.sub` of all matches by nothing; `skip` counts what is left of the last match
unfoldable pub remove_think : ℕ → Text → Text
unfolding think_match
remove_think skip [] = []
remove_think (suc skip) (c ∷ cs) = remove_think skip cs
remove_think zero (c ∷ cs) = elim (think_match (c ∷ cs)) [
  | none ↦ c ∷ remove_think zero cs
  | some n ↦ remove_think (n - 1) cs
]

-- the letters of "json" whatever their case, where ſ counts as an s
abbrev is_letter : ℕ → ℕ → Bool
is_letter a c = to_lower c == a || a == b's' && c == 383

unfoldable pub skip_word : Text → Text → Option Text
unfolding to_lower
skip_word [] t = some t
skip_word (a ∷ word) [] = none
skip_word (a ∷ word) (c ∷ cs) = if is_letter a c then skip_word word cs else none

-- the text before the first `mark`, where there is one
unfoldable pub before : Text → Text → Option Text
unfolding is_prefix
before mark [] = none
before mark (c ∷ cs) =
    let later = before mark cs in
    if is_prefix mark (c ∷ cs) then some [] else elim later [ none ↦ none | some t ↦ some (c ∷ t) ]

abbrev pub fence : Text
fence = codes "```"

abbrev or_itself : Option Text → Text → Text
or_itself none t = t
or_itself (some rest) t = rest

-- the group of "```(?:json)?\s*(.*?)```"; only the first fence can match, as a later one would need a
-- fence after it too
unfoldable pub fenced : Text → Option Text
unfolding before skip_word end_of lstrip
fenced t = elim (end_of fence t) [
  | none ↦ none
  | some n ↦
      let inner = drop n t in
      before fence (lstrip (or_itself (skip_word (codes "json") inner) inner))
]

-- `strip_json_wrapper`
unfoldable pub strip_json_wrapper : Text → Text
unfolding remove_think fenced lstrip rstrip
strip_json_wrapper raw =
    let t = rstrip (lstrip (remove_think 0 raw)) in
    elim (fenced t) [ none ↦ t | some group ↦ rstrip (lstrip group) ]

-- the local variables of the scan for the end of an object
pub record Scan : Type 0 where
  pub depth : ℕ
  pub in_string : Bool
  pub escaped : Bool

abbrev pub dec : ℕ → ℕ
dec zero = zero
dec (suc n) = n

abbrev in_text : Scan → ℕ → Scan
in_text s char =
    if s.escaped
    then record s { escaped = false }
    else if char == b'\\'
    then record s { escaped = true }
    else if char == b'"'
    then record s { in_string = false }
    else s

abbrev outside : Scan → ℕ → Scan
outside s char =
    if char == b'"'
    then record s { in_string = true }
    else if char == b'{'
    then record s { depth = suc s.depth }
    else if char == b'}'
    then record s { depth = dec s.depth }
    else s

unfoldable pub step : Scan → ℕ → Scan
step s char = if s.in_string then in_text s char else outside s char

-- the brace after which the loop returns
abbrev pub closes : Scan → ℕ → Bool
closes s char = not s.in_string && char == b'}' && s.depth == 1

unfoldable pub scan : Scan → Text → Text
unfolding step
scan s [] = []
scan s (char ∷ cs) = let rest = scan (step s char) cs in char ∷ (if closes s char then [] else rest)

-- `text[text.find("{"):]`
unfoldable pub from_brace : Text → Text
from_brace [] = []
from_brace (c ∷ cs) = let rest = from_brace cs in if c == b'{' then c ∷ cs else rest

abbrev pub at_start : Scan
at_start = record { depth = 0; in_string = false; escaped = false }

-- the loop of `extract_balanced_json_object`, of the text without its wrapper
unfoldable pub extract_object : Text → Outcome Text
unfolding from_brace scan
extract_object t = elim (from_brace t) [
  | [] ↦ err value_error
  | c ∷ cs ↦ ok (scan at_start (c ∷ cs))
]

unfoldable pub extract_balanced_json_object : Text → Outcome Text
unfolding strip_json_wrapper extract_object
extract_balanced_json_object raw = extract_object (strip_json_wrapper raw)

-- What is awaited in an object that is open.
pub data ObjState : Type 0 where
  key afterkey colon value : ObjState

pub data Opener : Type 0 where
  brace bracket : Opener

-- the local variables of `complete_truncated_json`; the last entry of a list comes first
pub record Completion : Type 0 where
  pub stack : List Opener
  pub obj_state : List ObjState
  pub in_string : Bool
  pub escaped : Bool

-- `stack and stack[-1] == "{"`
abbrev pub in_object : List Opener → Bool
in_object (brace ∷ rest) = true
in_object _ = false

abbrev pub is_key : List ObjState → Bool
is_key (key ∷ rest) = true
is_key _ = false

abbrev pub is_afterkey : List ObjState → Bool
is_afterkey (afterkey ∷ rest) = true
is_afterkey _ = false

-- `obj_state[-1] = state`
abbrev pub set_last : ObjState → List ObjState → List ObjState
set_last state [] = []
set_last state (old ∷ rest) = state ∷ rest

abbrev value_seen : List ObjState → List ObjState
value_seen (colon ∷ rest) = value ∷ rest
value_seen states = states

-- `_saw_value`
abbrev pub saw_value : Completion → Completion
saw_value s = if in_object s.stack then record s { obj_state = value_seen s.obj_state } else s

-- an entry of a string that has ended: a key of an object that awaits one, and else a value
abbrev pub string_ended : Completion → Completion
string_ended s =
    if in_object s.stack && is_key s.obj_state
    then record s { obj_state = set_last afterkey s.obj_state }
    else saw_value s

abbrev pub pop_state : List ObjState → List ObjState
pop_state [] = []
pop_state (state ∷ rest) = rest

-- a closing bracket of either kind closes the last one that is open
abbrev pub close_last : Completion → Completion
close_last s = elim s.stack [
  | [] ↦ s
  | brace ∷ rest ↦ saw_value (record s { stack = rest; obj_state = pop_state s.obj_state })
  | bracket ∷ rest ↦ saw_value (record s { stack = rest })
]

abbrev pub is_json_space : ℕ → Bool
is_json_space c = c == b' ' || c == 9 || c == 13 || c == 10

abbrev inside_string : Completion → ℕ → Completion
inside_string s char =
    if s.escaped
    then record s { escaped = false }
    else if char == b'\\'
    then record s { escaped = true }
    else if char == b'"'
    then string_ended (record s { in_string = false })
    else s

abbrev pub open_brace : Completion → Completion
open_brace s = record s { stack = brace ∷ s.stack; obj_state = key ∷ s.obj_state }

abbrev pub open_bracket : Completion → Completion
open_bracket s = record s { stack = bracket ∷ s.stack }

abbrev pub outside_string : Completion → ℕ → Completion
outside_string s char =
    if char == b'"'
    then record s { in_string = true }
    else if char == b'{'
    then open_brace (saw_value s)
    else if char == b'['
    then open_bracket (saw_value s)
    else if char == b'}' || char == b']'
    then close_last s
    else if char == b':'
    then if in_object s.stack && is_afterkey s.obj_state
      then record s { obj_state = set_last colon s.obj_state }
      else s
    else if char == b','
    then if in_object s.stack then record s { obj_state = set_last key s.obj_state } else s
    else if is_json_space char
    then s
    else saw_value s

unfoldable pub complete_step : Completion → ℕ → Completion
complete_step s char = if s.in_string then inside_string s char else outside_string s char

unfoldable pub complete_scan : Completion → Text → Completion
complete_scan s [] = s
complete_scan s (char ∷ cs) = complete_scan (complete_step s char) cs

abbrev pub nothing_open : Completion
nothing_open = record { stack = []; obj_state = []; in_string = false; escaped = false }

-- `[\w.]`, of \w the ASCII characters
abbrev pub is_word_or_dot : ℕ → Bool
is_word_or_dot c =
    leb b'a' c && leb c b'z'
    || leb b'A' c && leb c b'Z'
    || leb b'0' c && leb c b'9'
    || c == b'_'
    || c == b'.'

-- a literal that breaks off after at least one letter
abbrev pub is_cut : Text → Text → Bool
is_cut t full = not (is_nil t) && is_prefix t full && not (is_prefix full t)

unfoldable pub literal_of : Text → Option Text
unfolding is_prefix
literal_of t =
    if is_cut t (codes "true")
    then some (codes "true")
    else if is_cut t (codes "false")
    then some (codes "false")
    else if is_cut t (codes "null")
    then some (codes "null")
    else none

-- the completion of a literal at the end, which no character of a word stands before
unfoldable pub complete_literal : Bool → Text → Text
unfolding literal_of
complete_literal after_word [] = []
complete_literal after_word (c ∷ cs) =
    let rest = c ∷ complete_literal (is_word_or_dot c) cs in
    if after_word then rest else elim (literal_of (c ∷ cs)) [ none ↦ rest | some full ↦ full ]

abbrev all_space : Text → Bool
all_space [] = true
all_space (c ∷ cs) = is_space c && all_space cs

-- `re.sub(r",\s*$", "", result)`
unfoldable pub drop_comma : Text → Text
unfolding is_space
drop_comma [] = []
drop_comma (c ∷ cs) = let rest = drop_comma cs in if c == b',' && all_space cs then [] else c ∷ rest

-- the rest of a string up to its quote, with nothing but blanks after it; no line ends after a backslash
abbrev string_to_end : Bool → Text → Bool
string_to_end escaping [] = false
string_to_end true (c ∷ cs) = not (c == 10) && string_to_end false cs
string_to_end false (c ∷ cs) =
    let inside = string_to_end (c == b'\\') cs in if c == b'"' then all_space cs else inside

abbrev key_to_end : Text → Bool
key_to_end [] = false
key_to_end (c ∷ cs) = c == b'"' && string_to_end false cs

-- `re.sub(r'\s*"(?:[^"\\]|\\.)*"\s*$', "", result)`
unfoldable pub drop_key : Text → Text
unfolding lstrip is_space
drop_key [] = []
drop_key (c ∷ cs) = let rest = drop_key cs in if key_to_end (lstrip (c ∷ cs)) then [] else c ∷ rest

-- `result.endswith(",")`
abbrev ends_with_comma : Text → Bool
ends_with_comma [] = false
ends_with_comma (c ∷ []) = c == b','
ends_with_comma (c ∷ cs) = ends_with_comma cs

abbrev without_dangling_key : Text → Text
without_dangling_key t = drop_comma (rstrip (drop_key t))

abbrev close_object : ObjState → Text → Text
close_object key t = if ends_with_comma t then drop_comma t else without_dangling_key t
close_object afterkey t = without_dangling_key t
close_object colon t = t ++ codes " null"
close_object value t = t

-- `obj_state.pop() if obj_state else "value"`
abbrev last_state : List ObjState → ObjState
last_state [] = value
last_state (state ∷ rest) = state

-- the loop over what is still open
unfoldable pub close_all : List Opener → List ObjState → Text → Text
unfolding drop_comma drop_key rstrip
close_all [] states t = t
close_all (bracket ∷ stack) states t = close_all stack states (drop_comma (rstrip t) ++ b']' ∷ [])
close_all (brace ∷ stack) states t =
    close_all stack (pop_state states) (close_object (last_state states) (rstrip t) ++ b'}' ∷ [])

-- an open string is closed
abbrev pub end_string : Completion → Completion
end_string s = if s.in_string then string_ended s else s

unfoldable pub complete_truncated_json : Text → Text
unfolding complete_scan close_all complete_literal rstrip
complete_truncated_json t =
    let s = complete_scan nothing_open t in
    let closed = if s.in_string then t ++ b'"' ∷ [] else t in
    let ended = end_string s in
    close_all ended.stack ended.obj_state (complete_literal false (rstrip closed))
