-- ===== src/Base/Text.antt =====
-- Python's `str` methods that the code calls, on native texts.
use Prim.Native.Nat.{ℕ, suc, ◌+◌, ◌-◌}
use mathlib.Core.List.{List, [], ◌∷◌}
use Prim.Native.Char.{Char, code}
use Prim.Native.String.{String, char_at}
use mathlib.Core.Bool.{Bool, true, false, ◌&&◌, ◌||◌}
use self_managed_agents.Base.Tests.{leb, ◌==◌, string_eq, nat_eq, if◌then◌else◌}

-- `str.isspace` of one character
unfoldable pub is_space : ℕ → Bool
is_space c =
    leb 9 c && leb c 13
    || leb 28 c && leb c 32
    || c == 133
    || c == 160
    || c == 5760
    || leb 8192 c && leb c 8202
    || c == 8232
    || c == 8233
    || c == 8239
    || c == 8287
    || c == 12288

unfoldable pub drop_while : (ℕ → Bool) → String → String
drop_while p String.[] = ""
drop_while p (String.◌∷◌ c s) = if p (code c) then drop_while p s else String.◌∷◌ c s

unfoldable pub take_while : (ℕ → Bool) → String → String
take_while p String.[] = ""
take_while p (String.◌∷◌ c s) = if p (code c) then String.◌∷◌ c (take_while p s) else ""

unfoldable pub rstrip : String → String
unfolding is_space
rstrip String.[] = ""
rstrip (String.◌∷◌ c s) =
    let rest = rstrip s in if rest == "" && is_space (code c) then "" else String.◌∷◌ c rest

-- `s.strip()`
unfoldable pub strip : String → String
unfolding rstrip drop_while is_space
strip s = rstrip (drop_while is_space s)

-- `s.replace(c, "")` of a one-character text
unfoldable pub without_char : ℕ → String → String
without_char k String.[] = ""
without_char k (String.◌∷◌ c s) =
    let rest = without_char k s in if code c == k then rest else String.◌∷◌ c rest

unfoldable pub all_chars : (ℕ → Bool) → String → Bool
all_chars p String.[] = true
all_chars p (String.◌∷◌ c s) = p (code c) && all_chars p s

-- the code points of a text
abbrev pub codes : String → List ℕ
codes String.[] = []
codes (String.◌∷◌ c s) = code c ∷ codes s

-- `s.lower()` and `s.upper()`, on ASCII letters
unfoldable pub to_lower : ℕ → ℕ
to_lower c = if leb b'A' c && leb c b'Z' then c + 32 else c

unfoldable pub to_upper : ℕ → ℕ
to_upper c = if leb b'a' c && leb c b'z' then c - 32 else c

-- `t.startswith(s)` and `s in t`
unfoldable pub is_prefix : List ℕ → List ℕ → Bool
is_prefix [] t = true
is_prefix (a ∷ s) [] = false
is_prefix (a ∷ s) (b ∷ t) = a == b && is_prefix s t

unfoldable pub is_infix : List ℕ → List ℕ → Bool
unfolding is_prefix
is_infix s [] = is_prefix s []
is_infix s (b ∷ t) = is_prefix s (b ∷ t) || is_infix s t

-- `c.isdigit()`, on ASCII
unfoldable pub is_digit : ℕ → Bool
is_digit c = leb b'0' c && leb c b'9'

-- `s[:n]`
unfoldable pub take_text : ℕ → String → String
take_text n String.[] = ""
take_text n (String.◌∷◌ c s) =
    let rest = take_text (n - 1) s in if n == 0 then "" else String.◌∷◌ c rest

-- `s[n:]`
unfoldable pub drop_text : ℕ → String → String
drop_text n String.[] = ""
drop_text n (String.◌∷◌ c s) =
    let rest = drop_text (n - 1) s in if n == 0 then String.◌∷◌ c s else rest

abbrev upper_char : Char → Char
upper_char c =
    if leb b'a' (code c) && leb (code c) b'z'
    then char_at "ABCDEFGHIJKLMNOPQRSTUVWXYZ" (code c - b'a')
    else c

abbrev lower_char : Char → Char
lower_char c =
    if leb b'A' (code c) && leb (code c) b'Z'
    then char_at "abcdefghijklmnopqrstuvwxyz" (code c - b'A')
    else c

-- `s.upper()` and `s.lower()` as texts
unfoldable pub upper : String → String
upper String.[] = ""
upper (String.◌∷◌ c s) = String.◌∷◌ (upper_char c) (upper s)

unfoldable pub lower : String → String
lower String.[] = ""
lower (String.◌∷◌ c s) = String.◌∷◌ (lower_char c) (lower s)

-- the characters that pass a test
unfoldable pub keep_chars : (ℕ → Bool) → String → String
keep_chars p String.[] = ""
keep_chars p (String.◌∷◌ c s) =
    let rest = keep_chars p s in if p (code c) then String.◌∷◌ c rest else rest

-- `len(s)`
abbrev pub len_text : String → ℕ
len_text String.[] = 0
len_text (String.◌∷◌ c s) = suc (len_text s)
