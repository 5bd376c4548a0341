-- ===== src/BuilderJson/Nested.antt =====
-- Texts in which strings end and brackets outside of them pair up, as a grammar of their own: every
-- JSON value is such a text.
use self_managed_agents.Base.{nat_eq, ℕ, ◌≡◌, Bool, true, not, ◌&&◌, List, [], ◌∷◌, ◌==◌}
use self_managed_agents.BuilderJson.{Text}

-- what stands between the quotes of a string: a character, or one after a backslash
pub data Part : Type 0 where
  plain escape : ℕ → Part

pub data Nested : Type 0 where
  stop : Nested
  other : ℕ → Nested → Nested
  string : List Part → Nested → Nested
  braces brackets : Nested → Nested → Nested

abbrev pub part_text : Part → Text → Text
part_text (plain c) t = c ∷ t
part_text (escape c) t = b'\\' ∷ (c ∷ t)

-- the text of the parts, with `t` after it
abbrev pub parts_text : List Part → Text → Text
parts_text [] t = t
parts_text (p ∷ ps) t = part_text p (parts_text ps t)

-- the text of a nested text, with `t` after it
abbrev pub text_of : Nested → Text → Text
text_of stop t = t
text_of (other c n) t = c ∷ text_of n t
text_of (string ps n) t = b'"' ∷ parts_text ps (b'"' ∷ text_of n t)
text_of (braces inner n) t = b'{' ∷ text_of inner (b'}' ∷ text_of n t)
text_of (brackets inner n) t = b'[' ∷ text_of inner (b']' ∷ text_of n t)

abbrev pub is_other : ℕ → Bool
is_other c =
    not (c == b'"') && not (c == b'{') && not (c == b'}') && not (c == b'[') && not (c == b']')

abbrev pub IsPart : Part → Type 0
IsPart (plain c) = (not (c == b'"') && not (c == b'\\')) ≡ true
IsPart (escape c) = Unit

abbrev pub ArePart : List Part → Type 0
ArePart [] = Unit
ArePart (p ∷ ps) = IsPart p × ArePart ps

-- Quotes and brackets stand only where the grammar puts them.
abbrev pub IsNested : Nested → Type 0
IsNested stop = Unit
IsNested (other c n) = (is_other c ≡ true) × IsNested n
IsNested (string ps n) = ArePart ps × IsNested n
IsNested (braces inner n) = IsNested inner × IsNested n
IsNested (brackets inner n) = IsNested inner × IsNested n
