-- ===== src/BuilderJson/Extracted.antt =====
-- Which object is cut out of a text.
use self_managed_agents.Base.{
  nat_eq, ℕ, suc, ◌≡◌, refl, ap, ◌∙◌, true, false, List, [], ◌∷◌, ◌++◌, ◌==◌, arith, any,
}
use self_managed_agents.Base.Outcome.{ok}
use self_managed_agents.BuilderJson.{
  Text, Scan, step, scan, from_brace, at_start, extract_object, strip_json_wrapper,
  extract_balanced_json_object,
}
use self_managed_agents.BuilderJson.Nested.{
  Part, plain, escape, Nested, stop, other, string, braces, brackets, parts_text, text_of, ArePart,
  IsNested,
}

abbrev out : ℕ → Scan
out d = record { depth = d; in_string = false; escaped = false }

abbrev inside : ℕ → Scan
inside d = record { depth = d; in_string = true; escaped = false }

-- A string is passed over.
scan-parts :
    (d : ℕ) (ps : List Part) (t : Text)
    → ArePart ps
    → scan (inside d) (parts_text ps (b'"' ∷ t)) ≡ parts_text ps (b'"' ∷ scan (out d) t)
unfolding scan step
scan-parts d [] t h = refl
scan-parts d (plain c ∷ ps) t (p, h) = ground (arith, scan-parts d ps t h)
scan-parts d (escape c ∷ ps) t (p, h) = ap (λ l. b'\\' ∷ (c ∷ l)) (scan-parts d ps t h)

-- A brace that is not the last one.
scan-closing :
    (d : ℕ) (t : Text) → scan (out (suc (suc d))) (b'}' ∷ t) ≡ b'}' ∷ scan (out (suc d)) t
unfolding scan step
scan-closing d t = ground arith

-- Inside an object a nested text is passed over.
scan-nested :
    (d : ℕ) (n : Nested) (t : Text)
    → IsNested n
    → scan (out (suc d)) (text_of n t) ≡ text_of n (scan (out (suc d)) t)
unfolding scan step
scan-nested d stop t h = refl
scan-nested d (other c n) t (p, h) = ground (arith, scan-nested d n t h)
scan-nested d (string ps n) t (p, h) =
    ap (λ l. b'"' ∷ l)
      (scan-parts (suc d) ps (text_of n t) p
        ∙ ap (λ l. parts_text ps (b'"' ∷ l)) (scan-nested d n t h))
scan-nested d (braces inner n) t (p, h) =
    ap (λ l. b'{' ∷ l)
      (scan-nested (suc d) inner (b'}' ∷ text_of n t) p
        ∙ ap (λ l. text_of inner l)
            (scan-closing d (text_of n t) ∙ ap (λ l. b'}' ∷ l) (scan-nested d n t h)))
scan-nested d (brackets inner n) t (p, h) =
    ap (λ l. b'[' ∷ l)
      (scan-nested d inner (b']' ∷ text_of n t) p
        ∙ ap (λ l. text_of inner (b']' ∷ l)) (scan-nested d n t h))

from_brace-append :
    (pre t : Text) → any (λ c. c == b'{') pre ≡ false → from_brace (pre ++ b'{' ∷ t) ≡ b'{' ∷ t
unfolding from_brace
from_brace-append [] t h = refl
from_brace-append (c ∷ pre) t h = ground (arith, from_brace-append pre t)

opened : (t : Text) → scan at_start (b'{' ∷ t) ≡ b'{' ∷ scan (out 1) t
unfolding scan step
opened t = refl

last_brace : (t : Text) → scan (out 1) (b'}' ∷ t) ≡ b'}' ∷ []
unfolding scan step
last_brace t = refl

nothing_left : scan (out 1) [] ≡ []
unfolding scan
nothing_left = refl

extract_object-nested :
    (pre post : Text) (n : Nested)
    → any (λ c. c == b'{') pre ≡ false
    → IsNested n
    → (extract_object (pre ++ text_of (braces n stop) post) ≡ ok (text_of (braces n stop) []))
      × (extract_object (pre ++ b'{' ∷ text_of n []) ≡ ok (b'{' ∷ text_of n []))
unfolding extract_object
extract_object-nested pre post n none_before nested = (
  rw (extract_object, from_brace-append pre (text_of n (b'}' ∷ post)) none_before)
      (ap (λ l. ok l)
        (opened (text_of n (b'}' ∷ post))
          ∙ ap (λ l. b'{' ∷ l) (scan-nested 0 n (b'}' ∷ post) nested)
          ∙ ap (λ l. b'{' ∷ text_of n l) (last_brace post))),
  rw (extract_object, from_brace-append pre (text_of n []) none_before)
      (ap (λ l. ok l)
        (opened (text_of n [])
          ∙ ap (λ l. b'{' ∷ l) (scan-nested 0 n [] nested)
          ∙ ap (λ l. b'{' ∷ text_of n l) nothing_left)),
)

-- Of two unwrapped texts in which no brace stands before an object: one in which its strings end and
-- its brackets pair up is cut out as it stands, whatever follows it; and of one that breaks off where
-- nothing else is open, all there is.
pub extract_balanced_json_object-nested :
    (whole cut pre post : Text) (n : Nested)
    → any (λ c. c == b'{') pre ≡ false
    → IsNested n
    → strip_json_wrapper whole ≡ pre ++ text_of (braces n stop) post
    → strip_json_wrapper cut ≡ pre ++ b'{' ∷ text_of n []
    → (extract_balanced_json_object whole ≡ ok (text_of (braces n stop) []))
      × (extract_balanced_json_object cut ≡ ok (b'{' ∷ text_of n []))
unfolding extract_balanced_json_object
extract_balanced_json_object-nested whole cut pre post n none_before nested unwrapped broken =
    let (all, rest) = extract_object-nested pre post n none_before nested in
    (rw unwrapped all, rw broken rest)
