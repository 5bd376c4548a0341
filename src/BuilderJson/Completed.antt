-- ===== src/BuilderJson/Completed.antt =====
-- What the completion of a text leaves alone.
use self_managed_agents.Base.{
  nat_eq, ℕ, ◌≡◌, refl, sym, ap, subst, ◌∙◌, Bool, true, false, ◌&&◌, none, List, [], ◌∷◌, ◌++◌,
  ◌==◌, arith, Bool-cases, inl, inr, any,
}
use self_managed_agents.Base.Text.{codes, is_prefix, is_space}
use self_managed_agents.BuilderJson.{
  Text, Completion, Opener, brace, bracket, ObjState, nothing_open, complete_step, complete_scan,
  saw_value, string_ended, in_object, is_afterkey, set_last, is_json_space, open_brace,
  open_bracket, pop_state, complete_truncated_json, complete_literal, literal_of, is_word_or_dot,
  close_all, rstrip,
}
use self_managed_agents.BuilderJson.Nested.{
  Part, plain, escape, Nested, stop, other, string, braces, brackets, parts_text, text_of, is_other,
  ArePart, IsNested,
}

abbrev out : List Opener → List ObjState → Completion
out stack states = record { stack = stack; obj_state = states; in_string = false; escaped = false }

abbrev inside : List Opener → List ObjState → Completion
inside stack states = record {
  stack = stack;
  obj_state = states;
  in_string = true;
  escaped = false;
}

-- The scan of `t` from `s` comes to that of `u` with the same brackets open.
abbrev LeadsTo : List Opener → Completion → Text → Text → Type 0
LeadsTo stack s t u =
    (states : List ObjState) × (complete_scan s t ≡ complete_scan (out stack states) u)

saw_value-out :
    (stack : List Opener) (states : List ObjState)
    → (after : List ObjState) × (saw_value (out stack states) ≡ out stack after)
saw_value-out [] states = (states, refl)
saw_value-out (bracket ∷ stack) states = (states, refl)
saw_value-out (brace ∷ stack) states = (_, refl)

string_ended-out :
    (stack : List Opener) (states : List ObjState)
    → (after : List ObjState) × (string_ended (out stack states) ≡ out stack after)
string_ended-out [] states = (states, refl)
string_ended-out (bracket ∷ stack) states = (states, refl)
string_ended-out (brace ∷ stack) [] = (_, refl)
string_ended-out (brace ∷ stack) (ObjState.key ∷ states) = (_, refl)
string_ended-out (brace ∷ stack) (ObjState.afterkey ∷ states) = (_, refl)
string_ended-out (brace ∷ stack) (ObjState.colon ∷ states) = (_, refl)
string_ended-out (brace ∷ stack) (ObjState.value ∷ states) = (_, refl)

-- A character that opens and closes nothing.
other-out :
    (stack : List Opener) (states : List ObjState) (c : ℕ)
    → is_other c ≡ true
    → (after : List ObjState) × (complete_step (out stack states) c ≡ out stack after)
unfolding complete_step
other-out stack states c h = elim (Bool-cases (c == b':')) [
  | inl e ↦ elim (Bool-cases (in_object stack && is_afterkey states)) [
    | inl k ↦ (set_last ObjState.colon states, ground arith)
    | inr k ↦ (states, ground arith)
  ]
  | inr e ↦ elim (Bool-cases (c == b',')) [
    | inl f ↦ elim (Bool-cases (in_object stack)) [
      | inl k ↦ (set_last ObjState.key states, ground arith)
      | inr k ↦ (states, ground arith)
    ]
    | inr f ↦ elim (Bool-cases (is_json_space c)) [
      | inl g ↦ (states, ground arith)
      | inr g ↦ let (after, seen) = saw_value-out stack states in (after, ground (arith, seen))
    ]
  ]
]

scan-parts :
    (stack : List Opener) (states : List ObjState) (ps : List Part) (t : Text)
    → ArePart ps
    → LeadsTo stack (inside stack states) (parts_text ps (b'"' ∷ t)) t
unfolding complete_scan complete_step
scan-parts stack states [] t h =
    let (after, ended) = string_ended-out stack states in (after, ap (λ s. complete_scan s t) ended)
scan-parts stack states (plain c ∷ ps) t (p, h) =
    let (after, rest) = scan-parts stack states ps t h in (after, ground (arith, rest))
scan-parts stack states (escape c ∷ ps) t (p, h) = scan-parts stack states ps t h

-- An opening bracket, and the closing one that pairs with it.
brace-out :
    (stack : List Opener) (states : List ObjState) (t : Text)
    → LeadsTo (brace ∷ stack) (out stack states) (b'{' ∷ t) t
unfolding complete_scan complete_step
brace-out stack states t =
    let (after, seen) = saw_value-out stack states in
    (ObjState.key ∷ after, ap (λ s. complete_scan (open_brace s) t) seen)

bracket-out :
    (stack : List Opener) (states : List ObjState) (t : Text)
    → LeadsTo (bracket ∷ stack) (out stack states) (b'[' ∷ t) t
unfolding complete_scan complete_step
bracket-out stack states t =
    let (after, seen) = saw_value-out stack states in
    (after, ap (λ s. complete_scan (open_bracket s) t) seen)

closing-brace :
    (stack : List Opener) (states : List ObjState) (t : Text)
    → LeadsTo stack (out (brace ∷ stack) states) (b'}' ∷ t) t
unfolding complete_scan complete_step
closing-brace stack states t =
    let (after, seen) = saw_value-out stack (pop_state states) in
    (after, ap (λ s. complete_scan s t) seen)

closing-bracket :
    (stack : List Opener) (states : List ObjState) (t : Text)
    → LeadsTo stack (out (bracket ∷ stack) states) (b']' ∷ t) t
unfolding complete_scan complete_step
closing-bracket stack states t =
    let (after, seen) = saw_value-out stack states in (after, ap (λ s. complete_scan s t) seen)

quote-out :
    (stack : List Opener) (states : List ObjState) (t : Text)
    → complete_scan (out stack states) (b'"' ∷ t) ≡ complete_scan (inside stack states) t
unfolding complete_scan complete_step
quote-out stack states t = refl

-- What was open before a nested text is open after it.
scan-nested :
    (stack : List Opener) (states : List ObjState) (n : Nested) (t : Text)
    → IsNested n
    → LeadsTo stack (out stack states) (text_of n t) t
unfolding complete_scan
scan-nested stack states stop t h = (states, refl)
scan-nested stack states (other c n) t (p, h) =
    let (one, first) = other-out stack states c p in
    let (after, rest) = scan-nested stack one n t h in
    (after, ap (λ s. complete_scan s (text_of n t)) first ∙ rest)
scan-nested stack states (string ps n) t (p, h) =
    let (one, first) = scan-parts stack states ps (text_of n t) p in
    let (after, rest) = scan-nested stack one n t h in
    (after, quote-out stack states (parts_text ps (b'"' ∷ text_of n t)) ∙ first ∙ rest)
scan-nested stack states (braces inner n) t (p, h) =
    let (one, opened) = brace-out stack states (text_of inner (b'}' ∷ text_of n t)) in
    let (two, within) = scan-nested (brace ∷ stack) one inner (b'}' ∷ text_of n t) p in
    let (three, closed) = closing-brace stack two (text_of n t) in
    let (after, rest) = scan-nested stack three n t h in (after, opened ∙ within ∙ closed ∙ rest)
scan-nested stack states (brackets inner n) t (p, h) =
    let (one, opened) = bracket-out stack states (text_of inner (b']' ∷ text_of n t)) in
    let (two, within) = scan-nested (bracket ∷ stack) one inner (b']' ∷ text_of n t) p in
    let (three, closed) = closing-bracket stack two (text_of n t) in
    let (after, rest) = scan-nested stack three n t h in (after, opened ∙ within ∙ closed ∙ rest)

-- A text whose last character is a closing brace.
abbrev EndsBrace : Text → Type 0
EndsBrace t = (xs : Text) × (t ≡ xs ++ b'}' ∷ [])

ends-cons : (c : ℕ) (t : Text) → EndsBrace t → EndsBrace (c ∷ t)
ends-cons c t (xs, e) = (c ∷ xs, ap (λ l. c ∷ l) e)

ends-parts : (ps : List Part) (t : Text) → EndsBrace t → EndsBrace (parts_text ps t)
ends-parts [] t h = h
ends-parts (plain c ∷ ps) t h = ends-cons c (parts_text ps t) (ends-parts ps t h)
ends-parts (escape c ∷ ps) t h =
    ends-cons b'\\' (c ∷ parts_text ps t) (ends-cons c (parts_text ps t) (ends-parts ps t h))

ends-text_of : (n : Nested) (t : Text) → EndsBrace t → EndsBrace (text_of n t)
ends-text_of stop t h = h
ends-text_of (other c n) t h = ends-cons c (text_of n t) (ends-text_of n t h)
ends-text_of (string ps n) t h =
    ends-cons b'"' (parts_text ps (b'"' ∷ text_of n t))
      (ends-parts ps (b'"' ∷ text_of n t) (ends-cons b'"' (text_of n t) (ends-text_of n t h)))
ends-text_of (braces inner n) t h =
    ends-cons b'{' (text_of inner (b'}' ∷ text_of n t))
      (ends-text_of inner (b'}' ∷ text_of n t) (ends-cons b'}' (text_of n t) (ends-text_of n t h)))
ends-text_of (brackets inner n) t h =
    ends-cons b'[' (text_of inner (b']' ∷ text_of n t))
      (ends-text_of inner (b']' ∷ text_of n t) (ends-cons b']' (text_of n t) (ends-text_of n t h)))

-- Such a text has no blanks at its end and no literal that breaks off.
rstrip-brace : (xs : Text) → rstrip (xs ++ b'}' ∷ []) ≡ xs ++ b'}' ∷ []
unfolding rstrip is_space
rstrip-brace [] = refl
rstrip-brace (x ∷ []) = ground (arith, rstrip-brace [])
rstrip-brace (x ∷ (y ∷ xs)) = rw (rstrip-brace (y ∷ xs)) refl

is_prefix-brace :
    (xs u : Text) → any (λ c. c == b'}') u ≡ false → is_prefix (xs ++ b'}' ∷ []) u ≡ false
unfolding is_prefix
is_prefix-brace [] [] h = refl
is_prefix-brace (x ∷ xs) [] h = refl
is_prefix-brace [] (c ∷ u) h = ground arith
is_prefix-brace (x ∷ xs) (c ∷ u) h = ground (arith, is_prefix-brace xs u)

literal_of-brace : (xs : Text) → literal_of (xs ++ b'}' ∷ []) ≡ none
unfolding literal_of
literal_of-brace xs = ground (
  arith,
  is_prefix-brace xs (codes "true") refl,
  is_prefix-brace xs (codes "false") refl,
  is_prefix-brace xs (codes "null") refl,
)

complete_literal-brace :
    (after_word : Bool) (xs : Text)
    → complete_literal after_word (xs ++ b'}' ∷ []) ≡ xs ++ b'}' ∷ []
unfolding complete_literal literal_of is_prefix
complete_literal-brace true [] = refl
complete_literal-brace false [] = refl
complete_literal-brace true (x ∷ xs) =
    ap (λ l. x ∷ l) (complete_literal-brace (is_word_or_dot x) xs)
complete_literal-brace false (x ∷ xs) =
    rw (literal_of-brace (x ∷ xs)) (ap (λ l. x ∷ l) (complete_literal-brace (is_word_or_dot x) xs))

complete_truncated_json-closed :
    (xs : Text) (states : List ObjState)
    → complete_scan nothing_open (xs ++ b'}' ∷ []) ≡ out [] states
    → complete_truncated_json (xs ++ b'}' ∷ []) ≡ xs ++ b'}' ∷ []
unfolding complete_truncated_json close_all
complete_truncated_json-closed xs states scanned =
    rw (scanned, rstrip-brace xs) (complete_literal-brace false xs)

-- A complete object, in which strings end and brackets pair up, is left as it is.
pub complete_truncated_json-nested :
    (n : Nested)
    → IsNested n
    → complete_truncated_json (text_of (braces n stop) []) ≡ text_of (braces n stop) []
unfolding complete_scan
complete_truncated_json-nested n nested =
    let (states, scanned) = scan-nested [] [] (braces n stop) [] (nested, tt) in
    let (xs, ends) = ends-cons b'{' _ (ends-text_of n (b'}' ∷ []) ([], refl)) in
    subst (λ t. complete_truncated_json t ≡ t) (sym ends)
      (complete_truncated_json-closed xs states
        (subst (λ t. complete_scan nothing_open t ≡ out [] states) ends scanned))
