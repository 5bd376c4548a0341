-- ===== src/BuilderJson/Tests.antt =====
-- Objects cut out of what models write, and completed where they break off.
use self_managed_agents.Base.{nat_eq, ◌≡◌, refl, [], ◌∷◌}
use self_managed_agents.Base.Outcome.{ok, err, value_error}
use self_managed_agents.Base.Text.{codes, is_prefix, is_space, to_lower}
use self_managed_agents.BuilderJson.{
  strip_json_wrapper, remove_think, think_match, end_of, fenced, before, skip_word, lstrip, rstrip,
  from_brace, extract_object, extract_balanced_json_object, complete_step, complete_scan,
  complete_literal, literal_of, close_all, drop_key, drop_comma, complete_truncated_json,
}
use self_managed_agents.BuilderJson.Nested.{plain, Nested, stop, other, string, braces, IsNested}
use self_managed_agents.BuilderJson.Extracted.{extract_balanced_json_object-nested}
use self_managed_agents.BuilderJson.Completed.{complete_truncated_json-nested}

fenced_answer : strip_json_wrapper (codes "<think>{}</think>```JSON {1}``` ok") ≡ codes "{1}"
unfolding strip_json_wrapper remove_think think_match end_of fenced before skip_word lstrip rstrip
    is_prefix is_space to_lower
fenced_answer = refl

no_object : extract_object (codes "none") ≡ err value_error
unfolding extract_object from_brace
no_object = refl

-- A literal, a key without a value, and brackets that are open.
literal : complete_truncated_json (codes "{\"a\":[tru") ≡ codes "{\"a\":[true]}"
unfolding complete_truncated_json complete_scan complete_step complete_literal literal_of close_all
    drop_comma rstrip is_prefix is_space
literal = refl

dangling_key : complete_truncated_json (codes "{\"a\":1, \"b") ≡ codes "{\"a\":1}"
unfolding complete_truncated_json complete_scan complete_step complete_literal literal_of close_all
    drop_comma drop_key lstrip rstrip is_prefix is_space
dangling_key = refl

-- A text that breaks off after a backslash: the quote that is added is escaped, and ends no string.
after_backslash : complete_truncated_json (codes "{\"a\":\"x\\") ≡ codes "{\"a\":\"x\\\"}"
unfolding complete_truncated_json complete_scan complete_step complete_literal literal_of close_all
    drop_comma drop_key lstrip rstrip is_prefix is_space
after_backslash = refl

-- a quoted brace, and an object within: {"}":{}}
abbrev inner : Nested
inner = string (plain b'}' ∷ []) (other b':' (braces stop stop))

is_nested : IsNested inner
is_nested = ((refl, tt), (refl, (tt, tt)))

unwrapped : strip_json_wrapper (codes "Ok: {\"}\":{}} and }") ≡ codes "Ok: {\"}\":{}} and }"
unfolding strip_json_wrapper remove_think think_match end_of fenced before skip_word lstrip rstrip
    is_prefix is_space to_lower
unwrapped = refl

broken : strip_json_wrapper (codes "Ok: {\"}\":{}") ≡ codes "Ok: {\"}\":{}"
unfolding strip_json_wrapper remove_think think_match end_of fenced before skip_word lstrip rstrip
    is_prefix is_space to_lower
broken = refl

extract_example :
    (extract_balanced_json_object (codes "Ok: {\"}\":{}} and }") ≡ ok (codes "{\"}\":{}}"))
    × (extract_balanced_json_object (codes "Ok: {\"}\":{}") ≡ ok (codes "{\"}\":{}"))
extract_example =
    extract_balanced_json_object-nested (codes "Ok: {\"}\":{}} and }") (codes "Ok: {\"}\":{}")
      (codes "Ok: ") (codes " and }") inner refl is_nested unwrapped broken

left_alone_example : complete_truncated_json (codes "{\"}\":{}}") ≡ codes "{\"}\":{}}"
left_alone_example = complete_truncated_json-nested inner is_nested
