-- ===== src/Phone.antt =====
-- app/core/utils/phone_utils.py and app/core/utils/wa_identity.py: phone numbers, JIDs and LIDs.
pub mod Laws
mod Tests
use self_managed_agents.Base.{
  map, length, nat_eq, string_eq, ℕ, String, Bool, true, false, not, ◌&&◌, ◌||◌, Option, none, some,
  List, [], ◌∷◌, ◌==◌, leb, ltb, if◌then◌else◌, or_empty, or_text,
}
use Prim.Native.Nat.{suc}
use Prim.Native.Char.{code}
use Prim.Native.String
use text.Mathlib.Text.{find?}
use self_managed_agents.Base.Text.{
  strip, drop_while, take_while, all_chars, codes, is_infix, to_lower, is_digit,
}

-- `phone.lstrip("+").split("@")[0]`
unfoldable pub normalize_phone : String → String
unfolding drop_while take_while
normalize_phone phone = take_while (λ c. not (c == b'@')) (drop_while (λ c. c == b'+') phone)

-- `len` of a text
abbrev count_chars : String → ℕ
count_chars s = length (codes s)

-- `is_probable_whatsapp_lid`; lower-casing changes no digit, so it is left out of the second test
unfoldable pub is_probable_whatsapp_lid : Option String → Bool
unfolding normalize_phone strip is_infix to_lower all_chars is_digit
is_probable_whatsapp_lid value =
    let raw = strip (or_empty value) in
    if raw == ""
    then false
    else if is_infix (codes "@lid") (map to_lower (codes raw))
    then true
    else let normalized = normalize_phone raw in
      not (normalized == "") && all_chars is_digit normalized && ltb 15 (count_chars normalized)

-- `extract_wa_lid`
unfoldable pub extract_wa_lid : List (Option String) → Option String
unfolding is_probable_whatsapp_lid
extract_wa_lid [] = none
extract_wa_lid (raw ∷ rest) =
    let value = strip (or_empty raw) in
    let later = extract_wa_lid rest in
    let digits = normalize_phone value in
    if value == "" || not (is_probable_whatsapp_lid (some value))
    then later
    else if digits == ""
    then later
    else some digits

-- `text or None`
abbrev pub or_none : String → Option String
or_none s = if s == "" then none else some s

-- `resolve_incoming_wa_phone`
unfoldable pub resolve_incoming_wa_phone : Option String → Option String → Option String
unfolding is_probable_whatsapp_lid
resolve_incoming_wa_phone from_phone resolved_phone =
    if not (or_empty resolved_phone == "")
    then or_none (normalize_phone (or_empty resolved_phone))
    else let raw = strip (or_empty from_phone) in
      if raw == "" || is_probable_whatsapp_lid (some raw)
      then none
      else or_none (normalize_phone raw)

-- `resolve_auto_provision_external_id`; `phone_number` is that of a `channel_config` that is a dict
unfoldable pub resolve_auto_provision_external_id :
    Bool → Option String → Option String → Option String → Option String
unfolding is_probable_whatsapp_lid
resolve_auto_provision_external_id is_whatsapp phone_number payload_external_user_id
      session_external_user_id =
    let phone = normalize_phone (or_empty phone_number) in
    if not (phone == "") && not (is_probable_whatsapp_lid (some phone))
    then some phone
    else if is_whatsapp
    then none
    else let candidate =
        strip (or_text (or_empty payload_external_user_id) (or_empty session_external_user_id)) in
      if candidate == "" || is_probable_whatsapp_lid (some candidate)
      then none
      else some (or_text (normalize_phone candidate) candidate)
