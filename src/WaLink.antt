-- ===== src/WaLink.antt =====
-- app/core/domain/wa_link_service.py and app/models/wa_link_code.py: a dashboard account linked to a
-- WhatsApp sender by a one-time code.
pub mod Given
pub mod Identity
pub mod Once
pub mod Owner
mod Tests
use Prim.Native.String.{◌++◌ as join_text}
use self_managed_agents.Base.{
  nat_eq, string_eq, option_eq, is_value, ℕ, ◌+◌, ◌*◌, String, Bool, true, false, not, ◌&&◌, ◌||◌,
  Option, none, some, List, [], ◌∷◌, ◌++◌, map, ◌==◌, ltb, leb, if◌then◌else◌, where_, update,
  contains, or_empty, or_text,
}
use self_managed_agents.Base.Outcome.{
  Outcome, ok, err, value_error, ◌>>=◌, scalar_one_or_none, first, or_raise,
}
use self_managed_agents.Base.Text.{
  codes, strip, upper, without_char, is_prefix, take_text, drop_text, len_text,
}
use self_managed_agents.Phone.{normalize_phone, is_probable_whatsapp_lid, or_none}
use self_managed_agents.Subscription.Data.{
  Status, merged, User, UserSubscription, SubscriptionPlan, Db, is_usable_status,
}

pub record WaLinkCode : Type 0 where
  pub id : ℕ
  pub user_id : ℕ
  pub code : String
  pub expires_at : ℕ
  pub used_at : Option ℕ
  pub claimed_identity : Option String
  pub created_at : ℕ

pub record Links : Type 0 where
  pub db : Db
  pub link_codes : List WaLinkCode

-- `normalize_wa_link_code`
unfoldable pub normalize_wa_link_code : Option String → String
unfolding strip upper without_char is_prefix drop_text
normalize_wa_link_code code =
    let raw =
      without_char b'.' (
        without_char b'_'
          (without_char b'-' (without_char b' ' (strip (upper (or_empty code)))))) in
    if is_prefix (codes "LINK") (codes raw) then drop_text 4 raw else raw

-- the senders' identifiers that have digits: as they came, and normalised
unfoldable pub normalized_ids : List (Option String) → List (String × String)
unfolding strip normalize_phone
normalized_ids [] = []
normalized_ids (raw ∷ rest) =
    let value = strip (or_empty raw) in
    let digits = normalize_phone value in
    let later = normalized_ids rest in
    if value == "" || digits == "" then later else (value, digits) ∷ later

unfoldable pub lid_digits : List (String × String) → List String
unfolding is_probable_whatsapp_lid
lid_digits [] = []
lid_digits ((value, digits) ∷ rest) =
    let later = lid_digits rest in
    if is_probable_whatsapp_lid (some value) then digits ∷ later else later

abbrev pub first_where : (String → Bool) → List (String × String) → Option String
first_where p [] = none
first_where p ((value, digits) ∷ rest) = if p digits then some digits else first_where p rest

-- `_classify_sender_identity`: the real phone and the LID
unfoldable pub classify_sender_identity : List (Option String) → Option String × Option String
unfolding normalized_ids lid_digits
classify_sender_identity sender_ids =
    let ids = normalized_ids sender_ids in
    let lids = lid_digits ids in
    (first_where (λ d. not (contains d lids)) ids, first_where (λ d. contains d lids) ids)

-- a code of the user that could still be claimed at `now`
unfoldable pub is_pending : ℕ → ℕ → WaLinkCode → Bool
is_pending user_id now link =
    link.user_id == user_id && link.used_at == none && ltb now link.expires_at

abbrev pub end_at : ℕ → WaLinkCode → WaLinkCode
end_at now link = record link { expires_at = now }

abbrev pub new_code : ℕ → String → ℕ → ℕ → ℕ → WaLinkCode
new_code id code user_id ttl_minutes now = record {
  id = id;
  user_id = user_id;
  code = code;
  expires_at = now + ttl_minutes * 60;
  used_at = none;
  claimed_identity = none;
  created_at = now;
}

-- `generate_wa_link_code`; the id and the random code are arguments
unfoldable pub generate_wa_link_code : ℕ → String → ℕ → ℕ → ℕ → Links → Outcome (WaLinkCode × Links)
generate_wa_link_code id code user_id ttl_minutes now s = do
  user ← scalar_one_or_none (where_ (λ u. u.id == user_id) s.db.users)
  u ← or_raise user value_error
  let link = new_code id code user_id ttl_minutes now
  ok (
    link,
    record s { link_codes = link ∷ update (is_pending user_id now) (end_at now) s.link_codes },
  )

-- `.order_by(created_at.desc())`, `first()`
unfoldable pub newest_from : WaLinkCode → List WaLinkCode → WaLinkCode
newest_from best [] = best
newest_from best (l ∷ ls) = newest_from (if ltb best.created_at l.created_at then l else best) ls

abbrev pub newest : List WaLinkCode → Option WaLinkCode
newest [] = none
newest (l ∷ ls) = some (newest_from l ls)

-- `code == normalized_code`, not used
unfoldable pub is_unused : String → WaLinkCode → Bool
is_unused code link = link.code == code && link.used_at == none

abbrev add_new : String → List String → List String
add_new x xs = if x == "" || contains x xs then xs else xs ++ x ∷ []

-- the variants of the identifiers, added to those collected
unfoldable pub add_variants : List (Option String) → List String → List String
unfolding strip normalize_phone
add_variants [] variants = variants
add_variants (raw ∷ rest) variants =
    add_variants rest
      (add_new (normalize_phone (or_empty raw)) (add_new (strip (or_empty raw)) variants))

-- `variants` of a claim
unfoldable pub sender_variants : List (Option String) → String → List String
unfolding add_variants
sender_variants sender_ids identity = add_variants (some identity ∷ []) (add_variants sender_ids [])

abbrev pub matches : List String → Option String → Bool
matches variants none = false
matches variants (some v) = contains v variants

-- another user that carries one of the variants
unfoldable pub is_duplicate : List String → ℕ → User → Bool
is_duplicate variants user_id u =
    (contains u.external_id variants
      || matches variants u.phone_number
      || matches variants u.wa_lid)
    && not (u.id == user_id)

abbrev pub merged_id : String → String
merged_id old = take_text 64 (join_text "merged:" old)

abbrev pub archive : User → User
archive u = record u { external_id = merged_id u.external_id; phone_number = none; wa_lid = none }

-- a subscription of one of the users, trial, active or in grace
abbrev is_live_of : List ℕ → UserSubscription → Bool
is_live_of ids sub = contains sub.user_id ids && is_usable_status sub.status

-- the duplicates archived and their subscriptions merged
unfoldable pub archive_duplicates : List String → ℕ → Db → Db
unfolding take_text
archive_duplicates variants user_id db = record db {
  users = update (is_duplicate variants user_id) archive db.users;
  subscriptions =
      update (is_live_of (map (λ u. u.id) (where_ (is_duplicate variants user_id) db.users)))
        (λ sub. record sub { status = merged }) db.subscriptions;
}

abbrev or_old : Option String → Option String → Option String
or_old none old = old
or_old (some v) old = some v

-- the identity written to the dashboard's user
abbrev pub link_identity : Option String → Option String → User → User
link_identity real_phone lid u = record u {
  phone_number = or_old real_phone u.phone_number;
  wa_lid = or_old lid u.wa_lid;
}

-- the reasons of a refusal; `dict`s with an "error" in the source
pub data Refusal : Type 0 where
  bad_length no_identity not_found expired_code no_user : Refusal

pub data ClaimResult : Type 0 where
  refused : Refusal → ClaimResult
  linked : (user_id : ℕ) (identity : String) (archived : List ℕ) → ClaimResult

abbrev pub or_second : Option String → Option String → Option String
or_second none b = b
or_second (some a) b = some a

abbrev pub mark_used : ℕ → String → WaLinkCode → WaLinkCode
mark_used now identity link = record link { used_at = some now; claimed_identity = some identity }

-- the writes of a claim that is accepted
unfoldable pub link_account :
    List (Option String)
    → Option String
    → Option String
    → String
    → ℕ
    → WaLinkCode
    → User
    → Links
    → ClaimResult × Links
unfolding sender_variants archive_duplicates
link_account sender_ids real_phone lid identity now link user s =
    let variants = sender_variants sender_ids identity in
    let db = archive_duplicates variants user.id s.db in
    (
      linked user.id identity (map (λ u. u.id) (where_ (is_duplicate variants user.id) s.db.users)),
      record {
        db = record db {
          users = update (λ u. u.id == user.id) (link_identity real_phone lid) db.users;
        };
        link_codes = update (λ l. l.id == link.id) (mark_used now identity) s.link_codes;
      },
    )

-- `claim_wa_link_code`; what the answer tells of the plan is left out
unfoldable pub claim_wa_link_code :
    Option String → List (Option String) → ℕ → Links → Outcome (ClaimResult × Links)
unfolding normalize_wa_link_code classify_sender_identity
claim_wa_link_code code sender_ids now s =
    let normalized = normalize_wa_link_code code in
    let (real_phone, lid) = classify_sender_identity sender_ids in
    if not (len_text normalized == 6)
    then ok (refused bad_length, s)
    else elim (or_second real_phone lid) [
      | none ↦ ok (refused no_identity, s)
      | some identity ↦ elim (newest (where_ (is_unused normalized) s.link_codes)) [
        | none ↦ ok (refused not_found, s)
        | some link ↦
            if leb link.expires_at now
            then ok (refused expired_code, s)
            else scalar_one_or_none (where_ (λ u. u.id == link.user_id) s.db.users) >>= λ user.
                elim user [
                  | none ↦ ok (refused no_user, s)
                  | some u ↦ ok (link_account sender_ids real_phone lid identity now link u s)
                ]
      ]
    ]
