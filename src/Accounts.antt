-- ===== src/Accounts.antt =====
-- app/api/users.py: the accounts of the dashboard. The ids of new rows (uuid4), the clock and the hash
-- of a password are outside; a password is written and never read here, so it has no column.
pub mod Login
mod Tests
use self_managed_agents.Base.{
  nat_eq, string_eq, ℕ, ◌+◌, String, Bool, true, false, not, ◌&&◌, ◌||◌, Option, none, some, List,
  [], ◌∷◌, ◌==◌, leb, if◌then◌else◌, where_, update, or_empty, any, map, contains, is_value,
}
use self_managed_agents.Base.Outcome.{
  Outcome, ok, err, http, value_error, ◌>>=◌, ◌>>◌, require, scalar_one_or_none, or_raise,
}
use self_managed_agents.Base.Text.{codes, strip, lower, is_infix, len_text}
use self_managed_agents.Phone.{is_probable_whatsapp_lid}
use self_managed_agents.Subscription.Data.{
  trial, active, User, UserSubscription, SubscriptionPlan, Db,
}
use self_managed_agents.Subscription.Billing.{
  SubscriptionResponse, subscription_response, get_plan_by_code, get_plan_by_id, new_subscription,
}
use self_managed_agents.Subscription.Provision.{has_identity}
use self_managed_agents.WaLink.{
  Links, WaLinkCode, generate_wa_link_code, ClaimResult, refused, linked, claim_wa_link_code,
}

pub record UserCreate : Type 0 where
  pub email : String
  pub password : String
  pub full_name : Option String
  pub external_id : Option String
  pub plan_code : Option String

-- the characters after the last `@`
abbrev after_at : List ℕ → List ℕ
after_at [] = []
after_at (c ∷ cs) =
    let later = after_at cs in
    if any (λ d. d == b'@') cs then later else if c == b'@' then cs else c ∷ later

-- `validate_email`: an `@`, and a dot after the last one
unfoldable pub validate_email : String → Outcome String
unfolding lower strip
validate_email v = do
  require (any (λ c. c == b'@') (codes v) && any (λ c. c == b'.') (after_at (codes v))) (http 422)
  ok (strip (lower v))

-- the fields of a request that pydantic checks before the handler runs
unfoldable pub validate_create : UserCreate → Outcome UserCreate
unfolding validate_email
validate_create payload = do
  email ← validate_email payload.email
  require (leb 8 (len_text payload.password)) (http 422)
  require (leb (len_text (or_empty payload.external_id)) 64) (http 422)
  ok (record payload { email = email })

-- what one creation draws from outside: three uuid4s and the clock
pub record FreshAccount : Type 0 where
  pub user_id : ℕ
  pub external_id : String
  pub subscription_id : ℕ
  pub now : ℕ

abbrev pub new_account : FreshAccount → UserCreate → User
new_account fresh payload = record {
  id = fresh.user_id;
  email = payload.email;
  full_name = payload.full_name;
  phone_number = none;
  wa_lid = none;
  external_id =
      if or_empty payload.external_id == ""
      then fresh.external_id
      else or_empty payload.external_id;
  has_used_trial = false;
  email_verified = false;
}

-- UserWithSubscriptionResponse: the user, and the subscription with its plan
pub record UserResponse : Type 0 where
  pub user : User
  pub subscription : Option SubscriptionResponse

-- the subscription that comes with a plan code, and the mark of a used trial
unfoldable pub create_subscription : FreshAccount → User → String → Db → Outcome (UserResponse × Db)
unfolding get_plan_by_code
create_subscription fresh user plan_code db = do
  plan ← get_plan_by_code plan_code db
  let sub =
      new_subscription fresh.subscription_id fresh.now user.id plan
        (if plan.is_trial then trial else active)
  let user = record user { has_used_trial = plan.is_trial || user.has_used_trial }
  ok (
    record { user = user; subscription = some (subscription_response plan sub) },
    record db {
      users = update (λ u. u.id == user.id) (λ u. user) db.users;
      subscriptions = sub ∷ db.subscriptions;
    },
  )

-- `create_user`; the unique index on external ids is checked at the flush, an error that nothing catches
unfoldable pub create_user : FreshAccount → UserCreate → Db → Outcome (UserResponse × Db)
unfolding validate_create create_subscription
create_user fresh request db = do
  payload ← validate_create request
  existing ← scalar_one_or_none (where_ (λ u. u.email == payload.email) db.users)
  require (elim existing [ none ↦ true | some u ↦ false ]) (http 409)
  let user = new_account fresh payload
  require (not (contains user.external_id (map (λ u. u.external_id) db.users))) (http 500)
  let added = record db { users = user ∷ db.users }
  let plan_code = or_empty payload.plan_code
  elim (plan_code == "") [
    | true ↦ ok (record { user = user; subscription = none }, added)
    | false ↦ create_subscription fresh user plan_code added
  ]

-- the answer of `get_user` and `phone_login`
unfoldable pub with_subscription : User → Db → Outcome UserResponse
with_subscription user db = do
  sub ← scalar_one_or_none (where_ (λ s. s.user_id == user.id) db.subscriptions)
  elim sub [
    | none ↦ ok (record { user = user; subscription = none })
    | some s ↦ do
      plan ← get_plan_by_id s.plan_id db
      ok (record { user = user; subscription = some (subscription_response plan s) })
  ]

unfoldable pub get_user : ℕ → Db → Outcome UserResponse
unfolding with_subscription
get_user user_id db = do
  found ← scalar_one_or_none (where_ (λ u. u.id == user_id) db.users)
  user ← or_raise found (http 404)
  with_subscription user db

pub record UserUpdate : Type 0 where
  pub full_name : Option String
  pub email_verified : Option Bool
  pub phone_number : Option String

abbrev pub given_or {ℓ} : {A : Type ℓ} → Option A → A → A
given_or none old = old
given_or (some v) old = v

abbrev or_given {ℓ} : {A : Type ℓ} → Option A → Option A → Option A
or_given none old = old
or_given (some v) old = some v

abbrev pub updated : UserUpdate → User → User
updated payload user = record user {
  full_name = or_given payload.full_name user.full_name;
  email_verified = given_or payload.email_verified user.email_verified;
  phone_number = or_given payload.phone_number user.phone_number;
}

-- the phone number of another user, which its unique index refuses
abbrev pub is_taken_by_other : ℕ → Option String → User → Bool
is_taken_by_other user_id none u = false
is_taken_by_other user_id (some phone) u = is_value u.phone_number phone && not (u.id == user_id)

-- `update_user`: a LID is refused, and nothing is written then
unfoldable pub update_user : ℕ → UserUpdate → Db → Outcome (User × Db)
unfolding is_probable_whatsapp_lid
update_user user_id payload db = do
  found ← scalar_one_or_none (where_ (λ u. u.id == user_id) db.users)
  user ← or_raise found (http 404)
  require (not (is_probable_whatsapp_lid payload.phone_number)) (http 400)
  require (not (any (is_taken_by_other user_id payload.phone_number) db.users)) (http 500)
  ok (
    updated payload user,
    record db { users = update (λ u. u.id == user_id) (updated payload) db.users },
  )

-- the user of a phone number, as `phone_login` looks it up
unfoldable pub find_phone_user : String → Db → Outcome User
unfolding strip has_identity
find_phone_user phone_number db = do
  found ← scalar_one_or_none (where_ (has_identity (strip phone_number)) db.users)
  or_raise found (http 404)

unfoldable pub phone_login : String → Db → Outcome UserResponse
unfolding find_phone_user with_subscription
phone_login phone_number db = find_phone_user phone_number db >>= λ user. with_subscription user db

-- `create_wa_link_code`: a user that does not exist is answered by 404
unfoldable pub create_wa_link_code : ℕ → String → ℕ → ℕ → Links → Outcome (WaLinkCode × Links)
create_wa_link_code id code user_id now s = elim (generate_wa_link_code id code user_id 15 now s) [
  | err value_error ↦ err (http 404)
  | other ↦ other
]

-- `claim_wa_link`: a refusal is answered by 400
unfoldable pub claim_wa_link : String → String → ℕ → Links → Outcome (ClaimResult × Links)
claim_wa_link code phone_number now s =
    claim_wa_link_code (some code) (some phone_number ∷ []) now s >>= λ (result, after).
    elim result [ refused why ↦ err (http 400) | linked u i ids ↦ ok (linked u i ids, after) ]
