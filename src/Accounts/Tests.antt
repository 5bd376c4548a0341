-- ===== src/Accounts/Tests.antt =====
-- An account made over the API, given a code, and logged in to by the number that claimed it.
use self_managed_agents.Base.{nat_eq, string_eq, ◌≡◌, refl, String, true, none, some, [], ◌∷◌, ◌==◌}
use self_managed_agents.Base.Outcome.{ok, err, http}
use self_managed_agents.Base.Text.{is_prefix, strip}
use self_managed_agents.Subscription.Data.{User, Db}
use self_managed_agents.WaLink.{
  Links, new_code, claim_wa_link_code, linked, newest_from, is_unused, link_account, is_duplicate,
  sender_variants,
}
use self_managed_agents.WaLink.Owner.{AreUnmerged}
use self_managed_agents.Accounts.{
  UserCreate, FreshAccount, validate_email, new_account, create_user, UserUpdate, update_user,
  find_phone_user, phone_login,
}
use self_managed_agents.Accounts.Login.{find_phone_user-claim}

abbrev empty : Db
empty = record { plans = []; users = []; subscriptions = []; topups = []; api_keys = [] }

abbrev fresh : FreshAccount
fresh = record { user_id = 1; external_id = "a1b2"; subscription_id = 9; now = 1000 }

abbrev request : UserCreate
request = record {
  email = "Ani@Mail.co";
  password = "rahasia123";
  full_name = some "Ani";
  external_id = none;
  plan_code = none;
}

abbrev ani : User
ani = new_account fresh (record request { email = "ani@mail.co" })

abbrev db_with : User → Db
db_with u = record empty { users = u ∷ [] }

created :
    create_user fresh request empty ≡ ok (record { user = ani; subscription = none }, db_with ani)
unfolding create_user
created = refl

twice :
    create_user (record fresh { user_id = 2; external_id = "c3" }) request (db_with ani)
    ≡ err (http 409)
unfolding create_user
twice = refl

no_dot : validate_email "ani@mail" ≡ err (http 422)
unfolding validate_email
no_dot = refl

abbrev with_phone : String → UserUpdate
with_phone p = record { full_name = none; email_verified = none; phone_number = some p }

a_lid : update_user 1 (with_phone "123@lid") (db_with ani) ≡ err (http 400)
unfolding update_user
a_lid = refl

abbrev given : Links
given = record { db = db_with ani; link_codes = new_code 5 "ABC234" 1 15 1000 ∷ [] }

abbrev taken : Links
taken = record {
  db = db_with (record ani { phone_number = some "628111" });
  link_codes =
      record (new_code 5 "ABC234" 1 15 1000) {
        used_at = some 1500;
        claimed_identity = some "628111";
      }
      ∷ [];
}

claimed :
    claim_wa_link_code (some "ABC234") (some "628111" ∷ []) 1500 given
    ≡ ok (linked 1 "628111" [], taken)
unfolding claim_wa_link_code newest_from is_unused link_account is_duplicate
claimed = refl

unmerged : AreUnmerged (sender_variants (some "628111" ∷ []) "628111")
unfolding sender_variants is_prefix
unmerged = (refl, tt)

stripped : strip "628111" ≡ "628111"
unfolding strip
stripped = refl

login_example : (u : User) × (find_phone_user "628111" taken.db ≡ ok u) × ((u.id == 1) ≡ true)
login_example =
    find_phone_user-claim (some "ABC234") (some "628111" ∷ []) 1500 given taken 1 "628111" []
      claimed unmerged stripped

logged_in :
    phone_login " 628111" taken.db
    ≡ ok (record { user = record ani { phone_number = some "628111" }; subscription = none })
unfolding phone_login
logged_in = refl
