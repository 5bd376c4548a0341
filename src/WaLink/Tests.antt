-- ===== src/WaLink/Tests.antt =====
-- A code generated for one account and claimed by a sender that has a trial account of its own.
use self_managed_agents.Base.Text.{is_prefix}
use self_managed_agents.Base.{
  nat_eq, string_eq, where_, ℕ, ◌≡◌, refl, String, false, Option, none, some, List, [], ◌∷◌,
}
use self_managed_agents.Base.Outcome.{ok}
use self_managed_agents.Subscription.Data.{User, UserSubscription, trial, merged}
use self_managed_agents.WaLink.{
  WaLinkCode, Links, generate_wa_link_code, claim_wa_link_code, linked, refused, Refusal, new_code,
  is_pending, is_unused, normalize_wa_link_code, newest_from, link_account, is_duplicate,
  sender_variants,
}
use self_managed_agents.WaLink.Once.{claim_wa_link_code-once}
use self_managed_agents.WaLink.Owner.{AreUnmerged, AreOwned, claim_wa_link_code-AreOwned}

abbrev account : ℕ → String → User
account id external_id = record {
  id = id;
  email = "a@b";
  full_name = none;
  phone_number = none;
  wa_lid = none;
  external_id = external_id;
  has_used_trial = false;
  email_verified = false;
}

abbrev trial_of : ℕ → UserSubscription
trial_of user = record {
  id = 7;
  user_id = user;
  plan_id = 1;
  status = trial;
  token_quota = 10;
  tokens_used = 0;
  started_at = 0;
  expires_at = none;
  grace_until = none;
}

abbrev before : Links
before = record {
  db = record {
    plans = [];
    users = account 1 "dash" ∷ account 2 "628111" ∷ [];
    subscriptions = trial_of 2 ∷ [];
    topups = [];
    api_keys = [];
  };
  link_codes = [];
}

abbrev code_of : WaLinkCode
code_of = new_code 5 "ABC234" 1 15 1000

abbrev given : Links
given = record before { link_codes = code_of ∷ [] }

went : generate_wa_link_code 5 "ABC234" 1 15 1000 before ≡ ok (code_of, given)
unfolding generate_wa_link_code is_pending
went = refl

abbrev sender : List (Option String)
sender = some "628111@s.whatsapp.net" ∷ none ∷ some "999@lid" ∷ []

abbrev taken : Links
taken = record {
  db = record given.db {
    users =
        record (account 1 "dash") { phone_number = some "628111"; wa_lid = some "999" }
        ∷ account 2 "merged:628111"
        ∷ [];
    subscriptions = record (trial_of 2) { status = merged } ∷ [];
  };
  link_codes = record code_of { used_at = some 1500; claimed_identity = some "628111" } ∷ [];
}

claimed :
    claim_wa_link_code (some " link-abc 234") sender 1500 given
    ≡ ok (linked 1 "628111" (2 ∷ []), taken)
unfolding claim_wa_link_code newest_from is_unused link_account is_duplicate
claimed = refl

-- The user has an earlier code, which is over once the new one is given.
abbrev earlier_code : WaLinkCode
earlier_code = new_code 4 "OLD777" 1 15 900

abbrev given_again : Links
given_again = record before {
  link_codes = code_of ∷ record earlier_code { expires_at = 1000 } ∷ [];
}

only :
    where_ (is_unused (normalize_wa_link_code (some " link-abc 234"))) given.link_codes
    ≡ code_of ∷ []
unfolding is_unused normalize_wa_link_code
only = refl

same : normalize_wa_link_code (some "ABC234") ≡ normalize_wa_link_code (some " link-abc 234")
unfolding normalize_wa_link_code
same = refl

once_example :
    (r : Refusal) × (claim_wa_link_code (some "ABC234") (some "628222" ∷ []) 1600 taken
      ≡ ok (refused r, taken))
once_example =
    claim_wa_link_code-once (some " link-abc 234") (some "ABC234") sender (some "628222" ∷ []) 1500
      1600 given taken 1 "628111" (2 ∷ []) code_of claimed only same

unmerged : AreUnmerged (sender_variants sender "628111")
unfolding sender_variants is_prefix
unmerged = (refl, (refl, (refl, (refl, tt))))

owned-AreOwned : AreOwned (sender_variants sender "628111") 1 "628111" taken.db.users
owned-AreOwned =
    claim_wa_link_code-AreOwned (some " link-abc 234") sender 1500 given taken 1 "628111" (2 ∷ [])
      claimed unmerged
