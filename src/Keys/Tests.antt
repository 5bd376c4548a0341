-- ===== src/Keys/Tests.antt =====
-- Keys made, renewed and revoked on concrete rows; the hash marks a text.
use Prim.Native.String.{◌++◌}
use self_managed_agents.Base.{
  nat_eq, string_eq, ℕ, ◌+◌, String, ◌≡◌, refl, none, some, List, [], ◌∷◌,
}
use self_managed_agents.Base.Outcome.{ok, err, http}
use self_managed_agents.Subscription.Data.{UserApiKey, days}
use self_managed_agents.Keys.{
  FreshKey, find_key, verify_api_key, verify_user_key, new_key, generate_key, renewed, renew_key,
  revoked, revoke_key, Request, generates, renews, revokes, serve_all,
}
use self_managed_agents.Keys.Revoked.{UniqueIds, revoke_key-final}

abbrev hash : String → String
hash raw = "#" ++ raw

abbrev fresh : ℕ → String → FreshKey
fresh id raw = record { id = id; raw_key = raw; now = 100 }

abbrev ani : UserApiKey
ani = new_key hash (fresh 1 "uak_a") none

abbrev budi : UserApiKey
budi = new_key hash (fresh 2 "uak_b") (some "budi")

abbrev keys : List UserApiKey
keys = budi ∷ ani ∷ []

generated : generate_key hash (fresh 2 "uak_b") (some "budi") (ani ∷ []) ≡ ok (budi, keys)
unfolding generate_key
generated = refl

same_raw_key : generate_key hash (fresh 3 "uak_a") none keys ≡ err (http 500)
unfolding generate_key
same_raw_key = refl

unknown : verify_user_key hash "uak_c" 200 keys ≡ err (http 401)
unfolding verify_user_key find_key
unknown = refl

-- At its end a key is refused.
at_the_end : verify_user_key hash "uak_a" (100 + days 30) keys ≡ err (http 403)
unfolding verify_user_key find_key
at_the_end = refl

wrong_platform_key : verify_api_key "s3cret" "" ≡ err (http 401)
unfolding verify_api_key
wrong_platform_key = refl

distinct : UniqueIds keys
distinct = (refl, (refl, tt))

was_revoked : revoke_key 1 keys ≡ ok (tt, budi ∷ revoked ani ∷ [])
unfolding revoke_key
was_revoked = refl

abbrev attempts : List Request
attempts = renews "uak_a" 150 160 ∷ generates (fresh 4 "uak_a") none ∷ revokes 1 ∷ []

final_example :
    ((now : ℕ)
      → verify_user_key hash "uak_a" now (serve_all hash attempts (budi ∷ revoked ani ∷ []))
        ≡ err (http 403))
    × ((tested_at now : ℕ)
        → renew_key hash "uak_a" tested_at now (serve_all hash attempts (budi ∷ revoked ani ∷ []))
          ≡ err (http 403))
final_example =
    revoke_key-final hash "uak_a" ani keys (budi ∷ revoked ani ∷ []) attempts distinct refl
      was_revoked

was_renewed :
    renew_key hash "uak_a" 2000 2001 keys ≡ ok (renewed 2001 ani, budi ∷ renewed 2001 ani ∷ [])
unfolding renew_key verify_user_key find_key
was_renewed = refl
