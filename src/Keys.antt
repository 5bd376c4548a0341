-- ===== src/Keys.antt =====
-- app/api/auth.py, app/deps.py and app/models/user_api_key.py: the keys of users and the key of the
-- platform. The hash of a raw key (SHA-256) is the parameter `hash`; raw keys, ids and the clock are
-- arguments. The table is that of Subscription/Data.
pub mod Revoked
pub mod Renewed
mod Tests
use self_managed_agents.Base.{
  nat_eq, string_eq, ℕ, ◌+◌, String, Bool, true, false, not, ◌&&◌, Option, none, some, List, [],
  ◌∷◌, ◌==◌, leb, ltb, if◌then◌else◌, where_, update, or_empty, map, contains,
}
use self_managed_agents.Base.Outcome.{
  Outcome, ok, err, http, ◌>>=◌, ◌>>◌, require, scalar_one_or_none, or_raise,
}
use self_managed_agents.Base.Text.{len_text}
use self_managed_agents.Subscription.Data.{UserApiKey, days}

-- `verify_api_key`, with the key of the settings
unfoldable pub verify_api_key : String → String → Outcome (Unit {0})
verify_api_key api_key x_api_key = require (x_api_key == api_key) (http 401)

-- what one new key draws from outside: a uuid4, the raw key and the clock
pub record FreshKey : Type 0 where
  pub id : ℕ
  pub raw_key : String
  pub now : ℕ

abbrev pub renewed : ℕ → UserApiKey → UserApiKey
renewed now key = record key { expires_at = now + days 30; revoked = false }

module _ (hash : String → String) where
  unfoldable pub find_key : String → List UserApiKey → Outcome UserApiKey
  find_key x_user_key keys = do
    found ← scalar_one_or_none (where_ (λ k. k.key_hash == hash x_user_key) keys)
    or_raise found (http 401)

  -- a key that is neither revoked nor past its end
  unfoldable pub verify_user_key : String → ℕ → List UserApiKey → Outcome UserApiKey
  unfolding find_key
  verify_user_key x_user_key now keys = do
    key ← find_key x_user_key keys
    require (not key.revoked) (http 403)
    require (ltb now key.expires_at) (http 403)
    ok key

  abbrev pub new_key : FreshKey → Option String → UserApiKey
  new_key fresh label = record {
    id = fresh.id;
    key_hash = hash fresh.raw_key;
    label = label;
    expires_at = fresh.now + days 30;
    revoked = false;
  }

  -- `generate_key`; the length of the label, the primary key and the unique index on hashes are
  -- checked at the flush
  unfoldable pub generate_key :
      FreshKey → Option String → List UserApiKey → Outcome (UserApiKey × List UserApiKey)
  generate_key fresh label keys = do
    require (leb (len_text (or_empty label)) 255) (http 500)
    let key = new_key fresh label
    require (not (contains key.id (map (λ k. k.id) keys))) (http 500)
    require (not (contains key.key_hash (map (λ k. k.key_hash) keys))) (http 500)
    ok (key, key ∷ keys)

  -- `renew_key`, whose tests are those of `verify_user_key`; it reads the clock for them, and again for
  -- the new end
  unfoldable pub renew_key :
      String → ℕ → ℕ → List UserApiKey → Outcome (UserApiKey × List UserApiKey)
  unfolding verify_user_key
  renew_key x_user_key tested_at now keys = do
    key ← verify_user_key x_user_key tested_at keys
    ok (renewed now key, update (λ k. k.id == key.id) (renewed now) keys)

abbrev pub revoked : UserApiKey → UserApiKey
revoked key = record key { revoked = true }

-- `revoke_key`
unfoldable pub revoke_key : ℕ → List UserApiKey → Outcome (Unit {0} × List UserApiKey)
revoke_key key_id keys = do
  found ← scalar_one_or_none (where_ (λ k. k.id == key_id) keys)
  row ← or_raise found (http 404)
  ok (tt, update (λ k. k.id == row.id) revoked keys)

-- the requests that write; one that fails leaves the table as it was
pub data Request : Type 0 where
  generates : FreshKey → Option String → Request
  renews : String → ℕ → ℕ → Request
  revokes : ℕ → Request

abbrev pub left {ℓ} :
    {A : Type ℓ} → List UserApiKey → Outcome (A × List UserApiKey) → List UserApiKey
left keys (ok (answer, after)) = after
left keys (err e) = keys

module _ (hash : String → String) where
  unfoldable pub serve : Request → List UserApiKey → List UserApiKey
  unfolding generate_key renew_key revoke_key
  serve (generates fresh label) keys = left keys (generate_key hash fresh label keys)
  serve (renews x_user_key tested_at now) keys =
      left keys (renew_key hash x_user_key tested_at now keys)
  serve (revokes key_id) keys = left keys (revoke_key key_id keys)

  unfoldable pub serve_all : List Request → List UserApiKey → List UserApiKey
  unfolding serve
  serve_all [] keys = keys
  serve_all (r ∷ rs) keys = serve_all rs (serve r keys)
