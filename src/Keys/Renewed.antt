-- ===== src/Keys/Renewed.antt =====
-- What a renewal of a key does, to the key and to the others.
use self_managed_agents.Base.{
  nat_eq, string_eq, ℕ, ◌+◌, ◌<◌, String, ◌≡◌, ◌≢◌, refl, sym, ap, subst, ◌∙◌, true, not, List, [],
  ◌∷◌, ◌==◌, where_, update, eq_iff, All, All-where, All-where_kept, ==_refl, where-update,
  update-eq_self, ltb, lt→ltb,
}
use self_managed_agents.Base.Outcome.{ok, http, ◌>>=◌, >>=-eq-ok, require}
use self_managed_agents.Subscription.Data.{UserApiKey, days}
use self_managed_agents.Keys.{find_key, verify_user_key, renewed, renew_key}
use self_managed_agents.Keys.Revoked.{UniqueIds, verify_user_key-eq_ok, where-write, only_row}

renew_key-eq_ok :
    (hash : String → String) (raw : String) (tested_at now : ℕ) (keys after : List UserApiKey)
    (key : UserApiKey)
    → renew_key hash raw tested_at now keys ≡ ok (key, after)
    → (old : UserApiKey) × (where_ (λ k. k.key_hash == hash raw) keys ≡ old ∷ [])
      × (key ≡ renewed now old)
      × (after ≡ update (λ k. k.id == old.id) (renewed now) keys)
unfolding renew_key
renew_key-eq_ok hash raw tested_at now keys after key went =
    let (old, passed, answer) = >>=-eq-ok (verify_user_key hash raw tested_at keys) _ went in
    (old, (verify_user_key-eq_ok hash raw tested_at keys old passed).0, cc, cc)

-- The row of another hash is not written.
others_kept :
    (h other : String) (now : ℕ) (keys : List UserApiKey) (old : UserApiKey)
    → UniqueIds keys
    → where_ (λ k. k.key_hash == h) keys ≡ old ∷ []
    → h ≢ other
    → where_ (λ k. k.key_hash == other) (update (λ k. k.id == old.id) (renewed now) keys)
      ≡ where_ (λ k. k.key_hash == other) keys
others_kept h other now keys old distinct one different =
    where-update (λ (k : UserApiKey). k.key_hash == other) (λ k. k.id == old.id) (renewed now) keys
      (λ k. refl)
    ∙ update-eq_self (λ k. k.id == old.id) (renewed now) (where_ (λ k. k.key_hash == other) keys)
        (strangers (where_ (λ k. k.key_hash == other) keys)
          (All-where (λ k. k.key_hash == other) keys)
          (All-where_kept _ (λ k. k.key_hash == other) keys
            (only_row (λ k. k.key_hash == h) old keys distinct one)))
  where
    own : old.key_hash ≡ h
    own =
        (eq_iff old.key_hash h).0
          (subst (All (λ (k : UserApiKey). (k.key_hash == h) ≡ true)) one
            (All-where (λ k. k.key_hash == h) keys)).0

    strangers :
        (ks : List UserApiKey)
        → All (λ k. (k.key_hash == other) ≡ true) ks
        → All (λ k. (k.id == old.id) ≡ true → k ≡ old) ks
        → All (λ k. (k.id == old.id) ≡ true → renewed now k ≡ k) ks
    strangers [] a b = tt
    strangers (k ∷ ks) (named, a) (only, b) = (
      λ same.
          let row : k ≡ old = only same in
          absurd (
            different (
              sym own
              ∙ ap (λ (k : UserApiKey). k.key_hash) (sym row)
              ∙ (eq_iff k.key_hash other).0 named)),
      strangers ks a b,
    )

-- Where the ids of keys are unique: a renewed key is accepted for 30 days from then, and every call
-- with a key of another hash is answered as before.
pub renew_key-extends :
    (hash : String → String) (raw : String) (tested_at now : ℕ) (keys after : List UserApiKey)
    (key : UserApiKey)
    → UniqueIds keys
    → renew_key hash raw tested_at now keys ≡ ok (key, after)
    → ((t : ℕ) → t < now + days 30 → verify_user_key hash raw t after ≡ ok key)
      × ((other : String) (t : ℕ)
          → hash raw ≢ hash other
          → verify_user_key hash other t after ≡ verify_user_key hash other t keys)
unfolding verify_user_key find_key
renew_key-extends hash raw tested_at now keys after key distinct went =
    let (old, one, new, written) = renew_key-eq_ok hash raw tested_at now keys after key went in
    let row : where_ (λ k. k.key_hash == hash raw) after ≡ key ∷ [] =
      ap (λ l. where_ (λ k. k.key_hash == hash raw) l) written
      ∙ where-write (hash raw) (renewed now) old.id keys old (λ k. refl) one
      ∙ rw (==_refl old.id) (ap (λ k. k ∷ []) (sym new)) in
    (
      λ t early. rw row (
          subst
            (λ (k : UserApiKey).
              (require (not k.revoked) (http 403) >>= λ _.
              require (ltb t k.expires_at) (http 403) >>= λ _. ok k)
              ≡ ok k)
            (sym new) (rw (lt→ltb t (now + days 30) early) refl)),
      λ other t different.
          rw (written, others_kept (hash raw) (hash other) now keys old distinct one different)
            refl,
    )
