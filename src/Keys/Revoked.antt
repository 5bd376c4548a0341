-- ===== src/Keys/Revoked.antt =====
-- What becomes of a key that was revoked.
use self_managed_agents.Base.{
  nat_eq, string_eq, ℕ, String, ◌≡◌, refl, sym, ap, subst, ◌∙◌, Bool, true, false, not, Option,
  List, [], ◌∷◌, ◌==◌, where_, update, map, contains, arith, Bool-cases, inl, inr, eq_iff,
  nat_beq_iff, All, All-where, All-where_kept, All-imp, ==_refl, Distinct, where-singleton,
  where-nil_of_contains, where-update, map-update, leb, ltb, or_empty,
}
use self_managed_agents.Base.Outcome.{
  Outcome, ok, err, http, require, require-eq_ok, scalar_one_or_none, or_raise,
  scalar_one_or_none-some, or_raise-eq_ok, >>=-eq-ok, Holds, >>=-Holds,
}
use self_managed_agents.Base.Text.{len_text}
use self_managed_agents.Subscription.Data.{UserApiKey}
use self_managed_agents.Keys.{
  FreshKey, find_key, verify_user_key, new_key, generate_key, renewed, renew_key, revoked,
  revoke_key, Request, generates, renews, revokes, left, serve, serve_all,
}

-- The primary key of the table.
abbrev pub UniqueIds : List UserApiKey → Type 0
UniqueIds keys = Distinct (map (λ k. k.id) keys)

All-of-where {ℓ κ} :
    {A : Type ℓ} (R : A → Type κ) (p : A → Bool) (xs : List A)
    → All R (where_ p xs)
    → All (λ x. p x ≡ true → R x) xs
All-of-where R p [] h = tt
All-of-where R p (x ∷ xs) h = elim (Bool-cases (p x)) [
  | inl e ↦ let (here, rest) = rw e at h in ((λ _. here), All-of-where R p xs rest)
  | inr e ↦ ((λ k. absurd cc), All-of-where R p xs (rw e at h))
]

contains-picked :
    (p : UserApiKey → Bool) (a : UserApiKey) (keys : List UserApiKey)
    → where_ p keys ≡ a ∷ []
    → contains a.id (map (λ k. k.id) keys) ≡ true
contains-picked p a [] one = absurd cc
contains-picked p a (x ∷ keys) one = elim (Bool-cases (p x)) [
  | inl e ↦ let same : x ≡ a = head-eq (rw e at one) in rw (ap (λ k. k.id) same, ==_refl a.id) refl
  | inr e ↦ rw (contains-picked p a keys (rw e at one)) (ground arith)
]
  where
    head-eq : x ∷ where_ p keys ≡ a ∷ [] → x ≡ a
    head-eq h = cc

-- A row that a test picks is the only one of its id.
pub only_row :
    (p : UserApiKey → Bool) (a : UserApiKey) (keys : List UserApiKey)
    → UniqueIds keys
    → where_ p keys ≡ a ∷ []
    → All (λ k. (k.id == a.id) ≡ true → k ≡ a) keys
only_row p a keys distinct one =
    let (y, found) =
      where-singleton (λ (k : UserApiKey). k.id) a.id keys distinct
        (contains-picked p a keys one) in
    let only : All (λ k. (k.id == a.id) ≡ true → k ≡ y) keys =
      All-of-where (λ k. k ≡ y) (λ k. k.id == a.id) keys
        (subst (All (λ k. k ≡ y)) (sym found) (refl, tt)) in
    let first : a ≡ y =
      (subst (All (λ k. (k.id == a.id) ≡ true → k ≡ y)) one (All-where_kept _ p keys only)).0
        (==_refl a.id) in
    All-imp (λ k. (k.id == a.id) ≡ true → k ≡ y) (λ k. (k.id == a.id) ≡ true → k ≡ a)
      (λ k h same. h same ∙ sym first) keys only

-- A write by id that keeps the hashes, in the row of a hash.
pub where-write :
    (h : String) (f : UserApiKey → UserApiKey) (id : ℕ) (keys : List UserApiKey) (k : UserApiKey)
    → ((x : UserApiKey) → (f x).key_hash ≡ x.key_hash)
    → where_ (λ x. x.key_hash == h) keys ≡ k ∷ []
    → where_ (λ x. x.key_hash == h) (update (λ x. x.id == id) f keys)
      ≡ update (λ x. x.id == id) f (k ∷ [])
where-write h f id keys k hashes one =
    where-update (λ (x : UserApiKey). x.key_hash == h) (λ x. x.id == id) f keys
      (λ x. rw (hashes x) refl)
    ∙ ap (λ l. update (λ x. x.id == id) f l) one

module _ (hash : String → String) (raw : String) where
  -- The row of a raw key is there, and revoked.
  abbrev pub IsRevoked : List UserApiKey → Type 0
  IsRevoked keys =
      UniqueIds keys
      × ((k : UserApiKey) × (where_ (λ k. k.key_hash == hash raw) keys ≡ k ∷ [])
          × (k.revoked ≡ true))

  -- The write of a row keeps that where a row that is not revoked before is another one.
  write-IsRevoked :
      (f : UserApiKey → UserApiKey) (id : ℕ) (keys : List UserApiKey)
      → ((k : UserApiKey) → (f k).id ≡ k.id)
      → ((k : UserApiKey) → (f k).key_hash ≡ k.key_hash)
      → ((k : UserApiKey)
          → where_ (λ k. k.key_hash == hash raw) keys ≡ k ∷ []
          → k.revoked ≡ true
          → (k.id == id) ≡ true
          → (f k).revoked ≡ true)
      → IsRevoked keys
      → IsRevoked (update (λ k. k.id == id) f keys)
  write-IsRevoked f id keys ids hashes still (distinct, (k, one, dead)) = (
    rw (map-update (λ (k : UserApiKey). k.id) (λ k. k.id == id) f keys ids) distinct,
    elim (Bool-cases (k.id == id)) [
      | inl e ↦ (f k, where-write (hash raw) f id keys k hashes one ∙ rw e refl, still k one dead e)
      | inr e ↦ (k, where-write (hash raw) f id keys k hashes one ∙ rw e refl, dead)
    ],
  )

pub find_key-eq_ok :
    (hash : String → String) (raw : String) (keys : List UserApiKey) (k : UserApiKey)
    → find_key hash raw keys ≡ ok k
    → where_ (λ k. k.key_hash == hash raw) keys ≡ k ∷ []
unfolding find_key
find_key-eq_ok hash raw keys k went =
    let (found, read, raised) =
      >>=-eq-ok (scalar_one_or_none (where_ (λ k. k.key_hash == hash raw) keys))
        (λ o. or_raise o (http 401)) went in
    scalar_one_or_none-some (where_ (λ k. k.key_hash == hash raw) keys) k
      (read ∙ ap (λ o. ok o) (or_raise-eq_ok found (http 401) k raised))

pub verify_user_key-eq_ok :
    (hash : String → String) (raw : String) (now : ℕ) (keys : List UserApiKey) (k : UserApiKey)
    → verify_user_key hash raw now keys ≡ ok k
    → (where_ (λ k. k.key_hash == hash raw) keys ≡ k ∷ [])
      × (k.revoked ≡ false)
      × (ltb now k.expires_at ≡ true)
unfolding verify_user_key
verify_user_key-eq_ok hash raw now keys k went =
    let (a, found, rest) = >>=-eq-ok (find_key hash raw keys) _ went in
    let (_, live, rest) = >>=-eq-ok (require (not a.revoked) (http 403)) _ rest in
    let (_, early, answer) = >>=-eq-ok (require (ltb now a.expires_at) (http 403)) _ rest in
    let same : a ≡ k = cc in
    let live = require-eq_ok (not a.revoked) (http 403) live in
    let early = require-eq_ok (ltb now a.expires_at) (http 403) early in
    subst
      (λ (b : UserApiKey).
        (where_ (λ k. k.key_hash == hash raw) keys ≡ b ∷ [])
        × (b.revoked ≡ false)
        × (ltb now b.expires_at ≡ true))
      same (find_key-eq_ok hash raw keys a found, ground arith, early)

module _ (hash : String → String) (raw : String) where
  generate_key-IsRevoked :
      (fresh : FreshKey) (label : Option String) (keys : List UserApiKey)
      → IsRevoked hash raw keys
      → Holds (λ (key, after). IsRevoked hash raw after) (generate_key hash fresh label keys)
  unfolding generate_key
  generate_key-IsRevoked fresh label keys (distinct, (k, one, dead)) =
      let key = new_key hash fresh label in
      >>=-Holds _ (require (leb (len_text (or_empty label)) 255) (http 500)) _ λ _ _.
        >>=-Holds _ (require (not (contains key.id (map (λ k. k.id) keys))) (http 500)) _
          λ _ fresh_id.
            >>=-Holds _
              (require (not (contains key.key_hash (map (λ k. k.key_hash) keys))) (http 500)) _
              λ _ fresh_hash.
                let unused : contains key.key_hash (map (λ k. k.key_hash) keys) ≡ false =
                  ground arith in
                let new : contains key.id (map (λ k. k.id) keys) ≡ false = ground arith in
                ((new, distinct), (k, other-hash key keys k unused one, dead))
    where
      other-hash :
          (key : UserApiKey) (keys : List UserApiKey) (k : UserApiKey)
          → contains key.key_hash (map (λ k. k.key_hash) keys) ≡ false
          → where_ (λ k. k.key_hash == hash raw) keys ≡ k ∷ []
          → where_ (λ k. k.key_hash == hash raw) (key ∷ keys) ≡ k ∷ []
      other-hash key keys k unused one = elim (Bool-cases (key.key_hash == hash raw)) [
        | inl e ↦
            let same : key.key_hash ≡ hash raw = (eq_iff key.key_hash (hash raw)).0 e in
            let nobody : where_ (λ k. k.key_hash == hash raw) keys ≡ [] =
              where-nil_of_contains (λ (k : UserApiKey). k.key_hash) (hash raw) keys
                (subst (λ h. contains h (map (λ k. k.key_hash) keys) ≡ false) same unused) in
            absurd cc
        | inr e ↦ rw e one
      ]

  renew_key-IsRevoked :
      (other : String) (tested_at now : ℕ) (keys : List UserApiKey)
      → IsRevoked hash raw keys
      → Holds (λ (key, after). IsRevoked hash raw after) (renew_key hash other tested_at now keys)
  unfolding renew_key
  renew_key-IsRevoked other tested_at now keys (distinct, rest) =
      >>=-Holds _ (verify_user_key hash other tested_at keys) _ λ key passed.
        let (found, live, _) = verify_user_key-eq_ok hash other tested_at keys key passed in
        write-IsRevoked hash raw (renewed now) key.id keys (λ k. refl) (λ k. refl)
          (λ k one dead same.
            let only = only_row (λ k. k.key_hash == hash other) key keys distinct found in
            let row : k ≡ key =
              (subst (All (λ k. (k.id == key.id) ≡ true → k ≡ key)) one
                  (All-where_kept _ (λ k. k.key_hash == hash raw) keys only)).0
                same in
            absurd (clash k key row dead live))
          (distinct, rest)
    where
      clash : (k key : UserApiKey) → k ≡ key → k.revoked ≡ true → key.revoked ≡ false → ⊥
      clash k key row dead live = cc

  revoke_key-IsRevoked :
      (id : ℕ) (keys : List UserApiKey)
      → IsRevoked hash raw keys
      → Holds (λ (answer, after). IsRevoked hash raw after) (revoke_key id keys)
  unfolding revoke_key
  revoke_key-IsRevoked id keys good =
      >>=-Holds _ (scalar_one_or_none (where_ (λ k. k.id == id) keys)) _ λ found _.
        >>=-Holds _ (or_raise found (http 404)) _ λ row _.
          write-IsRevoked hash raw revoked row.id keys (λ k. refl) (λ k. refl) (λ k _ _ _. refl)
            good

  left-IsRevoked {ℓ} :
      {A : Type ℓ} (keys : List UserApiKey) (o : Outcome (A × List UserApiKey))
      → IsRevoked hash raw keys
      → Holds (λ (answer, after). IsRevoked hash raw after) o
      → IsRevoked hash raw (left keys o)
  left-IsRevoked keys (ok (answer, after)) good h = h
  left-IsRevoked keys (err e) good h = good

  serve_all-IsRevoked :
      (rs : List Request) (keys : List UserApiKey)
      → IsRevoked hash raw keys
      → IsRevoked hash raw (serve_all hash rs keys)
  unfolding serve_all serve
  serve_all-IsRevoked [] keys good = good
  serve_all-IsRevoked (generates fresh label ∷ rs) keys good =
      serve_all-IsRevoked rs _
        (left-IsRevoked keys _ good (generate_key-IsRevoked fresh label keys good))
  serve_all-IsRevoked (renews other tested_at now ∷ rs) keys good =
      serve_all-IsRevoked rs _
        (left-IsRevoked keys _ good (renew_key-IsRevoked other tested_at now keys good))
  serve_all-IsRevoked (revokes id ∷ rs) keys good =
      serve_all-IsRevoked rs _ (left-IsRevoked keys _ good (revoke_key-IsRevoked id keys good))

  refused :
      (now : ℕ) (keys : List UserApiKey)
      → IsRevoked hash raw keys
      → verify_user_key hash raw now keys ≡ err (http 403)
  unfolding verify_user_key find_key
  refused now keys (_, (k, one, dead)) = rw (one, dead) refl

-- Where the ids of keys are unique, once the key is revoked that a user calls with, then whatever is
-- requested: every later call with it is refused with 403, and so is every renewal.
pub revoke_key-final :
    (hash : String → String) (raw : String) (k : UserApiKey) (keys after : List UserApiKey)
    (rs : List Request)
    → UniqueIds keys
    → where_ (λ k. k.key_hash == hash raw) keys ≡ k ∷ []
    → revoke_key k.id keys ≡ ok (tt, after)
    → ((now : ℕ) → verify_user_key hash raw now (serve_all hash rs after) ≡ err (http 403))
      × ((tested_at now : ℕ)
          → renew_key hash raw tested_at now (serve_all hash rs after) ≡ err (http 403))
unfolding revoke_key renew_key
revoke_key-final hash raw k keys after rs distinct one went =
    let (found, read, rest) =
      >>=-eq-ok (scalar_one_or_none (where_ (λ k'. k'.id == k.id) keys)) _ went in
    let (row, raised, answer) = >>=-eq-ok (or_raise found (http 404)) _ rest in
    let picked : where_ (λ x. x.id == k.id) keys ≡ row ∷ [] =
      scalar_one_or_none-some (where_ (λ x. x.id == k.id) keys) row
        (read ∙ ap (λ o. ok o) (or_raise-eq_ok found (http 404) row raised)) in
    let same : (row.id == k.id) ≡ true =
      (subst (All (λ x. (x.id == k.id) ≡ true)) picked (All-where (λ x. x.id == k.id) keys)).0 in
    let own : (k.id == row.id) ≡ true =
      (nat_beq_iff k.id row.id).1 (sym ((nat_beq_iff row.id k.id).0 same)) in
    let written : update (λ x. x.id == row.id) revoked keys ≡ after = cc in
    let good : IsRevoked hash raw after = subst (IsRevoked hash raw) written (
      rw (map-update (λ (x : UserApiKey). x.id) (λ x. x.id == row.id) revoked keys (λ x. refl))
          distinct,
      (revoked k, where-write (hash raw) revoked row.id keys k (λ x. refl) one ∙ rw own refl, refl),
    ) in
    let later = serve_all-IsRevoked hash raw rs after good in
    (
      λ now. refused hash raw now _ later,
      λ tested_at now. rw (refused hash raw tested_at _ later) refl,
    )
