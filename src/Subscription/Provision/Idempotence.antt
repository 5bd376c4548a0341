-- ===== src/Subscription/Provision/Idempotence.antt =====
-- A user is provisioned once: a second call for the same identity finds what the first one made.
use self_managed_agents.Base.{
  ◌∙◌, nat_eq, string_eq, option_eq, is_value, ℕ, String, ◌≡◌, refl, ap, true, none, List, [], ◌∷◌,
  arith, ◌==◌, ==_refl, if◌then◌else◌, where_, where-update,
}
use self_managed_agents.Base.Outcome.{>>=-eq-ok, Outcome, ok}
use self_managed_agents.Subscription.Data.{User, UserSubscription, UserApiKey, Db}
use self_managed_agents.Subscription.Plans.{ensure_default_subscription_plans}
use self_managed_agents.Subscription.Plans.Seeding.{ensure_default_subscription_plans_idem}
use self_managed_agents.Subscription.Provision.{
  new_key, Fresh, has_identity, new_user, find_or_create_user, learn_wa_lid,
  create_trial_subscription, find_or_create_subscription, ensure_api_key, key_label,
  get_or_create_wa_user,
}

module _ (fresh : Fresh) (x : String) where
  new_user-has_identity : (id : ℕ) → has_identity x (new_user x id) ≡ true
  unfolding has_identity
  new_user-has_identity id = rw (==_refl x)

  -- The user is then the only one of the identity, and only the users have changed.
  find_or_create_user-eq-ok :
      (db : Db) {u : User} {db' : Db}
      → find_or_create_user fresh x db ≡ ok (u, db')
      → (where_ (has_identity x) db'.users ≡ u ∷ [])
        × (db'.plans ≡ db.plans)
        × (db'.subscriptions ≡ db.subscriptions)
        × (db'.api_keys ≡ db.api_keys)
  unfolding find_or_create_user
  find_or_create_user-eq-ok db h = (
    ground (arith, new_user-has_identity fresh.user_id),
    ground arith,
    ground arith,
    ground arith,
  )

  trial_user : ℕ → User → User
  trial_user id u = if u.id == id then record u { has_used_trial = true } else u

  -- The subscription is then the only one of the user, and the user is still the only one of the
  -- identity, with the trial booked where one was created.
  find_or_create_subscription-eq-ok :
      (u : User) (db : Db) {owner : User} {sub : UserSubscription} {db' : Db}
      → find_or_create_subscription fresh u db ≡ ok (owner, sub, db')
      → where_ (has_identity x) db.users ≡ u ∷ []
      → (where_ (has_identity x) db'.users ≡ owner ∷ [])
        × (where_ (λ s. s.user_id == owner.id) db'.subscriptions ≡ sub ∷ [])
        × (db'.plans ≡ db.plans)
        × (db'.api_keys ≡ db.api_keys)
  unfolding find_or_create_subscription create_trial_subscription has_identity
  find_or_create_subscription-eq-ok u db h found = (
    ground (
      arith,
      where-update (has_identity x) (λ (v : User). v.id == u.id)
          (λ v. record v { has_used_trial = true }) db.users (λ v. refl),
    ),
    ground arith,
    ground arith,
    ground arith,
  )

  ensure_api_key-eq-ok :
      (sub : UserSubscription) (db : Db) (keys : List UserApiKey) {db' : Db}
      → where_ (λ k. is_value k.label (key_label x)) db.api_keys ≡ keys
      → ensure_api_key fresh x sub db ≡ ok db'
      → (k : UserApiKey) × (where_ (λ k. is_value k.label (key_label x)) db'.api_keys ≡ k ∷ [])
        × (db'.plans ≡ db.plans)
        × (db'.users ≡ db.users)
        × (db'.subscriptions ≡ db.subscriptions)
  unfolding ensure_api_key
  ensure_api_key-eq-ok sub db [] e h = (
    new_key fresh x sub,
    ground (arith, ==_refl (key_label x)),
    ground arith,
    ground arith,
    ground arith,
  )
  ensure_api_key-eq-ok sub db (k ∷ []) e h =
      (k, ground arith, ground arith, ground arith, ground arith)
  ensure_api_key-eq-ok sub db (k ∷ l ∷ rest) e h = absurd (ground arith)

-- What the first call leaves in the tables.
record IsProvisioned (x : String) (user : User) (sub : UserSubscription) (db : Db) : Type 0 where
  seeded : ensure_default_subscription_plans db ≡ db
  one_user : where_ (has_identity x) db.users ≡ user ∷ []
  one_subscription : where_ (λ s. s.user_id == user.id) db.subscriptions ≡ sub ∷ []
  key : UserApiKey
  one_key : where_ (λ k. is_value k.label (key_label x)) db.api_keys ≡ key ∷ []

same_plans-seeded :
    (db db' : Db)
    → db'.plans ≡ (ensure_default_subscription_plans db).plans
    → ensure_default_subscription_plans db' ≡ db'
unfolding ensure_default_subscription_plans
same_plans-seeded db db' e =
    ap (λ ps. record db' { plans = ps })
      (rw e (ap (λ d. d.plans) (ensure_default_subscription_plans_idem db)))

again :
    (fresh : Fresh) (x : String) (user : User) (sub : UserSubscription) (db : Db)
    → IsProvisioned x user sub db
    → get_or_create_wa_user fresh x none db ≡ ok (user, sub, db)
unfolding get_or_create_wa_user find_or_create_user learn_wa_lid find_or_create_subscription
    ensure_api_key
again fresh x user sub db p =
    rw p.seeded (ground (arith, p.one_user, p.one_subscription, p.one_key))

stages-IsProvisioned :
    (fresh : Fresh) (x : String) (db : Db) (found owner : User) (sub : UserSubscription)
    (db₁ db₃ db₄ : Db)
    → find_or_create_user fresh x (ensure_default_subscription_plans db) ≡ ok (found, db₁)
    → find_or_create_subscription fresh found db₁ ≡ ok (owner, sub, db₃)
    → ensure_api_key fresh x sub db₃ ≡ ok db₄
    → IsProvisioned x owner sub db₄
stages-IsProvisioned fresh x db found owner sub db₁ db₃ db₄ e₁ e₃ e₄ =
    let (one, plans₁, _, _) = find_or_create_user-eq-ok fresh x _ e₁ in
    let (one', subs, plans₃, _) = find_or_create_subscription-eq-ok fresh x found db₁ e₃ one in
    let (k, keys, plans₄, users₄, subs₄) = ensure_api_key-eq-ok fresh x sub db₃ _ refl e₄ in
    record {
      seeded = same_plans-seeded db db₄ (plans₄ ∙ plans₃ ∙ plans₁);
      one_user = rw users₄ one';
      one_subscription = rw subs₄ subs;
      key = k;
      one_key = keys;
    }

stages :
    (fresh : Fresh) (x : String) (db : Db) {owner : User} {sub : UserSubscription} {db' : Db}
    → get_or_create_wa_user fresh x none db ≡ ok (owner, sub, db')
    → (found : User) × (db₁ : Db) × (db₃ : Db) × (find_or_create_user fresh x
          (ensure_default_subscription_plans db)
        ≡ ok (found, db₁))
      × (find_or_create_subscription fresh found db₁ ≡ ok (owner, sub, db₃))
      × (ensure_api_key fresh x sub db₃ ≡ ok db')
unfolding get_or_create_wa_user learn_wa_lid
stages fresh x db {owner} {sub} {db'} h =
    let r = >>=-eq-ok (find_or_create_user fresh x (ensure_default_subscription_plans db)) _ h in
    let s = >>=-eq-ok (find_or_create_subscription fresh r.0.0 r.0.1) _ r.2 in
    let t = >>=-eq-ok (ensure_api_key fresh x s.0.1 s.0.2) _ s.2 in
    let same : ◌≡◌ {A = Outcome (User × UserSubscription × Db)} (ok (s.0.0, s.0.1, t.0))
        (ok (owner, sub, db')) =
      t.2 in
    (r.0.0, r.0.1, s.0.2, r.1, ground (arith, s.1), ground (arith, t.1))

-- After a call for an identity that carries no LID, any later call for it, with whatever fresh ids
-- and time, returns the same user and subscription and changes no table.
pub get_or_create_wa_user_idem :
    (fresh later : Fresh) (x : String) (db : Db) {user : User} {sub : UserSubscription} {db' : Db}
    → get_or_create_wa_user fresh x none db ≡ ok (user, sub, db')
    → get_or_create_wa_user later x none db' ≡ ok (user, sub, db')
get_or_create_wa_user_idem fresh later x db {user} {sub} {db' = after} h =
    let (found, db₁, db₃, e₁, e₃, e₄) = stages fresh x db h in
    again later x user sub after
      (stages-IsProvisioned fresh x db found user sub db₁ db₃ after e₁ e₃ e₄)
