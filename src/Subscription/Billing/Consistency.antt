-- ===== src/Subscription/Billing/Consistency.antt =====
-- The unique indexes that the endpoints rely on and keep: one subscription to a user, and one top-up
-- row to a payment reference.
use self_managed_agents.Base.{
  nat_eq, string_eq, Bool, ◌+◌, ℕ, String, ◌≡◌, refl, false, List, [], ◌∷◌, map, arith, update,
  contains, Distinct, map-update, contains-where_nil, ◌==◌,
}
use self_managed_agents.Base.Outcome.{Outcome, ok, err}
use self_managed_agents.Subscription.Data.{SubscriptionPlan, Db, UserSubscription, TokenTopup}
use self_managed_agents.Subscription.Billing.{
  activate_subscription, upgrade_subscription, topup_tokens, upgraded, topped_up, flush_accepts,
  check_reference_id_unique, get_active_subscription, get_plan_by_code, upgrade_row, topup_row,
  Request, activate, upgrade, topup, committed, handle, serve, SubscriptionResponse,
  UpgradeResponse, TopUpResponse,
}

abbrev pub ids : Db → List ℕ
ids db = map (λ s. s.id) db.subscriptions

abbrev pub user_ids : Db → List ℕ
user_ids db = map (λ s. s.user_id) db.subscriptions

abbrev pub references : Db → List String
references db = map (λ t. t.reference_id) db.topups

pub record IsConsistent (db : Db) : Type 0 where
  pub ids : Distinct (ids db)
  pub user_ids : Distinct (user_ids db)
  pub references : Distinct (references db)

check_reference_id_unique-eq-ok :
    (r : String) (db : Db)
    → check_reference_id_unique r db ≡ ok tt
    → contains r (references db) ≡ false
unfolding check_reference_id_unique
check_reference_id_unique-eq-ok r db h =
    contains-where_nil (λ t. t.reference_id) r db.topups (ground arith)

-- What a successful activation has found and done.
pub activate-eq-ok :
    (id now user_id : ℕ) (code : String) (db : Db) {r : SubscriptionResponse} {db' : Db}
    → activate_subscription id now user_id code db ≡ ok (r, db')
    → (contains user_id (user_ids db) ≡ false)
      × (contains id (ids db) ≡ false)
      × (ids db' ≡ id ∷ ids db)
      × (user_ids db' ≡ user_id ∷ user_ids db)
      × (db'.topups ≡ db.topups)
unfolding activate_subscription flush_accepts
activate-eq-ok id now user_id code db h = (
  contains-where_nil (λ s. s.user_id) user_id db.subscriptions (ground arith),
  ground arith,
  ground arith,
  ground arith,
  ground arith,
)

-- What a successful upgrade has found and done.
pub upgrade-eq-ok :
    (now user_id : ℕ) (code ref : String) (db : Db) {r : UpgradeResponse} {db' : Db}
    → upgrade_subscription now user_id code ref db ≡ ok (r, db')
    → (sub : UserSubscription) × (plan : SubscriptionPlan) × (get_active_subscription user_id db
        ≡ ok sub)
      × (get_plan_by_code code db ≡ ok plan)
      × (check_reference_id_unique ref db ≡ ok tt)
      × (db'.subscriptions ≡ update (λ s. s.id == sub.id) (upgraded now plan) db.subscriptions)
      × (db'.topups ≡ upgrade_row user_id plan ref sub ∷ db.topups)
unfolding upgrade_subscription
upgrade-eq-ok now user_id code ref db h = ground arith

-- What a successful top-up has found and done.
pub topup-eq-ok :
    (user_id tokens : ℕ) (ref : String) (db : Db) {r : TopUpResponse} {db' : Db}
    → topup_tokens user_id tokens ref db ≡ ok (r, db')
    → (sub : UserSubscription) × (get_active_subscription user_id db ≡ ok sub)
      × (check_reference_id_unique ref db ≡ ok tt)
      × (db'.subscriptions
          ≡ update (λ s. s.id == sub.id) (topped_up (sub.token_quota + tokens)) db.subscriptions)
      × (db'.topups ≡ topup_row user_id tokens ref sub ∷ db.topups)
unfolding topup_tokens
topup-eq-ok user_id tokens ref db h = ground arith

-- A write that keeps the keys of the subscriptions, with one new payment row.
keyed_write-IsConsistent :
    (db db' : Db) (t : TokenTopup) (p : UserSubscription → Bool)
    (f : UserSubscription → UserSubscription)
    → ((s : UserSubscription) → (f s).id ≡ s.id)
    → ((s : UserSubscription) → (f s).user_id ≡ s.user_id)
    → db'.subscriptions ≡ update p f db.subscriptions
    → db'.topups ≡ t ∷ db.topups
    → contains t.reference_id (references db) ≡ false
    → IsConsistent db
    → IsConsistent db'
keyed_write-IsConsistent db db' t p f same_id same_user subs tops fresh c = record {
  ids = rw (subs, map-update (λ s. s.id) p f db.subscriptions same_id) c.ids;
  user_ids = rw (subs, map-update (λ s. s.user_id) p f db.subscriptions same_user) c.user_ids;
  references = rw tops (fresh, c.references);
}

activate-IsConsistent :
    (id now user_id : ℕ) (code : String) (db : Db) {r : SubscriptionResponse} {db' : Db}
    → activate_subscription id now user_id code db ≡ ok (r, db')
    → IsConsistent db
    → IsConsistent db'
activate-IsConsistent id now user_id code db h c =
    let (fresh_user, fresh_id, new_ids, new_users, same) =
      activate-eq-ok id now user_id code db h in
    record {
      ids = rw new_ids (fresh_id, c.ids);
      user_ids = rw new_users (fresh_user, c.user_ids);
      references = rw same c.references;
    }

upgrade-IsConsistent :
    (now user_id : ℕ) (code ref : String) (db : Db) {r : UpgradeResponse} {db' : Db}
    → upgrade_subscription now user_id code ref db ≡ ok (r, db')
    → IsConsistent db
    → IsConsistent db'
unfolding upgraded
upgrade-IsConsistent now user_id code ref db {db' = after} h c =
    let (sub, plan, _, _, fresh, subs, tops) = upgrade-eq-ok now user_id code ref db h in
    keyed_write-IsConsistent db after (upgrade_row user_id plan ref sub) (λ s. s.id == sub.id)
      (upgraded now plan) (λ s. refl) (λ s. refl) subs tops
      (check_reference_id_unique-eq-ok ref db fresh) c

pub topup-IsConsistent :
    (user_id tokens : ℕ) (ref : String) (db : Db) {r : TopUpResponse} {db' : Db}
    → topup_tokens user_id tokens ref db ≡ ok (r, db')
    → IsConsistent db
    → IsConsistent db'
unfolding topped_up
topup-IsConsistent user_id tokens ref db {db' = after} h c =
    let (sub, _, fresh, subs, tops) = topup-eq-ok user_id tokens ref db h in
    keyed_write-IsConsistent db after (topup_row user_id tokens ref sub) (λ s. s.id == sub.id)
      (topped_up (sub.token_quota + tokens)) (λ s. refl) (λ s. refl) subs tops
      (check_reference_id_unique-eq-ok ref db fresh) c

-- A property that every successful request keeps is kept by `committed`, error or not.
pub committed_keeps {ℓ κ} :
    {A : Type ℓ} (P : Db → Type κ) (db : Db) (o : Outcome (A × Db))
    → P db
    → ((a : A) (db' : Db) → o ≡ ok (a, db') → P db')
    → P (committed db o)
committed_keeps P db (ok (a, db')) h step = step a db' refl
committed_keeps P db (err e) h step = h

pub handle-IsConsistent : (r : Request) (db : Db) → IsConsistent db → IsConsistent (handle r db)
unfolding handle
handle-IsConsistent (activate id now user_id code) db c =
    committed_keeps IsConsistent db _ c
      (λ _ db' h. activate-IsConsistent id now user_id code db h c)
handle-IsConsistent (upgrade now user_id code ref) db c =
    committed_keeps IsConsistent db _ c
      (λ _ db' h. upgrade-IsConsistent now user_id code ref db h c)
handle-IsConsistent (topup user_id tokens ref) db c =
    committed_keeps IsConsistent db _ c (λ _ db' h. topup-IsConsistent user_id tokens ref db h c)

-- From consistent tables, any sequence of requests, whichever succeed, leaves at most one
-- subscription to a user and at most one top-up row to a payment reference, and distinct ids.
pub serve-IsConsistent :
    (rs : List Request) (db : Db) → IsConsistent db → IsConsistent (serve rs db)
unfolding serve
serve-IsConsistent [] db c = c
serve-IsConsistent (r ∷ rs) db c = serve-IsConsistent rs (handle r db) (handle-IsConsistent r db c)
