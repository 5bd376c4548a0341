-- ===== src/Subscription/Billing/Balance.antt =====
-- The top-up rows are an exact audit trail of the quotas.
use self_managed_agents.Base.{
  map-update, nat_eq, string_eq, ℕ, ◌+◌, String, ◌≡◌, refl, Bool, true, false, List, [], ◌∷◌, map,
  where_, update, contains, Distinct, arith, ◌==◌, if◌then◌else◌, Bool-cases, inl, inr, ap,
}
use self_managed_agents.Base.Outcome.{ok}
use self_managed_agents.Subscription.Data.{
  trial, active, SubscriptionPlan, Db, TokenTopup, UserSubscription, ℤ, pos, negsuc,
}
use self_managed_agents.Subscription.Billing.{
  upgrade_subscription, topup_tokens, get_active_subscription, get_plan_by_code, upgraded,
  topped_up, upgrade_row, topup_row, Request, activate, upgrade, topup, handle, serve,
  activate_subscription, SubscriptionResponse, UpgradeResponse, TopUpResponse, new_subscription,
}
use self_managed_agents.Subscription.Billing.Consistency.{
  IsConsistent, ids, activate-eq-ok, upgrade-eq-ok, topup-eq-ok, committed_keeps,
  handle-IsConsistent,
}

-- the quota of the subscription with a given id
abbrev pub quota_at : ℕ → List UserSubscription → ℕ
quota_at sid [] = 0
quota_at sid (s ∷ rest) = if s.id == sid then s.token_quota else quota_at sid rest

abbrev pub pos_part : ℤ → ℕ
pos_part (pos n) = n
pos_part (negsuc n) = 0

abbrev pub neg_part : ℤ → ℕ
neg_part (pos n) = 0
neg_part (negsuc n) = n + 1

-- the positive and the negative grants that the top-up rows of a subscription record
abbrev pub granted : ℕ → List TokenTopup → ℕ
granted sid [] = 0
granted sid (t ∷ rest) =
    (if t.subscription_id == sid then pos_part t.tokens_added else 0) + granted sid rest

abbrev pub withdrawn : ℕ → List TokenTopup → ℕ
withdrawn sid [] = 0
withdrawn sid (t ∷ rest) =
    (if t.subscription_id == sid then neg_part t.tokens_added else 0) + withdrawn sid rest

module _ {ℓ} {A : Type ℓ} (g : A → ℕ) (p : A → Bool) where
  contains-of_where :
      (xs : List A) (y : A) (ys : List A) → where_ p xs ≡ y ∷ ys → contains (g y) (map g xs) ≡ true
  contains-of_where [] y ys h = cc
  contains-of_where (x ∷ xs) y ys h = elim (Bool-cases (p x)) [
    | inl yes_ ↦ ground (arith)
    | inr no_ ↦ ground (arith, contains-of_where xs y ys)
  ]

-- the row that a user's subscription is found in is the row of its id
quota_at_of_where :
    (p : UserSubscription → Bool) (subs : List UserSubscription) (sub : UserSubscription)
    (rest : List UserSubscription)
    → where_ p subs ≡ sub ∷ rest
    → Distinct (map (λ s. s.id) subs)
    → quota_at sub.id subs ≡ sub.token_quota
quota_at_of_where p [] sub rest h d = cc
quota_at_of_where p (s ∷ subs) sub rest h (new, d) = elim (Bool-cases (p s)) [
  | inl here ↦ ground arith
  | inr there ↦ ground (
    arith,
    quota_at_of_where p subs sub rest (ground arith) d,
    contains-of_where (λ (x : UserSubscription). x.id) p subs sub rest (ground arith),
  )
]

quota_at-update :
    (sid k quota : ℕ) (f : UserSubscription → UserSubscription) (subs : List UserSubscription)
    → ((s : UserSubscription) → (f s).id ≡ s.id)
    → ((s : UserSubscription) → (f s).token_quota ≡ quota)
    → contains sid (map (λ s. s.id) subs) ≡ true
    → quota_at sid (update (λ s. s.id == k) f subs)
      ≡ (if k == sid then quota else quota_at sid subs)
quota_at-update sid k quota f [] same set h = cc
quota_at-update sid k quota f (s ∷ subs) same set h =
    ground (arith, quota_at-update sid k quota f subs same set, same s, set s)

found_row :
    (user_id : ℕ) (db : Db) (sub : UserSubscription)
    → get_active_subscription user_id db ≡ ok sub
    → (rest : List UserSubscription) × (where_ (λ s. s.user_id == user_id) db.subscriptions
        ≡ sub ∷ rest)
unfolding get_active_subscription
found_row user_id db sub h = ground arith

-- For the subscription `sid`, quota and grants moved by the same amount.
abbrev pub IsBalanced : ℕ → Db → Db → Type 0
IsBalanced sid before after =
    quota_at sid after.subscriptions + withdrawn sid after.topups + granted sid before.topups
    ≡ quota_at sid before.subscriptions + withdrawn sid before.topups + granted sid after.topups

-- A write of a quota that is booked with its signed difference.
booked_write-IsBalanced :
    (sid : ℕ) (db db' : Db) (sub : UserSubscription) (quota : ℕ) (t : TokenTopup)
    (f : UserSubscription → UserSubscription)
    → ((s : UserSubscription) → (f s).id ≡ s.id)
    → ((s : UserSubscription) → (f s).token_quota ≡ quota)
    → contains sid (ids db) ≡ true
    → quota_at sub.id db.subscriptions ≡ sub.token_quota
    → t.subscription_id ≡ sub.id
    → quota + neg_part t.tokens_added ≡ sub.token_quota + pos_part t.tokens_added
    → db'.subscriptions ≡ update (λ s. s.id == sub.id) f db.subscriptions
    → db'.topups ≡ t ∷ db.topups
    → IsBalanced sid db db'
booked_write-IsBalanced sid db db' sub quota t f same set has at owner booked subs tops =
    rw (subs, tops)
      (ground (arith, quota_at-update sid sub.id quota f db.subscriptions same set has))

activated_row :
    (id now user_id : ℕ) (code : String) (db : Db) {r : SubscriptionResponse} {db' : Db}
    → activate_subscription id now user_id code db ≡ ok (r, db')
    → (plan : SubscriptionPlan) × (get_plan_by_code code db ≡ ok plan)
      × (db'.subscriptions
          ≡ new_subscription id now user_id plan (if plan.is_trial then trial else active)
            ∷ db.subscriptions)
unfolding activate_subscription
activated_row id now user_id code db h = ground arith

contains_ne :
    (a b : ℕ) (xs : List ℕ) → contains a xs ≡ false → contains b xs ≡ true → (a == b) ≡ false
contains_ne a b xs h k = elim (Bool-cases (a == b)) [
  | inl same ↦ let e : a ≡ b = ground arith in cc (ap (λ x. contains x xs) e)
  | inr other ↦ other
]

abbrev StaysBalanced : ℕ → Db → Db → Type 0
StaysBalanced sid db db' = IsBalanced sid db db' × (contains sid (ids db') ≡ true)

activate-StaysBalanced :
    (sid id now user_id : ℕ) (code : String) (db : Db) (r : SubscriptionResponse) (db' : Db)
    → contains sid (ids db) ≡ true
    → activate_subscription id now user_id code db ≡ ok (r, db')
    → StaysBalanced sid db db'
activate-StaysBalanced sid id now user_id code db r db' has h =
    let (_, fresh, new_ids, _, same) = activate-eq-ok id now user_id code db h in
    let (plan, _, subs) = activated_row id now user_id code db h in
    let other = contains_ne id sid (ids db) fresh has in
    (rw (subs, same, other) refl, rw (new_ids, other) has)

upgrade-StaysBalanced :
    (sid now user_id : ℕ) (code ref : String) (db : Db) (r : UpgradeResponse) (db' : Db)
    → IsConsistent db
    → contains sid (ids db) ≡ true
    → upgrade_subscription now user_id code ref db ≡ ok (r, db')
    → StaysBalanced sid db db'
unfolding upgraded
upgrade-StaysBalanced sid now user_id code ref db r db' c has h =
    let (sub, plan, active_, _, _, subs, tops) = upgrade-eq-ok now user_id code ref db h in
    let (rest, found) = found_row user_id db sub active_ in
    let at = quota_at_of_where (λ s. s.user_id == user_id) db.subscriptions sub rest found c.ids in
    (
      booked_write-IsBalanced sid db db' sub plan.token_quota (upgrade_row user_id plan ref sub)
          (upgraded now plan) (λ s. refl) (λ s. refl) has at refl (ground arith) subs tops,
      rw
          (
            subs,
            map-update (λ s. s.id) (λ s. s.id == sub.id) (upgraded now plan) db.subscriptions
                (λ s. refl),
          )
          has,
    )

topup-StaysBalanced :
    (sid user_id tokens : ℕ) (ref : String) (db : Db) (r : TopUpResponse) (db' : Db)
    → IsConsistent db
    → contains sid (ids db) ≡ true
    → topup_tokens user_id tokens ref db ≡ ok (r, db')
    → StaysBalanced sid db db'
unfolding topped_up
topup-StaysBalanced sid user_id tokens ref db r db' c has h =
    let (sub, active_, _, subs, tops) = topup-eq-ok user_id tokens ref db h in
    let (rest, found) = found_row user_id db sub active_ in
    let at = quota_at_of_where (λ s. s.user_id == user_id) db.subscriptions sub rest found c.ids in
    (
      booked_write-IsBalanced sid db db' sub (sub.token_quota + tokens)
          (topup_row user_id tokens ref sub) (topped_up (sub.token_quota + tokens)) (λ s. refl)
          (λ s. refl) has at refl (omega arith) subs tops,
      rw
          (
            subs,
            map-update (λ s. s.id) (λ s. s.id == sub.id) (topped_up (sub.token_quota + tokens))
                db.subscriptions (λ s. refl),
          )
          has,
    )

handle-StaysBalanced :
    (sid : ℕ) (r : Request) (db : Db)
    → IsConsistent db
    → contains sid (ids db) ≡ true
    → StaysBalanced sid db (handle r db)
unfolding handle
handle-StaysBalanced sid (activate id now user_id code) db c has =
    committed_keeps (StaysBalanced sid db) db (activate_subscription id now user_id code db)
      (refl, has) (λ r db' h. activate-StaysBalanced sid id now user_id code db r db' has h)
handle-StaysBalanced sid (upgrade now user_id code ref) db c has =
    committed_keeps (StaysBalanced sid db) db (upgrade_subscription now user_id code ref db)
      (refl, has) (λ r db' h. upgrade-StaysBalanced sid now user_id code ref db r db' c has h)
handle-StaysBalanced sid (topup user_id tokens ref) db c has =
    committed_keeps (StaysBalanced sid db) db (topup_tokens user_id tokens ref db) (refl, has)
      (λ r db' h. topup-StaysBalanced sid user_id tokens ref db r db' c has h)

-- For a subscription that exists in consistent tables, over any sequence of requests: the change of
-- its token quota is the sum of the signed grants that its new top-up rows record.
pub serve-IsBalanced :
    (sid : ℕ) (rs : List Request) (db : Db)
    → IsConsistent db
    → contains sid (ids db) ≡ true
    → IsBalanced sid db (serve rs db)
unfolding serve
serve-IsBalanced sid [] db c has = refl
serve-IsBalanced sid (r ∷ rs) db c has =
    let (step, still) = handle-StaysBalanced sid r db c has in
    omega (arith, serve-IsBalanced sid rs (handle r db) (handle-IsConsistent r db c) still)
