-- ===== src/Subscription/Lookup.antt =====
-- `get_best_subscription_by_external_ids` of subscription_service.py: one subscription for the many
-- identifiers of a WhatsApp sender. UUID parsing and the SQL operator ILIKE are parameters.
pub mod Best
use self_managed_agents.Base.{
  nat_eq, string_eq, is_value, ℕ, zero, suc, String, Bool, true, false, not, ◌&&◌, ◌||◌, Option,
  none, some, List, [], ◌∷◌, ◌++◌, map, ◌==◌, min, ltb, leb, if◌then◌else◌, where_, contains,
  or_empty, length,
}
use self_managed_agents.Base.Text.{strip, codes}
use self_managed_agents.Phone.{normalize_phone}
use self_managed_agents.Subscription.Data.{
  Status, active, grace_period, User, UserSubscription, SubscriptionPlan, Db, is_usable,
  is_active_status,
}

pub record Row : Type 0 where
  pub user : User
  pub sub : UserSubscription
  pub plan : SubscriptionPlan

abbrev add_new : String → List String → List String
add_new x xs = if x == "" || contains x xs then xs else xs ++ x ∷ []

abbrev add_id : Option ℕ → List ℕ → List ℕ
add_id none ids = ids
add_id (some i) ids = if contains i ids then ids else ids ++ i ∷ []

-- the index of an identifier, `order.get(value, 999)`
abbrev pub index_of : ℕ → String → List String → ℕ
index_of i x [] = 999
index_of i x (y ∷ ys) = if y == x then i else index_of (suc i) x ys

module _ (uuid_of : String → Option ℕ) where
  -- `_subscription_identifier_variants`, continued from what has been collected
  pub identifier_variants_from : List String → List ℕ → List (Option String) → List String × List ℕ
  unfolding strip normalize_phone
  identifier_variants_from identifiers user_ids [] = (identifiers, user_ids)
  identifier_variants_from identifiers user_ids (raw ∷ rest) =
      let value = strip (or_empty raw) in
      let skip = value == "" in
      identifier_variants_from
        (if skip then identifiers else add_new (normalize_phone value) (add_new value identifiers))
        (if skip then user_ids else add_id (uuid_of value) user_ids) rest

  unfoldable pub identifier_variants : List (Option String) → List String × List ℕ
  unfolding identifier_variants_from
  identifier_variants external_ids = identifier_variants_from [] [] external_ids

-- `_match_rank`
unfoldable pub match_rank : List String → User → ℕ
unfolding strip normalize_phone
match_rank identifiers u =
    let rank = λ (v : String). index_of 0 v identifiers in
    min (rank (strip u.external_id)) (
      min (rank (normalize_phone u.external_id)) (
        min (rank (strip (or_empty u.phone_number))) (
          min (rank (normalize_phone (or_empty u.phone_number)))
            (min (rank (strip (or_empty u.wa_lid))) (rank (normalize_phone (or_empty u.wa_lid)))))))

-- `_score`; the last component is negated in the source, so the smaller rank is the better
pub record Score : Type 0 where
  pub paid : Bool
  pub usable : Bool
  pub active_ : Bool
  pub rank : ℕ

unfoldable pub score : List String → Row → Score
unfolding match_rank is_usable
score identifiers row = record {
  paid = not row.plan.is_trial;
  usable = is_usable row.sub;
  active_ = is_active_status row.sub.status;
  rank = match_rank identifiers row.user;
}

-- `a < b` on the tuples, component by component
abbrev before : Bool → Bool → Bool → Bool
before false true rest = true
before true false rest = false
before true true rest = rest
before false false rest = rest

unfoldable pub worse : Score → Score → Bool
worse a b =
    before a.paid b.paid (before a.usable b.usable (before a.active_ b.active_ (ltb b.rank a.rank)))

-- `max(rows, key=_score)`: the first of the best
unfoldable pub max_from : (Row → Score) → Row → List Row → Row
unfolding worse
max_from key best [] = best
max_from key best (r ∷ rs) = max_from key (if worse (key best) (key r) then r else best) rs

-- the join of the three tables over the users that a test picks
abbrev pub join_plans : User → UserSubscription → List SubscriptionPlan → List Row
join_plans u s [] = []
join_plans u s (p ∷ ps) =
    let rest = join_plans u s ps in
    if p.id == s.plan_id then record { user = u; sub = s; plan = p } ∷ rest else rest

abbrev pub join_subscriptions : User → List UserSubscription → List SubscriptionPlan → List Row
join_subscriptions u [] ps = []
join_subscriptions u (s ∷ ss) ps =
    let rest = join_subscriptions u ss ps in
    if s.user_id == u.id then join_plans u s ps ++ rest else rest

abbrev pub join : List User → List UserSubscription → List SubscriptionPlan → List Row
join [] ss ps = []
join (u ∷ us) ss ps = join_subscriptions u ss ps ++ join us ss ps

abbrev matches : List String → Option String → Bool
matches identifiers none = false
matches identifiers (some v) = contains v identifiers

unfoldable pub is_candidate : List String → List ℕ → User → Bool
is_candidate identifiers user_ids u =
    contains u.external_id identifiers
    || matches identifiers u.phone_number
    || matches identifiers u.wa_lid
    || contains u.id user_ids

-- "active" or "grace_period"
abbrev in_good_standing : Status → Bool
in_good_standing active = true
in_good_standing grace_period = true
in_good_standing _ = false

module _ (uuid_of : String → Option ℕ) (ilike : Option String → String → Bool) where
  -- the paid rows whose user is named like the sender; ILIKE is blind to case, so the lower-casing
  -- of the second pattern is left out
  unfoldable pub name_matches : String → Db → List Row
  name_matches name db =
      where_
        (λ r.
          not r.plan.is_trial
          && in_good_standing r.sub.status
          && (ilike r.user.full_name name || ilike (some r.user.email) name))
        (join db.users db.subscriptions db.plans)

  abbrev the_only : Row → List Row → Row
  the_only best (r ∷ []) = r
  the_only best _ = best

  unfoldable pub choose_best : List String → String → Db → List Row → Option Row
  choose_best identifiers name db [] = none
  choose_best identifiers name db (r ∷ rs) =
      let best = max_from (score identifiers) r rs in
      some (
        if best.plan.is_trial && leb 3 (length (codes name))
        then the_only best (name_matches name db)
        else best)

  unfoldable pub get_best_subscription_by_external_ids :
      List (Option String) → Option String → Db → Option Row
  unfolding strip
  get_best_subscription_by_external_ids external_ids sender_name db =
      let (identifiers, user_ids) = identifier_variants uuid_of external_ids in
      choose_best identifiers (strip (or_empty sender_name)) db
        (join (where_ (is_candidate identifiers user_ids) db.users) db.subscriptions db.plans)
