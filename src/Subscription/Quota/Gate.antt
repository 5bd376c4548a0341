-- ===== src/Subscription/Quota/Gate.antt =====
-- What the quota gate lets through, and how recorded usage closes it.
use self_managed_agents.Base.{
  leb, is_value, string_eq, nat_eq, ℕ, ◌+◌, ◌≤◌, ◌<◌, ◌≡◌, ◌↔◌, ◌⊎◌, inl, inr, refl, true, false,
  Option, none, some, [], ◌∷◌, arith, where_, ◌==◌, Bool-cases, where-update,
}
use self_managed_agents.Base.Outcome.{Outcome, ok}
use self_managed_agents.Subscription.Data.{User, UserSubscription, Db, is_usable}
use self_managed_agents.Subscription.Quota.{
  AgentQuotaCheck, Agent, allowed, refused, is_quota_exhausted, is_quota_exempt_builder_agent,
  get_owner_subscription, check_owner, check_agent_quota, record_agent_token_usage,
  assert_token_quota_available, add_usage,
}

-- An agent that is not a builder runs exactly when its term has not passed, it has tokens left or no
-- limit, and the owner's subscription, if it is found, is usable and has tokens left or no limit.
abbrev pub HasRoom : ℕ → ℕ → Type 0
HasRoom used quota = (quota ≡ 0) ⊎ (used < quota)

abbrev pub OwnerCanRun : Option UserSubscription → Type 0
OwnerCanRun none = Unit
OwnerCanRun (some sub) = (is_usable sub ≡ true) × HasRoom sub.tokens_used sub.token_quota

abbrev pub InTerm : Option ℕ → ℕ → Type 0
InTerm none now = Unit
InTerm (some t) now = now ≤ t

check_owner-eq-allowed_iff :
    (o : Option UserSubscription) → (check_owner o ≡ allowed) ↔ OwnerCanRun o
unfolding check_owner is_quota_exhausted
check_owner-eq-allowed_iff none = (λ _. tt, λ _. refl)
check_owner-eq-allowed_iff (some sub) = (λ h. ground arith, λ h. ground arith)

pub check_agent_quota-eq-allowed_iff :
    (agent : Agent) (now : ℕ) (db : Db) (sub : Option UserSubscription)
    → get_owner_subscription agent db ≡ ok sub
    → is_quota_exempt_builder_agent agent ≡ false
    → (check_agent_quota agent now db ≡ ok allowed) ↔ (
        InTerm agent.active_until now
        × HasRoom agent.tokens_used agent.token_quota
        × OwnerCanRun sub)
unfolding check_agent_quota is_quota_exhausted
check_agent_quota-eq-allowed_iff agent now db sub found plain = (
  λ h. ground (arith, check_owner-eq-allowed_iff sub),
  λ h. ground (arith, check_owner-eq-allowed_iff sub),
)

-- the rows that a usage write leaves for the owner
add_usage-where :
    (user_id tokens : ℕ) (sub : UserSubscription) (db : Db)
    → where_ (λ s. s.user_id == user_id) db.subscriptions ≡ sub ∷ []
    → where_ (λ s. s.user_id == user_id) (add_usage tokens (some sub) db).subscriptions
      ≡ record sub { tokens_used = sub.tokens_used + tokens } ∷ []
add_usage-where user_id tokens sub db h = ground (
  arith,
  where-update (λ (s : UserSubscription). s.user_id == user_id) (λ s. s.id == sub.id)
      (λ s. record s { tokens_used = sub.tokens_used + tokens }) db.subscriptions (λ s. refl),
)

owner_row :
    (agent : Agent) (db : Db) (sub : UserSubscription)
    → get_owner_subscription agent db ≡ ok (some sub)
    → (u : User) × (where_ (λ u. is_value agent.owner_external_id u.external_id) db.users ≡ u ∷ [])
      × (where_ (λ s. s.user_id == u.id) db.subscriptions ≡ sub ∷ [])
unfolding get_owner_subscription
owner_row agent db sub h = ground arith

owner_after_usage :
    (agent : Agent) (tokens used : ℕ) (db : Db) (sub : UserSubscription)
    → get_owner_subscription agent db ≡ ok (some sub)
    → get_owner_subscription (record agent { tokens_used = used }) (add_usage tokens (some sub) db)
      ≡ ok (some (record sub { tokens_used = sub.tokens_used + tokens }))
unfolding get_owner_subscription
owner_after_usage agent tokens used db sub h =
    let (u, users, subs) = owner_row agent db sub h in
    ground (arith, users, add_usage-where u.id tokens sub db subs)

-- After a run's tokens are recorded for an agent that is not a builder, the agent and the owner's
-- subscription have both grown by them; nothing else of either has changed.
pub record_agent_token_usage-get_owner_subscription :
    (agent : Agent) (tokens : ℕ) (db : Db) (sub : UserSubscription) {agent' : Agent} {db' : Db}
    → get_owner_subscription agent db ≡ ok (some sub)
    → is_quota_exempt_builder_agent agent ≡ false
    → 0 < tokens
    → record_agent_token_usage agent tokens db ≡ ok (agent', db')
    → (agent' ≡ record agent { tokens_used = agent.tokens_used + tokens })
      × (get_owner_subscription agent' db'
          ≡ ok (some (record sub { tokens_used = sub.tokens_used + tokens })))
unfolding record_agent_token_usage
record_agent_token_usage-get_owner_subscription agent tokens db sub found plain some_ h = (
  ground arith,
  ground (arith, owner_after_usage agent tokens (agent.tokens_used + tokens) db sub found),
)

abbrev pub IsRefused : Outcome AgentQuotaCheck → Type 0
IsRefused (ok (refused why)) = Unit
IsRefused _ = ⊥

exhausted_owner :
    (agent : Agent) (used now : ℕ) (db : Db) (sub : UserSubscription)
    → get_owner_subscription (record agent { tokens_used = used }) db ≡ ok (some sub)
    → is_quota_exempt_builder_agent agent ≡ false
    → 0 < sub.token_quota
    → sub.token_quota ≤ sub.tokens_used
    → IsRefused (check_agent_quota (record agent { tokens_used = used }) now db)
unfolding check_agent_quota check_owner is_quota_exhausted is_quota_exempt_builder_agent
exhausted_owner agent used now db sub found plain limited reached = ground (arith, found)

-- Usage closes the gate: once the tokens recorded bring a limited owner subscription to its quota,
-- the next run of the agent is refused, at any time.
pub check_agent_quota-record_agent_token_usage :
    (agent : Agent) (tokens now : ℕ) (db : Db) (sub : UserSubscription) {agent' : Agent} {db' : Db}
    → get_owner_subscription agent db ≡ ok (some sub)
    → is_quota_exempt_builder_agent agent ≡ false
    → 0 < tokens
    → 0 < sub.token_quota
    → sub.token_quota ≤ sub.tokens_used + tokens
    → record_agent_token_usage agent tokens db ≡ ok (agent', db')
    → IsRefused (check_agent_quota agent' now db')
check_agent_quota-record_agent_token_usage agent tokens now db sub {db' = after} found plain some_
      limited reached h =
    let (same, owner) =
      record_agent_token_usage-get_owner_subscription agent tokens db sub found plain some_ h in
    rw same (
      exhausted_owner agent (agent.tokens_used + tokens) now after
        (record sub { tokens_used = sub.tokens_used + tokens }) (rw same at owner) plain limited
        reached)

-- The guard of the builder raises exactly when a quota is set, used up, and no grace is running.
pub assert_token_quota_available-eq-ok_iff :
    (now quota used : ℕ) (grace_until : Option ℕ)
    → (assert_token_quota_available now (some quota) used grace_until ≡ ok tt)
      ↔ ((used < quota) ⊎ ((t : ℕ) × (grace_until ≡ some t) × (now < t)))
unfolding assert_token_quota_available
assert_token_quota_available-eq-ok_iff now quota used none =
    (λ h. inl (ground arith), λ h. ground arith)
assert_token_quota_available-eq-ok_iff now quota used (some t) = (
  λ h. elim (Bool-cases (leb quota used)) [
    | inl e ↦ inr (t, refl, ground arith)
    | inr e ↦ inl (ground arith)
  ],
  λ h. ground arith,
)
