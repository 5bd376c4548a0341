-- ===== src/Agents/Renewed.antt =====
-- The renewal of an agent and the quota gate of app/core/domain/agent_quota_service.py together.
use self_managed_agents.Base.{
  ℕ, ◌+◌, ◌≤◌, ◌≡◌, ◌↔◌, inl, inr, refl, sym, subst, false, Option, List, arith, zero, suc,
}
use self_managed_agents.Base.Outcome.{ok, >>=-eq-ok}
use self_managed_agents.Subscription.Data.{UserSubscription, Db, days}
use self_managed_agents.Subscription.Quota.{
  allowed, check_agent_quota, get_owner_subscription, is_quota_exempt_builder_agent,
}
use self_managed_agents.Subscription.Quota.Gate.{
  OwnerCanRun, HasRoom, check_agent_quota-eq-allowed_iff,
}
use self_managed_agents.Agents.{Agent, quota_view, get_active_agent, on_agent, renew_agent, renewed}

has_room : (quota : ℕ) → HasRoom 0 quota
has_room zero = inl refl
has_room (suc n) = inr (omega arith)

renew_agent-eq_ok :
    (id now : ℕ) (agents after : List Agent) (a : Agent)
    → renew_agent id now agents ≡ ok (a, after)
    → (old : Agent) × (a ≡ renewed now old)
unfolding renew_agent on_agent
renew_agent-eq_ok id now agents after a went =
    let (old, _, saved) = >>=-eq-ok (get_active_agent id agents) _ went in (old, cc)

-- For an agent that is no builder: after a renewal, until its period is over, the gate lets it run
-- exactly when the owner's subscription, if one is found, is usable and has tokens left or no limit,
-- however many tokens the agent had used before.
pub renew_agent-allowed_iff :
    (id now later : ℕ) (agents after : List Agent) (a : Agent) (db : Db)
    (sub : Option UserSubscription)
    → renew_agent id now agents ≡ ok (a, after)
    → is_quota_exempt_builder_agent (quota_view a) ≡ false
    → get_owner_subscription (quota_view a) db ≡ ok sub
    → later ≤ now + days a.quota_period_days
    → (check_agent_quota (quota_view a) later db ≡ ok allowed) ↔ OwnerCanRun sub
renew_agent-allowed_iff id now later agents after a db sub went plain owner early =
    let (old, same) = renew_agent-eq_ok id now agents after a went in
    let gate = check_agent_quota-eq-allowed_iff (quota_view a) later db sub owner plain in
    let in_term : later ≤ a.active_until =
      subst (λ (b : Agent). later ≤ now + days b.quota_period_days → later ≤ b.active_until)
        (sym same) (λ h. h) early in
    let room : HasRoom a.tokens_used a.token_quota =
      subst (λ (b : Agent). HasRoom b.tokens_used b.token_quota) (sym same)
        (has_room old.token_quota) in
    (λ h. (gate.0 h).2, λ h. gate.1 (in_term, room, h))
