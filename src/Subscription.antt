-- ===== src/Subscription.antt =====
-- Users, plans, subscriptions and token accounting: app/models/subscription.py,
-- app/core/domain/subscription_service.py, app/core/domain/agent_quota_service.py and
-- app/api/subscriptions.py.
pub mod Data
pub mod Plans
pub mod Billing
pub mod Entitlements
pub mod Lookup
pub mod Provision
pub mod Quota
mod Tests
