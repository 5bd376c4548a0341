-- ===== src/WaLink/Given.antt =====
-- app/core/domain/wa_link_service.py: which codes of a user can be claimed.
use self_managed_agents.Base.{nat_eq, string_eq, option_eq}
