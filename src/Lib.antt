-- ===== src/Lib.antt =====
-- A model of the agent platform's server (app/, in Python) and its theorems: who may run an agent and on
-- whose tokens, how agents and keys are kept, how a sender comes to an account, how runs of one session
-- are kept apart and wait for their user, what is scheduled, what the model is shown of a conversation
-- and what its run leaves behind, what is remembered, how senders are held to a rate, and how events
-- reach their readers.
--
-- Parts and files
--   Subscription/Data          app/models/subscription.py, app/models/user_api_key.py: the rows and tables
--   Subscription/Plans         ensure_default_subscription_plans of app/core/domain/subscription_service.py
--   Subscription/Billing       app/api/subscriptions.py: activate, upgrade, topup and status
--   Subscription/Provision     get_or_create_wa_user and the lookups by identity (subscription_service.py)
--   Subscription/Lookup        get_best_subscription_by_external_ids (subscription_service.py)
--   Subscription/Entitlements  validate_agent_entitlements, check_can_create_agent (subscription_service.py)
--   Subscription/Quota         app/core/domain/agent_quota_service.py and assert_token_quota_available
--   SessionLock                app/core/engine/session_lock.py
--   Scheduler                  app/core/workers/scheduler_service.py, app/models/scheduled_job.py;
--                              Scheduler/Reminders: app/core/tools/scheduler_tool.py
--   Context                    app/core/engine/context_service.py, app/models/message.py
--   Transcript                 app/core/engine/result_parser.py; Transcript/Input: app/core/engine/agent_input.py
--   Accounts                   app/api/users.py
--   Agents                     app/api/agents.py, app/schemas/agent.py, app/models/agent.py; Agents/Config:
--                              app/core/config_schema.py
--   Keys                       app/api/auth.py, app/deps.py, app/models/user_api_key.py
--   Interrupts                 app/core/engine/interrupt_store.py, app/core/engine/agent_hitl.py
--   Capabilities               app/core/engine/tool_capability_registry.py
--   BuilderJson                app/core/tools/builder_json.py
--   WaLink                     app/core/domain/wa_link_service.py, app/models/wa_link_code.py
--   Windows                    app/core/engine/wa_outbound_guard.py and the spam and duplicate tests of
--                              app/api/wa_helpers.py
--   DevTrial                   app/core/domain/wa_dev_trial_service.py
--   Memory                     app/core/domain/memory_service.py, app/models/memory.py
--   EventBus                   app/core/workers/event_bus.py
--   Phone                      app/core/utils/phone_utils.py, app/core/utils/wa_identity.py
--   Base                       lists, tables, dictionaries, JSON, texts and results that these share
-- Files named Tests hold runs on concrete data; the other files below a part hold its theorems.
--
-- How they interact: a message from WhatsApp is dropped if it was seen before or its sender writes too
-- often (Windows), its sender is resolved to a phone (Phone) and may claim a dashboard account (WaLink,
-- Accounts) or name the agent to be tried by its code (DevTrial). The sender is provisioned
-- (Provision, which seeds the plans first) or looked up (Lookup); the quota gate reads the agent and
-- its owner's subscription (Quota) before a run, the run holds the lock of its session (SessionLock),
-- reads its history (Context) and its memories (Memory), starts from the input that Transcript/Input
-- builds of them, and what it answers is parsed into rows (Transcript/Parse); its tokens are recorded
-- afterwards (Quota). Payments change the same subscriptions (Billing). Agents are
-- made, renewed and deleted over the API (Agents), whose renewal the quota gate sees. The prompt of a
-- run and the check of its reply name the same capabilities (Capabilities); a run that must ask its
-- user is paused and resumed by a later message (Interrupts), and a resumed thread is parsed as a run is
-- (Transcript/Parse). Users call with their keys (Keys), of which provisioning makes the first. The
-- builder reads the JSON that its model writes (BuilderJson). An agent sets and cancels reminders
-- (Scheduler/Reminders); the scheduler sends due jobs and publishes them on the event bus.
--
-- Modelling
--   State is passed explicitly. A table is the list of its rows, the newest first; a query is a filter,
--   and scalar_one and its kin raise on too many or too few rows as they do in the source. A handler
--   that raises changes no table, as get_db of app/database.py rolls back. The unique indexes of the
--   migrations stand as hypotheses on the tables at the start.
--   Ids (UUIDs) and times (seconds) are natural numbers; fresh ids, the hash of a new key and the clock
--   are arguments. A signed column is an integer of its own (Subscription/Data). Columns are
--   unbounded, where the database holds 64 bits.
--   Objects with an identity (locks, queues) stand in a heap, by number, so aliasing is kept. Asking
--   for a lock, getting it, giving up, leaving, eviction and cancellation are the steps of a relation
--   (SessionLock/Exclusion), and interleavings are sequences of them.
--   Texts are native strings; strip knows ASCII blanks and a few others, case folding and digits are
--   ASCII. In BuilderJson a text is the list of its code points. Texts for people in errors and
--   responses are left out.
--   Parameters: uuid.UUID as a parser and the SQL operator ILIKE (Lookup), croniter and the delivery of
--   a message (Scheduler), how a cancelled task unwinds (SessionLock), the rows locked by other
--   transactions (Scheduler), what Redis answers (Windows), the codes drawn at random (WaLink, DevTrial),
--   what ORDER BY makes of rows that are equal in its columns (Agents, Context; Base/Order has what is
--   asked of it), what pydantic takes for a bool (Agents/Config), what the WhatsApp service answers
--   (Agents), the hash of a key (Keys), re.search (Capabilities), the language models that read and word
--   a question and the graph that is resumed (Interrupts), and how str shows a value that is no text
--   (DevTrial, Windows). What the text of a schedule parses to is an argument of the reminder tools.
--   Recursion is structural. The search for a free label runs on fuel, one try more than there are
--   jobs, so more labels than can be taken; the 40 draws of a trial code are the number of the source.
--   The windows in memory are compared to a log of events in which nothing is pruned (Windows/Exact).
--
-- Not modelled: the agent runner, prompts and tools (app/core/engine, app/core/tools), which call
-- language models and services; the HTTP layer but for the endpoints of billing, users, agents and keys
-- and the windows of wa_helpers.py (app/api); the texts of the capabilities for people; the repair of
-- JSON by patterns that look behind (app/core/tools/builder_json.py); the keyword test for spam
-- requests (wa_outbound_guard.py); files, embeddings and sandboxes (app/core/domain, app/core/infra);
-- the Go services and the user interface; the worker loop of the scheduler, its advisory lock and quiet
-- hours; in Memory, the compaction of texts, versioned keys, layers and extraction.
pub mod Accounts
pub mod Agents
pub mod Base
pub mod BuilderJson
pub mod Capabilities
pub mod Context
pub mod DevTrial
pub mod EventBus
pub mod Interrupts
pub mod Keys
pub mod Memory
pub mod Phone
pub mod Scheduler
pub mod SessionLock
pub mod Subscription
pub mod Transcript
pub mod WaLink
pub mod Windows
