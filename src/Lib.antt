-- ===== src/Lib.antt =====
-- The core of the LLM dashboard, verified: the gateway that governs, counts and logs calls of tenants to
-- language models, the billing that turns the log into invoices, the accounts and keys that say who calls,
-- the prompts that are rendered for calls, and the event bus that announces them.
--
-- The parts and how they interact. A call enters `log_call` of modules/gateway/services/gateway_service.py. It
-- is sanitized, looked up in the semantic cache, and evaluated against the governance rules of its tenant, which
-- come from the rule cache or the table, with the usage counters that core/redis.py keeps. A call that goes
-- through is written to llm_token_log and counted. The smart router may name a cheaper model when no rule
-- triggers. Billing reads the log by month, applies the tenant's contract, writes an invoice with its lines, and
-- freezes it; credits change drafts, credit notes go beside finalized invoices. In front of all endpoints stands a
-- rate limiter; when a provider fails, a fallback model is chosen. An endpoint takes its user and tenant from the
-- request's token, API key or virtual key.
--
-- The files.
--   Base (Tests, Lists, Rows, Int): Boolean tests, Python's list operations, tables, integers for amounts of money.
--   Quota: core/redis.py, the counters (increment_token_usage, increment_cost_usage, get_current_usage,
--     reset_tenant_quota). Redis is a map from keys to values with an expiry; a clock gives second, day and month.
--   Gateway/Rules: _apply_rule and the loop over the rules. Gateway/RuleStore: the table of
--     modules/gateway/repositories/rule_repository.py, the updates of
--     modules/gateway/services/governance_service.py, _rule_to_dict and _dict_to_rule_proxy.
--   Gateway/SmartRouter: modules/gateway/services/smart_router.py. Gateway/Security: _sanitize_request and
--     modules/gateway/services/security_service.py.
--   Gateway/World: the state that a call reads and writes. Gateway/Governance: evaluate_governance and
--     _load_rules_for_tenant. Gateway/LogCall: log_call and its helpers, _persist_log_async of
--     modules/gateway/tasks.py; its children hold the proofs, up to sequences of calls (LogCall/Sequence).
--   Gateway/Fallback: the fallback chains and the circuit breaker of modules/gateway/services/mode_router.py, and
--     resolve_fallback. RateLimit: the middleware of core/rate_limit.py.
--   Billing/Contracts: modules/billing/repositories/contract_repository.py. Billing/Books: the tables and
--     modules/billing/repositories/billing_repository.py. Billing/Engine: the usage queries, _apply_contract and
--     _build_line_items. Billing/Invoices: generate_monthly_invoice, generate_all_for_month and finalize_invoice of
--     modules/billing/services/billing_service.py. Billing/Credits: modules/billing/services/credit_service.py.
--   Auth: modules/auth/service.py and modules/auth/dependencies.py. Auth/Accounts: users, passwords and
--     logins. Auth/Tokens: access and refresh tokens and the blacklist of core/redis.py. Auth/Keys: API keys.
--     Auth/VirtualKeys: virtual keys with their budgets; Auth/ModelList: the text that holds their models.
--     Auth/Access: the user, the roles and the tenant of a request.
--   Prompts: modules/prompts/repository.py and modules/prompts/service.py, with Prompts/Render for the rendering.
--     Prompts/View is what a prompt's callers see of its versions, Prompts/Refines that the tables implement it.
--   SemanticCache: the SemanticCache of core/response_cache.py. EventBus: core/event_bus.py;
--     EventBus/Turns is about the turns of the event loop.
--   Tenants: modules/tenants/service.py. Tracing: modules/tracing/repositories/session_repository.py and
--     SessionService of modules/tracing/service.py. Tracing/Experiments: ExperimentService and
--     modules/tracing/repositories/experiment_repository.py.
--   Tests: the definitions and the theorems at concrete inputs.
--
-- How the code is represented. State is passed explicitly; a table is a list of rows, Redis a function. An
-- exception is `none` or a constructor of a result type. New identifiers are numbers or arguments; amounts are
-- whole numbers of a fixed fraction of a dollar, and Python's floats in billing and in experiments are a
-- parameter (Billing/Engine.Floats, Tracing/Experiments.Numbers). A text that is formatted from values is a
-- constructor with these values. The clock, random draws, the failures of services, the scikit-learn
-- classifier, Presidio, passlib, the JWT library, Fernet, BLAKE2b, the embedding model, the matches of regular
-- expressions, event handlers, and the text of UUIDs and Decimals are parameters; what is relied on of them is
-- stated as a record (IsFaithful, KeepsOwnKeys) or as a hypothesis of the theorem. No definition needs fuel:
-- the turns of the event loop are a list of positions, and enough of them let every task end; every other loop
-- goes over a list.
--
-- What is not modelled: HTTP handlers, rendering of documents, the client report, concurrent calls (a call is
-- one step), the operating modes, publish_background, the plain response cache, listings by page, alert
-- configurations, record_call of the sessions, and the modules for detection, forecasting, analytics and
-- configuration.
pub mod Auth
pub mod Base
pub mod EventBus
pub mod Prompts
pub mod Tenants
pub mod Tracing
pub mod Quota
pub mod Gateway
pub mod Billing
pub mod RateLimit
pub mod SemanticCache
mod Tests
