-- ===== src/Gateway.antt =====
-- M1 and M7: the gateway and its governance engine (modules/gateway).
pub mod Rules
pub mod World
pub mod Fallback
pub mod LogCall
pub mod Security
pub mod Governance
pub mod RuleStore
pub mod SmartRouter
