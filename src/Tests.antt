-- ===== src/Tests.antt =====
-- The definitions and the theorems at concrete inputs.
mod Setting
mod Rules
mod Store
mod Calls
mod Counters
mod Invoices
mod Traffic
mod Providers
mod Accounts
mod Keys
mod Prompts
mod Cached
mod Bus
mod Vault
mod Trials
