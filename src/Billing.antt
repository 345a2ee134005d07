-- ===== src/Billing.antt =====
-- Billing: contracts, the tables, the contract engine, invoices, credits (modules/billing).
pub mod Contracts
pub mod Books
pub mod Engine
pub mod Invoices
pub mod Credits
