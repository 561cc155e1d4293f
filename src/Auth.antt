-- ===== src/Auth.antt =====
-- Accounts, tokens and the email outbox (app/modules/auth).
pub mod Model
pub mod Sessions
pub mod Accounts
pub mod Outbox
