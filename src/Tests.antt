-- ===== src/Tests.antt =====
-- Examples: a small database, and what the properties say of it.
pub mod Sample
pub mod Materials
pub mod Security
pub mod Auth
pub mod Hub
pub mod Telegram
pub mod Names
pub mod Admin
pub mod Proposals
pub mod Catalog
pub mod Storage
