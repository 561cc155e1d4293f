-- ===== src/Admin.antt =====
-- The administration (app/modules/admin).
pub mod Model
pub mod Users
pub mod Scopes
pub mod Requests
pub mod Reports
