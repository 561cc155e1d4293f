-- ===== src/Proposals.antt =====
-- Proposals of universities, faculties and subjects (app/modules/catalog_proposals).
pub mod Model
pub mod Submission
pub mod Scope
pub mod Reports
pub mod Outcome
pub mod Decision
pub mod Requests
pub mod Rules
pub mod Laws
