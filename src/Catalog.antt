-- ===== src/Catalog.antt =====
-- The catalogue of universities, faculties and subjects (app/modules/catalog).
pub mod Names
pub mod Slugs
pub mod Tree
pub mod TreeShape
pub mod Constraints
pub mod Rows
pub mod Service
pub mod Deletion
pub mod Requests
pub mod Effects
pub mod Step
pub mod Refinement
pub mod Parents
pub mod Linked
pub mod Keys
pub mod Distinct
