-- ===== src/Materials.antt =====
-- Learning materials (app/modules/materials) and their moderation (app/modules/moderation).
pub mod Model
pub mod Common
pub mod Lifecycle
pub mod Cleanup
pub mod Files
pub mod Access
pub mod Requests
pub mod Moderation
