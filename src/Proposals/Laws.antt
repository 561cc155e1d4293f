-- ===== src/Proposals/Laws.antt =====
-- Decisions and runs of them.
pub mod University
pub mod Faculty
pub mod Subject
pub mod PendingNames
pub mod Runs
pub mod Service
pub mod Paging
