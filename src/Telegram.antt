-- ===== src/Telegram.antt =====
-- The Telegram integration (app/modules/telegram), but for the outbox of events.
pub mod Links
pub mod Dispatch
