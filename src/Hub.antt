-- ===== src/Hub.antt =====
-- What every service shares: the common tables, and the outbox of Telegram events over them.
pub mod Tables
pub mod Events
