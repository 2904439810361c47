-- ===== src/Reader.antt =====
-- The client's LLRP session, package internal/reader: its configuration (Config), the checks of what it
-- receives (Protocol), and the dispatch of messages with the retries (Session).
mod Tests
pub mod Config
pub mod Protocol
pub mod Session
