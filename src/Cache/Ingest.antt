-- ===== src/Cache/Ingest.antt =====
-- internal/cache/handler.go: the ingestor, which writes what the events of the WhatsApp library say into
-- the cache.
pub mod State
pub mod Messages
pub mod Live
pub mod History
pub mod Chats
pub mod Dispatch
pub mod Writes
pub mod Streams
pub mod Effects
