-- ===== src/Cache.antt =====
-- internal/cache: the local message cache.
pub mod Table
pub mod Migrations
pub mod Sync
pub mod Models
pub mod Store
pub mod Contacts
pub mod Polls
pub mod Operations
pub mod Envelope
pub mod Ingest
pub mod Examples
