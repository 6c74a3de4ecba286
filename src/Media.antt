-- ===== src/Media.antt =====
-- internal/media: the content-addressed store of media files.
pub mod Digests
pub mod Filenames
pub mod Disposition
pub mod Mime
pub mod Directory
pub mod Payloads
pub mod Store
pub mod Sweep
pub mod Http
pub mod Opening
pub mod Examples
