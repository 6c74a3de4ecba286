-- ===== src/Wa.antt =====
-- internal/wa: the WhatsApp client's lifecycle, its event dispatcher and the pairing flow.
pub mod Events
pub mod Client
pub mod Pairing
pub mod Examples
