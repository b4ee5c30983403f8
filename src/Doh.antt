-- ===== src/Doh.antt =====
-- plugins/doh: the DNS-over-HTTPS plugin.
pub mod Cache
pub mod Wire
pub mod Slot
pub mod Config
pub mod Host
pub mod Service
