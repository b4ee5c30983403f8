-- ===== src/Accelerator.antt =====
-- plugins/accelerator-sources: the caching proxy for package and image registries.
pub mod Cache
pub mod Load
pub mod Dns
