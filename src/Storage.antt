-- ===== src/Storage.antt =====
-- src/storage: the disk cache.
pub mod Ranges
pub mod Engine
pub mod Disk
