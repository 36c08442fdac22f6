-- ===== src/Storage/Disk.antt =====
-- src/storage/disk.rs: one module for the files, the metadata, the store, writing and reading.
pub mod File
pub mod Metadata
pub mod Store
pub mod Write
pub mod Read
pub mod Soundness
