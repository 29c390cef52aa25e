-- ===== src/Storage.antt =====
-- crates/nova-storage: byte strings, slotted pages, the page file.
pub mod Bytes
pub mod Checksum
pub mod Page
pub mod File
pub mod Manager
