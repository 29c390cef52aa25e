-- ===== src/Index.antt =====
-- crates/nova-index: B+ trees of keys with the identifiers of documents.
pub mod Key
pub mod Tree
