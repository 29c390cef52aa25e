-- ===== src/Query.antt =====
-- crates/nova-query: the query language.
pub mod Syntax
