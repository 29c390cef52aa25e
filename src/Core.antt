-- ===== src/Core.antt =====
-- crates/nova-core: values and documents. A text is its UTF-8 bytes, by which it is ordered; a float is
-- its 64 bits; an identifier is its 16 bytes.
pub mod Text
pub mod Value
pub mod Fields
