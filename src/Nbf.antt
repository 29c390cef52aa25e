-- ===== src/Nbf.antt =====
-- crates/nova-nbf: the binary format of documents. A reader takes the input that is left and returns
-- what it read with what is then left, in place of the input and a position.
pub mod Varint
pub mod Encode
pub mod Decode
pub mod RoundTrip
