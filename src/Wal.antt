-- ===== src/Wal.antt =====
-- crates/nova-wal/src/lib.rs: the write-ahead log and redo recovery. The path is not modelled, and
-- errors carry their kind alone.
pub mod Record
pub mod Log
pub mod Append
pub mod Decoding
pub mod Recover
