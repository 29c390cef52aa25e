-- ===== src/Tests/Logs.antt =====
-- crates/nova-wal/src/lib.rs: bytes that are decoded as a log.
use novabase.Common.{replicate, false}
use novabase.Wal.Record.{decode_records}
use novabase.Wal.Decoding.{Outcome, decode_records-Outcome}

-- Bytes that are no log are refused, after a round.
decode_records-Outcome_example : Outcome false 40 (decode_records (replicate 40 0) false)
unfolding replicate
decode_records-Outcome_example = decode_records-Outcome (replicate 40 0) false
