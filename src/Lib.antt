-- ===== src/Lib.antt =====
-- NovaBase, a document database in Rust: its documents and their encoding, storage, logging, locking,
-- buffering, indexes, planning, sessions and index advice, translated definition by definition.
--
-- The program's parts. Documents (crates/nova-core/src/) are encoded by the binary format
-- (crates/nova-nbf/src/) and live in 4096-byte slotted pages (crates/nova-storage/src/page.rs), which
-- the page manager reads and writes in one file (manager.rs). The buffer pool
-- (crates/nova-buffer/src/lib.rs) keeps some of them in memory, writes changed ones back, and calls the
-- page manager for the rest. The write-ahead log (crates/nova-wal/src/lib.rs) records transactions and
-- page writes and replays the committed ones into a page file; the transaction manager
-- (crates/nova-transaction/src/lib.rs) appends to it and keeps the locks on collections. B+ trees
-- (crates/nova-index/src/lib.rs) find the identifiers of the documents that have a key, and the planner
-- (crates/nova-planner/src/lib.rs) chooses between them and a scan. Authentication
-- (crates/nova-auth/src/lib.rs) and the advice on indexes (crates/nova-intelligence/src/) stand beside
-- these.
--
-- The files.
-- Common: names that all share; Common.Result has the errors of crates/nova-core/src/error.rs and
--   methods that change a state and may fail, which return the state beside the error too; Common.Map
--   and Common.Set are ordered maps and sets.
-- Storage.Page is `Page`, a list of slots; Storage.Page.Codec is `Page::to_bytes` and
--   `Page::from_bytes`; Storage.Checksum is checksum.rs; Storage.Manager is `PageManager` over the
--   interface Storage.File of a file; the modules below them hold the lemmas.
-- Buffer is `BufferPool`; Buffer.View says what a client sees of each page.
-- Wal.Record is the records and their encoding, Wal.Log `WriteAheadLog` over the interface of a log
--   file, which tells its bytes from those that are known to be on disk, Wal.Recover `recover`.
-- Transaction is `TransactionManager`, whose methods run under one mutex and are one step each.
-- Auth is `AuthService`, over the interface Auth.Library of the hash and of Unicode.
-- Intelligence.Analysis and Workload are analysis.rs, Advisor is advisor.rs, Lifecycle is lifecycle.rs;
--   Calls lists the calls on a lifecycle and what each may do.
-- Core.Value is the values and documents of crates/nova-core/src, Core.Text UTF-8.
-- Nbf.Varint, Nbf.Encode and Nbf.Decode are crates/nova-nbf/src; Nbf.RoundTrip says what values the
--   types of the source allow.
-- Index.Key is the keys of crates/nova-index/src/lib.rs and their order, Index.Tree its `BPlusTree`
--   without files, with Index.Tree.Scan; Index.Tree.Shape says which trees the nodes make up,
--   and Index.Tree.Formed what `verify` demands of them.
-- Query.Syntax is crates/nova-query/src/ast.rs, Planner is crates/nova-planner/src/lib.rs.
-- Tests: runs at concrete inputs, over a file in memory.
--
-- Numbers. All counts are natural numbers; where a Rust word overflows, the check, the saturation
-- or the wrap-around is written out, for 64-bit words and a 64-bit `usize`. A page has 4096 bytes
-- and at most 65535 slots by its encoding. Decoding a log takes as fuel the number of its bytes:
-- each record has a header, so each round takes some of them. Recovery allocates at most as many
-- pages as the identifier of the page that it replays asks for. A search or an insertion in a B+
-- tree takes as fuel the number of nodes, and a path from the root is shorter. In the binary format
-- a word has ten groups at most, and nested values are read by recursion on the levels that are
-- left below 254.
--
-- Not modelled: paths, messages of errors, poisoned mutexes, sockets, terminals and user
-- interfaces; of the database, the storage engine, the files and the catalog of indexes, the text
-- of queries, the executor and the server's protocol.
pub mod Auth
pub mod Buffer
pub mod Common
pub mod Core
pub mod Index
pub mod Intelligence
pub mod Nbf
pub mod Planner
pub mod Query
pub mod Storage
pub mod Tests
pub mod Transaction
pub mod Wal
