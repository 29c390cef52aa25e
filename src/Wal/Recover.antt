-- ===== src/Wal/Recover.antt =====
-- crates/nova-wal/src/lib.rs: `recover`, redo of the committed page images.
use novabase.Common.{
  ℕ, zero, suc, ◌+◌, Bool, true, false, List, [], ◌∷◌, ◌&&◌, not, leb, if◌then◌else◌,
}
use novabase.Common.Set
use novabase.Common.Checked
use novabase.Common.Key.{nat_key}
use novabase.Common.Result.{Result, ok, err, Method, ◌>>=◌, ◌>>◌, return, timeout}
use novabase.Storage.Bytes.{Bytes}
use novabase.Storage.File.{FileSystem}
use novabase.Storage.Manager
use novabase.Storage.Manager.{PageManager}
use novabase.Wal.Record.{LogRecord, Operation, page_write, commit, abort, decode_records}

abbrev pub is_commit : Operation → Bool
is_commit commit = true
is_commit _ = false

abbrev pub is_abort : Operation → Bool
is_abort abort = true
is_abort _ = false

-- The transactions with a record whose operation passes the test.
unfoldable pub transactions : (Operation → Bool) → List LogRecord → List ℕ
transactions test [] = []
transactions test (r ∷ records) =
    let rest = transactions test records in
    if test r.operation then Set.insert r.transaction_id rest else rest

-- Whether a record's transaction is committed and not aborted.
unfoldable pub replays : List ℕ → List ℕ → LogRecord → Bool
replays committed aborted r =
    Set.contains r.transaction_id committed && not (Set.contains r.transaction_id aborted)

module _ (fs : FileSystem) where
  -- `while pages.page_count() <= page_id { pages.allocate()?; }`; a round adds a page, so that
  -- `page_id + 1` rounds are enough, and `timeout` means that the fuel ran out.
  unfoldable pub allocate_to : ℕ → ℕ → Method (PageManager fs) (Unit {0})
  allocate_to zero page_id s = if leb s.page_count page_id then (err timeout, s) else (ok tt, s)
  allocate_to (suc fuel) page_id s =
      let round = (Manager.allocate fs >>= λ id. allocate_to fuel page_id) s in
      if leb s.page_count page_id then round else (ok tt, s)

  -- One record of the loop: the count of the pages applied goes up by what this returns.
  unfoldable pub redo : List ℕ → List ℕ → LogRecord → Method (PageManager fs) ℕ
  redo committed aborted r s = elim r.operation [
    | page_write page_id page ↦
        if replays committed aborted r
        then (do allocate_to (suc page_id) page_id; Manager.write fs page; return 1) s
        else (ok 0, s)
    | _ ↦ (ok 0, s)
  ]

  unfoldable pub redo_all : List ℕ → List ℕ → List LogRecord → ℕ → Method (PageManager fs) ℕ
  redo_all committed aborted [] applied = return applied
  redo_all committed aborted (r ∷ records) applied = do
    n ← redo committed aborted r
    redo_all committed aborted records (applied + n)

  -- The loop of `recover` and the synchronization, on the opened page file.
  unfoldable pub redo_log : List LogRecord → Method (PageManager fs) ℕ
  redo_log records = do
    applied ← redo_all (transactions is_commit records) (transactions is_abort records) records 0
    Manager.sync fs
    return applied

  -- `recover`, from the log's bytes and the outcome of opening the page file
  unfoldable pub recover : Bytes → Result (PageManager fs) → Result (ℕ × PageManager fs)
  recover bytes opened =
      Checked.◌>>=◌ (decode_records bytes true)
        λ found. Checked.◌>>=◌ opened λ pages. finished (redo_log found.0 pages)
    where
      finished : Result ℕ × PageManager fs → Result (ℕ × PageManager fs)
      finished (ok applied, pages) = ok (applied, pages)
      finished (err e, pages) = err e
