-- ===== src/Wal/Log.antt =====
-- crates/nova-wal/src/lib.rs: the open log and its operations.
use novabase.Common.{
  ℕ, ◌+◌, ◌-◌, ◌^◌, Option, none, some, true, List, [], ◌∷◌, ◌++◌, length, take, ltb, ◌≤◌, ◌≡◌,
  ◌==◌, if◌then◌else◌, not,
}
use novabase.Common.Result.{ok, err, storage, Method, ◌>>=◌, ◌>>◌, return, lift, gets, modify}
use novabase.Storage.Bytes.{Bytes}
use novabase.Storage.Page.{Page}
use novabase.Wal.Record.{
  LogRecord, Operation, begin, page_write, commit, abort, checkpoint, encode_record, decode_records,
}

-- `records.last().map(|record| record.lsn)`
unfoldable pub last_lsn : List LogRecord → Option ℕ
last_lsn [] = none
last_lsn (r ∷ []) = some r.lsn
last_lsn (r ∷ s ∷ rest) = last_lsn (s ∷ rest)

-- `lsn.saturating_add(1)`, of the last record
unfoldable pub following : Option ℕ → ℕ
following none = 0
following (some lsn) = if ltb (lsn + 1) (2 ^ 64) then lsn + 1 else 2 ^ 64 - 1

-- What the log uses of its file: reading it whole, cutting it, appending to it and synchronizing it.
pub record LogFile : Type 1 where
  pub File : Type 0
  pub contents : File → Bytes
  -- the bytes that the disk is known to hold, also after a crash
  pub synced : File → Bytes
  pub read_to_end : Method File Bytes
  pub set_len : ℕ → Method File (Unit {0})
  -- `write_all` on a file whose position is its end
  pub append_all : Bytes → Method File (Unit {0})
  pub sync_all : Method File (Unit {0})
  pub read_to_end-ok :
      (f g : File) (bs : Bytes)
      → read_to_end f ≡ (ok bs, g)
      → (bs ≡ contents f) × (contents g ≡ contents f)
  pub set_len-ok :
      (n : ℕ) (f g : File) (u : Unit {0})
      → set_len n f ≡ (ok u, g)
      → n ≤ length (contents f)
      → contents g ≡ take n (contents f)
  pub append_all-ok :
      (bs : Bytes) (f g : File) (u : Unit {0})
      → append_all bs f ≡ (ok u, g)
      → contents g ≡ contents f ++ bs
  pub sync_all-ok :
      (f g : File) (u : Unit {0})
      → sync_all f ≡ (ok u, g)
      → (contents g ≡ contents f) × (synced g ≡ contents f)

module _ (io : LogFile) where
  open io use {File, read_to_end, set_len, append_all, sync_all}

  pub record WriteAheadLog : Type 0 where
    pub file : File
    pub records : List LogRecord
    pub next_lsn : ℕ
    pub durable_lsn : Option ℕ

  unfoldable pub on_file : {A : Type 0} → Method File A → Method WriteAheadLog A
  on_file m s = let (r, f) = m s.file in (r, record s { file = f })

  -- `WriteAheadLog::open`, on the opened file
  unfoldable pub open_log : Method File WriteAheadLog
  open_log = do
    bytes ← read_to_end
    (records, valid_length) ← lift (decode_records bytes true)
    if not (valid_length == length bytes) then set_len valid_length else return tt
    file ← gets (λ f. f)
    return (record {
      file = file;
      records = records;
      next_lsn = following (last_lsn records);
      durable_lsn = last_lsn records;
    })

  unfoldable pub count_lsn : Method WriteAheadLog (Unit {0})
  count_lsn s =
      if ltb (s.next_lsn + 1) (2 ^ 64)
      then (ok tt, record s { next_lsn = s.next_lsn + 1 })
      else (err storage, s)

  -- `WriteAheadLog::append`
  unfoldable pub append : ℕ → Operation → Method WriteAheadLog ℕ
  unfolding on_file count_lsn
  append transaction_id operation = do
    lsn ← gets (λ s. s.next_lsn)
    let entry : LogRecord = record {
      lsn = lsn;
      transaction_id = transaction_id;
      operation = operation;
    }
    bytes ← lift (encode_record entry)
    on_file (append_all bytes)
    modify (λ s. record s { records = s.records ++ entry ∷ [] })
    count_lsn
    return lsn

  -- `begin`, `log_page_write`, `commit`, `abort`, `checkpoint`
  unfoldable pub log_begin : ℕ → Method WriteAheadLog ℕ
  log_begin transaction_id = append transaction_id begin

  unfoldable pub log_page_write : ℕ → Page → Method WriteAheadLog ℕ
  log_page_write transaction_id page = append transaction_id (page_write page.id page)

  unfoldable pub log_commit : ℕ → Method WriteAheadLog ℕ
  log_commit transaction_id = append transaction_id commit

  unfoldable pub log_abort : ℕ → Method WriteAheadLog ℕ
  log_abort transaction_id = append transaction_id abort

  unfoldable pub log_checkpoint : Method WriteAheadLog ℕ
  log_checkpoint = append 0 checkpoint

  -- `WriteAheadLog::flush`
  unfoldable pub flush : Method WriteAheadLog (Unit {0})
  unfolding on_file
  flush = do on_file sync_all; modify (λ s. record s { durable_lsn = last_lsn s.records })
