-- ===== src/Wal/Append.antt =====
-- crates/nova-wal/src/lib.rs: what an append and a synchronization leave behind.
use novabase.Common.{ℕ, ◌+◌, ◌≡◌, refl, sym, ap, some, List, [], ◌∷◌, ◌++◌, arith}
use novabase.Common.Result.{ok, Method, and_then-ok}
use novabase.Storage.Bytes.{Bytes}
use novabase.Wal.Record.{LogRecord, Operation, encode_record}
use novabase.Wal.Log
use novabase.Wal.Log.{LogFile, WriteAheadLog, last_lsn, append, flush}

pub last_lsn-append :
    (records : List LogRecord) (r : LogRecord) → last_lsn (records ++ r ∷ []) ≡ some r.lsn
unfolding last_lsn
last_lsn-append [] r = refl
last_lsn-append (x ∷ []) r = refl
last_lsn-append (x ∷ y ∷ rest) r = last_lsn-append (y ∷ rest) r

module _ (io : LogFile) where
  open io use {File, contents, synced, append_all, sync_all, append_all-ok, sync_all-ok}

  -- `t` is `s` with one more record, whose encoding stands at the end of the file.
  pub record Appended (entry : LogRecord) (s t : WriteAheadLog io) : Type 0 where
    pub bytes : Bytes
    pub encoded : encode_record entry ≡ ok bytes
    pub on_disk : contents t.file ≡ contents s.file ++ bytes
    pub listed : t.records ≡ s.records ++ entry ∷ []
    pub counted : t.next_lsn ≡ s.next_lsn + 1
    pub durable : t.durable_lsn ≡ s.durable_lsn

  on_file-ok :
      {A : Type 0} (m : Method File A) (s t : WriteAheadLog io) (a : A)
      → Log.on_file io m s ≡ (ok a, t)
      → (f : File) × (m s.file ≡ (ok a, f)) × (t ≡ record s { file = f })
  unfolding Log.on_file
  on_file-ok m s t a e = ((m s.file).1, ground (arith, e), sym (ap (λ x. x.1) e))

  count_lsn-ok :
      (s t : WriteAheadLog io) (u : Unit {0})
      → Log.count_lsn io s ≡ (ok u, t)
      → t ≡ record s { next_lsn = s.next_lsn + 1 }
  unfolding Log.count_lsn
  count_lsn-ok s t u e = ground (arith, e)

  pub append-Appended :
      (id : ℕ) (op : Operation) (s t : WriteAheadLog io) (lsn : ℕ)
      → append io id op s ≡ (ok lsn, t)
      → (lsn ≡ s.next_lsn)
        × Appended (record { lsn = s.next_lsn; transaction_id = id; operation = op }) s t
  unfolding append
  append-Appended id op s t lsn e =
      let entry : LogRecord = record { lsn = s.next_lsn; transaction_id = id; operation = op } in
      let (bs, s1, e1, r1) = and_then-ok (encode_record entry, s) _ e in
      let (u, s2, e2, r2) = and_then-ok (Log.on_file io (append_all bs) s1) _ r1 in
      let (v, s3, e3, r3) =
        and_then-ok (Log.count_lsn io (record s2 { records = s2.records ++ entry ∷ [] })) _ r2 in
      let (f, written, filed) = on_file-ok (append_all bs) s1 s2 u e2 in
      let counted = count_lsn-ok _ s3 v e3 in
      let same : s ≡ s1 = ap (λ x. x.1) e1 in
      let last : s3 ≡ t = ap (λ x. x.1) r3 in
      (
        cc (r3),
        record {
          bytes = bs;
          encoded = ap (λ x. x.0) e1;
          on_disk = cc (append_all-ok bs s1.file f u written, filed, counted, last, same);
          listed = cc (filed, counted, last, same);
          counted = cc (filed, counted, last, same);
          durable = cc (filed, counted, last, same);
        },
      )

  pub flush-durable :
      (s t : WriteAheadLog io) (u : Unit {0})
      → flush io s ≡ (ok u, t)
      → (t.records ≡ s.records)
        × (t.next_lsn ≡ s.next_lsn)
        × (t.durable_lsn ≡ last_lsn s.records)
        × (contents t.file ≡ contents s.file)
        × (synced t.file ≡ contents s.file)
  unfolding flush
  flush-durable s t u e =
      let (v, s1, e1, r1) = and_then-ok (Log.on_file io sync_all s) _ e in
      let (f, done, filed) = on_file-ok sync_all s s1 v e1 in
      let last : record s1 { durable_lsn = last_lsn s1.records } ≡ t = ap (λ x. x.1) r1 in
      (
        cc (filed, last),
        cc (filed, last),
        cc (filed, last),
        cc (filed, last, (sync_all-ok s.file f v done).0),
        cc (filed, last, (sync_all-ok s.file f v done).1),
      )
