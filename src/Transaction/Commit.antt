-- ===== src/Transaction/Commit.antt =====
-- What a commit or a rollback that succeeds has done, to the log and to the locks.
use novabase.Common.{ℕ, ◌≡◌, refl, sym, ap, ◌∙◌, Option, none, some, String, arith, ==_iff}
use mathlib.Core.Path.{subst}
use novabase.Common.Key.{nat_key, string_key}
use novabase.Common.Map
use novabase.Common.Map.{Map, lookup-insert}
use novabase.Common.Result.{ok, and_then-ok}
use novabase.Wal.Record
use novabase.Wal.Record.{LogRecord, Operation}
use novabase.Wal.Log.{LogFile, append, log_commit, log_abort, flush}
use novabase.Wal.Append.{Appended, append-Appended, flush-durable, last_lsn-append}
use novabase.Transaction
use novabase.Transaction.{
  TransactionStatus, active, committed, rolled_back, LockState, Inner, release_locks, is_held,
  drop_holder,
}
use novabase.Transaction.Locks.{left, lookup-release, Free, drop_holder-Free}
use novabase.Transaction.Invariant.{IsSound, ensure_active-ok, on_wal-ok, on_wal-answer}

-- What is left of a lock when `id` has let go does not have `id` among its holders.
left-Free : (id : ℕ) (l : Option LockState) (k : LockState) → left id l ≡ some k → Free id k
left-Free id none k e = cc
left-Free id (some l) k e = subst (Free id) (ground (arith, e)) (drop_holder-Free id l)

module _ (io : LogFile) where
  open io use {contents, synced}

  -- `t` is `s` with the transaction `id` in the end state `st`, and `op` in the log and on disk.
  pub record Ended (id : ℕ) (st : TransactionStatus) (op : Operation) (s t : Inner io)
      : Type 0 where
    pub was_active : Map.lookup id s.statuses ≡ some active
    pub statuses : t.statuses ≡ Map.insert id st s.statuses
    pub locks : t.locks ≡ release_locks id s.locks
    pub logged :
        Appended io
          (record { lsn = s.wal.next_lsn; transaction_id = id; operation = op })
          s.wal
          (record t.wal { durable_lsn = s.wal.durable_lsn })
    pub on_disk : synced t.wal.file ≡ contents t.wal.file
    pub durable : t.wal.durable_lsn ≡ some s.wal.next_lsn

  finish-Ended :
      (id : ℕ) (st : TransactionStatus) (op : Operation) (s t : Inner io) (u : Unit {0})
      → Transaction.finish io (append io id op) st id s ≡ (ok u, t)
      → Ended id st op s t
  unfolding Transaction.finish Transaction.set_status
  finish-Ended id st op s t u e =
      let (u0, s0, e0, r0) = and_then-ok (Transaction.ensure_active io id s) _ e in
      let (lsn, s1, e1, r1) = and_then-ok (Transaction.on_wal io (append io id op) s0) _ r0 in
      let (u2, s2, e2, r2) = and_then-ok (Transaction.on_wal io (flush io) s1) _ r1 in
      let (alive, same) = ensure_active-ok io id s s0 u0 e0 in
      let answered = on_wal-answer io (append io id op) s0 s1 lsn e1 in
      let logged : Appended io
          (record { lsn = s.wal.next_lsn; transaction_id = id; operation = op }) s.wal s1.wal =
        subst
          (λ (x : Inner io).
            Appended io (record { lsn = x.wal.next_lsn; transaction_id = id; operation = op }) x.wal
              s1.wal)
          same ((append-Appended io id op s0.wal s1.wal lsn answered).1) in
      let (kept, count, marked, disk, hard) =
        flush-durable io s1.wal s2.wal u2 (on_wal-answer io (flush io) s1 s2 u2 e2) in
      let filed = on_wal-ok io (append io id op) s0 s1 lsn e1 in
      let flushed = on_wal-ok io (flush io) s1 s2 u2 e2 in
      let last : record s2 {
        statuses = Map.insert id st s2.statuses;
        locks = release_locks id s2.locks;
      }
          ≡ t =
        ap (λ x. x.1) r2 in
      record {
        was_active = alive;
        statuses =
            sym (ap (λ x. x.statuses) last)
            ∙ ap (Map.insert id st) (
                ap (λ x. x.statuses) flushed
                ∙ ap (λ x. x.statuses) filed
                ∙ ap (λ x. x.statuses) same);
        locks =
            sym (ap (λ x. x.locks) last)
            ∙ ap (release_locks id)
                (ap (λ x. x.locks) flushed ∙ ap (λ x. x.locks) filed ∙ ap (λ x. x.locks) same);
        logged = record {
          bytes = logged.bytes;
          encoded = logged.encoded;
          on_disk = cc (ap (λ x. x.wal) last, disk, logged.on_disk);
          listed = cc (ap (λ x. x.wal) last, kept, logged.listed);
          counted = cc (ap (λ x. x.wal) last, count, logged.counted);
          durable = refl;
        };
        on_disk = cc (ap (λ x. x.wal) last, disk, hard);
        durable = cc (
          ap (λ x. x.wal) last,
          marked,
          logged.listed,
          last_lsn-append s.wal.records
              (record { lsn = s.wal.next_lsn; transaction_id = id; operation = op }),
        );
      }

  status_after :
      (id : ℕ) (st : TransactionStatus) (op : Operation) (s t : Inner io)
      → Ended id st op s t
      → Transaction.status io id t ≡ ok st
  unfolding Transaction.status
  status_after id st op s t done =
      ground (arith, done.statuses, lookup-insert id id st s.statuses, ==_iff id id)

  Free-after :
      (id : ℕ) (st : TransactionStatus) (op : Operation) (s t : Inner io)
      → IsSound io s
      → Ended id st op s t
      → (c : String) (l : LockState) → Map.lookup c t.locks ≡ some l
      → Free id l
  Free-after id st op s t sound done c l found =
      left-Free id (Map.lookup c s.locks) l (
        sym (lookup-release id c s.locks sound.unique) ∙ ap (Map.lookup c) (sym done.locks) ∙ found)

  -- A commit that succeeds in a sound state was of an active transaction. It has appended the commit
  -- record to the log file and synchronized the file to disk, record included, the durable number is
  -- the record's, the transaction is committed, and it holds no lock any more.
  pub commit-Ended :
      (id : ℕ) (s t : Inner io) (u : Unit {0})
      → IsSound io s
      → Transaction.commit io id s ≡ (ok u, t)
      → Ended id committed Record.commit s t
        × (Transaction.status io id t ≡ ok committed)
        × ((c : String) (l : LockState) → Map.lookup c t.locks ≡ some l → Free id l)
  unfolding Transaction.commit log_commit Transaction.status
  commit-Ended id s t u sound e =
      let done = finish-Ended id committed Record.commit s t u e in
      (
        done,
        status_after id committed Record.commit s t done,
        Free-after id committed Record.commit s t sound done,
      )

  -- A rollback that succeeds in a sound state was of an active transaction. It has appended the abort
  -- record to the log file and synchronized the file to disk, record included, the durable number is
  -- the record's, the transaction is rolled back, and it holds no lock any more.
  pub rollback-Ended :
      (id : ℕ) (s t : Inner io) (u : Unit {0})
      → IsSound io s
      → Transaction.rollback io id s ≡ (ok u, t)
      → Ended id rolled_back Record.abort s t
        × (Transaction.status io id t ≡ ok rolled_back)
        × ((c : String) (l : LockState) → Map.lookup c t.locks ≡ some l → Free id l)
  unfolding Transaction.rollback log_abort Transaction.status
  rollback-Ended id s t u sound e =
      let done = finish-Ended id rolled_back Record.abort s t u e in
      (
        done,
        status_after id rolled_back Record.abort s t done,
        Free-after id rolled_back Record.abort s t sound done,
      )
