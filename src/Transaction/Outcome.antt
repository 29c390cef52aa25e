-- ===== src/Transaction/Outcome.antt =====
-- What the calls answer and leave behind.
use novabase.Common.{
  ℕ, ◌≡◌, ◌≢◌, Bool, true, false, ◌||◌, some, List, [], ◌∷◌, String, arith, ==_iff,
}
use novabase.Common.Key.{same, nat_key, string_key}
use novabase.Common.Map
use novabase.Common.Map.{Map, IsUnique, lookup-insert, IsUnique-insert}
use novabase.Common.Set
use novabase.Common.Result.{ok, invalid_state, Method, bind-keeps, fail_if, ◌>>=◌, gets}
use novabase.Wal.Log.{LogFile, WriteAheadLog, log_begin, log_commit, log_abort, flush}
use novabase.Transaction
use novabase.Transaction.{
  TransactionStatus, active, committed, rolled_back, LockState, Locks, unlocked, foreign_writer,
  foreign_reader, drop_holder, is_held, release_locks, lock_of, Inner,
}
use novabase.Transaction.Invariant.{
  IsSound, ensure_active-ok, ensure_active-state, take_id-ok, Call, begins, shares, owns, commits,
  rolls_back, after, run, after-IsSound,
}

module _ (io : LogFile) (id : ℕ) (st : TransactionStatus) (over : st ≢ active) where
  -- The state of `id` on record.
  abbrev Keeps : Inner io → Type 0
  Keeps s = Map.lookup id s.statuses ≡ some st

  Keeps-wal :
      {A : Type 0} (m : Method (WriteAheadLog io) A) (s : Inner io)
      → Keeps s
      → Keeps (Transaction.on_wal io m s).1
  unfolding Transaction.on_wal
  Keeps-wal m s h = h

  Keeps-begin : (s : Inner io) → IsSound io s → Keeps s → Keeps (Transaction.begin io s).1
  unfolding Transaction.begin
  Keeps-begin s sound h = bind-keeps Keeps (Transaction.take_id io s) _ (taken s h) λ j s1 e1 h1.
      let (named, known) = take_id-ok io s s1 j e1 in
      bind-keeps Keeps (Transaction.on_wal io (log_begin io j) s1) _
        (Keeps-wal (log_begin io j) s1 h1)
        λ lsn s2 e2 h2.
          unfold Transaction.set_status in
          (ground (
            arith,
            lookup-insert j id active s2.statuses,
            h2,
            ==_iff j id,
            named,
            sound.fresh id st h,
          ))
    where
      taken : (s : Inner io) → Keeps s → Keeps (Transaction.take_id io s).1
      taken s h = unfold Transaction.take_id in ground (arith, h)

  Keeps-finish :
      (entry : Method (WriteAheadLog io) ℕ) (end : TransactionStatus) (j : ℕ) (s : Inner io)
      → Keeps s
      → Keeps (Transaction.finish io entry end j s).1
  unfolding Transaction.finish Transaction.set_status
  Keeps-finish entry end j s h =
      bind-keeps Keeps (Transaction.ensure_active io j s) _ (rw (ensure_active-state io j s) h)
        λ u s1 e1 h1.
          let (alive, same) = ensure_active-ok io j s s1 u e1 in
          bind-keeps Keeps (Transaction.on_wal io entry s1) _ (Keeps-wal entry s1 h1)
            λ lsn s2 e2 h2.
              bind-keeps Keeps (Transaction.on_wal io (flush io) s2) _ (Keeps-wal (flush io) s2 h2)
                λ v s3 e3 h3.
                  ground
                    (arith, lookup-insert j id end s3.statuses, h3, ==_iff j id, alive, h, over)

  Keeps-take :
      (j : ℕ) (c : String) (conflict : LockState → Bool) (change : LockState → LockState)
      (s : Inner io)
      → Keeps s
      → Keeps
          ((Transaction.ensure_active io j >>= λ u. gets (λ t. lock_of c t.locks) >>= λ l.
              Transaction.set_lock io c l >>= λ v.
              fail_if (conflict l) invalid_state >>= λ w. Transaction.set_lock io c (change l))
            s).1
  unfolding Transaction.set_lock
  Keeps-take j c conflict change s h =
      bind-keeps Keeps (Transaction.ensure_active io j s) _ (rw (ensure_active-state io j s) h)
        λ u s1 e1 h1.
          bind-keeps Keeps
            (fail_if (conflict (lock_of c s1.locks)) invalid_state
              (record s1 { locks = Map.insert c (lock_of c s1.locks) s1.locks }))
            _ (tested (conflict (lock_of c s1.locks)) _ h1) λ w s2 e2 h2. h2
    where
      tested : (b : Bool) (s : Inner io) → Keeps s → Keeps (fail_if b invalid_state s).1
      tested true s h = h
      tested false s h = h

  Keeps-after : (c : Call) (s : Inner io) → IsSound io s → Keeps s → Keeps (after io c s)
  unfolding after Transaction.commit Transaction.rollback Transaction.acquire_shared
      Transaction.acquire_exclusive
  Keeps-after begins s sound h = Keeps-begin s sound h
  Keeps-after (shares j c) s sound h =
      Keeps-take j c (foreign_writer j) (λ l. record l { readers = Set.insert j l.readers }) s h
  Keeps-after (owns j c) s sound h =
      Keeps-take j c (λ l. foreign_reader j l || foreign_writer j l)
        (λ l. record { readers = Set.remove j l.readers; writer = some j }) s h
  Keeps-after (commits j) s sound h = Keeps-finish (log_commit io j) committed j s h
  Keeps-after (rolls_back j) s sound h = Keeps-finish (log_abort io j) rolled_back j s h

  Keeps-run : (calls : List Call) (s : Inner io) → IsSound io s → Keeps s → Keeps (run io calls s)
  unfolding run
  Keeps-run [] s sound h = h
  Keeps-run (c ∷ calls) s sound h =
      Keeps-run calls (after io c s) (after-IsSound io c s sound) (Keeps-after c s sound h)

module _ (io : LogFile) where
  -- From a sound state, a transaction that has ended keeps its state through every sequence of calls.
  pub finished_forever :
      (id : ℕ) (st : TransactionStatus) (s : Inner io) (calls : List Call)
      → st ≢ active
      → IsSound io s
      → Transaction.status io id s ≡ ok st
      → Transaction.status io id (run io calls s) ≡ ok st
  unfolding Transaction.status
  finished_forever id st s calls over sound h =
      ground (arith, Keeps-run io id st over calls s sound (ground (arith, h)))
