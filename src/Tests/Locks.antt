-- ===== src/Tests/Locks.antt =====
-- Transactions over a log in memory.
use novabase.Common.{◌≡◌, ◌≢◌, refl, none, some, [], ◌∷◌, String, arith, ==_iff}
use novabase.Common.Key.{nat_key, string_key}
use novabase.Common.Map
use novabase.Common.Set
use mathlib.Core.Path.{subst}
use novabase.Common.Result.{ok}
use novabase.Wal.Record
use novabase.Wal.Record.{LogRecord, Operation, encode_record}
use novabase.Wal.Log
use novabase.Wal.Log.{WriteAheadLog, append, log_begin, log_commit, log_abort, flush}
use novabase.Transaction
use novabase.Transaction.{TransactionStatus, active, committed, rolled_back, LockState, Inner}
use novabase.Transaction.Locks.{WellHeld, Free}
use novabase.Transaction.Invariant.{
  IsSound, locks_are_exclusive, begins, shares, commits, rolls_back, run, after,
}
use novabase.Transaction.Outcome.{finished_forever}
use novabase.Transaction.Conflict.{exclusive_blocks, shared_blocks_exclusive}
use novabase.Transaction.Commit.{Ended, commit-Ended, rollback-Ended}
use novabase.Tests.Memory.{log_memory}

abbrev log : WriteAheadLog log_memory
log = record {
  file = record { contents = []; synced = [] };
  records = [];
  next_lsn = 0;
  durable_lsn = none;
}

-- Transaction 1 reads, transaction 2 has ended.
abbrev busy : Inner log_memory
busy = record {
  next_id = 4;
  statuses = (1, active) ∷ (2, committed) ∷ (3, active) ∷ [];
  locks = ("a", record { readers = 1 ∷ []; writer = none }) ∷ [];
  wal = log;
}

busy-IsSound : IsSound log_memory busy
unfolding Map.lookup Set.contains
busy-IsSound = record {
  unique = (refl, tt);
  well_held = λ c l e. held c l e;
  fresh = λ id st e. ground (arith, e, ==_iff 1 id, ==_iff 2 id, ==_iff 3 id);
}
  where
    one : WellHeld busy.statuses (record { readers = 1 ∷ []; writer = none })
    one = record {
      exclusive = λ w r e k. cc (e);
      readers_active = λ r e. ground (arith, e, ==_iff 1 r);
      writer_active = λ w e. cc (e);
    }

    held :
        (c : String) (l : LockState) → Map.lookup c busy.locks ≡ some l → WellHeld busy.statuses l
    held c l e = subst (WellHeld busy.statuses) (ground (arith, e)) one

commit-busy :
    Transaction.commit log_memory 1 busy ≡ (ok tt, (Transaction.commit log_memory 1 busy).1)
unfolding Transaction.commit Transaction.finish Transaction.ensure_active Transaction.on_wal
    log_commit flush append Log.on_file Log.count_lsn encode_record Record.encode_operation
    Map.lookup Transaction.set_status
commit-busy = refl

commit-Ended_example :
    Ended log_memory 1 committed Record.commit busy (Transaction.commit log_memory 1 busy).1
    × (Transaction.status log_memory 1 (Transaction.commit log_memory 1 busy).1 ≡ ok committed)
    × ((c : String) (l : LockState)
        → Map.lookup c (Transaction.commit log_memory 1 busy).1.locks ≡ some l
        → Free 1 l)
commit-Ended_example =
    commit-Ended log_memory 1 busy (Transaction.commit log_memory 1 busy).1 tt busy-IsSound
      commit-busy

rollback-busy :
    Transaction.rollback log_memory 1 busy ≡ (ok tt, (Transaction.rollback log_memory 1 busy).1)
unfolding Transaction.rollback Transaction.finish Transaction.ensure_active Transaction.on_wal
    log_abort flush append Log.on_file Log.count_lsn encode_record Record.encode_operation
    Map.lookup Transaction.set_status
rollback-busy = refl

rollback-Ended_example :
    Ended log_memory 1 rolled_back Record.abort busy (Transaction.rollback log_memory 1 busy).1
    × (Transaction.status log_memory 1 (Transaction.rollback log_memory 1 busy).1 ≡ ok rolled_back)
    × ((c : String) (l : LockState)
        → Map.lookup c (Transaction.rollback log_memory 1 busy).1.locks ≡ some l
        → Free 1 l)
rollback-Ended_example =
    rollback-Ended log_memory 1 busy (Transaction.rollback log_memory 1 busy).1 tt busy-IsSound
      rollback-busy

finished_forever_example :
    Transaction.status log_memory 2
      (run log_memory (begins ∷ commits 2 ∷ rolls_back 1 ∷ rolls_back 2 ∷ []) busy)
    ≡ ok committed
finished_forever_example =
    finished_forever log_memory 2 committed busy
      (begins ∷ commits 2 ∷ rolls_back 1 ∷ rolls_back 2 ∷ []) (λ e. cc (e)) busy-IsSound
      (unfold Transaction.status in unfold Map.lookup in refl)

own_b :
    Transaction.acquire_exclusive log_memory 3 "b" busy
    ≡ (ok tt, (Transaction.acquire_exclusive log_memory 3 "b" busy).1)
unfolding Transaction.acquire_exclusive Transaction.ensure_active Transaction.set_lock
    Transaction.lock_of Transaction.foreign_reader Map.lookup
own_b = refl

exclusive_blocks_example :
    ((Transaction.acquire_shared log_memory 1 "b"
        (Transaction.acquire_exclusive log_memory 3 "b" busy).1).0
      ≢ ok tt)
    × ((Transaction.acquire_exclusive log_memory 1 "b"
          (Transaction.acquire_exclusive log_memory 3 "b" busy).1).0
        ≢ ok tt)
exclusive_blocks_example =
    exclusive_blocks log_memory 3 1 "b" busy (Transaction.acquire_exclusive log_memory 3 "b" busy).1
      tt (omega arith) own_b

share_a :
    Transaction.acquire_shared log_memory 3 "a" busy
    ≡ (ok tt, (Transaction.acquire_shared log_memory 3 "a" busy).1)
unfolding Transaction.acquire_shared Transaction.ensure_active Transaction.set_lock
    Transaction.lock_of Map.lookup
share_a = refl

shared_blocks_exclusive_example :
    (Transaction.acquire_exclusive log_memory 1 "a"
      (Transaction.acquire_shared log_memory 3 "a" busy).1).0
    ≢ ok tt
shared_blocks_exclusive_example =
    shared_blocks_exclusive log_memory 3 1 "a" busy
      (Transaction.acquire_shared log_memory 3 "a" busy).1 tt (omega arith) share_a

abbrev started : Inner log_memory
started = record { next_id = 1; statuses = []; locks = []; wal = log }

open_started : Transaction.open_manager log_memory log ≡ ok started
unfolding Transaction.open_manager Transaction.highest
open_started = refl

run-started :
    Map.lookup "a" (run log_memory (begins ∷ shares 1 "a" ∷ []) started).locks
    ≡ some (record { readers = 1 ∷ []; writer = none })
unfolding run after Transaction.begin Transaction.take_id Transaction.on_wal Transaction.set_status
    log_begin append Log.on_file Log.count_lsn encode_record Record.encode_operation Map.lookup
    Map.insert Map.place Map.replace Transaction.acquire_shared Transaction.ensure_active
    Transaction.set_lock Transaction.lock_of Set.insert
run-started = refl

locks_are_exclusive_example :
    WellHeld
      (run log_memory (begins ∷ shares 1 "a" ∷ []) started).statuses
      (record { readers = 1 ∷ []; writer = none })
locks_are_exclusive_example =
    locks_are_exclusive log_memory log started (begins ∷ shares 1 "a" ∷ []) "a"
      (record { readers = 1 ∷ []; writer = none }) open_started run-started
