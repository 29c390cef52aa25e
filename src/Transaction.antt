-- ===== src/Transaction.antt =====
-- crates/nova-transaction/src/lib.rs: transaction states and collection locks. Each method runs under
-- the manager's mutex, so it is one step; a poisoned mutex, which only a panic leaves, is not modelled.
pub mod Locks
pub mod Invariant
pub mod Outcome
pub mod Conflict
pub mod Commit
use novabase.Common.{
  ℕ, ◌+◌, ◌^◌, max, Bool, true, false, not, ◌&&◌, ◌||◌, Option, none, some, List, [], ◌∷◌, String,
  any, ltb, ◌==◌, if◌then◌else◌,
}
use novabase.Common.Key.{nat_key, string_key}
use novabase.Common.Map
use novabase.Common.Map.{Map}
use novabase.Common.Set
use novabase.Common.Result.{
  NovaError, Result, ok, err, invalid_state, not_found, Method, ◌>>=◌, ◌>>◌, return, fail, fail_if,
  lift, gets, modify,
}
use novabase.Wal.Record.{LogRecord}
use novabase.Wal.Log.{LogFile, WriteAheadLog, log_begin, log_commit, log_abort, flush}

pub data TransactionStatus : Type 0 where
  active committed rolled_back : TransactionStatus

pub record LockState : Type 0 where
  pub readers : List ℕ
  pub writer : Option ℕ

abbrev pub Locks : Type 0
Locks = Map String LockState

abbrev pub unlocked : LockState
unlocked = record { readers = []; writer = none }

-- `lock.writer.is_some_and(|writer| writer != id)`
abbrev pub foreign_writer : ℕ → LockState → Bool
foreign_writer id l = elim l.writer [ none ↦ false | some w ↦ not (w == id) ]

-- `lock.readers.iter().any(|reader| *reader != id)`
unfoldable pub foreign_reader : ℕ → LockState → Bool
foreign_reader id l = any (λ reader. not (reader == id)) l.readers

-- One lock without `id`.
unfoldable pub drop_holder : ℕ → LockState → LockState
drop_holder id l = record {
  readers = Set.remove id l.readers;
  writer = elim l.writer [ none ↦ none | some w ↦ if w == id then none else some w ];
}

abbrev pub is_held : LockState → Bool
is_held l = elim l.readers [
  | [] ↦ elim l.writer [ none ↦ false | some w ↦ true ]
  | r ∷ readers ↦ true
]

-- `release_locks`
unfoldable pub release_locks : ℕ → Locks → Locks
release_locks id [] = []
release_locks id ((c, l) ∷ locks) =
    let l' = drop_holder id l in
    let rest = release_locks id locks in if is_held l' then (c, l') ∷ rest else rest

-- `locks.entry(collection).or_default()`, read
unfoldable pub lock_of : String → Locks → LockState
lock_of c locks = elim (Map.lookup c locks) [ none ↦ unlocked | some l ↦ l ]

-- `.map(|record| record.transaction_id).max().unwrap_or(0)`
unfoldable pub highest : List LogRecord → ℕ
highest [] = 0
highest (r ∷ records) = max r.transaction_id (highest records)

module _ (io : LogFile) where
  pub record Inner : Type 0 where
    pub next_id : ℕ
    pub statuses : Map ℕ TransactionStatus
    pub locks : Locks
    pub wal : WriteAheadLog io

  -- A call on the write-ahead log.
  unfoldable pub on_wal : {A : Type 0} → Method (WriteAheadLog io) A → Method Inner A
  on_wal m s = let (r, w) = m s.wal in (r, record s { wal = w })

  -- `TransactionManager::open`, on the opened log
  unfoldable pub open_manager : WriteAheadLog io → Result Inner
  unfolding highest
  open_manager wal =
      let next = highest wal.records + 1 in
      if ltb next (2 ^ 64)
      then ok (record { next_id = next; statuses = []; locks = []; wal = wal })
      else err invalid_state

  unfoldable pub take_id : Method Inner ℕ
  take_id s =
      if ltb (s.next_id + 1) (2 ^ 64)
      then (ok s.next_id, record s { next_id = s.next_id + 1 })
      else (err invalid_state, s)

  unfoldable pub set_status : ℕ → TransactionStatus → Method Inner (Unit {0})
  set_status id status = modify (λ s. record s { statuses = Map.insert id status s.statuses })

  unfoldable pub set_lock : String → LockState → Method Inner (Unit {0})
  set_lock c l = modify (λ s. record s { locks = Map.insert c l s.locks })

  -- `begin`
  unfoldable pub begin : Method Inner ℕ
  unfolding on_wal take_id set_status
  begin = do id ← take_id; on_wal (log_begin io id); set_status id active; return id

  -- `ensure_active`
  unfoldable pub ensure_active : ℕ → Method Inner (Unit {0})
  ensure_active id s = elim (Map.lookup id s.statuses) [
    | none ↦ (err not_found, s)
    | some active ↦ (ok tt, s)
    | some committed ↦ (err invalid_state, s)
    | some rolled_back ↦ (err invalid_state, s)
  ]

  -- `acquire_shared`; the entry for the collection is made before the conflict is tested
  unfoldable pub acquire_shared : ℕ → String → Method Inner (Unit {0})
  unfolding ensure_active set_lock lock_of
  acquire_shared id c = do
    ensure_active id
    l ← gets (λ s. lock_of c s.locks)
    set_lock c l
    fail_if (foreign_writer id l) invalid_state
    set_lock c (record l { readers = Set.insert id l.readers })

  -- `acquire_exclusive`
  unfoldable pub acquire_exclusive : ℕ → String → Method Inner (Unit {0})
  unfolding ensure_active set_lock lock_of foreign_reader
  acquire_exclusive id c = do
    ensure_active id
    l ← gets (λ s. lock_of c s.locks)
    set_lock c l
    fail_if (foreign_reader id l || foreign_writer id l) invalid_state
    set_lock c (record { readers = Set.remove id l.readers; writer = some id })

  -- What `commit` and `rollback` share: the record, the synchronization, the state, the locks.
  unfoldable pub finish :
      Method (WriteAheadLog io) ℕ → TransactionStatus → ℕ → Method Inner (Unit {0})
  unfolding ensure_active on_wal set_status
  finish entry status id = do
    ensure_active id
    on_wal entry
    on_wal (flush io)
    set_status id status
    modify (λ s. record s { locks = release_locks id s.locks })

  -- `commit`
  unfoldable pub commit : ℕ → Method Inner (Unit {0})
  unfolding finish
  commit id = finish (log_commit io id) committed id

  -- `rollback`
  unfoldable pub rollback : ℕ → Method Inner (Unit {0})
  unfolding finish
  rollback id = finish (log_abort io id) rolled_back id

  -- `status`
  unfoldable pub status : ℕ → Inner → Result TransactionStatus
  status id s = elim (Map.lookup id s.statuses) [ none ↦ err not_found | some st ↦ ok st ]
