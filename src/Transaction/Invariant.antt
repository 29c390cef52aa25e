-- ===== src/Transaction/Invariant.antt =====
-- The invariant of the manager, kept by every call, whatever the log answers.
use novabase.Common.{
  ℕ, ◌+◌, ◌^◌, ◌<◌, ◌≡◌, refl, sym, ap, ◌∙◌, Bool, true, false, ◌||◌, Bool-cases, some,
  Option-cases, inl, inr, List, [], ◌∷◌, String, arith, ==_iff, ltb,
}
use mathlib.Core.Path.{subst}
use novabase.Common.Key.{same, nat_key, string_key}
use novabase.Common.Map
use novabase.Common.Map.{Map, IsUnique, lookup-insert, IsUnique-insert}
use novabase.Common.Set
use novabase.Common.Result.{
  NovaError, Result, ok, err, invalid_state, Method, bind-keeps, fail_if, ◌>>=◌,
}
use novabase.Wal.Log.{LogFile, WriteAheadLog, log_begin, log_commit, log_abort, flush}
use novabase.Transaction
use novabase.Transaction.{
  TransactionStatus, active, committed, rolled_back, LockState, Locks, unlocked, foreign_writer,
  foreign_reader, drop_holder, is_held, release_locks, lock_of, Inner,
}
use novabase.Transaction.Locks.{
  WellHeld, WellHeld-unlocked, WellHeld-share, WellHeld-own, WellHeld-drop, WellHeld-begin,
  lookup-release, IsUnique-release,
}

module _ (io : LogFile) where
  -- Every lock is well held, each collection has one entry, and identifiers to come are unused.
  pub record IsSound (s : Inner io) : Type 0 where
    pub unique : IsUnique s.locks
    pub well_held :
        (c : String) (l : LockState) → Map.lookup c s.locks ≡ some l → WellHeld s.statuses l
    pub fresh :
        (id : ℕ) (st : TransactionStatus) → Map.lookup id s.statuses ≡ some st → id < s.next_id

  on_wal-IsSound :
      {A : Type 0} (m : Method (WriteAheadLog io) A) (s : Inner io)
      → IsSound s
      → IsSound (Transaction.on_wal io m s).1
  unfolding Transaction.on_wal
  on_wal-IsSound m s h = record { unique = h.unique; well_held = h.well_held; fresh = h.fresh }

  pub ensure_active-ok :
      (id : ℕ) (s t : Inner io) (u : Unit {0})
      → Transaction.ensure_active io id s ≡ (ok u, t)
      → (Map.lookup id s.statuses ≡ some active) × (t ≡ s)
  unfolding Transaction.ensure_active
  ensure_active-ok id s t u e = ground (arith, e)

  pub ensure_active-state : (id : ℕ) (s : Inner io) → (Transaction.ensure_active io id s).1 ≡ s
  unfolding Transaction.ensure_active
  ensure_active-state id s = ground arith

  lock_of-WellHeld :
      (s : Inner io) (c : String) → IsSound s → WellHeld s.statuses (lock_of c s.locks)
  unfolding lock_of
  lock_of-WellHeld s c h = elim (Option-cases (Map.lookup c s.locks)) [
    | inl e ↦ rw (e, lock_of) (WellHeld-unlocked s.statuses)
    | inr (l, e) ↦ rw (e, lock_of) (h.well_held c l e)
  ]

  set_lock-IsSound :
      (c : String) (l : LockState) (s : Inner io)
      → IsSound s
      → WellHeld s.statuses l
      → IsSound (Transaction.set_lock io c l s).1
  unfolding Transaction.set_lock
  set_lock-IsSound c l s h w = record {
    unique = IsUnique-insert c l s.locks h.unique;
    well_held = λ d k e. elim (Bool-cases (same c d)) [
      | inl here ↦
          subst (WellHeld s.statuses) (ground (arith, e, here, lookup-insert c d l s.locks)) w
      | inr there ↦ h.well_held d k (ground (arith, e, there, lookup-insert c d l s.locks))
    ];
    fresh = h.fresh;
  }

  fail_if-IsSound :
      (b : Bool) (x : NovaError) (s : Inner io) → IsSound s → IsSound (fail_if b x s).1
  fail_if-IsSound true x s h = h
  fail_if-IsSound false x s h = h

  set_status-begin :
      (id : ℕ) (s : Inner io)
      → id < s.next_id
      → IsSound s
      → IsSound (Transaction.set_status io id active s).1
  unfolding Transaction.set_status
  set_status-begin id s known h = record {
    unique = h.unique;
    well_held = λ c l e. WellHeld-begin s.statuses id l (h.well_held c l e);
    fresh = λ j st e.
        ground (arith, e, known, h.fresh j st, lookup-insert id j active s.statuses, ==_iff id j);
  }

  take_id-IsSound : (s : Inner io) → IsSound s → IsSound (Transaction.take_id io s).1
  unfolding Transaction.take_id
  take_id-IsSound s h = elim (Bool-cases (ltb (s.next_id + 1) (2 ^ 64))) [
    | inl room ↦ rw room (record {
      unique = h.unique;
      well_held = h.well_held;
      fresh = λ j st e. omega (arith, h.fresh j st e);
    })
    | inr full ↦ rw full h
  ]

  pub take_id-ok :
      (s t : Inner io) (id : ℕ)
      → Transaction.take_id io s ≡ (ok id, t)
      → (id ≡ s.next_id) × (t ≡ record s { next_id = s.next_id + 1 })
  unfolding Transaction.take_id
  take_id-ok s t id e = ground (arith, e)

  pub on_wal-next :
      {A : Type 0} (m : Method (WriteAheadLog io) A) (s : Inner io)
      → (Transaction.on_wal io m s).1.next_id ≡ s.next_id
  unfolding Transaction.on_wal
  on_wal-next m s = refl

  begin-IsSound : (s : Inner io) → IsSound s → IsSound (Transaction.begin io s).1
  unfolding Transaction.begin
  begin-IsSound s h =
      bind-keeps IsSound (Transaction.take_id io s) _ (take_id-IsSound s h) λ id s1 e1 h1.
        let (named, taken) = take_id-ok s s1 id e1 in
        bind-keeps IsSound (Transaction.on_wal io (log_begin io id) s1) _
          (on_wal-IsSound (log_begin io id) s1 h1)
          λ lsn s2 e2 h2.
            set_status-begin id s2
              (omega (
                arith,
                named,
                ap (λ x. x.next_id) taken,
                ap (λ x. x.1.next_id) e2,
                on_wal-next (log_begin io id) s1,
              ))
              h2

  pub set_lock-statuses :
      (c : String) (l : LockState) (s t : Inner io) (u : Unit {0})
      → Transaction.set_lock io c l s ≡ (ok u, t)
      → t.statuses ≡ s.statuses
  unfolding Transaction.set_lock
  set_lock-statuses c l s t u e = sym (ap (λ x. x.1.statuses) e)

  pub fail_if-ok :
      (b : Bool) (x : NovaError) (s t : Inner io) (u : Unit {0})
      → fail_if b x s ≡ (ok u, t)
      → (b ≡ false) × (t ≡ s)
  fail_if-ok true x s t u e = cc
  fail_if-ok false x s t u e = (refl, sym (ap (λ x. x.1) e))

  -- Entering the collection, testing for a conflict and storing the new lock keep the invariant.
  take_lock :
      (id : ℕ) (c : String) (conflict : LockState → Bool) (change : LockState → LockState)
      (s : Inner io)
      → IsSound s
      → ((l : LockState)
          → Map.lookup id s.statuses ≡ some active
          → conflict l ≡ false
          → WellHeld s.statuses l
          → WellHeld s.statuses (change l))
      → (t : Inner io) (u : Unit {0}) → Transaction.ensure_active io id s ≡ (ok u, t)
      → IsSound
          ((Transaction.set_lock io c (lock_of c t.locks) >>= λ v.
              fail_if (conflict (lock_of c t.locks)) invalid_state >>= λ w.
              Transaction.set_lock io c (change (lock_of c t.locks)))
            t).1
  take_lock id c conflict change s h good t u e =
      let (alive, same) = ensure_active-ok id s t u e in
      let h1 : IsSound t = subst IsSound (sym same) h in
      let l = lock_of c t.locks in
      let held = lock_of-WellHeld t c h1 in
      bind-keeps IsSound (Transaction.set_lock io c l t) _ (set_lock-IsSound c l t h1 held)
        λ v s2 e2 h2.
          bind-keeps IsSound (fail_if (conflict l) invalid_state s2) _
            (fail_if-IsSound _ invalid_state s2 h2)
            λ w s3 e3 h3.
              let (free, kept) = fail_if-ok (conflict l) invalid_state s2 s3 w e3 in
              let st : s.statuses ≡ s3.statuses = sym (
                ap (λ x. x.statuses) kept
                ∙ set_lock-statuses c l t s2 v e2
                ∙ ap (λ x. x.statuses) same) in
              let held' : WellHeld s.statuses l =
                subst (λ (x : Inner io). WellHeld x.statuses l) same held in
              set_lock-IsSound c (change l) s3 h3
                (subst (λ x. WellHeld x (change l)) st (good l alive free held'))

  acquire_shared-IsSound :
      (id : ℕ) (c : String) (s : Inner io)
      → IsSound s
      → IsSound (Transaction.acquire_shared io id c s).1
  unfolding Transaction.acquire_shared
  acquire_shared-IsSound id c s h =
      bind-keeps IsSound (Transaction.ensure_active io id s) _ (rw (ensure_active-state id s) h)
        λ u t e k.
          take_lock id c (foreign_writer id) (λ l. record l { readers = Set.insert id l.readers }) s
            h (WellHeld-share s.statuses id) t u e

  acquire_exclusive-IsSound :
      (id : ℕ) (c : String) (s : Inner io)
      → IsSound s
      → IsSound (Transaction.acquire_exclusive io id c s).1
  unfolding Transaction.acquire_exclusive
  acquire_exclusive-IsSound id c s h =
      bind-keeps IsSound (Transaction.ensure_active io id s) _ (rw (ensure_active-state id s) h)
        λ u t e k.
          take_lock id c (λ l. foreign_reader id l || foreign_writer id l)
            (λ l. record { readers = Set.remove id l.readers; writer = some id }) s h
            (λ l alive free. WellHeld-own s.statuses id l alive (ground (arith, free))) t u e

  -- Ending a transaction that is known keeps the invariant.
  end-IsSound :
      (id : ℕ) (st : TransactionStatus) (s : Inner io)
      → id < s.next_id
      → IsSound s
      → IsSound
          (record s { statuses = Map.insert id st s.statuses; locks = release_locks id s.locks })
  end-IsSound id st s known h = record {
    unique = IsUnique-release id s.locks h.unique;
    well_held = λ c l e. elim (Option-cases (Map.lookup c s.locks)) [
      | inl none_there ↦ cc (lookup-release id c s.locks h.unique, none_there, e)
      | inr (k, there) ↦
          subst (WellHeld (Map.insert id st s.statuses))
            (ground (arith, lookup-release id c s.locks h.unique, there, e))
            (WellHeld-drop s.statuses id st k (h.well_held c k there))
    ];
    fresh = λ j x e.
        ground (arith, e, known, h.fresh j x, lookup-insert id j st s.statuses, ==_iff id j);
  }

  pub on_wal-ok :
      {A : Type 0} (m : Method (WriteAheadLog io) A) (s t : Inner io) (a : A)
      → Transaction.on_wal io m s ≡ (ok a, t)
      → t ≡ record s { wal = (m s.wal).1 }
  unfolding Transaction.on_wal
  on_wal-ok m s t a e = sym (ap (λ x. x.1) e)

  pub on_wal-answer :
      {A : Type 0} (m : Method (WriteAheadLog io) A) (s t : Inner io) (a : A)
      → Transaction.on_wal io m s ≡ (ok a, t)
      → m s.wal ≡ (ok a, t.wal)
  unfolding Transaction.on_wal
  on_wal-answer m s t a e = ground (arith, ap (λ x. x.0) e, ap (λ x. x.1.wal) e)

  finish-IsSound :
      (entry : Method (WriteAheadLog io) ℕ) (st : TransactionStatus) (id : ℕ) (s : Inner io)
      → IsSound s
      → IsSound (Transaction.finish io entry st id s).1
  unfolding Transaction.finish Transaction.set_status
  finish-IsSound entry st id s h =
      bind-keeps IsSound (Transaction.ensure_active io id s) _ (rw (ensure_active-state id s) h)
        λ u s1 e1 h1.
          let (alive, same) = ensure_active-ok id s s1 u e1 in
          bind-keeps IsSound (Transaction.on_wal io entry s1) _ (on_wal-IsSound entry s1 h1)
            λ lsn s2 e2 h2.
              bind-keeps IsSound (Transaction.on_wal io (flush io) s2) _
                (on_wal-IsSound (flush io) s2 h2)
                λ v s3 e3 h3.
                  let kept =
                    ap (λ x. x.next_id) (on_wal-ok (flush io) s2 s3 v e3)
                    ∙ ap (λ x. x.next_id) (on_wal-ok entry s1 s2 lsn e2)
                    ∙ ap (λ x. x.next_id) same in
                  end-IsSound id st s3 (omega (arith, kept, h.fresh id active alive)) h3

-- The calls of the manager's clients.
pub data Call : Type 0 where
  begins : Call
  shares : ℕ → String → Call
  owns : ℕ → String → Call
  commits : ℕ → Call
  rolls_back : ℕ → Call

module _ (io : LogFile) where
  -- The state after a call, whether it succeeds or fails.
  unfoldable pub after : Call → Inner io → Inner io
  after begins s = (Transaction.begin io s).1
  after (shares id c) s = (Transaction.acquire_shared io id c s).1
  after (owns id c) s = (Transaction.acquire_exclusive io id c s).1
  after (commits id) s = (Transaction.commit io id s).1
  after (rolls_back id) s = (Transaction.rollback io id s).1

  unfoldable pub run : List Call → Inner io → Inner io
  run [] s = s
  run (c ∷ calls) s = run calls (after c s)

  pub after-IsSound : (c : Call) (s : Inner io) → IsSound io s → IsSound io (after c s)
  unfolding after Transaction.commit Transaction.rollback
  after-IsSound begins s h = begin-IsSound io s h
  after-IsSound (shares id c) s h = acquire_shared-IsSound io id c s h
  after-IsSound (owns id c) s h = acquire_exclusive-IsSound io id c s h
  after-IsSound (commits id) s h = finish-IsSound io (log_commit io id) committed id s h
  after-IsSound (rolls_back id) s h = finish-IsSound io (log_abort io id) rolled_back id s h

  run-IsSound : (calls : List Call) (s : Inner io) → IsSound io s → IsSound io (run calls s)
  unfolding run
  run-IsSound [] s h = h
  run-IsSound (c ∷ calls) s h = run-IsSound calls (after c s) (after-IsSound c s h)

  opened-IsSound :
      (wal : WriteAheadLog io) (s : Inner io)
      → Transaction.open_manager io wal ≡ ok s
      → IsSound io s
  unfolding Transaction.open_manager
  opened-IsSound wal s e = elim (Bool-cases (ltb (Transaction.highest wal.records + 1) (2 ^ 64))) [
    | inl room ↦ subst (λ (x : Result (Inner io)). Sound_result x) (rw room at e) empty
    | inr full ↦ cc (rw full at e)
  ]
    where
      Sound_result : Result (Inner io) → Type 0
      Sound_result (ok s) = IsSound io s
      Sound_result (err x) = Unit

      empty : IsSound io (record {
        next_id = Transaction.highest wal.records + 1;
        statuses = [];
        locks = [];
        wal = wal;
      })
      empty =
          unfold Map.lookup in
          record { unique = tt; well_held = λ c l e. cc; fresh = λ id st e. cc }

  -- After any sequence of calls on a manager that was opened, whether they succeeded or failed, a
  -- collection with a writer has no other reader, and whoever reads or writes it is active.
  pub locks_are_exclusive :
      (wal : WriteAheadLog io) (s : Inner io) (calls : List Call) (c : String) (l : LockState)
      → Transaction.open_manager io wal ≡ ok s
      → Map.lookup c (run calls s).locks ≡ some l
      → WellHeld (run calls s).statuses l
  locks_are_exclusive wal s calls c l e found =
      (run-IsSound calls s (opened-IsSound wal s e)).well_held c l found
