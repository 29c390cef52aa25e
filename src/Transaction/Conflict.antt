-- ===== src/Transaction/Conflict.antt =====
-- Which requests for a lock are refused.
use novabase.Common.{
  ℕ, ◌≡◌, ◌≢◌, ap, Bool, true, false, not, ◌||◌, some, List, [], ◌∷◌, String, arith, ◌==◌, ==_iff,
  any,
}
use novabase.Common.Key.{nat_key, string_key}
use novabase.Common.Map
use novabase.Common.Map.{Map, lookup-insert}
use novabase.Common.Set
use novabase.Common.Set.{contains-insert}
use text.Mathlib.TextEquality.{eq_iff}
use novabase.Common.Result.{ok, invalid_state, Method, and_then-ok, ◌>>=◌, fail_if, gets}
use novabase.Wal.Log.{LogFile}
use novabase.Transaction
use novabase.Transaction.{
  TransactionStatus, active, LockState, Locks, Inner, foreign_reader, foreign_writer, lock_of,
}
use novabase.Transaction.Invariant.{ensure_active-ok, fail_if-ok}

lock_of-insert : (c : String) (l : LockState) (locks : Locks) → lock_of c (Map.insert c l locks) ≡ l
unfolding lock_of
lock_of-insert c l locks = ground (arith, lookup-insert c c l locks, eq_iff c c)

any_other :
    (id j : ℕ) (readers : List ℕ)
    → id ≢ j
    → Set.contains id readers ≡ true
    → any (λ reader. not (reader == j)) readers ≡ true
unfolding Set.contains
any_other id j [] other h = cc
any_other id j (x ∷ readers) other h =
    ground (arith, any_other id j readers other, ==_iff x id, ==_iff x j)

foreign_reader-found :
    (id j : ℕ) (l : LockState)
    → id ≢ j
    → Set.contains id l.readers ≡ true
    → foreign_reader j l ≡ true
unfolding foreign_reader
foreign_reader-found id j l other h = any_other id j l.readers other h

module _ (io : LogFile) where
  -- A request for a lock, with its conflicts and its change of the lock.
  abbrev request :
      ℕ → String → (LockState → Bool) → (LockState → LockState) → Method (Inner io) (Unit {0})
  request id c conflict change = Transaction.ensure_active io id >>= λ u.
      gets (λ t. lock_of c t.locks) >>= λ l. Transaction.set_lock io c l >>= λ v.
      fail_if (conflict l) invalid_state >>= λ w. Transaction.set_lock io c (change l)

  -- What a request for a lock that succeeds has stored.
  taken :
      (id : ℕ) (c : String) (conflict : LockState → Bool) (change : LockState → LockState)
      (s t : Inner io) (u : Unit {0})
      → request id c conflict change s ≡ (ok u, t)
      → (Map.lookup id s.statuses ≡ some active)
        × (conflict (lock_of c s.locks) ≡ false)
        × (lock_of c t.locks ≡ change (lock_of c s.locks))
        × (t.statuses ≡ s.statuses)
  unfolding Transaction.set_lock
  taken id c conflict change s t u e =
      let (u0, s0, e0, r0) = and_then-ok (Transaction.ensure_active io id s) _ e in
      let l = lock_of c s0.locks in
      let (u1, s1, e1, r1) =
        and_then-ok
          (fail_if (conflict l) invalid_state (record s0 { locks = Map.insert c l s0.locks })) _
          r0 in
      let (alive, same) = ensure_active-ok io id s s0 u0 e0 in
      let (free, kept) = fail_if-ok io (conflict l) invalid_state _ s1 u1 e1 in
      let stored : record s1 { locks = Map.insert c (change l) s1.locks } ≡ t = ap (λ x. x.1) r1 in
      let found = lock_of-insert c (change l) s1.locks in
      (alive, cc (same, free), cc (found, stored, same), cc (same, kept, stored))

  -- A request that meets a conflict is refused.
  refused :
      (id : ℕ) (c : String) (conflict : LockState → Bool) (change : LockState → LockState)
      (s : Inner io)
      → conflict (lock_of c s.locks) ≡ true
      → (request id c conflict change s).0 ≢ ok tt
  refused id c conflict change s hit e =
      let (alive, free, stored, kept) =
        taken id c conflict change s (request id c conflict change s).1 tt
          (ap (λ r. (r, (request id c conflict change s).1)) e) in
      cc (free, hit)

  writer_blocks :
      (id j : ℕ) (c : String) (t : Inner io)
      → id ≢ j
      → (lock_of c t.locks).writer ≡ some id
      → foreign_writer j (lock_of c t.locks) ≡ true
  writer_blocks id j c t other held = ground (arith, held, ==_iff id j, other)

  -- After an exclusive lock is granted, no other transaction gets a lock on the collection, shared
  -- or exclusive.
  pub exclusive_blocks :
      (id j : ℕ) (c : String) (s t : Inner io) (u : Unit {0})
      → id ≢ j
      → Transaction.acquire_exclusive io id c s ≡ (ok u, t)
      → ((Transaction.acquire_shared io j c t).0 ≢ ok tt)
        × ((Transaction.acquire_exclusive io j c t).0 ≢ ok tt)
  unfolding Transaction.acquire_exclusive Transaction.acquire_shared
  exclusive_blocks id j c s t u other e =
      let (alive, free, stored, kept) =
        taken id c (λ l. foreign_reader id l || foreign_writer id l)
          (λ l. record { readers = Set.remove id l.readers; writer = some id }) s t u e in
      let held = writer_blocks id j c t other (ap (λ x. x.writer) stored) in
      (
        refused j c (foreign_writer j) (λ l. record l { readers = Set.insert j l.readers }) t held,
        refused j c (λ l. foreign_reader j l || foreign_writer j l)
            (λ l. record { readers = Set.remove j l.readers; writer = some j }) t
            (ground (arith, held)),
      )

  -- After a shared lock is granted, no other transaction gets the collection for itself.
  pub shared_blocks_exclusive :
      (id j : ℕ) (c : String) (s t : Inner io) (u : Unit {0})
      → id ≢ j
      → Transaction.acquire_shared io id c s ≡ (ok u, t)
      → (Transaction.acquire_exclusive io j c t).0 ≢ ok tt
  unfolding Transaction.acquire_exclusive Transaction.acquire_shared
  shared_blocks_exclusive id j c s t u other e =
      let (alive, free, stored, kept) =
        taken id c (foreign_writer id) (λ l. record l { readers = Set.insert id l.readers }) s t u
          e in
      let reads : Set.contains id (lock_of c t.locks).readers ≡ true = ground (
        arith,
        ap (λ x. x.readers) stored,
        contains-insert id id (lock_of c s.locks).readers,
        ==_iff id id,
      ) in
      refused j c (λ l. foreign_reader j l || foreign_writer j l)
        (λ l. record { readers = Set.remove j l.readers; writer = some j }) t
        (ground (arith, foreign_reader-found id j (lock_of c t.locks) other reads))
