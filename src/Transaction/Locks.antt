-- ===== src/Transaction/Locks.antt =====
-- The lock table: what each operation on it makes of every lock.
use novabase.Common.{
  ℕ, ◌≡◌, ◌≢◌, refl, true, false, not, Bool-cases, Option, none, some, inl, inr, List, [], ◌∷◌,
  String, arith, any, ◌==◌, ==_iff, if◌then◌else◌,
}
use novabase.Common.Key.{nat_key, string_key}
use novabase.Common.Map
use novabase.Common.Map.{Map, IsUnique, lookup-insert}
use novabase.Common.Set
use novabase.Common.Set.{contains-insert, contains-remove}
use text.Mathlib.TextEquality.{eq_iff}
use novabase.Transaction.{
  TransactionStatus, active, LockState, Locks, unlocked, foreign_writer, foreign_reader,
  drop_holder, is_held, release_locks,
}

abbrev pub Statuses : Type 0
Statuses = Map ℕ TransactionStatus

-- A lock whose writer, if there is one, shares it with no other transaction, and whose holders are
-- all active.
pub record WellHeld (statuses : Statuses) (l : LockState) : Type 0 where
  pub exclusive : (w r : ℕ) → l.writer ≡ some w → Set.contains r l.readers ≡ true → r ≡ w
  pub readers_active :
      (r : ℕ) → Set.contains r l.readers ≡ true → Map.lookup r statuses ≡ some active
  pub writer_active : (w : ℕ) → l.writer ≡ some w → Map.lookup w statuses ≡ some active

pub WellHeld-unlocked : (statuses : Statuses) → WellHeld statuses unlocked
WellHeld-unlocked statuses = record {
  exclusive = λ w r h k. cc;
  readers_active = λ r h. unfold Set.contains in cc (h);
  writer_active = λ w h. cc;
}

-- Without a foreign writer a reader may join.
pub WellHeld-share :
    (statuses : Statuses) (id : ℕ) (l : LockState)
    → Map.lookup id statuses ≡ some active
    → foreign_writer id l ≡ false
    → WellHeld statuses l
    → WellHeld statuses (record l { readers = Set.insert id l.readers })
WellHeld-share statuses id l alive free h = record {
  exclusive = λ w r e k. ground (
    arith,
    free,
    e,
    k,
    contains-insert id r l.readers,
    h.exclusive w r e,
    ==_iff id r,
    ==_iff w id,
  );
  readers_active = λ r k.
      ground (arith, k, alive, contains-insert id r l.readers, h.readers_active r, ==_iff id r);
  writer_active = h.writer_active;
}

no_foreign_reader :
    (id r : ℕ) (readers : List ℕ)
    → any (λ reader. not (reader == id)) readers ≡ false
    → Set.contains r readers ≡ true
    → r ≡ id
unfolding Set.contains
no_foreign_reader id r [] h k = cc
no_foreign_reader id r (x ∷ readers) h k =
    ground (arith, no_foreign_reader id r readers, ==_iff x r, ==_iff x id)

-- Without any foreign holder a transaction may own the lock.
pub WellHeld-own :
    (statuses : Statuses) (id : ℕ) (l : LockState)
    → Map.lookup id statuses ≡ some active
    → foreign_reader id l ≡ false
    → WellHeld statuses l
    → WellHeld statuses (record { readers = Set.remove id l.readers; writer = some id })
unfolding foreign_reader
WellHeld-own statuses id l alive free h = record {
  exclusive = λ w r e k.
      ground (arith, e, k, contains-remove id r l.readers, no_foreign_reader id r l.readers free);
  readers_active = λ r k. ground (arith, k, contains-remove id r l.readers, h.readers_active r);
  writer_active = λ w e. ground (arith, e, alive);
}

-- When `id` ends, its removal leaves the lock well held under the new states.
pub WellHeld-drop :
    (statuses : Statuses) (id : ℕ) (st : TransactionStatus) (l : LockState)
    → WellHeld statuses l
    → WellHeld (Map.insert id st statuses) (drop_holder id l)
unfolding drop_holder
WellHeld-drop statuses id st l h = record {
  exclusive = λ w r e k. ground (arith, e, k, contains-remove id r l.readers, h.exclusive w r);
  readers_active = λ r k. ground (
    arith,
    k,
    contains-remove id r l.readers,
    h.readers_active r,
    lookup-insert id r st statuses,
    ==_iff id r,
  );
  writer_active = λ w e.
      ground
        (arith, e, h.writer_active w, lookup-insert id w st statuses, ==_iff id w, ==_iff w id);
}

-- A new transaction holds nothing yet.
pub WellHeld-begin :
    (statuses : Statuses) (id : ℕ) (l : LockState)
    → WellHeld statuses l
    → WellHeld (Map.insert id active statuses) l
WellHeld-begin statuses id l h = record {
  exclusive = h.exclusive;
  readers_active = λ r k. ground (arith, h.readers_active r k, lookup-insert id r active statuses);
  writer_active = λ w e. ground (arith, h.writer_active w e, lookup-insert id w active statuses);
}

-- `id` holds the lock in neither way.
abbrev pub Free : ℕ → LockState → Type 0
Free id l = (Set.contains id l.readers ≡ false) × (l.writer ≢ some id)

pub drop_holder-Free : (id : ℕ) (l : LockState) → Free id (drop_holder id l)
unfolding drop_holder
drop_holder-Free id l =
    (ground (arith, contains-remove id id l.readers, ==_iff id id), λ e. ground (arith, e))

-- What is left of a lock when `id` has let go: an entry that nobody holds is dropped.
abbrev pub left : ℕ → Option LockState → Option LockState
left id none = none
left id (some l) = if is_held (drop_holder id l) then some (drop_holder id l) else none

pub lookup-release :
    (id : ℕ) (c : String) (locks : Locks)
    → IsUnique locks
    → Map.lookup c (release_locks id locks) ≡ left id (Map.lookup c locks)
unfolding release_locks Map.lookup
lookup-release id c [] u = refl
lookup-release id c ((d, l) ∷ locks) (f, u) =
    ground (arith, lookup-release id c locks u, eq_iff d c, lookup-release id d locks u, f)

pub IsUnique-release : (id : ℕ) (locks : Locks) → IsUnique locks → IsUnique (release_locks id locks)
unfolding release_locks
IsUnique-release id [] u = tt
IsUnique-release id ((d, l) ∷ locks) (f, u) = elim (Bool-cases (is_held (drop_holder id l))) [
  | inl held ↦
      rw (held, release_locks) (rw (lookup-release id d locks u, f), IsUnique-release id locks u)
  | inr idle ↦ rw (idle, release_locks) (IsUnique-release id locks u)
]
