-- ===== src/Buffer/Bound.antt =====
-- The number of frames, which no call takes over the capacity.
use novabase.Common.{
  ℕ, ◌-◌, ◌<◌, ◌≤◌, ◌≡◌, ◌≢◌, refl, ap, false, Bool-cases, some, Option-cases, inl, inr, ◌⊎◌,
  length, arith, ◌==◌, ==_iff,
}
use mathlib.Core.Path.{subst}
use novabase.Common.Key.{nat_key}
use novabase.Common.Map
use novabase.Common.Map.{
  Map, IsUnique, IsUnique-insert, IsUnique-remove, length-insert-le, length-insert_old,
  length-remove_old,
}
use novabase.Common.Result.{
  Result, ok, err, invalid_state, Method, and_then, bind-keeps, ◌>>=◌, gets,
}
use novabase.Storage.File.{FileSystem}
use novabase.Storage.Page.{Page}
use novabase.Storage.Manager
use novabase.Storage.Manager.{PageManager}
use novabase.Buffer
use novabase.Buffer.{Frame, Frames, BufferPool, victim}
use novabase.Buffer.Victim.{victim-found}

module _ (fs : FileSystem) where
  open fs use {File}

  -- At most `n` frames, under different identifiers, in a pool of capacity `c`.
  pub record Within (n c : ℕ) (s : BufferPool fs) : Type 0 where
    pub unique : IsUnique s.frames
    pub few : length s.frames ≤ n
    pub capacity : s.capacity ≡ c

  wider : {n m c : ℕ} (s : BufferPool fs) → n ≤ m → Within n c s → Within m c s
  wider s le h = record { unique = h.unique; few = omega (arith, le, h.few); capacity = h.capacity }

  pub on_pages-Within :
      {A : Type 0} (n c : ℕ) (m : Method (PageManager fs) A) (s : BufferPool fs)
      → Within n c s
      → Within n c (Buffer.on_pages fs m s).1
  unfolding Buffer.on_pages
  on_pages-Within n c m s h = record { unique = h.unique; few = h.few; capacity = h.capacity }

  pub count-Within :
      (n c : ℕ) (s : BufferPool fs) → Within n c s → Within n c (Buffer.count_write fs s).1
  unfolding Buffer.count_write
  count-Within n c s h = record { unique = h.unique; few = h.few; capacity = h.capacity }

  write_back-Within :
      (n c : ℕ) (f : Frame) (s : BufferPool fs)
      → Within n c s
      → Within n c (Buffer.write_back fs f s).1
  unfolding Buffer.write_back
  write_back-Within n c f s h = elim (Bool-cases f.dirty) [
    | inl dirty ↦ rw dirty (
        bind-keeps (Within n c) (Buffer.on_pages fs (Manager.write fs f.page) s) _
          (on_pages-Within n c (Manager.write fs f.page) s h) λ u t e k. count-Within n c t k)
    | inr tidy ↦ rw tidy h
  ]

  let_go-Within :
      (n c : ℕ) (f : Frame) (s : BufferPool fs) → Within n c s → Within n c (Buffer.let_go fs f s).1
  unfolding Buffer.let_go
  let_go-Within n c f s h =
      bind-keeps (Within n c) (Buffer.write_back fs f s) _ (write_back-Within n c f s h)
        λ u t e k. record { unique = k.unique; few = k.few; capacity = k.capacity }

  -- After an eviction, which may fail in its write, there is room for a frame.
  evict_one-cases :
      (n c : ℕ) (s : BufferPool fs)
      → Within n c s
      → (Buffer.evict_one fs s ≡ (err invalid_state, s))
        ⊎ ((n ≢ 0) × Within (n - 1) c (Buffer.evict_one fs s).1)
  unfolding Buffer.evict_one
  evict_one-cases n c s h = elim (Option-cases (victim s.frames)) [
    | inl all ↦ inl (rw (all, Buffer.evict_one) refl)
    | inr ((id, f), e) ↦
        let (found, free) = victim-found s.frames id f h.unique e in
        let fewer = length-remove_old id f s.frames found in
        inr (
          omega (arith, fewer, h.few),
          rw (e, Buffer.evict_one)
              (let_go-Within (n - 1) c f (record s { frames = Map.remove id s.frames })
                (record {
                  unique = IsUnique-remove id s.frames h.unique;
                  few = omega (arith, fewer, h.few);
                  capacity = h.capacity;
                })),
        )
  ]

  -- `make_room` keeps the bound, and where it succeeds leaves room under a positive capacity.
  pub make_room-Within :
      (c : ℕ) (s : BufferPool fs)
      → 0 < c
      → Within c c s
      → Within c c (Buffer.make_room fs s).1
        × ((t : BufferPool fs) (u : Unit {0})
            → Buffer.make_room fs s ≡ (ok u, t)
            → Within (c - 1) c t)
  unfolding Buffer.make_room
  make_room-Within c s some_room h = elim (Bool-cases (length s.frames == s.capacity)) [
    | inl full ↦ rw full (elim (evict_one-cases c c s h) [
      | inl e ↦ (rw e h, λ t u k. cc (e, k))
      | inr (n, w) ↦ (
        wider (Buffer.evict_one fs s).1 (omega (arith, n)) w,
        λ t u k. subst (Within (c - 1) c) (ap (λ x. x.1) k) w,
      )
    ])
    | inr roomy ↦ rw roomy (
      h,
      λ t u k. subst (Within (c - 1) c) (ap (λ x. x.1) k) (record {
        unique = h.unique;
        few = ground (arith, roomy, h.few, h.capacity, ==_iff (length s.frames) s.capacity);
        capacity = h.capacity;
      }),
    )
  ]

  put_frame-Within :
      (c id : ℕ) (f : Frame) (s : BufferPool fs)
      → 0 < c
      → Within (c - 1) c s
      → Within c c (Buffer.put_frame fs id f s).1
  unfolding Buffer.put_frame
  put_frame-Within c id f s some_room h = record {
    unique = IsUnique-insert id f s.frames h.unique;
    few = omega (arith, length-insert-le id f s.frames, h.few, some_room);
    capacity = h.capacity;
  }

  -- A new value for a frame that is there takes no room.
  pub replaced-Within :
      (c id : ℕ) (f g : Frame) (s : BufferPool fs)
      → Map.lookup id s.frames ≡ some f
      → Within c c s
      → Within c c (Buffer.put_frame fs id g s).1
  unfolding Buffer.put_frame
  replaced-Within c id f g s found h = record {
    unique = IsUnique-insert id g s.frames h.unique;
    few = omega (arith, length-insert_old id g f s.frames found, h.few);
    capacity = h.capacity;
  }

  miss-Within :
      (c id : ℕ) (s : BufferPool fs) → 0 < c → Within c c s → Within c c (Buffer.miss fs id s).1
  unfolding Buffer.miss
  miss-Within c id s some_room h =
      let (kept, roomy) =
        make_room-Within c _ some_room
          (record { unique = h.unique; few = h.few; capacity = h.capacity }) in
      bind-keeps (Within c c) (Buffer.make_room fs _) _ kept
        λ u s1 e1 h1. let h2 = roomy s1 u e1 in on_miss s1 h2
    where
      on_miss :
          (s : BufferPool fs)
          → Within (c - 1) c s
          → Within c c
              ((Buffer.on_pages fs (Manager.read fs id) >>= λ p. gets (λ s. s.clock) >>= λ now.
                  Buffer.put_frame fs id
                    (record { page = p; dirty = false; pins = 0; last_used = now }))
                s).1
      on_miss s h =
          let k = on_pages-Within (c - 1) c (Manager.read fs id) s h in
          go (Buffer.on_pages fs (Manager.read fs id) s) k
        where
          go :
              (x : Result Page × BufferPool fs)
              → Within (c - 1) c x.1
              → Within c c
                  (and_then x (λ p. gets (λ s. s.clock) >>= λ now.
                    Buffer.put_frame fs id
                      (record { page = p; dirty = false; pins = 0; last_used = now }))).1
          go (ok p, t) k =
              put_frame-Within c id
                (record { page = p; dirty = false; pins = 0; last_used = t.clock }) t some_room k
          go (err e, t) k = wider t (omega arith) k

  pub load-Within :
      (c id : ℕ) (s : BufferPool fs) → 0 < c → Within c c s → Within c c (Buffer.load fs id s).1
  unfolding Buffer.load Buffer.tick Buffer.hit
  load-Within c id s some_room h = elim (Option-cases (Map.lookup id s.frames)) [
    | inl absent ↦
        rw (absent, Buffer.load)
          (miss-Within c id _ some_room
            (record { unique = h.unique; few = h.few; capacity = h.capacity }))
    | inr (f, found) ↦
        rw (found, Buffer.load)
          (record {
            unique = IsUnique-insert id _ s.frames h.unique;
            few = omega (
              arith,
              length-insert_old id (record f { last_used = Buffer.bump s.clock }) f s.frames found,
              h.few,
            );
            capacity = h.capacity;
          })
  ]
