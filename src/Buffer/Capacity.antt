-- ===== src/Buffer/Capacity.antt =====
-- The pool never holds more frames than its capacity, whatever the calls do.
use novabase.Common.{
  ℕ, ◌+◌, ◌^◌, ◌<◌, ◌≤◌, ◌≡◌, ◌≢◌, refl, sym, ap, ◌∙◌, false, Bool-cases, none, some, Option-cases,
  inl, inr, List, [], ◌∷◌, arith, ltb, ◌==◌, ==_iff,
}
use mathlib.Core.Path.{subst}
use novabase.Common.Key.{nat_key}
use novabase.Common.Map
use novabase.Common.Map.{
  Map, IsUnique, IsUnique-insert, IsUnique-remove, length-insert-le, length-insert_old,
  length-remove_old, lookup-insert,
}
use novabase.Common.Result.{
  NovaError, Result, ok, err, internal, invalid_state, Method, and_then-ok, bind-keeps, ◌>>=◌,
}
use novabase.Storage.File.{FileSystem}
use novabase.Storage.Page.{Page}
use novabase.Storage.Manager
use novabase.Storage.Manager.{PageManager}
use novabase.Buffer
use novabase.Buffer.{Frame, Frames, BufferPool, victim}
use novabase.Buffer.Bound.{
  Within, on_pages-Within, make_room-Within, replaced-Within, load-Within, count-Within,
}

module _ (fs : FileSystem) where
  open fs use {File}

  framed-state : (id : ℕ) (e : NovaError) (s : BufferPool fs) → (Buffer.framed fs id e s).1 ≡ s
  unfolding Buffer.framed
  framed-state id e s = ground arith

  pub framed-ok :
      (id : ℕ) (e : NovaError) (s t : BufferPool fs) (f : Frame)
      → Buffer.framed fs id e s ≡ (ok f, t)
      → (Map.lookup id s.frames ≡ some f) × (t ≡ s)
  unfolding Buffer.framed
  framed-ok id e s t f h = ground (arith, h)

  -- A call that looks a frame up and stores a new value for it, or fails.
  change-Within :
      (c id : ℕ) (e : NovaError) (s : BufferPool fs)
      (use_frame : Frame → Method (BufferPool fs) (Unit {0}))
      → ((t : BufferPool fs) (f : Frame)
          → Map.lookup id t.frames ≡ some f
          → Within fs c c t
          → Within fs c c (use_frame f t).1)
      → Within fs c c s
      → Within fs c c ((Buffer.framed fs id e >>= use_frame) s).1
  change-Within c id e s use_frame good h =
      bind-keeps (Within fs c c) (Buffer.framed fs id e s) _ (rw (framed-state id e s) h) λ f t r k.
        let (found, same) = framed-ok id e s t f r in
        good t f (ap (λ x. Map.lookup id x.frames) same ∙ found) k

  get-Within :
      (c id : ℕ) (s : BufferPool fs)
      → 0 < c
      → Within fs c c s
      → Within fs c c (Buffer.get fs id s).1
  unfolding Buffer.get
  get-Within c id s some_room h =
      bind-keeps (Within fs c c) (Buffer.load fs id s) _ (load-Within fs c id s some_room h)
        λ u t e k.
          bind-keeps (Within fs c c) (Buffer.framed fs id internal t) _
            (rw (framed-state id internal t) k) λ f r e2 k2. k2

  get_mut-Within :
      (c id : ℕ) (change : Page → Page) (s : BufferPool fs)
      → 0 < c
      → Within fs c c s
      → Within fs c c (Buffer.get_mut fs id change s).1
  unfolding Buffer.get_mut
  get_mut-Within c id change s some_room h =
      bind-keeps (Within fs c c) (Buffer.load fs id s) _ (load-Within fs c id s some_room h)
        λ u t e k.
          change-Within c id internal t _ (λ r f found w. replaced-Within fs c id f _ r found w) k

  pin-Within :
      (c id : ℕ) (s : BufferPool fs)
      → 0 < c
      → Within fs c c s
      → Within fs c c (Buffer.pin fs id s).1
  unfolding Buffer.pin
  pin-Within c id s some_room h =
      bind-keeps (Within fs c c) (Buffer.load fs id s) _ (load-Within fs c id s some_room h)
        λ u t e k.
          change-Within c id internal t _
            (λ r f found w. elim (Bool-cases (ltb (f.pins + 1) (2 ^ 64))) [
              | inl small ↦ rw small (replaced-Within fs c id f _ r found w)
              | inr large ↦ rw large w
            ])
            k

  unpin-Within :
      (c id : ℕ) (s : BufferPool fs) → Within fs c c s → Within fs c c (Buffer.unpin fs id s).1
  unfolding Buffer.unpin
  unpin-Within c id s h =
      change-Within c id invalid_state s _
        (λ r f found w. elim (Bool-cases (f.pins == 0)) [
          | inl free ↦ rw free w
          | inr pinned ↦ rw pinned (replaced-Within fs c id f _ r found w)
        ])
        h

  allocate-Within :
      (c : ℕ) (s : BufferPool fs) → 0 < c → Within fs c c s → Within fs c c (Buffer.allocate fs s).1
  unfolding Buffer.allocate
  allocate-Within c s some_room h =
      bind-keeps (Within fs c c) (Buffer.make_room fs s) _ (make_room-Within fs c s some_room h).0
        λ u s1 e1 h1.
          bind-keeps (Within fs c c) (Buffer.on_pages fs (Manager.allocate fs) s1) _
            (on_pages-Within fs c c (Manager.allocate fs) s1 h1)
            λ id s2 e2 h2.
              bind-keeps (Within fs c c) (Buffer.load fs id s2) _
                (load-Within fs c id s2 some_room h2) λ v s3 e3 h3. h3

  pub on_pages-frames :
      {A : Type 0} (m : Method (PageManager fs) A) (s : BufferPool fs) {a : A} {t : BufferPool fs}
      → Buffer.on_pages fs m s ≡ (ok a, t)
      → t.frames ≡ s.frames
  unfolding Buffer.on_pages
  on_pages-frames m s e = sym (ap (λ x. x.1.frames) e)

  flush_frame-Within :
      (c id : ℕ) (f g : Frame) (s : BufferPool fs)
      → Map.lookup id s.frames ≡ some g
      → Within fs c c s
      → Within fs c c (Buffer.flush_frame fs id f s).1
  unfolding Buffer.flush_frame
  flush_frame-Within c id f g s found h = elim (Bool-cases f.dirty) [
    | inl dirty ↦ rw dirty (
        bind-keeps (Within fs c c) (Buffer.on_pages fs (Manager.write fs f.page) s) _
          (on_pages-Within fs c c (Manager.write fs f.page) s h)
          λ u t e k. count-Within fs c c _ (
            replaced-Within fs c id g (record f { dirty = false }) t
              (ap (Map.lookup id) (on_pages-frames (Manager.write fs f.page) s e) ∙ found) k))
    | inr tidy ↦ rw tidy h
  ]

  -- Every identifier of `frames` has a frame in the pool.
  Covered : Frames → BufferPool fs → Type 0
  Covered frames s =
      (j : ℕ) (g : Frame) → Map.lookup j frames ≡ some g → Map.lookup j s.frames ≢ none

  flush_frame-covers :
      (id j : ℕ) (f : Frame) (s t : BufferPool fs) (u : Unit {0})
      → Buffer.flush_frame fs id f s ≡ (ok u, t)
      → Map.lookup j s.frames ≢ none
      → Map.lookup j t.frames ≢ none
  unfolding Buffer.flush_frame Buffer.put_frame Buffer.count_write
  flush_frame-covers id j f s t u e there = elim (Bool-cases f.dirty) [
    | inl dirty ↦
        let (v, s1, e1, r1) =
          and_then-ok (Buffer.on_pages fs (Manager.write fs f.page) s) _ (rw dirty at e) in
        ground (
          arith,
          on_pages-frames (Manager.write fs f.page) s e1,
          ap (λ x. x.1.frames) r1,
          there,
          lookup-insert id j (record f { dirty = false }) s1.frames,
        )
    | inr tidy ↦ ground (arith, ap (λ x. x.1.frames) (rw tidy at e), there)
  ]

  flush_frames-Within :
      (c : ℕ) (frames : Frames) (s : BufferPool fs)
      → IsUnique frames
      → Covered frames s
      → Within fs c c s
      → Within fs c c (Buffer.flush_frames fs frames s).1
  unfolding Buffer.flush_frames Covered Map.lookup
  flush_frames-Within c [] s u there h = h
  flush_frames-Within c ((id, f) ∷ frames) s (fresh, u) there h =
      elim (Option-cases (Map.lookup id s.frames)) [
        | inl absent ↦ absurd (there id f (ground (arith, ==_iff id id)) absent)
        | inr (g, found) ↦
            bind-keeps (Within fs c c) (Buffer.flush_frame fs id f s) _
              (flush_frame-Within c id f g s found h)
              λ v t e k.
                flush_frames-Within c frames t u
                  (λ j x l.
                    flush_frame-covers id j f s t v e
                      (there j x (ground (arith, l, fresh, ==_iff id j))))
                  k
      ]

  flush_all-Within :
      (c : ℕ) (s : BufferPool fs) → Within fs c c s → Within fs c c (Buffer.flush_all fs s).1
  unfolding Buffer.flush_all Covered
  flush_all-Within c s h =
      bind-keeps (Within fs c c) (Buffer.flush_frames fs s.frames s) _
        (flush_frames-Within c s.frames s h.unique (λ j g e k. cc (e, k)) h)
        λ u t e k. on_pages-Within fs c c (Manager.sync fs) t k

-- The calls of the pool's clients.
pub data Call : Type 0 where
  allocates : Call
  gets_page : ℕ → Call
  changes : ℕ → (Page → Page) → Call
  pins : ℕ → Call
  unpins : ℕ → Call
  flushes : Call

module _ (fs : FileSystem) where
  open fs use {File}

  -- The state after a call, whether it succeeds or fails.
  unfoldable pub after : Call → BufferPool fs → BufferPool fs
  after allocates s = (Buffer.allocate fs s).1
  after (gets_page id) s = (Buffer.get fs id s).1
  after (changes id change) s = (Buffer.get_mut fs id change s).1
  after (pins id) s = (Buffer.pin fs id s).1
  after (unpins id) s = (Buffer.unpin fs id s).1
  after flushes s = (Buffer.flush_all fs s).1

  unfoldable pub run : List Call → BufferPool fs → BufferPool fs
  run [] s = s
  run (c ∷ calls) s = run calls (after c s)

  after-Within :
      (c : ℕ) (call : Call) (s : BufferPool fs)
      → 0 < c
      → Within fs c c s
      → Within fs c c (after call s)
  unfolding after
  after-Within c allocates s p h = allocate-Within fs c s p h
  after-Within c (gets_page id) s p h = get-Within fs c id s p h
  after-Within c (changes id change) s p h = get_mut-Within fs c id change s p h
  after-Within c (pins id) s p h = pin-Within fs c id s p h
  after-Within c (unpins id) s p h = unpin-Within fs c id s h
  after-Within c flushes s p h = flush_all-Within fs c s h

  run-Within :
      (c : ℕ) (calls : List Call) (s : BufferPool fs)
      → 0 < c
      → Within fs c c s
      → Within fs c c (run calls s)
  unfolding run
  run-Within c [] s p h = h
  run-Within c (call ∷ calls) s p h =
      run-Within c calls (after call s) p (after-Within c call s p h)

  opened-Within :
      (f : Result File) (c : ℕ) (s : BufferPool fs)
      → Buffer.open_pool fs f c ≡ ok s
      → (0 < c) × Within fs c c s
  unfolding Buffer.open_pool Buffer.with_pages
  opened-Within f c s e = elim (Bool-cases (c == 0)) [
    | inl zero_frames ↦ cc (rw zero_frames at e)
    | inr some_frames ↦ (
      ground (arith, some_frames, ==_iff c 0),
      made (Manager.open_manager fs f) (rw some_frames at e),
    )
  ]
    where
      made : (x : Result (PageManager fs)) → Buffer.with_pages fs x c ≡ ok s → Within fs c c s
      made (err x) h = cc
      made (ok m) h = subst Fine h (record { unique = tt; few = omega arith; capacity = refl })
        where
          Fine : Result (BufferPool fs) → Type 0
          Fine (ok s) = Within fs c c s
          Fine (err x) = Unit

  -- A pool that opens has a positive capacity, and after any sequence of calls, whether they succeed
  -- or fail, it has that capacity still and at most as many frames.
  pub never_overfull :
      (f : Result File) (c : ℕ) (s : BufferPool fs) (calls : List Call)
      → Buffer.open_pool fs f c ≡ ok s
      → (0 < c) × (Buffer.len fs (run calls s) ≤ c) × ((run calls s).capacity ≡ c)
  unfolding Buffer.len
  never_overfull f c s calls e =
      let (p, h) = opened-Within f c s e in
      let k = run-Within c calls s p h in (p, k.few, k.capacity)
