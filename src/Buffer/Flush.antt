-- ===== src/Buffer/Flush.antt =====
-- Writing the pool back to the page file.
use novabase.Common.{
  ℕ, ◌≡◌, sym, ap, ◌∙◌, true, false, Bool-cases, Option, none, some, Option-cases, inl, inr, [],
  ◌∷◌, arith, ◌==◌, ==_iff, if◌then◌else◌,
}
use mathlib.Core.Path.{subst}
use novabase.Common.Key.{nat_key}
use novabase.Common.Map
use novabase.Common.Map.{
  Map, IsUnique, IsUnique-insert, IsUnique-remove, lookup-insert, lookup-remove,
}
use novabase.Common.Result.{ok, and_then-ok}
use novabase.Storage.File.{FileSystem}
use novabase.Storage.Manager
use novabase.Storage.Manager.{PageManager}
use novabase.Storage.Manager.Laws.{stored, stored-write}
use novabase.Storage.Manager.Reads.{Unchanged, stored-Unchanged, sync-Unchanged}
use novabase.Buffer
use novabase.Buffer.{Frame, Frames, BufferPool, victim}
use novabase.Buffer.View.{view, IsCoherent, Keeps, view-found, view-absent, on_pages-ok}
use novabase.Buffer.Calls.{
  put_frame-view, put_frame-IsCoherent, Keeps-trans, restated, read-IsAligned,
}

module _ (fs : FileSystem) where
  open fs use {File}

  tidied : Frame → Frame
  tidied f = record f { dirty = false }

  -- The page file after a frame is written.
  written-Keeps :
      (id : ℕ) (f : Frame) (s t : BufferPool fs) (u : Unit {0})
      → IsCoherent fs s
      → Map.lookup id s.frames ≡ some f
      → f.dirty ≡ true
      → Buffer.on_pages fs (Manager.write fs f.page) s ≡ (ok u, t)
      → Keeps fs s t × (t.frames ≡ s.frames) × (stored fs t.pages id ≡ ok f.page)
  unfolding view
  written-Keeps id f s t u h found dirty e =
      let (wrote, frames, clock) = on_pages-ok fs (Manager.write fs f.page) s t u e in
      let (whole, count, inside, at) = stored-write fs f.page s.pages t.pages u h.aligned wrote in
      let (named, known) = h.own id f found in
      (
        record {
          coherent = record {
            aligned = whole;
            unique = subst IsUnique (sym frames) h.unique;
            own = λ j g k. ground (arith, h.own j g, frames, k, count);
            clean = λ j g k tidy. ground (
              arith,
              at j,
              h.clean j g,
              ap (Map.lookup j) frames,
              k,
              tidy,
              found,
              dirty,
              named,
              ==_iff f.page.id j,
            );
          };
          same =
              λ j. ground (arith, at j, ap (Map.lookup j) frames, found, named, ==_iff f.page.id j);
          count = count;
        },
        frames,
        ground (arith, at id, named, ==_iff f.page.id id),
      )

  flush_frame-Keeps :
      (id : ℕ) (f : Frame) (s t : BufferPool fs) (u : Unit {0})
      → IsCoherent fs s
      → Map.lookup id s.frames ≡ some f
      → Buffer.flush_frame fs id f s ≡ (ok u, t)
      → Keeps fs s t
        × ((j : ℕ)
            → Map.lookup j t.frames ≡ (if id == j then some (tidied f) else Map.lookup j s.frames))
  unfolding Buffer.flush_frame Buffer.put_frame Buffer.count_write tidied
  flush_frame-Keeps id f s t u h found e = elim (Bool-cases f.dirty) [
    | inl dirty ↦
        let (v, s1, e1, r1) =
          and_then-ok (Buffer.on_pages fs (Manager.write fs f.page) s) _ (rw dirty at e) in
        let (k, kept, at) = written-Keeps id f s s1 v h found dirty e1 in
        let frames : t.frames ≡ Map.insert id (tidied f) s1.frames =
          ap (λ x. x.1.frames) (sym r1) in
        let pages : t.pages ≡ s1.pages = ap (λ x. x.1.pages) (sym r1) in
        let (named, inside) = k.coherent.own id f (ap (Map.lookup id) kept ∙ found) in
        (
          record {
            coherent =
                put_frame-IsCoherent fs id (tidied f) s1 t frames pages k.coherent named inside
                  (λ tidy. at);
            same = λ j.
                put_frame-view fs id (tidied f) s1 t frames pages j
                ∙ ground (arith, k.same j, view-found fs s id f found, ==_iff id j);
            count = ap (λ m. m.page_count) pages ∙ k.count;
          },
          λ j.
              ap (Map.lookup j) frames
              ∙ lookup-insert id j (tidied f) s1.frames
              ∙ ap (λ m. if id == j then some (tidied f) else Map.lookup j m) kept,
        )
    | inr tidy ↦
        let same : s ≡ t = ap (λ x. x.1) (rw tidy at e) in
        (
          restated fs s t h (ap (λ x. x.frames) (sym same)) (ap (λ x. x.pages) (sym same)),
          λ j. ground (arith, same, found, tidy, ==_iff id j),
        )
  ]

  -- What a loop over `frames` makes of the frame that is there.
  settled : Option Frame → Option Frame → Option Frame
  settled none there = there
  settled (some f) there = some (tidied f)

  flush_frames-Keeps :
      (frames : Frames) (s t : BufferPool fs) (u : Unit {0})
      → IsCoherent fs s
      → IsUnique frames
      → ((j : ℕ) (g : Frame) → Map.lookup j frames ≡ some g → Map.lookup j s.frames ≡ some g)
      → Buffer.flush_frames fs frames s ≡ (ok u, t)
      → Keeps fs s t
        × ((j : ℕ) → Map.lookup j t.frames ≡ settled (Map.lookup j frames) (Map.lookup j s.frames))
  unfolding Buffer.flush_frames Map.lookup settled
  flush_frames-Keeps [] s t u h q there e =
      let same : s ≡ t = ap (λ x. x.1) e in
      (
        restated fs s t h (ap (λ x. x.frames) (sym same)) (ap (λ x. x.pages) (sym same)),
        λ j. ap (λ x. Map.lookup j x.frames) (sym same),
      )
  flush_frames-Keeps ((id, f) ∷ frames) s t u h (fresh, q) there e =
      let (v, s1, e1, r1) = and_then-ok (Buffer.flush_frame fs id f s) _ e in
      let (k, at) =
        flush_frame-Keeps id f s s1 v h (there id f (ground (arith, ==_iff id id))) e1 in
      let (k2, at2) =
        flush_frames-Keeps frames s1 t u k.coherent q
          (λ j g l. ground (arith, at j, l, fresh, there j g, ==_iff id j)) r1 in
      (Keeps-trans fs s s1 t k k2, λ j. at2 j ∙ ground (arith, at j, fresh, ==_iff id j))

  settled-clean :
      (there : Option Frame) (f : Frame) → settled there there ≡ some f → f.dirty ≡ false
  unfolding settled tidied
  settled-clean none f e = cc
  settled-clean (some g) f e = ground (arith, e)

  clean-stored :
      (t : BufferPool fs) (id : ℕ)
      → IsCoherent fs t
      → ((j : ℕ) (f : Frame) → Map.lookup j t.frames ≡ some f → f.dirty ≡ false)
      → stored fs t.pages id ≡ view fs t id
  clean-stored t id h tidy = elim (Option-cases (Map.lookup id t.frames)) [
    | inl absent ↦ sym (view-absent fs t id absent)
    | inr (f, found) ↦ h.clean id f found (tidy id f found) ∙ sym (view-found fs t id f found)
  ]

  synced-Keeps :
      (s t : BufferPool fs)
      → IsCoherent fs s
      → t.frames ≡ s.frames
      → Unchanged fs s.pages t.pages
      → Keeps fs s t
  unfolding view
  synced-Keeps s t h frames still = record {
    coherent = record {
      aligned = read-IsAligned fs s.pages t.pages still h.aligned;
      unique = subst IsUnique (sym frames) h.unique;
      own = λ j g e. ground (arith, h.own j g, frames, e, still.count);
      clean = λ j g e tidy.
          stored-Unchanged fs s.pages t.pages j still
          ∙ h.clean j g (ap (Map.lookup j) (sym frames) ∙ e) tidy;
    };
    same =
        λ j. ground (arith, ap (Map.lookup j) frames, stored-Unchanged fs s.pages t.pages j still);
    count = still.count;
  }

  -- From a coherent pool, after a flush that succeeds the page file stores what the client saw before, for every
  -- identifier, every frame is clean, and the client sees what it saw.
  pub flush_all-stored :
      (s t : BufferPool fs) (u : Unit {0})
      → IsCoherent fs s
      → Buffer.flush_all fs s ≡ (ok u, t)
      → Keeps fs s t
        × ((id : ℕ) (f : Frame) → Map.lookup id t.frames ≡ some f → f.dirty ≡ false)
        × ((id : ℕ) → stored fs t.pages id ≡ view fs s id)
  unfolding Buffer.flush_all
  flush_all-stored s t u h e =
      let (v, s1, e1, r1) = and_then-ok (Buffer.flush_frames fs s.frames s) _ e in
      let (k, at) = flush_frames-Keeps s.frames s s1 v h h.unique (λ j g l. l) e1 in
      let (synced, frames, clock) = on_pages-ok fs (Manager.sync fs) s1 t u r1 in
      let still : Unchanged fs s1.pages t.pages =
        subst (λ x. Unchanged fs s1.pages x.1) synced (sync-Unchanged fs s1.pages) in
      let synced_k = synced-Keeps s1 t k.coherent frames still in
      let all = Keeps-trans fs s s1 t k synced_k in
      let tidy : (id : ℕ) (f : Frame) → Map.lookup id t.frames ≡ some f → f.dirty ≡ false =
        λ id f l.
          settled-clean (Map.lookup id s.frames) f
            (sym (at id) ∙ ap (Map.lookup id) (sym frames) ∙ l) in
      (all, tidy, λ id. clean-stored t id all.coherent tidy ∙ all.same id)
