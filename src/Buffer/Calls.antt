-- ===== src/Buffer/Calls.antt =====
-- What loading, reading, changing and pinning leave of the pages that a client sees.
use novabase.Common.{
  ℕ, ◌*◌, ◌<◌, ◌≡◌, ◌≢◌, refl, sym, ap, ◌∙◌, true, false, none, some, Option-cases, inl, inr,
  length, arith, ◌==◌, ==_iff, if◌then◌else◌,
}
use mathlib.Core.Path.{subst}
use novabase.Common.Key.{nat_key}
use novabase.Common.Map
use novabase.Common.Map.{
  Map, IsUnique, IsUnique-insert, IsUnique-remove, lookup-insert, lookup-remove,
}
use novabase.Common.Result.{ok, internal, and_then-ok}
use novabase.Storage.File.{FileSystem}
use novabase.Storage.Page.{Page, page_size}
use novabase.Storage.Manager
use novabase.Storage.Manager.{PageManager}
use novabase.Storage.Manager.Laws.{IsAligned, stored}
use novabase.Storage.Manager.Reads.{Unchanged, stored-Unchanged, read-Unchanged, read-stored}
use novabase.Buffer
use novabase.Buffer.{Frame, Frames, BufferPool, victim}
use novabase.Buffer.View.{view, IsCoherent, Keeps, view-found, on_pages-ok, make_room-Keeps}
use novabase.Buffer.Capacity.{framed-ok}

module _ (fs : FileSystem) where
  open fs use {File}

  -- A new value for a frame, which shows `p` under its identifier.
  pub put_frame-view :
      (id : ℕ) (f : Frame) (s t : BufferPool fs)
      → t.frames ≡ Map.insert id f s.frames
      → t.pages ≡ s.pages
      → (j : ℕ) → view fs t j ≡ (if id == j then ok f.page else view fs s j)
  unfolding view
  put_frame-view id f s t frames pages j = ground (
    arith,
    ap (Map.lookup j) frames ∙ lookup-insert id j f s.frames,
    ap (λ m. stored fs m j) pages,
    ==_iff id j,
  )

  -- Storing a frame under its own identifier, with the stored page where it is clean, is coherent.
  pub put_frame-IsCoherent :
      (id : ℕ) (f : Frame) (s t : BufferPool fs)
      → t.frames ≡ Map.insert id f s.frames
      → t.pages ≡ s.pages
      → IsCoherent fs s
      → f.page.id ≡ id
      → id < s.pages.page_count
      → (f.dirty ≡ false → stored fs s.pages id ≡ ok f.page)
      → IsCoherent fs t
  put_frame-IsCoherent id f s t frames pages h named inside agrees = record {
    aligned = subst (IsAligned fs) (sym pages) h.aligned;
    unique = subst IsUnique (sym frames) (IsUnique-insert id f s.frames h.unique);
    own = λ j g e. ground (
      arith,
      ap (Map.lookup j) frames ∙ lookup-insert id j f s.frames,
      e,
      named,
      inside,
      h.own j g,
      ap (λ m. m.page_count) pages,
      ==_iff id j,
    );
    clean = λ j g e tidy. ground (
      arith,
      ap (Map.lookup j) frames ∙ lookup-insert id j f s.frames,
      e,
      tidy,
      agrees,
      h.clean j g,
      ap (λ m. stored fs m j) pages,
      ==_iff id j,
    );
  }

  refreshed-Keeps :
      (id : ℕ) (f g : Frame) (s t : BufferPool fs)
      → IsCoherent fs s
      → Map.lookup id s.frames ≡ some f
      → g.page ≡ f.page
      → g.dirty ≡ f.dirty
      → t.frames ≡ Map.insert id g s.frames
      → t.pages ≡ s.pages
      → Keeps fs s t
  refreshed-Keeps id f g s t h found page dirty frames pages =
      let (named, inside) = h.own id f found in
      record {
        coherent =
            put_frame-IsCoherent id g s t frames pages h (ap (λ p. p.id) page ∙ named) inside
              (λ tidy. h.clean id f found (sym dirty ∙ tidy) ∙ ap ok (sym page));
        same = λ j.
            put_frame-view id g s t frames pages j
            ∙ ground (arith, view-found fs s id f found, page, ==_iff id j);
        count = ap (λ m. m.page_count) pages;
      }

  pub Keeps-trans : (s t r : BufferPool fs) → Keeps fs s t → Keeps fs t r → Keeps fs s r
  Keeps-trans s t r h k = record {
    coherent = k.coherent;
    same = λ j. k.same j ∙ h.same j;
    count = k.count ∙ h.count;
  }

  pub read-IsAligned : (m t : PageManager fs) → Unchanged fs m t → IsAligned fs m → IsAligned fs t
  read-IsAligned m t k h = record {
    aligned = ap length k.bytes ∙ h.aligned ∙ ap (λ c. c * page_size) (sym k.count);
  }

  fetched-view :
      (id : ℕ) (p : Page) (s t : BufferPool fs) (j : ℕ)
      → Map.lookup id s.frames ≡ none
      → t.frames ≡ s.frames
      → stored fs s.pages id ≡ ok p
      → Unchanged fs s.pages t.pages
      → (if id == j then ok p else view fs t j) ≡ view fs s j
  unfolding view
  fetched-view id p s t j absent kept found still = ground (
    arith,
    absent,
    ap (Map.lookup j) kept,
    found,
    stored-Unchanged fs s.pages t.pages j still,
    ==_iff id j,
  )

  -- The clock and the counters show nothing of the pages.
  pub restated :
      (s t : BufferPool fs)
      → IsCoherent fs s
      → t.frames ≡ s.frames
      → t.pages ≡ s.pages
      → Keeps fs s t
  unfolding view
  restated s t h frames pages = record {
    coherent = record {
      aligned = subst (IsAligned fs) (sym pages) h.aligned;
      unique = subst IsUnique (sym frames) h.unique;
      own = λ j g e. ground (arith, h.own j g, frames, e, ap (λ m. m.page_count) pages);
      clean = λ j g e tidy.
          ap (λ m. stored fs m j) pages ∙ h.clean j g (ap (Map.lookup j) (sym frames) ∙ e) tidy;
    };
    same = λ j. cc (frames, pages);
    count = ap (λ m. m.page_count) pages;
  }

  -- A read page that becomes a new frame.
  fetched-Keeps :
      (id : ℕ) (s t r : BufferPool fs) (p : Page)
      → IsCoherent fs s
      → Map.lookup id s.frames ≡ none
      → Buffer.on_pages fs (Manager.read fs id) s ≡ (ok p, t)
      → r.frames
        ≡ Map.insert id (record { page = p; dirty = false; pins = 0; last_used = t.clock }) t.frames
      → r.pages ≡ t.pages
      → Keeps fs s r
  fetched-Keeps id s t r p h absent e frames pages =
      let (got, kept, clock) = on_pages-ok fs (Manager.read fs id) s t p e in
      let (inside, named, found) = read-stored fs id s.pages t.pages p got in
      let still : Unchanged fs s.pages t.pages =
        subst (λ x. Unchanged fs s.pages x.1) got (read-Unchanged fs id s.pages) in
      let h1 : IsCoherent fs t = record {
        aligned = read-IsAligned s.pages t.pages still h.aligned;
        unique = subst IsUnique (sym kept) h.unique;
        own = λ j g k. ground (arith, h.own j g, kept, k, still.count);
        clean = λ j g k tidy.
            stored-Unchanged fs s.pages t.pages j still
            ∙ h.clean j g (ap (Map.lookup j) (sym kept) ∙ k) tidy;
      } in
      let at : stored fs t.pages id ≡ ok p = stored-Unchanged fs s.pages t.pages id still ∙ found in
      record {
        coherent =
            put_frame-IsCoherent id _ t r frames pages h1 named (omega (arith, inside, still.count))
              (λ tidy. at);
        same = λ j.
            put_frame-view id _ t r frames pages j
            ∙ fetched-view id p s t j absent kept found still;
        count = ap (λ m. m.page_count) pages ∙ still.count;
      }

  miss-Keeps :
      (id : ℕ) (s t : BufferPool fs) (u : Unit {0})
      → IsCoherent fs s
      → Map.lookup id s.frames ≡ none
      → Buffer.miss fs id s ≡ (ok u, t)
      → Keeps fs s t × (Map.lookup id t.frames ≢ none)
  unfolding Buffer.miss Buffer.put_frame
  miss-Keeps id s t u h absent e =
      let s0 : BufferPool fs = record s {
        stats = record s.stats { misses = Buffer.bump s.stats.misses };
      } in
      let (v, s1, e1, r1) = and_then-ok (Buffer.make_room fs s0) _ e in
      let (p, s2, e2, r2) = and_then-ok (Buffer.on_pages fs (Manager.read fs id) s1) _ r1 in
      let (k, shrinks) = make_room-Keeps fs s0 s1 v (restated s s0 h refl refl).coherent e1 in
      let last : record s2 {
        frames =
            Map.insert id (record { page = p; dirty = false; pins = 0; last_used = s2.clock })
              s2.frames;
      }
          ≡ t =
        ap (λ x. x.1) r2 in
      let frames : t.frames
          ≡ Map.insert id (record { page = p; dirty = false; pins = 0; last_used = s2.clock })
              s2.frames =
        ap (λ x. x.frames) (sym last) in
      (
        Keeps-trans s s1 t (Keeps-trans s s0 s1 (restated s s0 h refl refl) k) (
            fetched-Keeps id s1 s2 t p k.coherent (shrinks id absent) e2 frames
              (ap (λ x. x.pages) (sym last))),
        λ none_there. ground (
          arith,
          ap (Map.lookup id) frames ∙ lookup-insert id id _ s2.frames,
          none_there,
          ==_iff id id,
        ),
      )

  -- A load that succeeds changes nothing that a client sees, and the page has a frame.
  pub load-Keeps :
      (id : ℕ) (s t : BufferPool fs) (u : Unit {0})
      → IsCoherent fs s
      → Buffer.load fs id s ≡ (ok u, t)
      → Keeps fs s t × (Map.lookup id t.frames ≢ none)
  unfolding Buffer.load Buffer.hit
  load-Keeps id s t u h e = elim (Option-cases (Map.lookup id s.frames)) [
    | inl absent ↦
        let ticked =
          restated s (Buffer.tick fs s) h (unfold Buffer.tick in refl)
            (unfold Buffer.tick in refl) in
        let (k, there) =
          miss-Keeps id (Buffer.tick fs s) t u ticked.coherent (unfold Buffer.tick in absent)
            (rw (absent, Buffer.load) at e) in
        (Keeps-trans s (Buffer.tick fs s) t ticked k, there)
    | inr (f, found) ↦
        let r = rw (found, Buffer.load) at e in
        let g : Frame = record f { last_used = Buffer.bump s.clock } in
        let frames : t.frames ≡ Map.insert id g s.frames =
          unfold Buffer.tick in ap (λ x. x.1.frames) (sym r) in
        (
          refreshed-Keeps id f g s t h found refl refl frames
              (unfold Buffer.tick in ap (λ x. x.1.pages) (sym r)),
          λ none_there. ground (
            arith,
            ap (Map.lookup id) frames ∙ lookup-insert id id g s.frames,
            none_there,
            ==_iff id id,
          ),
        )
  ]

  loaded-view :
      (id : ℕ) (f : Frame) (s t r : BufferPool fs)
      → Keeps fs s t
      → Buffer.framed fs id internal t ≡ (ok f, r)
      → (view fs s id ≡ ok f.page) × (Map.lookup id t.frames ≡ some f) × (r ≡ t)
  loaded-view id f s t r k e =
      let (found, same) = framed-ok fs id internal t r f e in
      (sym (k.same id) ∙ view-found fs t id f found, found, same)

  -- From a coherent pool, a page that is got is the one the client sees, and getting it changes no page.
  pub get-view :
      (id : ℕ) (s t : BufferPool fs) (p : Page)
      → IsCoherent fs s
      → Buffer.get fs id s ≡ (ok p, t)
      → (view fs s id ≡ ok p) × (p.id ≡ id) × Keeps fs s t
  unfolding Buffer.get
  get-view id s t p h e =
      let (u, s1, e1, r1) = and_then-ok (Buffer.load fs id s) _ e in
      let (f, s2, e2, r2) = and_then-ok (Buffer.framed fs id internal s1) _ r1 in
      let (k, there) = load-Keeps id s s1 u h e1 in
      let (shown, found, same) = loaded-view id f s s1 s2 k e2 in
      let page : f.page ≡ p = ground (arith, ap (λ x. x.0) r2) in
      (
        shown ∙ ap ok page,
        ap (λ q. q.id) (sym page) ∙ (k.coherent.own id f found).0,
        subst (Keeps fs s) (sym same ∙ ap (λ x. x.1) r2) k,
      )

  -- In a coherent pool, a change that leaves identifiers alone and succeeds shows the changed page, and no other page changes.
  pub get_mut-view :
      (id : ℕ) (change : Page → Page) (s t : BufferPool fs) (u : Unit {0})
      → IsCoherent fs s
      → ((p : Page) → (change p).id ≡ p.id)
      → Buffer.get_mut fs id change s ≡ (ok u, t)
      → IsCoherent fs t
        × ((p : Page) → view fs s id ≡ ok p → view fs t id ≡ ok (change p))
        × ((j : ℕ) → id ≢ j → view fs t j ≡ view fs s j)
  unfolding Buffer.get_mut Buffer.put_frame
  get_mut-view id change s t u h keeps_id e =
      let (v, s1, e1, r1) = and_then-ok (Buffer.load fs id s) _ e in
      let (f, s2, e2, r2) = and_then-ok (Buffer.framed fs id internal s1) _ r1 in
      let (k, there) = load-Keeps id s s1 v h e1 in
      let (shown, found, same) = loaded-view id f s s1 s2 k e2 in
      let g : Frame = record f { page = change f.page; dirty = true } in
      let frames : t.frames ≡ Map.insert id g s1.frames =
        ap (λ x. x.1.frames) (sym r2) ∙ ap (λ x. Map.insert id g x.frames) same in
      let pages : t.pages ≡ s1.pages = ap (λ x. x.1.pages) (sym r2) ∙ ap (λ x. x.pages) same in
      let (named, inside) = k.coherent.own id f found in
      let after = put_frame-view id g s1 t frames pages in
      (
        put_frame-IsCoherent id g s1 t frames pages k.coherent (keeps_id f.page ∙ named) inside
            (λ tidy. cc (tidy)),
        λ p seen. after id ∙ ground (arith, shown, seen, ==_iff id id),
        λ j other. after j ∙ ground (arith, k.same j, other, ==_iff id j),
      )
