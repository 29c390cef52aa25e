-- ===== src/Buffer/View.antt =====
-- What the pool shows of each page, and what its own steps leave of it.
use novabase.Common.{
  ℕ, ◌<◌, ◌≡◌, refl, sym, ap, ◌∙◌, false, Bool-cases, none, some, Option-cases, inl, inr, length,
  arith, ◌==◌, ==_iff, if◌then◌else◌,
}
use mathlib.Core.Path.{subst}
use novabase.Common.Key.{nat_key}
use novabase.Common.Map
use novabase.Common.Map.{
  Map, IsUnique, IsUnique-insert, IsUnique-remove, lookup-insert, lookup-remove,
}
use novabase.Common.Result.{Result, ok, Method, and_then-ok}
use novabase.Storage.File.{FileSystem}
use novabase.Storage.Page.{Page}
use novabase.Storage.Manager
use novabase.Storage.Manager.{PageManager}
use novabase.Storage.Manager.Laws.{IsAligned, stored, stored-write}
use novabase.Buffer
use novabase.Buffer.{Frame, Frames, BufferPool, victim}
use novabase.Buffer.Victim.{victim-found}

module _ (fs : FileSystem) where
  open fs use {File}

  -- The page that a client sees under `id`: the frame's, or the stored one.
  unfoldable pub view : BufferPool fs → ℕ → Result Page
  unfolding Map.lookup
  view s id = elim (Map.lookup id s.frames) [ none ↦ stored fs s.pages id | some f ↦ ok f.page ]

  -- Each frame holds an allocated page under the page's own identifier, and a clean frame holds the
  -- page as it is stored.
  pub record IsCoherent (s : BufferPool fs) : Type 0 where
    pub aligned : IsAligned fs s.pages
    pub unique : IsUnique s.frames
    pub own :
        (id : ℕ) (f : Frame)
        → Map.lookup id s.frames ≡ some f
        → (f.page.id ≡ id) × (id < s.pages.page_count)
    pub clean :
        (id : ℕ) (f : Frame)
        → Map.lookup id s.frames ≡ some f
        → f.dirty ≡ false
        → stored fs s.pages id ≡ ok f.page

  -- The step from `s` to `t` keeps the coherence and every page that a client sees.
  pub record Keeps (s t : BufferPool fs) : Type 0 where
    pub coherent : IsCoherent t
    pub same : (j : ℕ) → view t j ≡ view s j
    pub count : t.pages.page_count ≡ s.pages.page_count

  pub view-found :
      (s : BufferPool fs) (id : ℕ) (f : Frame)
      → Map.lookup id s.frames ≡ some f
      → view s id ≡ ok f.page
  unfolding view
  view-found s id f e = rw (e, view) refl

  pub view-absent :
      (s : BufferPool fs) (id : ℕ)
      → Map.lookup id s.frames ≡ none
      → view s id ≡ stored fs s.pages id
  unfolding view
  view-absent s id e = rw (e, view) refl

  pub on_pages-ok :
      {A : Type 0} (m : Method (PageManager fs) A) (s t : BufferPool fs) (a : A)
      → Buffer.on_pages fs m s ≡ (ok a, t)
      → (m s.pages ≡ (ok a, t.pages)) × (t.frames ≡ s.frames) × (t.clock ≡ s.clock)
  unfolding Buffer.on_pages
  on_pages-ok m s t a e = (
    ground (arith, ap (λ x. x.0) e, ap (λ x. x.1.pages) e),
    sym (ap (λ x. x.1.frames) e),
    sym (ap (λ x. x.1.clock) e),
  )

  -- Writing back a page makes it the stored one and leaves the others.
  pub write_back-ok :
      (f : Frame) (s t : BufferPool fs) (u : Unit {0})
      → IsAligned fs s.pages
      → (f.dirty ≡ false → stored fs s.pages f.page.id ≡ ok f.page)
      → Buffer.write_back fs f s ≡ (ok u, t)
      → IsAligned fs t.pages
        × (t.frames ≡ s.frames)
        × (t.pages.page_count ≡ s.pages.page_count)
        × ((j : ℕ)
            → stored fs t.pages j ≡ (if f.page.id == j then ok f.page else stored fs s.pages j))
  unfolding Buffer.write_back Buffer.count_write
  write_back-ok f s t u whole agrees e = elim (Bool-cases f.dirty) [
    | inl dirty ↦
        let (v, s1, e1, r1) =
          and_then-ok (Buffer.on_pages fs (Manager.write fs f.page) s) _ (rw dirty at e) in
        let (wrote, frames, clock) = on_pages-ok (Manager.write fs f.page) s s1 v e1 in
        let (whole', count, inside, at) = stored-write fs f.page s.pages s1.pages v whole wrote in
        let last : s1.pages ≡ t.pages = ap (λ x. x.1.pages) r1 in
        (
          subst (IsAligned fs) last whole',
          cc (frames, ap (λ x. x.1.frames) r1),
          cc (count, last),
          λ j. ap (λ m. stored fs m j) (sym last) ∙ at j,
        )
    | inr tidy ↦
        let last : s ≡ t = ap (λ x. x.1) (rw tidy at e) in
        (
          subst (λ (x : BufferPool fs). IsAligned fs x.pages) last whole,
          cc (last),
          cc (last),
          λ j.
              ap (λ (x : BufferPool fs). stored fs x.pages j) (sym last)
              ∙ ground (arith, agrees tidy, ==_iff f.page.id j),
        )
  ]

  module _ (s t : BufferPool fs) (id : ℕ) (f : Frame) (h : IsCoherent s)
      (found : Map.lookup id s.frames ≡ some f) (frames : t.frames ≡ Map.remove id s.frames)
      (at : (j : ℕ)
        → stored fs t.pages j ≡ (if f.page.id == j then ok f.page else stored fs s.pages j)) where
    removed : (j : ℕ) → Map.lookup j t.frames ≡ (if id == j then none else Map.lookup j s.frames)
    removed j = ap (Map.lookup j) frames ∙ lookup-remove id j s.frames

    view-removed : (j : ℕ) → view t j ≡ view s j
    unfolding view
    view-removed j = ground (arith, removed j, found, at j, (h.own id f found).0, ==_iff id j)

    clean-removed :
        (j : ℕ) (g : Frame)
        → Map.lookup j t.frames ≡ some g
        → g.dirty ≡ false
        → stored fs t.pages j ≡ ok g.page
    clean-removed j g e tidy =
        ground (arith, removed j, at j, (h.own id f found).0, ==_iff id j, h.clean j g, e, tidy)

    own-removed :
        (j : ℕ) (g : Frame)
        → t.pages.page_count ≡ s.pages.page_count
        → Map.lookup j t.frames ≡ some g
        → (g.page.id ≡ j) × (j < t.pages.page_count)
    own-removed j g count e = ground (arith, removed j, h.own j g, e, count)

  -- An eviction from a coherent pool that succeeds changes nothing that a client sees, and adds no frame.
  pub evict_one-Keeps :
      (s t : BufferPool fs) (u : Unit {0})
      → IsCoherent s
      → Buffer.evict_one fs s ≡ (ok u, t)
      → Keeps s t × ((j : ℕ) → Map.lookup j s.frames ≡ none → Map.lookup j t.frames ≡ none)
  unfolding Buffer.evict_one Buffer.let_go
  evict_one-Keeps s t u h e = elim (Option-cases (victim s.frames)) [
    | inl all ↦ cc (rw (all, Buffer.evict_one) at e)
    | inr ((id, f), chosen) ↦
        let (found, free) = victim-found s.frames id f h.unique chosen in
        let rest : BufferPool fs = record s { frames = Map.remove id s.frames } in
        let (v, s1, e1, r1) =
          and_then-ok (Buffer.write_back fs f rest) _ (rw (chosen, Buffer.evict_one) at e) in
        let (whole, frames, count, at) =
          write_back-ok f rest s1 v h.aligned
            (λ tidy. ap (stored fs s.pages) (h.own id f found).0 ∙ h.clean id f found tidy) e1 in
        let last : s1.pages ≡ t.pages = ap (λ x. x.1.pages) r1 in
        let frames' : t.frames ≡ Map.remove id s.frames = cc (frames, ap (λ x. x.1.frames) r1) in
        let at' : (j : ℕ)
            → stored fs t.pages j ≡ (if f.page.id == j then ok f.page else stored fs s.pages j) =
          λ j. ap (λ m. stored fs m j) (sym last) ∙ at j in
        let count' : t.pages.page_count ≡ s.pages.page_count = cc (count, last) in
        (
          record {
            coherent = record {
              aligned = subst (IsAligned fs) last whole;
              unique = subst IsUnique (sym frames') (IsUnique-remove id s.frames h.unique);
              own = λ j g. own-removed s t id f h found frames' at' j g count';
              clean = clean-removed s t id f h found frames' at';
            };
            same = view-removed s t id f h found frames' at';
            count = count';
          },
          λ j absent. removed s t id f h found frames' at' j ∙ ground (arith, absent),
        )
  ]

  pub make_room-Keeps :
      (s t : BufferPool fs) (u : Unit {0})
      → IsCoherent s
      → Buffer.make_room fs s ≡ (ok u, t)
      → Keeps s t × ((j : ℕ) → Map.lookup j s.frames ≡ none → Map.lookup j t.frames ≡ none)
  unfolding Buffer.make_room
  make_room-Keeps s t u h e = elim (Bool-cases (length s.frames == s.capacity)) [
    | inl full ↦ evict_one-Keeps s t u h (rw full at e)
    | inr roomy ↦
        let same : s ≡ t = ap (λ x. x.1) (rw roomy at e) in
        (
          subst (Keeps s) same (record { coherent = h; same = λ j. refl; count = refl }),
          λ j absent. cc (same, absent),
        )
  ]
