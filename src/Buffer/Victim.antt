-- ===== src/Buffer/Victim.antt =====
-- The frame that `evict_one` selects.
use novabase.Common.{
  ℕ, ◌≤◌, ◌≡◌, ◌≢◌, false, none, some, Option-cases, inl, inr, [], ◌∷◌, arith, ==_iff,
}
use novabase.Common.Key.{nat_key}
use novabase.Common.Map
use novabase.Common.Map.{Map, IsUnique}
use novabase.Buffer.{Frame, Frames, victim, comes_first}

pub victim-none :
    (frames : Frames) (j : ℕ) (g : Frame)
    → victim frames ≡ none
    → Map.lookup j frames ≡ some g
    → g.pins ≢ 0
unfolding victim Map.lookup
victim-none [] j g h k e = cc
victim-none ((i, x) ∷ frames) j g h k e =
    ground (arith, h, k, e, victim-none frames j g, ==_iff i j)

pub victim-found :
    (frames : Frames) (id : ℕ) (f : Frame)
    → IsUnique frames
    → victim frames ≡ some (id, f)
    → (Map.lookup id frames ≡ some f) × (f.pins ≡ 0)
unfolding victim Map.lookup
victim-found [] id f u h = cc
victim-found ((i, x) ∷ frames) id f (fresh, u) h = elim (Option-cases (victim frames)) [
  | inl all ↦ ground (arith, h, all, ==_iff i id)
  | inr ((k, p), some_k) ↦
      let (found, free) = victim-found frames k p u some_k in
      ground (arith, h, some_k, found, free, fresh, ==_iff i id)
]

oldest :
    (frames : Frames) (id j : ℕ) (f g : Frame)
    → victim frames ≡ some (id, f)
    → Map.lookup j frames ≡ some g
    → g.pins ≡ 0
    → comes_first (j, g) (id, f) ≡ false
unfolding victim Map.lookup
oldest [] id j f g h k e = cc
oldest ((i, x) ∷ frames) id j f g h k e = elim (Option-cases (victim frames)) [
  | inl all ↦ ground (arith, h, all, k, e, ==_iff i j, victim-none frames j g all)
  | inr ((l, p), some_l) ↦ ground (arith, h, some_l, k, e, ==_iff i j, oldest frames l j p g some_l)
]

-- The victim of a pool is one of its frames and is not pinned. Every unpinned frame was last used at
-- the same time or later, and of those last used at the same time the victim has the smallest
-- identifier. Pages have one frame each.
pub victim-oldest :
    (frames : Frames) (id : ℕ) (f : Frame)
    → IsUnique frames
    → victim frames ≡ some (id, f)
    → (Map.lookup id frames ≡ some f)
      × (f.pins ≡ 0)
      × ((j : ℕ) (g : Frame)
          → Map.lookup j frames ≡ some g
          → g.pins ≡ 0
          → (f.last_used ≤ g.last_used) × (f.last_used ≡ g.last_used → id ≤ j))
victim-oldest frames id f u h =
    let (found, free) = victim-found frames id f u h in
    (
      found,
      free,
      λ j g k e. (
        ground (arith, oldest frames id j f g h k e),
        λ same. ground (arith, same, oldest frames id j f g h k e),
      ),
    )
