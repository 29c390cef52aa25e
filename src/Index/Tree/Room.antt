-- ===== src/Index/Tree/Room.antt =====
-- crates/nova-index/src/lib.rs: an internal node that has room for a key that its child passed up.
use novabase.Common.{
  ℕ, suc, ◌<◌, ◌≤◌, ◌≡◌, ◌≢◌, ◌⊎◌, inl, inr, refl, ◌∙◌, List, [], ◌∷◌, ◌++◌, length, set, arith,
}
use mathlib.Core.List.{append-nil}
use novabase.Index.Tree.{Entries, Node, internal_node}
use novabase.Index.Tree.Shape.{
  Shape, Others, branch_at, no_others, at, keys_of, children_of, entries_of, entries_of_others,
  Stored, StoredOthers, Bound, Gap, Fits,
}
use novabase.Index.Tree.Places.{
  Uses, UsesOthers, Distinct, Uses_bound, UsesOthers_bound, Stored-Stays, StoredOthers_stay,
}
use novabase.Index.Tree.Writes.{Frame, Frame-set, Frame_trans, length-written, get_elem?-written}
use novabase.Index.Tree.Grown.{Grown}

module _ (nodes later : List Node) (below i : ℕ) (low high : Bound) (t first : Shape)
    (rest new : Others) (entries : Entries) (bound : i < length nodes) (off_t : ¬ Uses t i)
    (off_rest : ¬ UsesOthers rest i)
    (g : Grown nodes later below low high first new entries
      (λ j. Uses t j ⊎ UsesOthers rest j)) where
  pub off : (j : ℕ) → Uses first j ⊎ UsesOthers new j → j ≢ i
  off j v e = elim (g.places j v) [
    | inl old ↦ elim old [ inl x ↦ off_t (rw e at x) | inr x ↦ off_rest (rw e at x) ]
    | inr fresh ↦ omega (arith, fresh, bound, e)
  ]

  wide : i < length later
  wide = omega (arith, bound, g.frame.0)

  module _ (node : Node) (pushed : List Node) where
    -- What is not the node itself stays.
    pub kept :
        (s : Shape)
        → Stored later below s
        → ((j : ℕ) → Uses s j → j ≢ i)
        → Stored (set later i node ++ pushed) below s
    kept s stored apart =
        Stored-Stays later (set later i node ++ pushed) s below
          (λ j v.
            (Frame-set later pushed i node wide).1 j (Uses_bound later s below j stored v)
              (apart j v))
          stored

    pub all_kept :
        (others : Others)
        → StoredOthers later below others
        → ((j : ℕ) → UsesOthers others j → j ≢ i)
        → StoredOthers (set later i node ++ pushed) below others
    all_kept others stored apart =
        StoredOthers_stay later (set later i node ++ pushed) others below
          (λ j v.
            (Frame-set later pushed i node wide).1 j
              (UsesOthers_bound later others below j stored v) (apart j v))
          stored

    pub framed : Frame nodes (set later i node ++ pushed) (Uses (branch_at i t rest))
    unfolding Uses
    framed =
        Frame_trans nodes later (set later i node ++ pushed) (λ j. Uses t j ⊎ UsesOthers rest j)
          (λ j. j ≡ i) (Uses (branch_at i t rest)) g.frame (Frame-set later pushed i node wide)
          (λ j less v. inr v) (λ j less v. inl v)

  pub of_branch :
      (j : ℕ)
      → (j ≡ i) ⊎ (Uses first j ⊎ UsesOthers new j)
      → Uses (branch_at i t rest) j ⊎ (length nodes ≤ j)
  unfolding Uses
  of_branch j (inl here) = inl (inl here)
  of_branch j (inr v) = elim (g.places j v) [ inl old ↦ inl (inr old) | inr fresh ↦ inr fresh ]

  -- The node has room for its keys.
  pub fit_grown :
      (depth : ℕ)
      → depth ≡ suc below
      → Gap low high
      → Grown nodes
          (set later i (internal_node (keys_of new) (at first ∷ children_of new)) ++ [])
          depth
          low
          high
          (branch_at i first new)
          no_others
          entries
          (Uses (branch_at i t rest))
  unfolding Fits Stored Uses Distinct entries_of
  fit_grown depth deep gap = record {
    gap = gap;
    fits = (g.gap, g.fits, g.others_fit);
    others_fit = tt;
    stored = (
      below,
      deep,
      get_elem?-written later [] i node wide,
      kept node [] first g.stored (λ j v. off j (inl v)),
      all_kept node [] new g.others_stored (λ j v. off j (inr v)),
    );
    others_stored = tt;
    distinct = (
      (λ v. off i (inl v) refl),
      (λ v. off i (inr v) refl),
      g.apart,
      g.distinct,
      g.others_distinct,
    );
    others_distinct = tt;
    apart = λ j v w. w;
    same = append-nil (entries_of first ++ entries_of_others new) ∙ g.same;
    places = λ j v. elim v [ inl x ↦ of_branch j x | inr x ↦ absurd x ];
    covers = λ j v. elim v [
      | inl old ↦ elim old [ inl here ↦ inl (inl here) | inr x ↦ inl (inr (g.covers j (inl x))) ]
      | inr (old, new) ↦
          inl
            (inr (g.covers j (inr (old, omega (arith, new, length-written later [] i node wide)))))
    ];
    frame = framed node [];
  }
    where
      node : Node
      node = internal_node (keys_of new) (at first ∷ children_of new)
