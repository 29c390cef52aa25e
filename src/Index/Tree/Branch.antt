-- ===== src/Index/Tree/Branch.antt =====
-- crates/nova-index/src/lib.rs: an internal node that is split.
use novabase.Common.{
  ℕ, suc, ◌<◌, ◌≤◌, ◌≡◌, ◌≢◌, ◌⊎◌, inl, inr, refl, sym, ap, ◌∙◌, some, List, [], ◌∷◌, ◌++◌, length,
  set, arith,
}
use mathlib.Core.List.{append_assoc, append-nil}
use novabase.Index.Key.{IndexKey}
use novabase.Index.Tree.{Entries, Node, internal_node}
use novabase.Index.Tree.Shape.{
  Shape, Others, branch_at, no_others, other, at, keys_of, children_of, entries_of,
  entries_of_others, Stored, StoredOthers, Bound, Fits,
}
use novabase.Index.Tree.Search.{Under-upper}
use novabase.Index.Tree.Places.{Uses, UsesOthers, Distinct, Uses_bound, UsesOthers_bound}
use novabase.Index.Tree.Append.{
  append, entries_of_others-append, upper-append, FitOthers-parts, StoredOthers-parts,
  UsesOthers-append, UsesOthers-left, UsesOthers-right, DistinctOthers-parts,
}
use novabase.Index.Tree.Writes.{lt_or_eq, length-written, get_elem?-written, get_elem?-pushed}
use novabase.Index.Tree.Grown.{Grown}
use novabase.Index.Tree.Cut.{Gap-upper}
use novabase.Index.Tree.Room.{off, kept, all_kept, framed, of_branch}

module _ (nodes later : List Node) (below i : ℕ) (low high : Bound) (t first : Shape)
    (rest left right : Others) (k : IndexKey) (u : Shape) (entries : Entries)
    (bound : i < length nodes) (off_t : ¬ Uses t i) (off_rest : ¬ UsesOthers rest i)
    (g : Grown nodes later below low high first
      (append left (other k u right))
      entries
      (λ j. Uses t j ⊎ UsesOthers rest j)) where
  apart_from : (j : ℕ) → Uses first j ⊎ UsesOthers (append left (other k u right)) j → j ≢ i
  apart_from =
      off nodes later below i low high t first rest (append left (other k u right)) entries bound
        off_t off_rest g

  in_left : (j : ℕ) → UsesOthers left j → UsesOthers (append left (other k u right)) j
  in_left j v = UsesOthers-left (other k u right) left j v

  in_right : (j : ℕ) → Uses u j ⊎ UsesOthers right j → UsesOthers (append left (other k u right)) j
  unfolding Uses
  in_right j v = UsesOthers-right (other k u right) left j v

  abbrev pub halves : List Node
  halves =
      set later i (internal_node (keys_of left) (at first ∷ children_of left))
      ++ internal_node (keys_of right) (at u ∷ children_of right) ∷ []

  ours :
      (j : ℕ)
      → (j ≡ i) ⊎ (Uses first j ⊎ UsesOthers (append left (other k u right)) j)
      → Uses (branch_at i t rest) j ⊎ (length nodes ≤ j)
  ours =
      of_branch nodes later below i low high t first rest (append left (other k u right)) entries
        bound off_t off_rest g

  -- The two parts share no node.
  parts_apart :
      (j : ℕ)
      → (j ≡ i) ⊎ (Uses first j ⊎ UsesOthers left j)
      → (j ≡ length later) ⊎ (Uses u j ⊎ UsesOthers right j)
      → ⊥
  unfolding Uses
  parts_apart j v (inl new) = omega (arith, new, early j v)
    where
      early : (j : ℕ) → (j ≡ i) ⊎ (Uses first j ⊎ UsesOthers left j) → j < length later
      early j (inl here) = omega (arith, here, bound, g.frame.0)
      early j (inr (inl x)) = Uses_bound later first below j g.stored x
      early j (inr (inr x)) =
          UsesOthers_bound later (append left (other k u right)) below j g.others_stored
            (in_left j x)
  parts_apart j (inl here) (inr w) = apart_from j (inr (in_right j w)) here
  parts_apart j (inr (inl x)) (inr w) = g.apart j x (in_right j w)
  parts_apart j (inr (inr x)) (inr w) =
      (DistinctOthers-parts (other k u right) left g.others_distinct).2 j x w

  parts_places :
      (j : ℕ)
      → ((j ≡ i) ⊎ (Uses first j ⊎ UsesOthers left j))
        ⊎ ((j ≡ length later) ⊎ (Uses u j ⊎ UsesOthers right j))
      → Uses (branch_at i t rest) j ⊎ (length nodes ≤ j)
  parts_places j (inl (inl here)) = ours j (inl here)
  parts_places j (inl (inr (inl x))) = ours j (inr (inl x))
  parts_places j (inl (inr (inr x))) = ours j (inr (inr (in_left j x)))
  parts_places j (inr (inl new)) = inr (omega (arith, new, g.frame.0))
  parts_places j (inr (inr w)) = ours j (inr (inr (in_right j w)))

  -- The node is split at a separator, and its right part is a new node.
  pub cut_grown :
      (depth : ℕ)
      → depth ≡ suc below
      → Grown nodes
          (set later i (internal_node (keys_of left) (at first ∷ children_of left))
            ++ internal_node (keys_of right) (at u ∷ children_of right) ∷ [])
          depth
          low
          high
          (branch_at i first left)
          (other k (branch_at (length later) u right) no_others)
          entries
          (Uses (branch_at i t rest))
  unfolding Fits Stored Uses Distinct entries_of
  cut_grown depth deep =
      let (left_fit, right_parts) = FitOthers-parts (other k u right) high left g.others_fit in
      let (gap_right, u_fits, right_fit) = right_parts in
      let (left_stored, right_nodes) =
        StoredOthers-parts (other k u right) later below left g.others_stored in
      let (u_stored, right_stored) = right_nodes in
      let (left_distinct, right_places, sides) =
        DistinctOthers-parts (other k u right) left g.others_distinct in
      let (u_apart, u_distinct, right_distinct) = right_places in
      record {
        gap =
            Gap-upper low (some k) left left_fit
              (rw (upper-append (other k u right) high left) at g.gap);
        fits = (
          rw (upper-append (other k u right) high left) at g.gap,
          rw (upper-append (other k u right) high left) at g.fits,
          left_fit,
        );
        others_fit =
            (Under-upper high right k right_fit gap_right, (gap_right, u_fits, right_fit), tt);
        stored = (
          below,
          deep,
          get_elem?-written later pushed i node wide',
          stays first g.stored (λ j v. apart_from j (inl v)),
          all_stay left left_stored (λ j v. apart_from j (inr (in_left j v))),
        );
        others_stored = (
          (
            below,
            deep,
            get_elem?-pushed later i node right_node,
            stays u u_stored (λ j v. apart_from j (inr (in_right j (inl v)))),
            all_stay right right_stored (λ j v. apart_from j (inr (in_right j (inr v)))),
          ),
          tt,
        );
        distinct = (
          (λ v. apart_from i (inl v) refl),
          (λ v. apart_from i (inr (in_left i v)) refl),
          (λ j v w. g.apart j v (in_left j w)),
          g.distinct,
          left_distinct,
        );
        others_distinct = (
          (λ j v w. w),
          (
            (λ v. parts_apart_new (Uses_bound later u below (length later) u_stored v)),
            (λ v.
                parts_apart_new (UsesOthers_bound later right below (length later) right_stored v)),
            u_apart,
            u_distinct,
            right_distinct,
          ),
          tt,
        );
        apart = λ j v w. elim w [ inl x ↦ parts_apart j v x | inr x ↦ absurd x ];
        same =
            ap (λ e. entries_of first ++ entries_of_others left ++ e)
              (append-nil (entries_of u ++ entries_of_others right))
            ∙ append_assoc (entries_of first) (entries_of_others left)
                (entries_of u ++ entries_of_others right)
            ∙ ap (λ e. entries_of first ++ e)
                (sym (entries_of_others-append (other k u right) left))
            ∙ g.same;
        places = λ j v. elim v [
          | inl x ↦ parts_places j (inl x)
          | inr y ↦ elim y [ inl x ↦ parts_places j (inr x) | inr z ↦ absurd z ]
        ];
        covers = λ j v. elim v [
          | inl old ↦ elim old [ inl here ↦ inl (inl here) | inr x ↦ side j (g.covers j (inl x)) ]
          | inr (old, new) ↦
              elim (lt_or_eq j (length later)
                (omega (arith, new, length-written later pushed i node wide'))) [
                  | inl less ↦ side j (g.covers j (inr (old, less)))
                  | inr last ↦ inr (inl (inl last))
                ]
        ];
        frame =
            framed nodes later below i low high t first rest (append left (other k u right)) entries
              bound off_t off_rest g node pushed;
      }
    where
      node : Node
      node = internal_node (keys_of left) (at first ∷ children_of left)

      right_node : Node
      right_node = internal_node (keys_of right) (at u ∷ children_of right)

      pushed : List Node
      pushed = right_node ∷ []

      side :
          (j : ℕ)
          → Uses first j ⊎ UsesOthers (append left (other k u right)) j
          → ((j ≡ i) ⊎ (Uses first j ⊎ UsesOthers left j))
            ⊎ (((j ≡ length later) ⊎ (Uses u j ⊎ UsesOthers right j)) ⊎ ⊥)
      side j (inl x) = inl (inr (inl x))
      side j (inr x) = elim (UsesOthers-append (other k u right) left j x) [
        | inl y ↦ inl (inr (inr y))
        | inr y ↦ inr (inl (inr y))
      ]

      wide' : i < length later
      wide' = omega (arith, bound, g.frame.0)

      parts_apart_new : length later < length later → ⊥
      parts_apart_new h = omega (arith, h)

      stays :
          (s : Shape)
          → Stored later below s
          → ((j : ℕ) → Uses s j → j ≢ i)
          → Stored (set later i node ++ pushed) below s
      stays =
          kept nodes later below i low high t first rest (append left (other k u right)) entries
            bound off_t off_rest g node pushed

      all_stay :
          (s : Others)
          → StoredOthers later below s
          → ((j : ℕ) → UsesOthers s j → j ≢ i)
          → StoredOthers (set later i node ++ pushed) below s
      all_stay =
          all_kept nodes later below i low high t first rest (append left (other k u right)) entries
            bound off_t off_rest g node pushed
