-- ===== src/Index/Tree/Child.antt =====
-- crates/nova-index/src/lib.rs: an insertion into one of the children.
use novabase.Common.{
  ℕ, ◌≤◌, ◌≡◌, ◌⊎◌, inl, inr, refl, sym, ap, ◌∙◌, false, none, some, List, ◌∷◌, ◌++◌, length, arith,
}
use mathlib.Core.List.{append_assoc}
use novabase.Storage.Bytes.{Bytes}
use novabase.Index.Key.{IndexKey, key_lt}
use novabase.Index.Tree.{Node, insert_entry, child_index, add_key, add_child}
use novabase.Index.Tree.Shape.{
  Shape, Others, no_others, other, at, keys_of, children_of, entries_of, entries_of_others, Stored,
  Bound, Under, upper, Fits, FitOthers,
}
use novabase.Index.Tree.Lookup.{
  AllAbove, insert_entry-append_left, insert_entry-append_right, Within-AllAbove, Within-AllBelow,
}
use novabase.Index.Tree.Search.{entries_of-IsWithin, others-IsWithin}
use novabase.Index.Tree.Places.{
  Uses, UsesOthers, Distinct, Uses_bound, UsesOthers_bound, Stored-Stays, StoredOthers_stay,
}
use novabase.Index.Tree.Append.{
  append, entries_of_others-append, upper-append, FitOthers-append, StoredOthers-append,
  UsesOthers-append, UsesOthers-left, UsesOthers-right, DistinctOthers-append,
}
use novabase.Index.Tree.Grown.{Grown, Right, others_of, split_of}

-- Keys that are before the others are below them.
before_others :
    (key : IndexKey) (high : Bound) (rest : Others)
    → FitOthers high rest
    → Under (upper high rest) key
    → AllAbove key (entries_of_others rest)
unfolding entries_of
before_others key high no_others f u = tt
before_others key high (other b t rest) f u =
    Within-AllAbove b high key (entries_of_others (other b t rest))
      (others-IsWithin b t rest high f) u

pub first_index :
    (key : IndexKey) (high : Bound) (rest : Others)
    → Under (upper high rest) key
    → child_index (keys_of rest) key ≡ 0
unfolding keys_of child_index
first_index key high no_others u = refl
first_index key high (other b t rest) u = rw u refl

pub first_keys :
    (right : Right) (rest : Others)
    → keys_of (append (others_of right) rest) ≡ add_key 0 (split_of right) (keys_of rest)
unfolding keys_of
first_keys none rest = refl
first_keys (some (k, t)) rest = refl

pub first_children :
    (right : Right) (t first : Shape) (rest : Others)
    → at t ≡ at first
    → at t ∷ children_of (append (others_of right) rest)
      ≡ add_child 0 (split_of right) (at first ∷ children_of rest)
unfolding children_of
first_children none t first rest e = ap (λ i. i ∷ children_of rest) e
first_children (some (k, u)) t first rest e = ap (λ i. i ∷ at u ∷ children_of rest) e

module _ (max_keys : ℕ) (key : IndexKey) (id : Bytes) where
  -- The key belongs to the first child.
  pub first_grown :
      (nodes later : List Node) (depth : ℕ) (low high : Bound) (first t : Shape) (rest : Others)
      (right : Others) (Before : ℕ → Type 0)
      → Grown nodes nodes depth low high first rest
          (entries_of first ++ entries_of_others rest)
          Before
      → Under (upper high rest) key
      → Grown nodes later depth low
          (upper high rest)
          t
          right
          (insert_entry key id (entries_of first))
          (Uses first)
      → Grown nodes later depth low high t
          (append right rest)
          (insert_entry key id (entries_of first ++ entries_of_others rest))
          (λ j. Uses first j ⊎ UsesOthers rest j)
  first_grown nodes later depth low high first t rest right Before g u h = record {
    gap = rw (upper-append rest high right) h.gap;
    fits = rw (upper-append rest high right) h.fits;
    others_fit = FitOthers-append rest high right h.others_fit g.others_fit;
    stored = h.stored;
    others_stored = StoredOthers-append rest later depth right h.others_stored (
        StoredOthers_stay nodes later rest depth
          (λ j v.
            h.frame.1 j (UsesOthers_bound nodes rest depth j g.others_stored v)
              (λ w. g.apart j w v))
          g.others_stored);
    distinct = h.distinct;
    others_distinct =
        DistinctOthers-append rest right h.others_distinct g.others_distinct
          (λ j v w. old_or_new j w (h.places j (inr v)));
    apart = λ j v w. elim (UsesOthers-append rest right j w) [
      | inl x ↦ h.apart j v x
      | inr x ↦ old_or_new j x (h.places j (inl v))
    ];
    same =
        ap (λ e. entries_of t ++ e) (entries_of_others-append rest right)
        ∙ sym (append_assoc (entries_of t) (entries_of_others right) (entries_of_others rest))
        ∙ ap (λ e. e ++ entries_of_others rest) h.same
        ∙ sym (
            insert_entry-append_left key id (entries_of first) (entries_of_others rest)
              (before_others key high rest g.others_fit u));
    places = λ j v. elim v [
      | inl x ↦ of_first j (h.places j (inl x))
      | inr x ↦ elim (UsesOthers-append rest right j x) [
        | inl y ↦ of_first j (h.places j (inr y))
        | inr y ↦ inl (inr y)
      ]
    ];
    covers = λ j v. elim v [
      | inl old ↦ elim old [
        | inl x ↦ among j (h.covers j (inl x))
        | inr x ↦ inr (UsesOthers-right rest right j x)
      ]
      | inr new ↦ among j (h.covers j (inr new))
    ];
    frame = (h.frame.0, λ j less unused. h.frame.1 j less (λ v. unused (inl v)));
  }
    where
      old_or_new : (j : ℕ) → UsesOthers rest j → Uses first j ⊎ (length nodes ≤ j) → ⊥
      old_or_new j w (inl x) = g.apart j x w
      old_or_new j w (inr x) =
          omega (arith, x, UsesOthers_bound nodes rest depth j g.others_stored w)

      among : (j : ℕ) → Uses t j ⊎ UsesOthers right j → Uses t j ⊎ UsesOthers (append right rest) j
      among j (inl x) = inl x
      among j (inr x) = inr (UsesOthers-left rest right j x)

      of_first :
          (j : ℕ)
          → Uses first j ⊎ (length nodes ≤ j)
          → (Uses first j ⊎ UsesOthers rest j) ⊎ (length nodes ≤ j)
      of_first j (inl x) = inl (inl x)
      of_first j (inr x) = inr x

  -- The key belongs to a later child.
  pub later_grown :
      (nodes later : List Node) (depth : ℕ) (low high : Bound) (first : Shape) (b : IndexKey)
      (u : Shape) (rest : Others) (t : Shape) (new : Others) (Before : ℕ → Type 0)
      → Grown nodes nodes depth low high first
          (other b u rest)
          (entries_of first ++ (entries_of u ++ entries_of_others rest))
          Before
      → key_lt key b ≡ false
      → Grown nodes later depth
          (some b)
          high
          t
          new
          (insert_entry key id (entries_of u ++ entries_of_others rest))
          (λ j. Uses u j ⊎ UsesOthers rest j)
      → Grown nodes later depth low high first
          (other b t new)
          (insert_entry key id (entries_of first ++ (entries_of u ++ entries_of_others rest)))
          (λ j. Uses first j ⊎ UsesOthers (other b u rest) j)
  unfolding Fits Stored Uses Distinct entries_of
  later_grown nodes later depth low high first b u rest t new Before g after h = record {
    gap = g.gap;
    fits = g.fits;
    others_fit = (h.gap, h.fits, h.others_fit);
    stored =
        Stored-Stays nodes later first depth
          (λ j v. h.frame.1 j (Uses_bound nodes first depth j g.stored v) (λ w. g.apart j v w))
          g.stored;
    others_stored = (h.stored, h.others_stored);
    distinct = g.distinct;
    others_distinct = (h.apart, h.distinct, h.others_distinct);
    apart = λ j v w. not_later j v (h.places j w);
    same =
        ap (λ e. entries_of first ++ e) h.same
        ∙ sym (
            insert_entry-append_right key id (entries_of first)
              (entries_of u ++ entries_of_others rest)
              (Within-AllBelow low b key (entries_of first)
                (entries_of-IsWithin first low (some b) g.fits) after));
    places = λ j v. elim v [ inl x ↦ inl (inl x) | inr x ↦ of_later j (h.places j x) ];
    covers = λ j v. elim v [
      | inl old ↦ elim old [ inl x ↦ inl x | inr x ↦ inr (h.covers j (inl x)) ]
      | inr new ↦ inr (h.covers j (inr new))
    ];
    frame = (h.frame.0, λ j less unused. h.frame.1 j less (λ v. unused (inr v)));
  }
    where
      not_later : (j : ℕ) → Uses first j → (Uses u j ⊎ UsesOthers rest j) ⊎ (length nodes ≤ j) → ⊥
      not_later j v (inl x) = g.apart j v x
      not_later j v (inr x) = omega (arith, x, Uses_bound nodes first depth j g.stored v)

      of_later :
          (j : ℕ)
          → (Uses u j ⊎ UsesOthers rest j) ⊎ (length nodes ≤ j)
          → (Uses first j ⊎ (Uses u j ⊎ UsesOthers rest j)) ⊎ (length nodes ≤ j)
      of_later j (inl x) = inl (inr x)
      of_later j (inr x) = inr x
