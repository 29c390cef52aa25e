-- ===== src/Index/Tree/Among.antt =====
-- crates/nova-index/src/lib.rs: `insert_node` in the child that a key belongs to.
use novabase.Common.{
  ℕ, suc, Option, ◌+◌, ◌<◌, ◌≡◌, ◌⊎◌, inl, inr, refl, ap, ◌∙◌, false, none, some, List, ◌∷◌, ◌++◌,
  arith,
}
use novabase.Storage.Bytes.{Bytes}
use novabase.Index.Key.{IndexKey, key_lt}
use novabase.Index.Tree.{Node, Split, child_index, add_key, add_child, insert_at}
use novabase.Index.Tree.Shape.{
  Shape, Others, other, at, keys_of, children_of, entries_of, entries_of_others, Stored,
  StoredOthers, Bound, NotBelow, Under, Gap, upper, Fits, FitOthers,
}
use novabase.Index.Tree.Places.{Uses, UsesOthers, Distinct, DistinctOthers}
use novabase.Index.Tree.Append.{append}
use novabase.Index.Tree.Formed.{first_leaf, next_leaf, Formed, Shaped, Shaped-first, Shaped-later}
use novabase.Index.Tree.Grown.{Grown, others_of, split_of, Inserts, InsertsAmong, TakenAmong}
use novabase.Index.Tree.Child.{first_index, first_keys, first_children, first_grown, later_grown}

later_keys :
    (b : IndexKey) (index : ℕ) (split : Split) (before after : List IndexKey)
    → after ≡ add_key index split before
    → b ∷ after ≡ add_key (suc index) split (b ∷ before)
later_keys b index none before after e = ap (◌∷◌ b) e
later_keys b index (some (k, right)) before after e = ap (◌∷◌ b) e

later_children :
    (c index : ℕ) (split : Split) (before after : List ℕ)
    → after ≡ add_child index split before
    → c ∷ after ≡ add_child (suc index) split (c ∷ before)
later_children c index none before after e = ap (◌∷◌ c) e
later_children c index (some (k, right)) before after e =
    ap (◌∷◌ c) e
    ∙ ap (λ n. insert_at n right (c ∷ before)) {x = suc (index + 1)} {y = suc index + 1}
        (omega arith)

-- Children that are well formed before anything is inserted
pub unchanged :
    (nodes : List Node) (depth : ℕ) (low high : Bound) (first : Shape) (rest : Others)
    → Gap low (upper high rest)
    → Fits low (upper high rest) first
    → FitOthers high rest
    → Stored nodes depth first
    → StoredOthers nodes depth rest
    → Distinct first
    → DistinctOthers rest
    → ((j : ℕ) → Uses first j → ¬ UsesOthers rest j)
    → Grown nodes nodes depth low high first rest
        (entries_of first ++ entries_of_others rest)
        (λ j. Uses first j ⊎ UsesOthers rest j)
unchanged nodes depth low high first rest gap fits others_fit stored others_stored distinct
      others_distinct apart =
    record {
      gap = gap;
      fits = fits;
      others_fit = others_fit;
      stored = stored;
      others_stored = others_stored;
      distinct = distinct;
      others_distinct = others_distinct;
      apart = apart;
      same = refl;
      places = λ j v. inl v;
      covers = λ j v. elim v [ inl x ↦ x | inr x ↦ absurd (omega (arith, x)) ];
      frame = (omega arith, λ j less u. refl);
    }

module _ (max_keys : ℕ) (key : IndexKey) (id : Bytes) where
  -- The key is taken by the first child.
  pub among_first :
      (rest : Others) (first : Shape)
      → Inserts max_keys key id first
      → (depth fuel : ℕ) (low high : Bound) (after : Option ℕ) (nodes : List Node) → depth < fuel
      → Grown nodes nodes depth low high first rest
          (entries_of first ++ entries_of_others rest)
          (λ j. Uses first j ⊎ UsesOthers rest j)
      → NotBelow low key
      → Under (upper high rest) key
      → Shaped max_keys after (first_leaf first) first rest
      → TakenAmong max_keys key id first rest depth fuel low high after nodes
  among_first rest first ins depth fuel low high after nodes less g above below (head, f, fs) =
      let (later, t', right, run, place, shaped, h) =
        ins depth fuel low (upper high rest) (next_leaf after rest) nodes less g.stored g.fits
          g.distinct g.gap above below f in
      (
        at first,
        later,
        t',
        append (others_of right) rest,
        split_of right,
        rw (first_index key high rest below) refl,
        run,
        place,
        rw (first_index key high rest below) (first_keys right rest),
        rw (first_index key high rest below) (first_children right t' first rest place),
        Shaped-first max_keys after (first_leaf first) t' (others_of right) rest shaped fs,
        first_grown max_keys key id nodes later depth low high first t' rest (others_of right) _ g
            below h,
      )

  -- The key is taken by a later child.
  pub among_later :
      (b : IndexKey) (t : Shape) (rest : Others)
      → Inserts max_keys key id t
      → InsertsAmong max_keys key id rest
      → (first : Shape) (depth fuel : ℕ) (low high : Bound) (after : Option ℕ) (nodes : List Node)
      → depth < fuel
      → Grown nodes nodes depth low high first
          (other b t rest)
          (entries_of first ++ entries_of_others (other b t rest))
          (λ j. Uses first j ⊎ UsesOthers (other b t rest) j)
      → key_lt key b ≡ false
      → Under high key
      → Shaped max_keys after (first_leaf first) first (other b t rest)
      → TakenAmong max_keys key id first (other b t rest) depth fuel low high after nodes
  unfolding Formed Fits Stored Uses Distinct entries_of keys_of children_of child_index
  among_later b t rest ih ihs first depth fuel low high following nodes less g after below
        (head, f, (u, us)) =
      let (gap, fits, others_fit) = g.others_fit in
      let (stored, others_stored) = g.others_stored in
      let (apart, distinct, others_distinct) = g.others_distinct in
      let (child, later, t', rest', split, found, run, place, keys, children, shaped, h) =
        ihs t ih depth fuel (some b) high following nodes less
          (unchanged nodes depth (some b) high t rest gap fits others_fit stored others_stored
            distinct others_distinct apart)
          after below (refl, u, us) in
      (
        child,
        later,
        first,
        other b t' rest',
        split,
        rw after found,
        run,
        refl,
        rw after (
            later_keys b (child_index (keys_of rest) key) split (keys_of rest) (keys_of rest')
              keys),
        rw after (
            later_children (at first) (child_index (keys_of rest) key) split
              (at t ∷ children_of rest) (at t' ∷ children_of rest') children),
        Shaped-later max_keys following b first t t' rest rest' f shaped,
        later_grown max_keys key id nodes later depth low high first b t rest t' rest' _ g after h,
      )
