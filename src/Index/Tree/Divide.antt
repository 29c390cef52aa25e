-- ===== src/Index/Tree/Divide.antt =====
-- crates/nova-index/src/lib.rs: `insert_node` at a leaf, which may divide it.
use novabase.Common.{
  ℕ, suc, ◌/◌, ◌+◌, ◌<◌, ◌≤◌, ◌≡◌, inl, inr, refl, sym, ap, ◌∙◌, true, false, Bool-cases, Option,
  none, some, List, [], ◌∷◌, ◌++◌, length, get_elem?, set, take, drop, leb, length-set, length-drop,
  length-take, take-append-drop, arith,
}
use mathlib.Core.List.{append-nil}
use novabase.Common.Result.{ok}
use novabase.Storage.Bytes.{Bytes}
use novabase.Index.Key.{IndexKey}
use novabase.Index.Tree.{Entries, Ids, Node, leaf, insert_node, insert_leaf, insert_entry, present}
use novabase.Index.Tree.Shape.{
  Shape, leaf_at, no_others, other, at, entries_of, Stored, Bound, NotBelow, Under, Gap, Within,
  Ascending, AscendingIds, IdsInOrder, Fits,
}
use novabase.Index.Tree.Places.{Uses, Distinct, get_elem?-bound}
use novabase.Index.Tree.Leaves.{
  insert_entry-Within, insert_entry-Ascending, insert_entry-IdsInOrder, insert_entry-present,
  All-parts, Ascending-parts, Ascending-AllBelow, Within-capped, Within-raised, key_lt_irrefl,
  Gap-above,
}
use novabase.Index.Tree.Writes.{
  Frame, Frame-set, length-written, get_elem?-written, get_elem?-pushed,
}
use novabase.Index.Tree.Formed.{Formed, Shaped, halves_few, length-insert_entry}
use novabase.Index.Tree.Grown.{Grown, Right, others_of, split_of}

module _ (nodes : List Node) (i : ℕ) (low high : Bound) (es : Entries) (next : Option ℕ)
    (bound : i < length nodes) (gap : Gap low high) where
  -- One leaf
  leaf_grown :
      Fits low high (leaf_at i es next)
      → (later : List Node) → get_elem? later i ≡ some (leaf es next)
      → length later ≡ length nodes
      → Frame nodes later (λ j. j ≡ i)
      → Grown nodes later 0 low high (leaf_at i es next) no_others es (λ j. j ≡ i)
  unfolding Fits Stored Uses Distinct entries_of
  leaf_grown fits later here as_many frame = record {
    gap = gap;
    fits = fits;
    others_fit = tt;
    stored = (refl, here);
    others_stored = tt;
    distinct = tt;
    others_distinct = tt;
    apart = λ j v w. w;
    same = append-nil es;
    places = λ j v. elim v [ inl x ↦ inl x | inr x ↦ absurd x ];
    covers = λ j v. elim v [ inl x ↦ inl x | inr x ↦ absurd (omega (arith, x, as_many)) ];
    frame = frame;
  }

  -- A leaf in two halves
  halves_grown :
      (left more : Entries) (k : IndexKey) (ids : Ids)
      → left ++ (k, ids) ∷ more ≡ es
      → 0 < length left
      → Fits low high (leaf_at i es next)
      → Grown nodes
          (set nodes i (leaf left (some (length nodes))) ++ leaf ((k, ids) ∷ more) next ∷ [])
          0
          low
          high
          (leaf_at i left (some (length nodes)))
          (other k (leaf_at (length nodes) ((k, ids) ∷ more) next) no_others)
          es
          (λ j. j ≡ i)
  unfolding Fits Stored Uses Distinct entries_of
  halves_grown left more k ids same nonempty (within, ascending, in_order) =
      let (left_within, right_within) =
        All-parts (λ entry. NotBelow low entry.0 × Under high entry.0) left ((k, ids) ∷ more)
          (rw same within) in
      let (left_ascending, right_ascending) =
        Ascending-parts left ((k, ids) ∷ more) (rw same ascending) in
      let (left_ids, right_ids) =
        All-parts (λ entry. (0 < length entry.1) × AscendingIds entry.1) left ((k, ids) ∷ more)
          (rw same in_order) in
      let below = Ascending-AllBelow left k ids more (rw same ascending) in
      record {
        gap = Gap-above low left k nonempty high left_within below;
        fits = (Within-capped low high k left left_within below, left_ascending, left_ids);
        others_fit = (
          right_within.0.1,
          (
            (
              (key_lt_irrefl k, right_within.0.1),
              Within-raised low high k more right_within.1 right_ascending.0,
            ),
            right_ascending,
            right_ids,
          ),
          tt,
        );
        stored = (
          refl,
          get_elem?-written nodes (leaf ((k, ids) ∷ more) next ∷ []) i
              (leaf left (some (length nodes))) bound,
        );
        others_stored = (
          (
            refl,
            get_elem?-pushed nodes i (leaf left (some (length nodes)))
                (leaf ((k, ids) ∷ more) next),
          ),
          tt,
        );
        distinct = tt;
        others_distinct = ((λ j v w. w), tt, tt);
        apart = λ j v w. elim w [ inl x ↦ omega (arith, v, x, bound) | inr x ↦ absurd x ];
        same = ap (λ e. left ++ e) (append-nil ((k, ids) ∷ more)) ∙ same;
        places = λ j v. elim v [
          | inl x ↦ inl x
          | inr y ↦ elim y [ inl x ↦ inr (omega (arith, x)) | inr z ↦ absurd z ]
        ];
        covers = λ j v. elim v [
          | inl x ↦ inl x
          | inr (old, new) ↦ inr (
              inl (
                omega (
                  arith,
                  old,
                  new,
                  length-written nodes (leaf ((k, ids) ∷ more) next ∷ []) i
                      (leaf left (some (length nodes))) bound,
                )))
        ];
        frame =
            Frame-set nodes (leaf ((k, ids) ∷ more) next ∷ []) i (leaf left (some (length nodes)))
              bound;
      }

abbrev pub half_of : Entries → ℕ
half_of es = length es / 2

module _ (max_keys : ℕ) (key : IndexKey) (id : Bytes) (positive : 0 < max_keys) where
  module _ (i fuel : ℕ) (low high : Bound) (after : Option ℕ) (nodes : List Node) (es : Entries)
      (next : Option ℕ) where
    abbrev pub grown : Entries
    grown = insert_entry key id es

    leaf_result :
        (node : get_elem? nodes i ≡ some (leaf es next))
        → insert_node (suc fuel) max_keys i key id nodes
          ≡ insert_leaf max_keys i es next key id nodes
    unfolding insert_node
    leaf_result node = rw (insert_node, node) refl

    leaf_unchanged :
        present key id es ≡ true → insert_leaf max_keys i es next key id nodes ≡ (ok none, nodes)
    unfolding insert_leaf
    leaf_unchanged e = rw e refl

    leaf_fits :
        present key id es ≡ false
        → leb (length grown) max_keys ≡ true
        → insert_leaf max_keys i es next key id nodes ≡ (ok none, set nodes i (leaf grown next))
    unfolding insert_leaf
    leaf_fits e f = rw (e, f) refl

    leaf_splits :
        (k : IndexKey) (ids : Ids) (more : Entries)
        → present key id es ≡ false
        → leb (length grown) max_keys ≡ false
        → drop (half_of grown) grown ≡ (k, ids) ∷ more
        → insert_leaf max_keys i es next key id nodes ≡ (
          ok (some (k, length nodes)),
          set nodes i (leaf (take (half_of grown) grown) (some (length nodes)))
              ++ leaf ((k, ids) ∷ more) next ∷ [],
        )
    unfolding insert_leaf
    leaf_splits k ids more e f d = rw (e, f, d) refl

    -- What a leaf makes of a key
    abbrev pub Taken : Type 0
    Taken =
        (later : List Node) × (t' : Shape) × (right : Right) × (insert_node (suc fuel) max_keys i
            key id nodes
          ≡ (ok (split_of right), later))
        × (at t' ≡ i)
        × Shaped max_keys after i t' (others_of right)
        × Grown nodes later 0 low high t' (others_of right) (insert_entry key id es) (λ j. j ≡ i)

    -- A leaf takes a key.
    pub leaf_inserts :
        get_elem? nodes i ≡ some (leaf es next)
        → Fits low high (leaf_at i es next)
        → Gap low high
        → NotBelow low key
        → Under high key
        → Formed max_keys after (leaf_at i es next)
        → Taken
    unfolding Fits Formed
    leaf_inserts node (within, ascending, in_order) gap above below (follows, room) =
        elim (Bool-cases (present key id es)) [
          | inl there ↦ (
            nodes,
            leaf_at i es next,
            none,
            leaf_result node ∙ leaf_unchanged there,
            refl,
            (refl, (follows, room), tt),
            rw (insert_entry-present key id es in_order there) (
                leaf_grown nodes i low high es next bound gap (within, ascending, in_order) nodes
                  node refl (omega arith, λ j less u. refl)),
          )
          | inr new ↦ elim (Bool-cases (leb (length grown) max_keys)) [
            | inl few ↦ (
              set nodes i (leaf grown next),
              leaf_at i grown next,
              none,
              leaf_result node ∙ leaf_fits new few,
              refl,
              (refl, (follows, ground (arith, few)), tt),
              leaf_grown nodes i low high grown next bound gap fits_grown
                  (set nodes i (leaf grown next))
                  (rw append-nil at (get_elem?-written nodes [] i (leaf grown next) bound))
                  (length-set nodes i (leaf grown next))
                  (rw append-nil at (Frame-set nodes [] i (leaf grown next) bound)),
            )
            | inr many ↦ divided (drop (half_of grown) grown) refl many new
          ]
        ]
      where
        bound : i < length nodes
        bound = get_elem?-bound nodes i node

        fits_grown : Within low high grown × Ascending grown × IdsInOrder grown
        fits_grown = (
          insert_entry-Within key id low high es above below within,
          insert_entry-Ascending key id es ascending,
          insert_entry-IdsInOrder key id es in_order,
        )

        most : length grown ≤ max_keys + 1
        most = omega (arith, length-insert_entry key id es, room)

        sizes :
            leb (length grown) max_keys ≡ false
            → (right : Entries) → drop (half_of grown) grown ≡ right
            → (length (take (half_of grown) grown) ≤ max_keys) × (length right ≤ max_keys)
        sizes many right e =
            halves_few max_keys (length grown) (length (take (half_of grown) grown)) (length right)
              positive many most (ground (arith, length-take (half_of grown) grown))
              (ap length (sym e) ∙ length-drop (half_of grown) grown)

        divided :
            (right : Entries)
            → drop (half_of grown) grown ≡ right
            → leb (length grown) max_keys ≡ false
            → present key id es ≡ false
            → Taken
        divided [] e many new =
            absurd (ground (arith, many, positive, ap length e, length-drop (half_of grown) grown))
        divided ((k, ids) ∷ more) e many new = (
          set nodes i (leaf (take (half_of grown) grown) (some (length nodes)))
              ++ leaf ((k, ids) ∷ more) next ∷ [],
          leaf_at i (take (half_of grown) grown) (some (length nodes)),
          some (k, leaf_at (length nodes) ((k, ids) ∷ more) next),
          leaf_result node ∙ leaf_splits k ids more new many e,
          refl,
          (
            refl,
            (refl, (sizes many ((k, ids) ∷ more) e).0),
            ((follows, (sizes many ((k, ids) ∷ more) e).1), tt),
          ),
          halves_grown nodes i low high grown next bound gap (take (half_of grown) grown) more k ids
              (ap (λ r. take (half_of grown) grown ++ r) (sym e)
                ∙ take-append-drop (half_of grown) grown)
              (ground (arith, many, positive, length-take (half_of grown) grown)) fits_grown,
        )
