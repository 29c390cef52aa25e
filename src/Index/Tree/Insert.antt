-- ===== src/Index/Tree/Insert.antt =====
-- crates/nova-index/src/lib.rs: `insert` puts a pair into the entries, under a new root when the old one splits.
use novabase.Common.{
  ℕ, suc, inl, inr, ◌⊎◌, ◌≤◌, ◌<◌, ◌≡◌, refl, sym, ap, ◌∙◌, true, none, some, List, [], ◌∷◌, ◌++◌,
  length, length-append, arith,
}
use mathlib.Core.List.{append-nil}
use novabase.Common.Result.{ok}
use novabase.Storage.Bytes.{Bytes}
use novabase.Index.Key.{IndexKey}
use novabase.Index.Tree
use novabase.Index.Tree.{
  Entries, Node, leaf, internal_node, Split, insert_node, insert_internal, insert_entry,
  child_index, add_key, add_child, insert_at, BPlusTree, inserted,
}
use novabase.Index.Tree.Shape.{
  Shape, branch_at, no_others, other, at, keys_of, children_of, entries_of, Stored, Fits,
}
use novabase.Index.Tree.Places.{Uses, Distinct, Uses_bound, UsesOthers_bound, Stored-Stays}
use novabase.Index.Tree.Formed.{IsTree, Formed, Shaped, first_leaf}
use novabase.Index.Tree.Writes.{lt_or_eq, lt_or_le, get_elem?-append_left, get_elem?-append_at}
use novabase.Index.Tree.Grown.{Grown, Right, others_of, split_of}
use novabase.Index.Tree.Take.{insert_node-Inserts}

fresh : {n : ℕ} → n < n → ⊥
fresh h = omega (arith, h)

-- Two trees under a new root
new_root :
    (nodes : List Node) (depth root : ℕ) (t u : Shape) (k : IndexKey)
    → at t ≡ root
    → Stored nodes depth t
    → Stored nodes depth u
    → Stored
        (nodes ++ internal_node (k ∷ []) (root ∷ at u ∷ []) ∷ [])
        (suc depth)
        (branch_at (length nodes) t (other k u no_others))
unfolding Stored keys_of children_of
new_root nodes depth root t u k place stored others = (
  depth,
  refl,
  get_elem?-append_at nodes [] _
      ∙ ap (λ i. some (internal_node (k ∷ []) (i ∷ at u ∷ []))) (sym place),
  stays t stored,
  (stays u others, tt),
)
  where
    stays :
        (s : Shape)
        → Stored nodes depth s
        → Stored (nodes ++ internal_node (k ∷ []) (root ∷ at u ∷ []) ∷ []) depth s
    stays s here =
        Stored-Stays nodes _ s depth
          (λ j v. get_elem?-append_left nodes _ j (Uses_bound nodes s depth j here v)) here

-- `insert` succeeds on every well-formed tree and leaves a well-formed tree, whose entries are those from
-- before with the pair put into its place. Well formed is what `verify` demands, for every capacity of
-- at least one key: the nodes make up one tree and each is used once, all leaves are equally deep, keys
-- lie in order between their separators, each key has identifiers in order, no node exceeds its
-- capacity, internal nodes have keys where nodes have room for two, and each leaf names the next one.
pub insert-IsTree :
    (key : IndexKey) (id : Bytes) (tree : BPlusTree) (t : Shape) (depth : ℕ)
    → IsTree tree t depth
    → (after : BPlusTree) × (t' : Shape) × (depth' : ℕ) × (Tree.insert key id tree ≡ (ok tt, after))
      × IsTree after t' depth'
      × (entries_of t' ≡ insert_entry key id (entries_of t))
unfolding Tree.insert Formed keys_of Stored Fits Uses Distinct entries_of
insert-IsTree key id tree t depth (root, stored, fits, distinct, enough, positive, formed, cover) =
    let (later, t', right, run, place, shaped, g) =
      insert_node-Inserts tree.max_keys key id positive t depth (length tree.nodes) none none none
        tree.nodes enough stored fits distinct tt tt tt formed in
    rooted right later t' (rw root at run) place shaped g
  where
    still :
        (later : List Node) (j : ℕ)
        → j < length later
        → Uses t j ⊎ ((length tree.nodes ≤ j) × (j < length later))
    still later j less = elim (lt_or_le j (length tree.nodes)) [
      | inl old ↦ inl (cover j old)
      | inr new ↦ inr (new, less)
    ]

    rooted :
        (right : Right) (later : List Node) (t' : Shape)
        → insert_node (length tree.nodes) tree.max_keys tree.root key id tree.nodes
          ≡ (ok (split_of right), later)
        → at t' ≡ at t
        → Shaped tree.max_keys none (first_leaf t) t' (others_of right)
        → Grown tree.nodes later depth none none t'
            (others_of right)
            (insert_entry key id (entries_of t))
            (Uses t)
        → (after : BPlusTree) × (t' : Shape) × (depth' : ℕ) × (Tree.insert key id tree
            ≡ (ok tt, after))
          × IsTree after t' depth'
          × (entries_of t' ≡ insert_entry key id (entries_of t))
    rooted none later t' run place shaped g = (
      record tree { nodes = later; dirty = true },
      t',
      depth,
      ap (inserted tree) run,
      (
        place ∙ root,
        g.stored,
        g.fits,
        g.distinct,
        omega (arith, enough, g.frame.0),
        positive,
        shaped.1,
        λ j less. elim (g.covers j (still later j less)) [ inl x ↦ x | inr x ↦ absurd x ],
      ),
      sym (append-nil (entries_of t')) ∙ g.same,
    )
    rooted (some (k, u)) later t' run place shaped g = (
      record tree {
        root = length later;
        nodes = later ++ internal_node (k ∷ []) (tree.root ∷ at u ∷ []) ∷ [];
        dirty = true;
      },
      branch_at (length later) t' (other k u no_others),
      suc depth,
      ap (inserted tree) run,
      (
        refl,
        new_root later depth tree.root t' u k (place ∙ root) g.stored g.others_stored.0,
        (tt, g.fits, g.others_fit),
        (
          (λ v. fresh (Uses_bound later t' depth (length later) g.stored v)),
          (λ v. fresh (
              UsesOthers_bound later (other k u no_others) depth (length later) g.others_stored v)),
          g.apart,
          g.distinct,
          g.others_distinct,
        ),
        omega (
          arith,
          enough,
          g.frame.0,
          length-append later (internal_node (k ∷ []) (tree.root ∷ at u ∷ []) ∷ []),
        ),
        positive,
        ((omega (arith, positive), inl (omega arith)), shaped.1, shaped.2),
        λ j less.
            elim (lt_or_eq j (length later) (
              omega (
                arith,
                less,
                length-append later (internal_node (k ∷ []) (tree.root ∷ at u ∷ []) ∷ []),
              ))) [ inl old ↦ inr (g.covers j (still later j old)) | inr last ↦ inl last ],
      ),
      g.same,
    )
