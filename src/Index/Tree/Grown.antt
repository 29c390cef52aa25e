-- ===== src/Index/Tree/Grown.antt =====
-- crates/nova-index/src/lib.rs: what an insertion makes of a tree, which may have split.
use novabase.Common.{ℕ, ◌<◌, ◌≤◌, ◌≡◌, ◌⊎◌, Option, none, some, List, ◌∷◌, ◌++◌, length, get_elem?}
use novabase.Storage.Bytes.{Bytes}
use novabase.Common.Result.{ok}
use novabase.Index.Key.{IndexKey}
use novabase.Index.Tree.{
  Entries, Node, Split, insert_node, insert_entry, child_index, add_key, add_child,
}
use novabase.Index.Tree.Shape.{
  Shape, Others, no_others, other, at, keys_of, children_of, entries_of, entries_of_others, Stored,
  StoredOthers, Bound, NotBelow, Under, Gap, upper, Fits, FitOthers,
}
use novabase.Index.Tree.Places.{Uses, UsesOthers, Distinct, DistinctOthers}
use novabase.Index.Tree.Writes.{Frame}
use novabase.Index.Tree.Formed.{first_leaf, Formed, Shaped}

-- Children that are well formed, have the entries, and use the places from before and the new ones
pub record Grown (nodes later : List Node) (depth : ℕ) (low high : Bound) (t : Shape)
    (rest : Others) (entries : Entries) (Used : ℕ → Type 0) : Type 0 where
  pub gap : Gap low (upper high rest)
  pub fits : Fits low (upper high rest) t
  pub others_fit : FitOthers high rest
  pub stored : Stored later depth t
  pub others_stored : StoredOthers later depth rest
  pub distinct : Distinct t
  pub others_distinct : DistinctOthers rest
  pub apart : (j : ℕ) → Uses t j → ¬ UsesOthers rest j
  pub same : entries_of t ++ entries_of_others rest ≡ entries
  pub places : (j : ℕ) → Uses t j ⊎ UsesOthers rest j → Used j ⊎ (length nodes ≤ j)
  pub covers :
      (j : ℕ) → Used j ⊎ ((length nodes ≤ j) × (j < length later)) → Uses t j ⊎ UsesOthers rest j
  pub frame : Frame nodes later Used

-- The right part of a split, and the split as `insert_node` returns it
abbrev pub Right : Type 0
Right = Option (IndexKey × Shape)

abbrev pub others_of : Right → Others
others_of none = no_others
others_of (some (k, t)) = other k t no_others

abbrev pub split_of : Right → Split
split_of none = none
split_of (some (k, t)) = some (k, at t)

module _ (max_keys : ℕ) (key : IndexKey) (id : Bytes) where
  -- The insertion into a tree
  abbrev pub Inserts : Shape → Type 0
  Inserts t =
      (depth fuel : ℕ) (low high : Bound) (after : Option ℕ) (nodes : List Node)
      → depth < fuel
      → Stored nodes depth t
      → Fits low high t
      → Distinct t
      → Gap low high
      → NotBelow low key
      → Under high key
      → Formed max_keys after t
      → (later : List Node) × (t' : Shape) × (right : Right) × (insert_node fuel max_keys (at t) key
            id nodes
          ≡ (ok (split_of right), later))
        × (at t' ≡ at t)
        × Shaped max_keys after (first_leaf t) t' (others_of right)
        × Grown nodes later depth low high t' (others_of right) (insert_entry key id (entries_of t))
            (Uses t)

  -- The child that the key belongs to takes it.
  abbrev pub TakenAmong :
      Shape
      → Others
      → (depth fuel : ℕ) (low high : Bound) (after : Option ℕ) (nodes : List Node) → Type 0
  TakenAmong first rest depth fuel low high after nodes =
      let index = child_index (keys_of rest) key in
      (child : ℕ) × (later : List Node) × (t' : Shape) × (rest' : Others) × (split : Split)
      × (get_elem? (at first ∷ children_of rest) index ≡ some child)
      × (insert_node fuel max_keys child key id nodes ≡ (ok split, later))
      × (at t' ≡ at first)
      × (keys_of rest' ≡ add_key index split (keys_of rest))
      × (at t' ∷ children_of rest' ≡ add_child index split (at first ∷ children_of rest))
      × Shaped max_keys after (first_leaf first) t' rest'
      × Grown nodes later depth low high t' rest'
          (insert_entry key id (entries_of first ++ entries_of_others rest))
          (λ j. Uses first j ⊎ UsesOthers rest j)

  -- The insertion among children
  abbrev pub InsertsAmong : Others → Type 0
  InsertsAmong rest =
      (first : Shape)
      → Inserts first
      → (depth fuel : ℕ) (low high : Bound) (after : Option ℕ) (nodes : List Node) → depth < fuel
      → Grown nodes nodes depth low high first rest (entries_of first ++ entries_of_others rest)
          (λ j. Uses first j ⊎ UsesOthers rest j)
      → NotBelow low key
      → Under high key
      → Shaped max_keys after (first_leaf first) first rest
      → TakenAmong first rest depth fuel low high after nodes
