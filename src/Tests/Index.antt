-- ===== src/Tests/Index.antt =====
-- crates/nova-index: a tree whose nodes have room for three keys, and that splits.
use novabase.Storage.Bytes.{Bytes}
use novabase.Common.{
  ◌↔◌, ◌<◌, ℕ, zero, suc, ◌≡◌, ◌⊎◌, inl, inr, refl, true, none, some, [], ◌∷◌, arith,
}
use novabase.Common.Int.{pos}
use novabase.Common.Result.{ok}
use novabase.Index.Key.{IndexKey, int64, key_lt}
use novabase.Index.Tree
use novabase.Index.Tree.{
  BPlusTree, Entries, Ids, Node, leaf, internal_node, get, insert_entry, find_entry, or_empty,
}
use novabase.Index.Tree.Shape.{
  Shape, AscendingIds, leaf_at, branch_at, no_others, other, entries_of, Stored, Fits,
}
use novabase.Index.Tree.Ids.{HasId}
use novabase.Index.Tree.Formed.{IsTree, Formed}
use novabase.Index.Tree.Places.{Distinct, Uses}
use novabase.Index.Tree.Insert.{insert-IsTree}
use novabase.Index.Tree.Scan.{range, remove}
use novabase.Index.Tree.Contents.{insert_all, put_all, empty, get-insert_pair, get-insert_all}

abbrev entry : ℕ → IndexKey × Ids
entry n = (int64 (pos n), (n ∷ []) ∷ [])

-- two leaves under a root
abbrev tree : BPlusTree
tree = record {
  max_keys = 3;
  root = 2;
  nodes =
      leaf (entry 1 ∷ entry 2 ∷ []) (some 1)
      ∷ leaf (entry 3 ∷ entry 4 ∷ entry 5 ∷ []) none
      ∷ internal_node (int64 (pos 3) ∷ []) (0 ∷ 1 ∷ [])
      ∷ [];
  dirty = true;
}

abbrev shape : Shape
shape =
    branch_at 2 (leaf_at 0 (entry 1 ∷ entry 2 ∷ []) (some 1))
      (other (int64 (pos 3)) (leaf_at 1 (entry 3 ∷ entry 4 ∷ entry 5 ∷ []) none) no_others)

tree-IsTree : IsTree tree shape 1
unfolding Formed Stored Fits Distinct Uses key_lt
tree-IsTree = (refl, stored, fits, distinct, omega arith, omega arith, formed, covered)
  where
    stored : Stored tree.nodes 1 shape
    stored = (0, refl, refl, (refl, refl), ((refl, refl), tt))

    fits : Fits none none shape
    fits = (
      tt,
      (
        ((tt, refl), ((tt, refl), tt)),
        ((refl, tt), (tt, tt)),
        ((omega arith, (tt, tt)), ((omega arith, (tt, tt)), tt)),
      ),
      (
        tt,
        (
          ((refl, tt), ((refl, tt), ((refl, tt), tt))),
          ((refl, (refl, tt)), ((refl, tt), (tt, tt))),
          ((omega arith, (tt, tt)), ((omega arith, (tt, tt)), ((omega arith, (tt, tt)), tt))),
        ),
        tt,
      ),
    )

    formed : Formed 3 none shape
    formed = ((omega arith, inl (omega arith)), (refl, omega arith), ((refl, omega arith), tt))

    covered : (j : ℕ) → j < 3 → Uses shape j
    covered zero less = inr (inl refl)
    covered (suc zero) less = inr (inr (inl refl))
    covered (suc (suc zero)) less = inl refl
    covered (suc (suc (suc j))) less = absurd (omega (arith, less))

    distinct : Distinct shape
    distinct = (
      (λ v. omega (arith, v)),
      (λ v. elim v [ inl x ↦ omega (arith, x) | inr x ↦ absurd x ]),
      (λ j v w. elim w [ inl x ↦ omega (arith, v, x) | inr x ↦ absurd x ]),
      tt,
      ((λ j v w. w), tt, tt),
    )

-- The key splits the second leaf.
abbrev grown : BPlusTree
grown = record {
  max_keys = 3;
  root = 2;
  nodes =
      leaf (entry 1 ∷ entry 2 ∷ []) (some 1)
      ∷ leaf (entry 3 ∷ entry 4 ∷ []) (some 3)
      ∷ internal_node (int64 (pos 3) ∷ int64 (pos 5) ∷ []) (0 ∷ 1 ∷ 3 ∷ [])
      ∷ leaf (entry 5 ∷ entry 6 ∷ []) none
      ∷ [];
  dirty = true;
}

insert_splits : Tree.insert (int64 (pos 6)) (6 ∷ []) tree ≡ (ok tt, grown)
unfolding Tree.insert
insert_splits = refl

insert-IsTree_example :
    (after : BPlusTree) × (t : Shape) × (depth : ℕ) × (Tree.insert (int64 (pos 6)) (6 ∷ []) tree
      ≡ (ok tt, after))
    × IsTree after t depth
    × (entries_of t ≡ insert_entry (int64 (pos 6)) (6 ∷ []) (entries_of shape))
insert-IsTree_example = insert-IsTree (int64 (pos 6)) (6 ∷ []) tree shape 1 tree-IsTree

-- A second identifier of a key that is there
abbrev second : BPlusTree
second = record tree {
  nodes =
      leaf (entry 1 ∷ entry 2 ∷ []) (some 1)
      ∷ leaf (entry 3 ∷ (int64 (pos 4), (4 ∷ []) ∷ (7 ∷ []) ∷ []) ∷ entry 5 ∷ []) none
      ∷ internal_node (int64 (pos 3) ∷ []) (0 ∷ 1 ∷ [])
      ∷ [];
}

insert_another : Tree.insert (int64 (pos 4)) (7 ∷ []) tree ≡ (ok tt, second)
unfolding Tree.insert
insert_another = refl

get-insert_pair_example :
    (ids : Ids) × (get (int64 (pos 4)) second ≡ some ids)
    × AscendingIds ids
    × ((x : Bytes) → HasId x ids ↔ ((x ≡ 7 ∷ []) ⊎ HasId x ((4 ∷ []) ∷ [])))
    × ((other : IndexKey)
        → (key_lt (int64 (pos 4)) other ≡ true) ⊎ (key_lt other (int64 (pos 4)) ≡ true)
        → get other second ≡ get other tree)
unfolding get
get-insert_pair_example =
    get-insert_pair (int64 (pos 4)) (7 ∷ []) tree shape 1 tree-IsTree second ((4 ∷ []) ∷ [])
      insert_another there
  where
    there : get (int64 (pos 4)) tree ≡ some ((4 ∷ []) ∷ [])
    there = refl

get-insert_all_example :
    (found : BPlusTree) × (insert_all
        (((int64 (pos 9), 1 ∷ [])) ∷ ((int64 (pos 9), 0 ∷ [])) ∷ [])
        (empty 3)
      ≡ (ok tt, found))
    × (get (int64 (pos 9)) found ≡ some ((0 ∷ []) ∷ (1 ∷ []) ∷ []))
unfolding find_entry put_all key_lt
get-insert_all_example =
    get-insert_all 3 (((int64 (pos 9), 1 ∷ [])) ∷ ((int64 (pos 9), 0 ∷ [])) ∷ []) (int64 (pos 9))
      (omega arith)

range_crosses_leaves :
    range (int64 (pos 2)) (int64 (pos 3)) tree
    ≡ ok ((int64 (pos 2), 2 ∷ []) ∷ (int64 (pos 3), 3 ∷ []) ∷ [])
unfolding range
range_crosses_leaves = refl

-- The last identifier of a key goes with the key.
abbrev without_four : BPlusTree
without_four = record tree {
  nodes =
      leaf (entry 1 ∷ entry 2 ∷ []) (some 1)
      ∷ leaf (entry 3 ∷ entry 5 ∷ []) none
      ∷ internal_node (int64 (pos 3) ∷ []) (0 ∷ 1 ∷ [])
      ∷ [];
}

remove_four : remove (int64 (pos 4)) (4 ∷ []) tree ≡ some (true, without_four)
unfolding remove
remove_four = refl
