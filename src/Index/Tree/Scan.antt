-- ===== src/Index/Tree/Scan.antt =====
-- crates/nova-index/src/lib.rs: the range of a `BPlusTree`, the removal of a pair, and a new tree.
use novabase.Common.{
  ℕ, zero, suc, ◌-◌, ◌%◌, ◌^◌, Bool, true, false, ◌||◌, Option, none, some, List, [], ◌∷◌, ◌++◌,
  length, get_elem?, set, map, ltb, ◌==◌, if◌then◌else◌,
}
use novabase.Common.Result.{Result, ok, err, internal, timeout, invalid_argument}
use novabase.Common.Checked.{◌>>=◌, ◌>>◌, refuse_if}
use novabase.Storage.Bytes.{Bytes}
use novabase.Core.Value.{same_bytes}
use novabase.Index.Key.{IndexKey, key_lt}
use novabase.Index.Tree.{
  Entries, Ids, Node, leaf, internal_node, BPlusTree, find_leaf, find_entry, has_id, or_empty,
}

abbrev pub Pairs : Type 0
Pairs = List (IndexKey × Bytes)

-- The loop of `range` over a leaf: the pairs, and whether a key above the end has been met
unfoldable pub scan_leaf : IndexKey → IndexKey → Entries → Pairs × Bool
unfolding key_lt
scan_leaf start end [] = ([], false)
scan_leaf start end ((key, ids) ∷ entries) =
    let (pairs, past) = scan_leaf start end entries in
    if key_lt key start
    then (pairs, past)
    else if key_lt end key
    then ([], true)
    else (map (λ id. (key, id)) ids ++ pairs, past)

-- The loop of `range` over the chain of leaves
unfoldable pub scan_chain : ℕ → List Node → IndexKey → IndexKey → Option ℕ → Result Pairs
unfolding scan_leaf
scan_chain fuel nodes start end none = ok []
scan_chain zero nodes start end (some n) = err timeout
scan_chain (suc fuel) nodes start end (some n) = elim (get_elem? nodes n) [
  | none ↦ err internal
  | some node ↦ elim node [
    | internal_node keys children ↦ err internal
    | leaf entries next ↦
        let (pairs, past) = scan_leaf start end entries in
        if past
        then ok pairs
        else (scan_chain fuel nodes start end next >>= λ others. ok (pairs ++ others))
  ]
]

-- `range`
unfoldable pub range : IndexKey → IndexKey → BPlusTree → Result Pairs
unfolding scan_chain find_leaf key_lt
range start end tree = do
  refuse_if (key_lt end start) invalid_argument
  elim (find_leaf (length tree.nodes) tree.nodes start tree.root) [
    | none ↦ err internal
    | some n ↦ scan_chain (length tree.nodes) tree.nodes start end (some n)
  ]

-- an identifier taken out of the identifiers of a key
unfoldable pub remove_id : Bytes → Ids → Ids
remove_id id [] = []
remove_id id (other ∷ ids) =
    let rest = remove_id id ids in if same_bytes other id then ids else other ∷ rest

-- an identifier taken out of a leaf, with its key when it was the last one
unfoldable pub remove_entry : IndexKey → Bytes → Entries → Entries
unfolding key_lt remove_id
remove_entry key id [] = []
remove_entry key id ((candidate, ids) ∷ entries) =
    let rest = remove_entry key id entries in
    let left = remove_id id ids in
    if key_lt candidate key
    then (candidate, ids) ∷ rest
    else if key_lt key candidate
    then (candidate, ids) ∷ entries
    else if length left == 0
    then entries
    else (candidate, left) ∷ entries

-- `remove`; `none` where the search finds no leaf, which stops the program
unfoldable pub remove : IndexKey → Bytes → BPlusTree → Option (Bool × BPlusTree)
unfolding remove_entry find_leaf find_entry has_id
remove key id tree = elim (find_leaf (length tree.nodes) tree.nodes key tree.root) [
  | none ↦ none
  | some n ↦ elim (get_elem? tree.nodes n) [
    | none ↦ none
    | some node ↦ elim node [
      | internal_node keys children ↦ none
      | leaf entries next ↦
          if has_id id (or_empty (find_entry key entries))
          then some (
            true,
            record tree {
              nodes = set tree.nodes n (leaf (remove_entry key id entries) next);
              dirty = true;
            },
          )
          else some (false, tree)
    ]
  ]
]

-- `MIN_MAX_KEYS`, `validate_max_keys`
abbrev pub min_max_keys : ℕ
min_max_keys = 3

unfoldable pub validate_max_keys : ℕ → Result (Unit {0})
validate_max_keys max_keys =
    refuse_if (ltb max_keys min_max_keys || (max_keys % 2 == 0 || ltb (2 ^ 32 - 1) max_keys))
      invalid_argument
