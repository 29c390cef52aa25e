-- ===== src/Index/Tree.antt =====
-- crates/nova-index/src/lib.rs: `BPlusTree` in memory. Its nodes refer to each other by their places in
-- one list. Entries and identifiers are in order, so that a binary search finds the first that is not
-- below what is looked for.
pub mod Shape
pub mod Formed
pub mod Lookup
pub mod Places
pub mod Append
pub mod Leaves
pub mod Ids
pub mod Writes
pub mod Grown
pub mod Child
pub mod Cut
pub mod Room
pub mod Branch
pub mod Divide
pub mod Among
pub mod Take
pub mod Insert
pub mod Contents
pub mod Scan
pub mod Search
use novabase.Common.{
  ℕ, zero, suc, ◌+◌, ◌-◌, ◌/◌, Bool, true, false, not, ◌&&◌, ◌||◌, Option, none, some, List, [],
  ◌∷◌, ◌++◌, length, take, drop, get_elem?, set, leb, ◌==◌, if◌then◌else◌, map,
}
use novabase.Common.Result.{
  NovaError, Result, ok, err, internal, timeout, invalid_argument, Method, ◌>>=◌, ◌>>◌, return,
  fail, fail_if, gets, lift, ok_or, modify,
}
use novabase.Storage.Bytes.{Bytes}
use novabase.Core.Value.{bytes_lt, same_bytes}
use novabase.Index.Key.{IndexKey, key_lt}

abbrev pub Ids : Type 0
Ids = List Bytes

abbrev pub Entries : Type 0
Entries = List (IndexKey × Ids)

-- `Node`
pub data Node : Type 0 where
  leaf : Entries → Option ℕ → Node
  internal_node : List IndexKey → List ℕ → Node

-- `BPlusTree`, without its path
pub record BPlusTree : Type 0 where
  pub max_keys : ℕ
  pub root : ℕ
  pub nodes : List Node
  pub dirty : Bool

-- `child_index`
unfoldable pub child_index : List IndexKey → IndexKey → ℕ
unfolding key_lt
child_index [] key = 0
child_index (separator ∷ keys) key =
    let rest = child_index keys key in if key_lt key separator then 0 else suc rest

-- the identifiers of an exact key
unfoldable pub find_entry : IndexKey → Entries → Option Ids
unfolding key_lt
find_entry key [] = none
find_entry key ((candidate, ids) ∷ entries) =
    let rest = find_entry key entries in
    if key_lt candidate key then rest else if key_lt key candidate then none else some ids

-- the search of `find_leaf` from a node on; `none` where it needs more fuel, or finds no node
unfoldable pub find_leaf : ℕ → List Node → IndexKey → ℕ → Option ℕ
unfolding child_index
find_leaf zero nodes key n = none
find_leaf (suc fuel) nodes key n = elim (get_elem? nodes n) [
  | none ↦ none
  | some node ↦ elim node [
    | leaf entries next ↦ some n
    | internal_node keys children ↦ elim (get_elem? children (child_index keys key)) [
      | none ↦ none
      | some child ↦ find_leaf fuel nodes key child
    ]
  ]
]

abbrev pub or_empty : Option Ids → Ids
or_empty none = []
or_empty (some ids) = ids

-- `get`; a path has no more nodes than there are
unfoldable pub get : IndexKey → BPlusTree → Option Ids
unfolding find_leaf find_entry
get key tree = elim (find_leaf (length tree.nodes) tree.nodes key tree.root) [
  | none ↦ none
  | some n ↦ elim (get_elem? tree.nodes n) [
    | none ↦ none
    | some node ↦ elim node [
      | leaf entries next ↦ some (or_empty (find_entry key entries))
      | internal_node keys children ↦ none
    ]
  ]
]

-- an identifier put into its place
unfoldable pub insert_id : Bytes → Ids → Ids
insert_id id [] = id ∷ []
insert_id id (other ∷ ids) =
    let rest = insert_id id ids in
    if bytes_lt other id
    then other ∷ rest
    else if bytes_lt id other
    then id ∷ (other ∷ ids)
    else other ∷ ids

unfoldable pub has_id : Bytes → Ids → Bool
has_id id [] = false
has_id id (other ∷ ids) = same_bytes other id || has_id id ids

-- an identifier put under a key
unfoldable pub insert_entry : IndexKey → Bytes → Entries → Entries
unfolding key_lt insert_id
insert_entry key id [] = (key, id ∷ []) ∷ []
insert_entry key id ((candidate, ids) ∷ entries) =
    let rest = insert_entry key id entries in
    if key_lt candidate key
    then (candidate, ids) ∷ rest
    else if key_lt key candidate
    then (key, id ∷ []) ∷ ((candidate, ids) ∷ entries)
    else (candidate, insert_id id ids) ∷ entries

-- `Vec::insert`
abbrev pub insert_at {ℓ} : {A : Type ℓ} → ℕ → A → List A → List A
insert_at zero x xs = x ∷ xs
insert_at (suc n) x [] = x ∷ []
insert_at (suc n) x (y ∷ xs) = y ∷ insert_at n x xs

abbrev pub Split : Type 0
Split = Option (IndexKey × ℕ)

abbrev pub present : IndexKey → Bytes → Entries → Bool
present key id entries = has_id id (or_empty (find_entry key entries))

-- the right half of a leaf that is split, in the new node `right`
abbrev pub new_leaf : ℕ → Option ℕ → Entries → Result (Split × List Node)
new_leaf right next [] = err internal
new_leaf right next ((separator, ids) ∷ entries) =
    ok (some (separator, right), leaf ((separator, ids) ∷ entries) next ∷ [])

-- `insert_node` at a leaf
unfoldable pub insert_leaf :
    ℕ → ℕ → Entries → Option ℕ → IndexKey → Bytes → Method (List Node) Split
unfolding insert_entry find_entry has_id
insert_leaf max_keys n entries next key id nodes =
    let grown = insert_entry key id entries in
    let half = length grown / 2 in
    if present key id entries
    then (ok none, nodes)
    else if leb (length grown) max_keys
    then (ok none, set nodes n (leaf grown next))
    else elim (new_leaf (length nodes) next (drop half grown)) [
      | err kind ↦ (err kind, nodes)
      | ok (split, new) ↦
          (ok split, set nodes n (leaf (take half grown) (some (length nodes))) ++ new)
    ]

-- what `insert_node` does at an internal node once its child has taken the key
unfoldable pub insert_internal : ℕ → ℕ → List IndexKey → List ℕ → Method (List Node) Split
insert_internal max_keys n keys children nodes =
    let middle = length keys / 2 in
    if leb (length keys) max_keys
    then (ok none, set nodes n (internal_node keys children))
    else elim (get_elem? keys middle) [
      | none ↦ (err internal, nodes)
      | some separator ↦ (
        ok (some (separator, length nodes)),
        set nodes n (internal_node (take middle keys) (take (middle + 1) children))
            ++ internal_node (drop (middle + 1) keys) (drop (middle + 1) children) ∷ [],
      )
    ]

-- the new separator and child of a split
abbrev pub add_key : ℕ → Split → List IndexKey → List IndexKey
add_key index none keys = keys
add_key index (some (separator, right)) keys = insert_at index separator keys

abbrev pub add_child : ℕ → Split → List ℕ → List ℕ
add_child index none children = children
add_child index (some (separator, right)) children = insert_at (index + 1) right children

-- `insert_node`; an access out of bounds, which stops the program, is `internal`
unfoldable pub insert_node : ℕ → ℕ → ℕ → IndexKey → Bytes → Method (List Node) Split
unfolding insert_leaf insert_internal child_index
insert_node zero max_keys n key id nodes = (err timeout, nodes)
insert_node (suc fuel) max_keys n key id nodes = elim (get_elem? nodes n) [
  | none ↦ (err internal, nodes)
  | some node ↦ elim node [
    | leaf entries next ↦ insert_leaf max_keys n entries next key id nodes
    | internal_node keys children ↦
        let index = child_index keys key in
        elim (get_elem? children index) [
          | none ↦ (err internal, nodes)
          | some child ↦
              (insert_node fuel max_keys child key id >>= λ split.
              insert_internal max_keys n (add_key index split keys)
                (add_child index split children))
                nodes
        ]
  ]
]

-- the new root of `insert`
abbrev pub with_root : Split → BPlusTree → BPlusTree
with_root none tree = tree
with_root (some (separator, right)) tree = record tree {
  root = length tree.nodes;
  nodes = tree.nodes ++ internal_node (separator ∷ []) (tree.root ∷ right ∷ []) ∷ [];
}

-- the end of `insert`
abbrev pub inserted : BPlusTree → Result Split × List Node → Result (Unit {0}) × BPlusTree
inserted tree (err kind, nodes) = (err kind, record tree { nodes = nodes })
inserted tree (ok split, nodes) =
    (ok tt, record (with_root split (record tree { nodes = nodes })) { dirty = true })

-- `insert`
unfoldable pub insert : IndexKey → Bytes → Method BPlusTree (Unit {0})
unfolding insert_node
insert key id tree =
    inserted tree (insert_node (length tree.nodes) tree.max_keys tree.root key id tree.nodes)
