-- ===== src/Index/Tree/Shape.antt =====
-- crates/nova-index/src/lib.rs: the trees that the nodes of a `BPlusTree` make up.
use novabase.Common.{
  ℕ, suc, true, false, Option, none, some, List, [], ◌∷◌, ◌++◌, length, ◌<◌, get_elem?, ◌≡◌, All,
}
use novabase.Core.Value.{bytes_lt}
use novabase.Index.Key.{IndexKey, key_lt}
use novabase.Index.Tree.{Entries, Ids, Node, leaf, internal_node}

-- A tree with the places of its nodes: a leaf, or a first child and the others, each after its separator.
mutual
  pub data Shape : Type 0 where
    leaf_at : ℕ → Entries → Option ℕ → Shape
    branch_at : ℕ → Shape → Others → Shape

  pub data Others : Type 0 where
    no_others : Others
    other : IndexKey → Shape → Others → Others

abbrev pub at : Shape → ℕ
at (leaf_at i entries next) = i
at (branch_at i t rest) = i

unfoldable pub keys_of : Others → List IndexKey
keys_of no_others = []
keys_of (other k t rest) = k ∷ keys_of rest

unfoldable pub children_of : Others → List ℕ
children_of no_others = []
children_of (other k t rest) = at t ∷ children_of rest

-- The entries in order.
unfoldable mutual
  pub entries_of : Shape → Entries
  entries_of (leaf_at i entries next) = entries
  entries_of (branch_at i t rest) = entries_of t ++ entries_of_others rest

  pub entries_of_others : Others → Entries
  entries_of_others no_others = []
  entries_of_others (other k t rest) = entries_of t ++ entries_of_others rest

-- The nodes have the tree, whose leaves are all as deep as the number says.
unfoldable mutual
  unfolding keys_of children_of

  pub Stored : List Node → ℕ → Shape → Type 0
  Stored nodes depth (leaf_at i entries next) =
      (depth ≡ 0) × (get_elem? nodes i ≡ some (leaf entries next))
  Stored nodes depth (branch_at i t rest) =
      (below : ℕ) × (depth ≡ suc below)
      × (get_elem? nodes i ≡ some (internal_node (keys_of rest) (at t ∷ children_of rest)))
      × Stored nodes below t
      × StoredOthers nodes below rest

  pub StoredOthers : List Node → ℕ → Others → Type 0
  StoredOthers nodes depth no_others = Unit {0}
  StoredOthers nodes depth (other k t rest) = Stored nodes depth t × StoredOthers nodes depth rest

-- A bound of keys, or none
abbrev pub Bound : Type 0
Bound = Option IndexKey

abbrev pub NotBelow : Bound → IndexKey → Type 0
NotBelow none key = Unit {0}
NotBelow (some low) key = key_lt key low ≡ false

abbrev pub Under : Bound → IndexKey → Type 0
Under none key = Unit {0}
Under (some high) key = key_lt key high ≡ true

abbrev pub Gap : Bound → Bound → Type 0
Gap none high = Unit {0}
Gap (some low) high = Under high low

abbrev pub Within : Bound → Bound → Entries → Type 0
Within low high = All (λ entry. NotBelow low entry.0 × Under high entry.0)

abbrev pub Ascending : Entries → Type 0
Ascending [] = Unit {0}
Ascending (entry ∷ entries) =
    All (λ later. key_lt entry.0 later.0 ≡ true) entries × Ascending entries

-- Identifiers in order
abbrev pub AscendingIds : Ids → Type 0
AscendingIds [] = Unit {0}
AscendingIds (id ∷ ids) = All (λ later. bytes_lt id later ≡ true) ids × AscendingIds ids

-- Each key has identifiers, and they are in order.
abbrev pub IdsInOrder : Entries → Type 0
IdsInOrder = All (λ entry. (0 < length entry.1) × AscendingIds entry.1)

-- The bound of what stands before the others
abbrev pub upper : Bound → Others → Bound
upper high no_others = high
upper high (other k t rest) = some k

-- Keys are in order, and between the separators around them.
unfoldable mutual
  unfolding key_lt

  pub Fits : Bound → Bound → Shape → Type 0
  Fits low high (leaf_at i entries next) =
      Within low high entries × Ascending entries × IdsInOrder entries
  Fits low high (branch_at i t rest) =
      Gap low (upper high rest) × Fits low (upper high rest) t × FitOthers high rest

  pub FitOthers : Bound → Others → Type 0
  FitOthers high no_others = Unit {0}
  FitOthers high (other k t rest) =
      Gap (some k) (upper high rest) × Fits (some k) (upper high rest) t × FitOthers high rest
