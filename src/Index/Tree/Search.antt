-- ===== src/Index/Tree/Search.antt =====
-- crates/nova-index/src/lib.rs: `get` finds what a search of all entries finds.
use novabase.Common.{
  ℕ, zero, suc, ◌<◌, ◌≡◌, refl, sym, ◌∙◌, Bool-cases, inl, inr, Option, none, some, List, [], ◌∷◌,
  ◌++◌, length, get_elem?, arith,
}
use mathlib.Core.List.{append-nil}
use novabase.Index.Key.{IndexKey, key_lt}
use novabase.Index.Tree.{
  Entries, Node, leaf, internal_node, child_index, find_leaf, find_entry, BPlusTree, get, or_empty,
}
use novabase.Index.Tree.Shape.{
  Shape, Others, leaf_at, branch_at, no_others, other, at, keys_of, children_of, entries_of,
  entries_of_others, Stored, StoredOthers, Bound, Under, Gap, Within, upper, Fits, FitOthers,
}
use novabase.Index.Tree.Formed.{IsTree}
use novabase.Index.Tree.Lookup.{
  find_entry-append_left, find_entry-append_right, Within-append, Within-AllBelow, Within-AllAbove,
  Within-lower, Under-trans,
}

pub Under-upper :
    (high : Bound) (rest : Others) (k : IndexKey)
    → FitOthers high rest
    → Under (upper high rest) k
    → Under high k
unfolding Fits
Under-upper high no_others k f h = h
Under-upper high (other b t rest) k (gap, f, fs) h =
    Under-trans high k b h (Under-upper high rest b fs gap)

pub Within-upper :
    (low high : Bound) (rest : Others) (entries : Entries)
    → FitOthers high rest
    → Within low (upper high rest) entries
    → Within low high entries
Within-upper low high rest [] f h = tt
Within-upper low high rest (entry ∷ entries) f ((h, h'), hs) =
    ((h, Under-upper high rest entry.0 f h'), Within-upper low high rest entries f hs)

abbrev IsWithin : Shape → Type 0
IsWithin t = (low high : Bound) → Fits low high t → Within low high (entries_of t)

abbrev AreWithin : Others → Type 0
AreWithin rest =
    (low high : Bound)
    → Gap low (upper high rest)
    → FitOthers high rest
    → Within low high (entries_of_others rest)

pub entries_of-IsWithin : (t : Shape) → IsWithin t
unfolding Fits entries_of
entries_of-IsWithin t = elim t as IsWithin AreWithin [
  | leaf_at i entries next ↦ λ low high f. f.0
  | branch_at i (t → ih) (rest → ihs) ↦ λ low high f.
      let (gap, first, others) = f in
      Within-append low high (entries_of t) (entries_of_others rest)
        (Within-upper low high rest (entries_of t) others (ih low (upper high rest) first))
        (ihs low high gap others)
  | no_others ↦ λ low high gap f. tt
  | other k (t → ih) (rest → ihs) ↦ λ low high gap f.
      let (gap', first, others) = f in
      Within-lower low high k (entries_of t ++ entries_of_others rest) gap (
        Within-append (some k) high (entries_of t) (entries_of_others rest)
          (Within-upper (some k) high rest (entries_of t) others
            (ih (some k) (upper high rest) first))
          (ihs (some k) high gap' others))
]

pub entries_of_others-IsWithin : (rest : Others) → AreWithin rest
unfolding Fits entries_of
entries_of_others-IsWithin no_others low high gap f = tt
entries_of_others-IsWithin (other k t rest) low high gap (gap', first, others) =
    Within-lower low high k (entries_of t ++ entries_of_others rest) gap (
      Within-append (some k) high (entries_of t) (entries_of_others rest)
        (Within-upper (some k) high rest (entries_of t) others
          (entries_of-IsWithin t (some k) (upper high rest) first))
        (entries_of_others-IsWithin rest (some k) high gap' others))

pub others-IsWithin :
    (b : IndexKey) (t : Shape) (rest : Others) (high : Bound)
    → FitOthers high (other b t rest)
    → Within (some b) high (entries_of t ++ entries_of_others rest)
unfolding Fits
others-IsWithin b t rest high (gap, fits, others) =
    Within-append (some b) high (entries_of t) (entries_of_others rest)
      (Within-upper (some b) high rest (entries_of t) others
        (entries_of-IsWithin t (some b) (upper high rest) fits))
      (entries_of_others-IsWithin rest (some b) high gap others)

-- The search from a node finds a leaf, in which the key has what it has in the entries.
abbrev pub FindsAt : ℕ → List Node → IndexKey → ℕ → Entries → Type 0
FindsAt fuel nodes key n entries =
    (l : ℕ) × (found : Entries) × (next : Option ℕ) × (find_leaf fuel nodes key n ≡ some l)
    × (get_elem? nodes l ≡ some (leaf found next))
    × (find_entry key found ≡ find_entry key entries)

module _ (nodes : List Node) (key : IndexKey) where
  finds_leaf :
      (fuel n : ℕ) (entries : Entries) (next : Option ℕ)
      → 0 < fuel
      → get_elem? nodes n ≡ some (leaf entries next)
      → FindsAt fuel nodes key n entries
  unfolding find_leaf
  finds_leaf zero n entries next h e = absurd (omega (arith, h))
  finds_leaf (suc fuel) n entries next h e = (n, entries, next, rw (find_leaf, e) refl, e, refl)

  finds_child :
      (fuel n child : ℕ) (keys : List IndexKey) (children : List ℕ) (entries : Entries)
      → get_elem? nodes n ≡ some (internal_node keys children)
      → get_elem? children (child_index keys key) ≡ some child
      → FindsAt fuel nodes key child entries
      → FindsAt (suc fuel) nodes key n entries
  unfolding find_leaf
  finds_child fuel n child keys children entries e c (l, found, next, reach, here, same) =
      (l, found, next, rw (find_leaf, e, c) reach, here, same)

  finds_same :
      (fuel n : ℕ) (entries others : Entries)
      → find_entry key entries ≡ find_entry key others
      → FindsAt fuel nodes key n entries
      → FindsAt fuel nodes key n others
  finds_same fuel n entries others e (l, found, next, reach, here, same) =
      (l, found, next, reach, here, same ∙ e)

  abbrev Finds : Shape → Type 0
  Finds t =
      (depth fuel : ℕ) (low high : Bound)
      → depth < fuel
      → Stored nodes depth t
      → Fits low high t
      → Under high key
      → FindsAt fuel nodes key (at t) (entries_of t)

  -- The same from the children, the first of which is known to find its entries.
  abbrev FindsAmong : Others → Type 0
  FindsAmong rest =
      (depth fuel first : ℕ) (low high : Bound) (entries : Entries)
      → depth < fuel
      → StoredOthers nodes depth rest
      → FitOthers high rest
      → Under high key
      → Within low (upper high rest) entries
      → (Under (upper high rest) key → FindsAt fuel nodes key first entries)
      → (child : ℕ) × (get_elem? (first ∷ children_of rest) (child_index (keys_of rest) key)
          ≡ some child)
        × FindsAt fuel nodes key child (entries ++ entries_of_others rest)

  branch :
      (i : ℕ) (t : Shape) (rest : Others) → Finds t → FindsAmong rest → Finds (branch_at i t rest)
  unfolding Stored Fits entries_of keys_of children_of
  branch i t rest ih ihs depth zero low high less s f u = absurd (omega (arith, less))
  branch i t rest ih ihs depth (suc fuel) low high less (below, deep, node, first, others)
        (gap, fits, others_fit) u =
      let (child, found, finds) =
        ihs below fuel (at t) low high (entries_of t) (omega (arith, less, deep)) others others_fit
          u (entries_of-IsWithin t low (upper high rest) fits)
          (λ v. ih below fuel low (upper high rest) (omega (arith, less, deep)) first fits v) in
      finds_child fuel i child (keys_of rest) (at t ∷ children_of rest)
        (entries_of t ++ entries_of_others rest) node found finds

  find_leaf-Finds : (t : Shape) → Finds t
  unfolding Stored Fits entries_of find_leaf keys_of children_of child_index
  find_leaf-Finds t = elim t as Finds FindsAmong [
    | leaf_at i entries next ↦
        λ depth fuel low high less s f u. finds_leaf fuel i entries next (omega (arith, less)) s.1
    | branch_at i (t → ih) (rest → ihs) ↦
        λ depth fuel low high less s f u. branch i t rest ih ihs depth fuel low high less s f u
    | no_others ↦ λ depth fuel first low high entries less s f u w k.
        (first, refl, finds_same fuel first entries (entries ++ []) (rw append-nil refl) (k u))
    | other b (t → ih) (rest → ihs) ↦ λ depth fuel first low high entries less s f u w k.
        elim (Bool-cases (key_lt key b)) [
          | inl before ↦ (
            first,
            rw before refl,
            finds_same fuel first entries (entries ++ (entries_of t ++ entries_of_others rest))
                (sym (
                  find_entry-append_left key entries (entries_of t ++ entries_of_others rest) (
                    Within-AllAbove b high key (entries_of t ++ entries_of_others rest)
                      (others-IsWithin b t rest high f) before)))
                (k before),
          )
          | inr after ↦
              let (child, found, finds) =
                ihs depth fuel (at t) (some b) high (entries_of t) less s.1 f.2 u
                  (entries_of-IsWithin t (some b) (upper high rest) f.1)
                  (λ v. ih depth fuel (some b) (upper high rest) less s.0 f.1 v) in
              (
                child,
                rw after found,
                finds_same fuel child (entries_of t ++ entries_of_others rest)
                    (entries ++ (entries_of t ++ entries_of_others rest))
                    (sym (
                      find_entry-append_right key entries (entries_of t ++ entries_of_others rest)
                        (Within-AllBelow low b key entries w after)))
                    finds,
              )
        ]
  ]

-- `get` returns what a search of all entries in order returns, and no identifiers where the key is not
-- there. The tree's nodes make up a tree whose keys are in order and between their separators.
pub get-find_entry :
    (key : IndexKey) (tree : BPlusTree) (t : Shape) (depth : ℕ)
    → IsTree tree t depth
    → get key tree ≡ some (or_empty (find_entry key (entries_of t)))
unfolding get
get-find_entry key tree t depth (root, stored, fits, distinct, enough, positive, formed, cover) =
    let (l, found, next, reach, here, same) =
      find_leaf-Finds tree.nodes key t depth (length tree.nodes) none none enough stored fits tt in
    let reach' = rw root at reach in rw (get, reach', here, same) refl
