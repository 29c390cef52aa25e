-- ===== src/Index/Tree/Formed.antt =====
-- crates/nova-index/src/lib.rs: the capacity of nodes and the chain of leaves, as `verify_node` and
-- `verify_leaf_chain` demand them.
use novabase.Common.{
  ℕ, zero, suc, ◌+◌, ◌-◌, ◌/◌, ◌<◌, ◌≤◌, ◌≡◌, ◌⊎◌, inl, inr, refl, sym, ap, ◌∙◌, false, Option,
  none, some, List, [], ◌∷◌, length, leb, arith,
}
use mathlib.Core.Path.{subst}
use novabase.Storage.Bytes.{Bytes}
use novabase.Index.Key.{IndexKey}
use novabase.Index.Tree.{Entries, BPlusTree, Split, insert_entry, add_key, insert_at}
use novabase.Index.Tree.Shape.{
  Shape, Others, leaf_at, branch_at, no_others, other, at, keys_of, Stored, Fits,
}
use novabase.Index.Tree.Places.{Uses, Distinct}
use novabase.Index.Tree.Append.{append}

-- The leftmost leaf
abbrev pub first_leaf : Shape → ℕ
first_leaf (leaf_at i entries next) = i
first_leaf (branch_at i t rest) = first_leaf t

-- The leaf after what stands before the others
abbrev pub next_leaf : Option ℕ → Others → Option ℕ
next_leaf after no_others = after
next_leaf after (other k t rest) = some (first_leaf t)

-- The number of keys of an internal node: at most its capacity, and not 0 unless the capacity is 1
abbrev pub KeyCount : ℕ → ℕ → Type 0
KeyCount max_keys n = (n ≤ max_keys) × ((0 < n) ⊎ (max_keys ≡ 1))

-- No node has more keys than its capacity, internal nodes have keys, and each leaf names the next leaf
-- in order, the last one the leaf that stands after the tree.
unfoldable mutual
  unfolding keys_of

  pub Formed : ℕ → Option ℕ → Shape → Type 0
  Formed max_keys after (leaf_at i entries next) = (next ≡ after) × (length entries ≤ max_keys)
  Formed max_keys after (branch_at i t rest) =
      KeyCount max_keys (length (keys_of rest))
      × Formed max_keys (next_leaf after rest) t
      × FormedOthers max_keys after rest

  pub FormedOthers : ℕ → Option ℕ → Others → Type 0
  FormedOthers max_keys after no_others = Unit {0}
  FormedOthers max_keys after (other k t rest) =
      Formed max_keys (next_leaf after rest) t × FormedOthers max_keys after rest

-- A first child with the others, whose leaves start at a place
abbrev pub Shaped : ℕ → Option ℕ → ℕ → Shape → Others → Type 0
Shaped max_keys after start t rest =
    (first_leaf t ≡ start)
    × Formed max_keys (next_leaf after rest) t
    × FormedOthers max_keys after rest

-- The tree's shape, whose leaves are `depth` steps away from the root, as `verify` demands it: the nodes
-- make up one tree and each is used once, all leaves are equally deep, keys and identifiers are in
-- order, no node exceeds its capacity, and each leaf names the next. `validate_max_keys` wants an odd capacity
-- of at least 3, of which this demands that nodes have room for a key.
abbrev pub IsTree : BPlusTree → Shape → ℕ → Type 0
IsTree tree t depth =
    (at t ≡ tree.root)
    × Stored tree.nodes depth t
    × Fits none none t
    × Distinct t
    × (depth < length tree.nodes)
    × (0 < tree.max_keys)
    × Formed tree.max_keys none t
    × ((j : ℕ) → j < length tree.nodes → Uses t j)

next_leaf-append :
    (after : Option ℕ) (rest more : Others)
    → next_leaf after (append rest more) ≡ next_leaf (next_leaf after more) rest
next_leaf-append after no_others more = refl
next_leaf-append after (other k t rest) more = refl

module _ (max_keys : ℕ) (after : Option ℕ) where
  FormedOthers-append :
      (rest more : Others)
      → FormedOthers max_keys (next_leaf after more) rest
      → FormedOthers max_keys after more
      → FormedOthers max_keys after (append rest more)
  unfolding Formed
  FormedOthers-append no_others more f g = g
  FormedOthers-append (other k t rest) more (f, fs) g =
      rw (next_leaf-append after rest more) (f, FormedOthers-append rest more fs g)

  FormedOthers-parts :
      (rest more : Others)
      → FormedOthers max_keys after (append rest more)
      → FormedOthers max_keys (next_leaf after more) rest × FormedOthers max_keys after more
  unfolding Formed
  FormedOthers-parts no_others more f = (tt, f)
  FormedOthers-parts (other k t rest) more (f, fs) =
      let (left, right) = FormedOthers-parts rest more fs in
      ((rw (next_leaf-append after rest more) at f, left), right)

  -- The first child may have been split.
  pub Shaped-first :
      (start : ℕ) (t : Shape) (right rest : Others)
      → Shaped max_keys (next_leaf after rest) start t right
      → FormedOthers max_keys after rest
      → Shaped max_keys after start t (append right rest)
  Shaped-first start t right rest (head, f, fs) g =
      (head, rw (next_leaf-append after right rest) f, FormedOthers-append right rest fs g)

  -- A later child starts where it started.
  pub Shaped-later :
      (b : IndexKey) (first u t : Shape) (rest new : Others)
      → Formed max_keys (some (first_leaf u)) first
      → Shaped max_keys after (first_leaf u) t new
      → Shaped max_keys after (first_leaf first) first (other b t new)
  unfolding Formed
  Shaped-later b first u t rest new f (head, g, gs) =
      (refl, subst (λ i. Formed max_keys (some i) first) (sym head) f, (g, gs))

  -- An internal node that has room
  pub Shaped-node :
      (start i : ℕ) (t : Shape) (rest : Others)
      → KeyCount max_keys (length (keys_of rest))
      → Shaped max_keys after start t rest
      → Shaped max_keys after start (branch_at i t rest) no_others
  unfolding Formed
  Shaped-node start i t rest count (head, f, fs) = (head, (count, f, fs), tt)

  -- An internal node in two parts
  pub Shaped-parts :
      (start i j : ℕ) (t u : Shape) (left right : Others) (k : IndexKey)
      → KeyCount max_keys (length (keys_of left))
      → KeyCount max_keys (length (keys_of right))
      → Shaped max_keys after start t (append left (other k u right))
      → Shaped max_keys after start (branch_at i t left) (other k (branch_at j u right) no_others)
  unfolding Formed
  Shaped-parts start i j t u left right k few few' (head, f, fs) =
      let (gs, h) = FormedOthers-parts left (other k u right) fs in
      (
        head,
        (few, rw (next_leaf-append after left (other k u right)) at f, gs),
        ((few', h.0, h.1), tt),
      )

length-insert_at {ℓ} :
    {A : Type ℓ} (n : ℕ) (x : A) (xs : List A) → length (insert_at n x xs) ≡ length xs + 1
length-insert_at zero x xs = omega arith
length-insert_at (suc n) x [] = refl
length-insert_at (suc n) x (y ∷ xs) = omega (arith, length-insert_at n x xs)

-- One more key
pub KeyCount-add_key :
    (max_keys index : ℕ) (split : Split) (before after : List IndexKey)
    → after ≡ add_key index split before
    → KeyCount max_keys (length before)
    → (length after ≤ max_keys + 1) × ((0 < length after) ⊎ (max_keys ≡ 1))
KeyCount-add_key max_keys index none before after e (few, some_key) =
    rw e (omega (arith, few), some_key)
KeyCount-add_key max_keys index (some (k, right)) before after e (few, some_key) =
    let size = ap length e ∙ length-insert_at index k before in
    (omega (arith, few, size), inl (omega (arith, size)))

-- Both parts of a node that has one key too many
pub KeyCount-parts :
    (max_keys l r : ℕ)
    → 0 < max_keys
    → leb (l + (1 + r)) max_keys ≡ false
    → l + (1 + r) ≤ max_keys + 1
    → l ≡ (l + (1 + r)) / 2
    → KeyCount max_keys l × KeyCount max_keys r
KeyCount-parts max_keys l r positive many most half =
    let left : (l ≤ max_keys) × (0 < l) = ground (arith, positive, many, most, half) in
    ((left.0, inl left.1), (ground (arith, most, half, left), right r most many half left))
  where
    right :
        (r : ℕ)
        → l + (1 + r) ≤ max_keys + 1
        → leb (l + (1 + r)) max_keys ≡ false
        → l ≡ (l + (1 + r)) / 2
        → (l ≤ max_keys) × (0 < l)
        → (0 < r) ⊎ (max_keys ≡ 1)
    right zero most many half left = inr (ground (arith, positive, most, many, half, left))
    right (suc r) most many half left = inl (omega arith)

-- The halves of a leaf that has one entry too many
pub halves_few :
    (max_keys n l r : ℕ)
    → 0 < max_keys
    → leb n max_keys ≡ false
    → n ≤ max_keys + 1
    → l ≡ n / 2
    → r ≡ n - n / 2
    → (l ≤ max_keys) × (r ≤ max_keys)
halves_few max_keys n l r positive many most left right =
    ground (arith, positive, many, most, left, right)

-- One more entry at most
pub length-insert_entry :
    (key : IndexKey) (id : Bytes) (es : Entries) → length (insert_entry key id es) ≤ length es + 1
unfolding insert_entry
length-insert_entry key id [] = omega arith
length-insert_entry key id ((k, ids) ∷ es) = ground (arith, length-insert_entry key id es)
