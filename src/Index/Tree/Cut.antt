-- ===== src/Index/Tree/Cut.antt =====
-- crates/nova-index/src/lib.rs: the keys and children of an internal node that is split.
use novabase.Common.{
  ℕ, zero, suc, ◌+◌, ◌/◌, ◌≡◌, refl, sym, ap, ◌∙◌, false, none, some, List, [], ◌∷◌, ◌++◌, length,
  get_elem?, set, take, drop, leb, take-append, drop-append, arith,
}
use novabase.Common.Result.{ok}
use novabase.Index.Key.{IndexKey}
use novabase.Index.Tree.{Node, internal_node, insert_internal}
use novabase.Index.Tree.Shape.{
  Shape, Others, other, at, keys_of, children_of, Bound, Gap, upper, FitOthers,
}
use novabase.Index.Tree.Search.{Under-upper}
use novabase.Index.Tree.Append.{append, keys_of-append, children_of-append, length-children_of}

pub Gap-upper :
    (low high : Bound) (rest : Others)
    → FitOthers high rest
    → Gap low (upper high rest)
    → Gap low high
Gap-upper none high rest f h = tt
Gap-upper (some a) high rest f h = Under-upper high rest a f h

module _ {ℓ} {A : Type ℓ} where
  take_at : (xs ys : List A) (n : ℕ) → length xs ≡ n → take n (xs ++ ys) ≡ xs
  take_at xs ys n e = ap (λ m. take m (xs ++ ys)) (sym e) ∙ take-append xs ys

  drop-suc : (xs ys : List A) (y : A) → drop (suc (length xs)) (xs ++ y ∷ ys) ≡ ys
  drop-suc [] ys y = refl
  drop-suc (x ∷ xs) ys y = drop-suc xs ys y

  drop_after : (xs ys : List A) (y : A) (n : ℕ) → length xs ≡ n → drop (n + 1) (xs ++ y ∷ ys) ≡ ys
  drop_after xs ys y n e =
      ap (λ m. drop m (xs ++ y ∷ ys)) {x = n + 1} {y = suc (length xs)} (omega (arith, e))
      ∙ drop-suc xs ys y

  get_at : (xs ys : List A) (y : A) (n : ℕ) → length xs ≡ n → get_elem? (xs ++ y ∷ ys) n ≡ some y
  get_at [] ys y n e = rw (sym e) refl
  get_at (x ∷ xs) ys y zero e = absurd (omega (arith, e))
  get_at (x ∷ xs) ys y (suc n) e = get_at xs ys y n (omega (arith, e))

module _ {ℓ} {A : Type ℓ} where
  drop_at : (xs ys : List A) (n : ℕ) → length xs ≡ n → drop n (xs ++ ys) ≡ ys
  drop_at xs ys n e = ap (λ m. drop m (xs ++ ys)) (sym e) ∙ drop-append xs ys

-- What `insert_internal` leaves when the keys are too many
insert_internal_lists :
    (max_keys n : ℕ) (xs ys : List IndexKey) (k : IndexKey) (cs ds : List ℕ) (c d : ℕ)
    (nodes : List Node)
    → leb (length (xs ++ k ∷ ys)) max_keys ≡ false
    → length xs ≡ length (xs ++ k ∷ ys) / 2
    → length cs ≡ length xs
    → insert_internal max_keys n (xs ++ k ∷ ys) (c ∷ (cs ++ d ∷ ds)) nodes ≡ (
      ok (some (k, length nodes)),
      set nodes n (internal_node xs (c ∷ cs)) ++ internal_node ys (d ∷ ds) ∷ [],
    )
unfolding insert_internal
insert_internal_lists max_keys n xs ys k cs ds c d nodes many half as_many =
    let m = length (xs ++ k ∷ ys) / 2 in
    rw
      (
        many,
        get_at xs ys k m half,
        take_at xs (k ∷ ys) m half,
        take_at (c ∷ cs) (d ∷ ds) (m + 1) (omega (arith, half, as_many)),
        drop_after xs ys k m half,
        drop_at (c ∷ cs) (d ∷ ds) (m + 1) (omega (arith, half, as_many)),
      )
      refl

pub insert_internal-cut :
    (max_keys n : ℕ) (first : Shape) (left right : Others) (k : IndexKey) (u : Shape)
    (nodes : List Node)
    → leb (length (keys_of left ++ k ∷ keys_of right)) max_keys ≡ false
    → length (keys_of left) ≡ length (keys_of left ++ k ∷ keys_of right) / 2
    → insert_internal max_keys n
        (keys_of (append left (other k u right)))
        (at first ∷ children_of (append left (other k u right)))
        nodes
      ≡ (
        ok (some (k, length nodes)),
        set nodes n (internal_node (keys_of left) (at first ∷ children_of left))
            ++ internal_node (keys_of right) (at u ∷ children_of right) ∷ [],
      )
unfolding keys_of children_of
insert_internal-cut max_keys n first left right k u nodes many half =
    ap
      (λ keys.
        insert_internal max_keys n keys (at first ∷ children_of (append left (other k u right)))
          nodes)
      keys
    ∙ ap
        (λ children.
          insert_internal max_keys n (keys_of left ++ k ∷ keys_of right) (at first ∷ children)
            nodes)
        children
    ∙ insert_internal_lists max_keys n (keys_of left) (keys_of right) k (children_of left)
        (children_of right) (at first) (at u) nodes many half (length-children_of left)
  where
    keys : keys_of (append left (other k u right)) ≡ keys_of left ++ k ∷ keys_of right
    keys = keys_of-append (other k u right) left

    children :
        children_of (append left (other k u right)) ≡ children_of left ++ at u ∷ children_of right
    children = children_of-append (other k u right) left
