-- ===== src/Index/Tree/Take.antt =====
-- crates/nova-index/src/lib.rs: `insert_node` puts a pair into the entries of a tree.
use novabase.Common.{
  ℕ, zero, suc, ◌+◌, ◌/◌, ◌<◌, ◌≡◌, inl, inr, refl, sym, ap, ◌∙◌, true, false, Bool-cases, Option,
  none, some, List, [], ◌∷◌, ◌++◌, length, length-append, get_elem?, set, leb, arith,
}
use mathlib.Core.List.{append-nil}
use mathlib.Core.Path.{subst}
use novabase.Common.Result.{ok}
use novabase.Storage.Bytes.{Bytes}
use novabase.Index.Key.{IndexKey, key_lt}
use novabase.Index.Tree.{
  Entries, Node, internal_node, Split, insert_node, insert_internal, child_index, add_key,
  add_child,
}
use novabase.Index.Tree.Shape.{
  Shape, Others, leaf_at, branch_at, no_others, other, at, keys_of, children_of, entries_of, Stored,
  Fits,
}
use novabase.Index.Tree.Places.{Uses, Distinct, get_elem?-bound}
use novabase.Index.Tree.Append.{append, cut, keys_of-append}
use novabase.Index.Tree.Formed.{
  Formed, Shaped, first_leaf, KeyCount-add_key, KeyCount-parts, Shaped-node, Shaped-parts,
}
use novabase.Index.Tree.Grown.{Inserts, InsertsAmong}
use novabase.Index.Tree.Branch.{cut_grown}
use novabase.Index.Tree.Room.{fit_grown}
use novabase.Index.Tree.Cut.{insert_internal-cut}
use novabase.Index.Tree.Divide.{leaf_inserts}
use novabase.Index.Tree.Among.{among_first, among_later, unchanged}

half_less : (n max_keys : ℕ) → leb n max_keys ≡ false → 0 < max_keys → n / 2 < n
half_less n max_keys many positive = ground (arith, many, positive)

keys_around :
    (left right : Others) (k : IndexKey) (u : Shape)
    → keys_of (append left (other k u right)) ≡ keys_of left ++ k ∷ keys_of right
unfolding keys_of
keys_around left right k u = keys_of-append (other k u right) left

module _ (max_keys : ℕ) (key : IndexKey) (id : Bytes) (positive : 0 < max_keys) where
  leaf_case : (i : ℕ) (es : Entries) (next : Option ℕ) → Inserts max_keys key id (leaf_at i es next)
  unfolding Stored Uses entries_of
  leaf_case i es next depth zero low high after nodes less s f d gap above below formed =
      absurd (omega (arith, less))
  leaf_case i es next zero (suc fuel) low high after nodes less s f d gap above below formed =
      leaf_inserts max_keys key id positive i fuel low high after nodes es next s.1 f gap above
        below formed
  leaf_case i es next (suc depth) (suc fuel) low high after nodes less s f d gap above below
        formed =
      absurd (omega (arith, s.0))

  branch_run :
      (fuel i child : ℕ) (nodes later : List Node) (keys : List IndexKey) (children : List ℕ)
      (split : Split)
      → get_elem? nodes i ≡ some (internal_node keys children)
      → get_elem? children (child_index keys key) ≡ some child
      → insert_node fuel max_keys child key id nodes ≡ (ok split, later)
      → insert_node (suc fuel) max_keys i key id nodes
        ≡ insert_internal max_keys i
            (add_key (child_index keys key) split keys)
            (add_child (child_index keys key) split children)
            later
  unfolding insert_node
  branch_run fuel i child nodes later keys children split node found run =
      rw (insert_node, node, found, run) refl

  internal_fits :
      (i : ℕ) (keys : List IndexKey) (children : List ℕ) (nodes : List Node)
      → leb (length keys) max_keys ≡ true
      → insert_internal max_keys i keys children nodes
        ≡ (ok none, set nodes i (internal_node keys children) ++ [])
  unfolding insert_internal
  internal_fits i keys children nodes few = rw (few, append-nil) refl

  branch_case :
      (i : ℕ) (t : Shape) (rest : Others)
      → Inserts max_keys key id t
      → InsertsAmong max_keys key id rest
      → Inserts max_keys key id (branch_at i t rest)
  unfolding Stored Fits Distinct entries_of Formed
  branch_case i t rest ih ihs depth zero low high after nodes less s f d gap above below formed =
      absurd (omega (arith, less))
  branch_case i t rest ih ihs depth (suc fuel) low high after nodes less
        (under, deep, node, first, others) (inner_gap, fits, others_fit)
        (off_t, off_rest, apart, distinct, others_distinct) gap above below
        (count, formed, others_formed) =
      let (child, later, t', rest', split, found, run, place, keys, children, shaped, g) =
        ihs t ih under fuel low high after nodes (omega (arith, less, deep))
          (unchanged nodes under low high t rest inner_gap fits others_fit first others distinct
            others_distinct apart)
          above below (refl, formed, others_formed) in
      let ran =
        branch_run fuel i child nodes later (keys_of rest) (at t ∷ children_of rest) split node
          found run in
      let (most, some_key) =
        KeyCount-add_key max_keys (child_index (keys_of rest) key) split (keys_of rest)
          (keys_of rest') keys count in
      let moved =
        ap
          (λ ks.
            insert_internal max_keys i ks
              (add_child (child_index (keys_of rest) key) split (at t ∷ children_of rest)) later)
          (sym keys)
        ∙ ap (λ cs. insert_internal max_keys i (keys_of rest') cs later) (sym children) in
      elim (Bool-cases (leb (length (keys_of rest')) max_keys)) [
        | inl few ↦ (
          set later i (internal_node (keys_of rest') (at t' ∷ children_of rest')) ++ [],
          branch_at i t' rest',
          none,
          ran ∙ moved ∙ internal_fits i (keys_of rest') (at t' ∷ children_of rest') later few,
          refl,
          Shaped-node max_keys after (first_leaf t) i t' rest' (ground (arith, few), some_key)
              shaped,
          fit_grown nodes later under i low high t t' rest rest' _ (get_elem?-bound nodes i node)
              off_t off_rest g depth deep gap,
        )
        | inr many ↦
            let (left, k, u, right, same, size) =
              cut (length (keys_of rest') / 2) rest'
                (half_less (length (keys_of rest')) max_keys many positive) in
            let all : keys_of rest' ≡ keys_of left ++ k ∷ keys_of right =
              ap keys_of same ∙ keys_around left right k u in
            let total : length (keys_of rest')
                ≡ length (keys_of left) + (1 + length (keys_of right)) =
              omega (arith, ap length all, length-append (keys_of left) (k ∷ keys_of right)) in
            let (count_left, count_right) =
              KeyCount-parts max_keys (length (keys_of left)) (length (keys_of right)) positive
                (ap (λ n. leb n max_keys) (sym total) ∙ many) (omega (arith, most, total))
                (size ∙ ap (λ n. n / 2) total) in
            (
              set later i (internal_node (keys_of left) (at t' ∷ children_of left))
                  ++ internal_node (keys_of right) (at u ∷ children_of right) ∷ [],
              branch_at i t' left,
              some (k, branch_at (length later) u right),
              ran
                  ∙ moved
                  ∙ ap (λ r. insert_internal max_keys i (keys_of r) (at t' ∷ children_of r) later)
                      same
                  ∙ insert_internal-cut max_keys i t' left right k u later (rw all at many)
                      (size ∙ ap (λ ks. length ks / 2) all),
              refl,
              Shaped-parts max_keys after (first_leaf t) i (length later) t' u left right k
                  count_left count_right
                  (subst (Shaped max_keys after (first_leaf t) t') same shaped),
              cut_grown nodes later under i low high t t' rest left right k u _
                  (get_elem?-bound nodes i node) off_t off_rest (rw same at g) depth deep,
            )
      ]

  pub insert_node-Inserts : (t : Shape) → Inserts max_keys key id t
  insert_node-Inserts t = elim t as (Inserts max_keys key id) (InsertsAmong max_keys key id) [
    | leaf_at i entries next ↦ leaf_case i entries next
    | branch_at i (t → ih) (rest → ihs) ↦ branch_case i t rest ih ihs
    | no_others ↦ λ first ins depth fuel low high after nodes less g above below shaped.
        among_first max_keys key id no_others first ins depth fuel low high after nodes less g above
          below shaped
    | other b (t → ih) (rest → ihs) ↦
        λ first ins depth fuel low high following nodes less g above below shaped.
          elim (Bool-cases (key_lt key b)) [
            | inl before ↦
                among_first max_keys key id (other b t rest) first ins depth fuel low high following
                  nodes less g above before shaped
            | inr after ↦
                among_later max_keys key id b t rest ih ihs first depth fuel low high following
                  nodes less g after below shaped
          ]
  ]
