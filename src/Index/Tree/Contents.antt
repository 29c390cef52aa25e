-- ===== src/Index/Tree/Contents.antt =====
-- crates/nova-index/src/lib.rs: what `get` returns after insertions.
use novabase.Common.{
  ℕ, ◌<◌, ◌≡◌, ◌⊎◌, ◌↔◌, inl, inr, refl, sym, ap, ◌∙◌, true, false, Bool-cases, Option, none, some,
  List, [], ◌∷◌, arith,
}
use mathlib.Core.Path.{subst}
use novabase.Common.Result.{ok, Method, ◌>>=◌, return}
use novabase.Storage.Bytes.{Bytes}
use novabase.Index.Key.{IndexKey, key_lt}
use novabase.Index.Key.Order.{key_lt-asym, key_lt_split}
use novabase.Index.Tree
use novabase.Index.Tree.{
  Entries, Ids, Node, leaf, BPlusTree, get, find_entry, insert_entry, insert_id, or_empty,
}
use novabase.Index.Tree.Shape.{Shape, leaf_at, AscendingIds, entries_of, Stored, Fits}
use novabase.Index.Tree.Lookup.{key_lt_trans}
use novabase.Index.Tree.Formed.{IsTree, Formed}
use novabase.Index.Tree.Places.{Uses, Distinct}
use novabase.Index.Tree.Leaves.{key_lt_irrefl, insert_id-AscendingIds}
use novabase.Index.Tree.Ids.{HasId, HasId-insert_id, entries_of-IdsInOrder, find_entry-AscendingIds}
use novabase.Index.Tree.Search.{get-find_entry}
use novabase.Index.Tree.Insert.{insert-IsTree}

find_entry-insert_entry_same :
    (key : IndexKey) (id : Bytes) (es : Entries)
    → find_entry key (insert_entry key id es) ≡ some (insert_id id (or_empty (find_entry key es)))
unfolding find_entry insert_entry insert_id
find_entry-insert_entry_same key id [] = rw (key_lt_irrefl key) refl
find_entry-insert_entry_same key id ((k, ids) ∷ es) = elim (Bool-cases (key_lt k key)) [
  | inl below ↦ rw (below, below) (find_entry-insert_entry_same key id es)
  | inr not_below ↦ elim (Bool-cases (key_lt key k)) [
    | inl above ↦ rw (not_below, above, key_lt_irrefl key) refl
    | inr not_above ↦ rw (not_below, not_above, not_below, not_above) refl
  ]
]

-- Where one key is below another, each third key is above the one or below the other.
key_lt_either : (a b c : IndexKey) → key_lt a c ≡ true → key_lt a b ≡ false → key_lt b c ≡ true
key_lt_either a b c h k = elim (Bool-cases (key_lt b c)) [
  | inl less ↦ less
  | inr not_less ↦ absurd (ground (arith, k, key_lt_split a b c h not_less))
]

find_entry-insert_entry_other :
    (key other : IndexKey) (id : Bytes) (es : Entries)
    → (key_lt key other ≡ true) ⊎ (key_lt other key ≡ true)
    → find_entry other (insert_entry key id es) ≡ find_entry other es
unfolding find_entry insert_entry
find_entry-insert_entry_other key other id [] (inl less) = rw less refl
find_entry-insert_entry_other key other id [] (inr more) =
    rw (key_lt-asym other key more, more) refl
find_entry-insert_entry_other key other id ((k, ids) ∷ es) apart =
    elim (Bool-cases (key_lt k key)) [
      | inl below ↦ rw (below, find_entry-insert_entry_other key other id es apart) refl
      | inr not_below ↦ elim (Bool-cases (key_lt key k)) [
        | inl above ↦ elim apart [
          | inl less ↦ rw (not_below, above, less) refl
          | inr more ↦
              rw
                (
                  not_below,
                  above,
                  key_lt-asym other key more,
                  more,
                  key_lt-asym other k (key_lt_trans other key k more above),
                  key_lt_trans other key k more above,
                )
                refl
        ]
        | inr not_above ↦ elim apart [
          | inl less ↦ rw (not_below, not_above, key_lt_either key k other less not_above) refl
          | inr more ↦
              rw
                (
                  not_below,
                  not_above,
                  key_lt-asym other k (key_lt_split other k key more not_below),
                  key_lt_split other k key more not_below,
                )
                refl
        ]
      ]
    ]

-- The insertions one after another
unfoldable pub insert_all : List (IndexKey × Bytes) → Method BPlusTree (Unit {0})
unfolding Tree.insert
insert_all [] = return tt
insert_all ((key, id) ∷ pairs) = Tree.insert key id >>= λ u. insert_all pairs

unfoldable pub put_all : List (IndexKey × Bytes) → Entries → Entries
unfolding insert_entry
put_all [] es = es
put_all ((key, id) ∷ pairs) es = put_all pairs (insert_entry key id es)

abbrev map_ids : Bytes → Option Ids → Option Ids
map_ids id none = none
map_ids id (some ids) = some (insert_id id ids)

-- An insertion into a well-formed tree adds the identifier to those of its key: they are in strictly
-- ascending order afterwards, so each is there once, and they are the identifier with those from before.
-- It changes what is found under no key above or below it.
pub get-insert_pair :
    (key : IndexKey) (id : Bytes) (tree : BPlusTree) (t : Shape) (depth : ℕ)
    → IsTree tree t depth
    → (after : BPlusTree) (ids : Ids) → Tree.insert key id tree ≡ (ok tt, after)
    → get key tree ≡ some ids
    → (ids' : Ids) × (get key after ≡ some ids')
      × AscendingIds ids'
      × ((x : Bytes) → HasId x ids' ↔ ((x ≡ id) ⊎ HasId x ids))
      × ((other : IndexKey)
          → (key_lt key other ≡ true) ⊎ (key_lt other key ≡ true)
          → get other after ≡ get other tree)
get-insert_pair key id tree t depth good after ids e h =
    let (found, t', depth', run, good', same) = insert-IsTree key id tree t depth good in
    let moved : after ≡ found = ap (λ x. x.1) (sym e ∙ run) in
    let before : or_empty (find_entry key (entries_of t)) ≡ ids =
      ground (arith, sym (get-find_entry key tree t depth good) ∙ h) in
    let ascending : AscendingIds ids =
      subst AscendingIds before
        (find_entry-AscendingIds key (entries_of t) (entries_of-IdsInOrder t none none good.2)) in
    (
      insert_id id ids,
      rw moved (
          get-find_entry key found t' depth' good'
          ∙ ap (λ es. some (or_empty (find_entry key es))) same
          ∙ ap (λ o. some (or_empty o)) (find_entry-insert_entry_same key id (entries_of t))
          ∙ ap (λ o. map_ids id o) (sym (get-find_entry key tree t depth good) ∙ h)),
      insert_id-AscendingIds id ids ascending,
      (λ x. HasId-insert_id x id ids),
      λ other apart. rw moved (
          get-find_entry other found t' depth' good'
          ∙ ap (λ es. some (or_empty (find_entry other es))) same
          ∙ ap (λ o. some (or_empty o))
              (find_entry-insert_entry_other key other id (entries_of t) apart)
          ∙ sym (get-find_entry other tree t depth good)),
    )

insert_all-IsTree :
    (pairs : List (IndexKey × Bytes)) (tree : BPlusTree) (t : Shape) (depth : ℕ)
    → IsTree tree t depth
    → (after : BPlusTree) × (t' : Shape) × (depth' : ℕ) × (insert_all pairs tree ≡ (ok tt, after))
      × IsTree after t' depth'
      × (entries_of t' ≡ put_all pairs (entries_of t))
unfolding insert_all put_all
insert_all-IsTree [] tree t depth good = (tree, t, depth, refl, good, refl)
insert_all-IsTree ((key, id) ∷ pairs) tree t depth good =
    let (next, t', depth', run, good', same) = insert-IsTree key id tree t depth good in
    let (after, t'', depth'', run', good'', same') = insert_all-IsTree pairs next t' depth' good' in
    (after, t'', depth'', rw run run', good'', same' ∙ ap (put_all pairs) same)

-- A new tree
unfoldable pub empty : ℕ → BPlusTree
empty max_keys = record { max_keys = max_keys; root = 0; nodes = leaf [] none ∷ []; dirty = true }

-- From a new tree whose nodes have room for a key, every sequence of insertions succeeds, and `get`
-- then returns for each key what the pairs put into one ordered list have for it.
pub get-insert_all :
    (max_keys : ℕ) (pairs : List (IndexKey × Bytes)) (key : IndexKey)
    → 0 < max_keys
    → (tree : BPlusTree) × (insert_all pairs (empty max_keys) ≡ (ok tt, tree))
      × (get key tree ≡ some (or_empty (find_entry key (put_all pairs []))))
unfolding empty Uses Formed Stored Fits Distinct entries_of
get-insert_all max_keys pairs key positive =
    let good : IsTree (empty max_keys) (leaf_at 0 [] none) 0 = (
      refl,
      (refl, refl),
      (tt, tt, tt),
      tt,
      omega arith,
      positive,
      (refl, omega arith),
      λ j less. omega (arith, less),
    ) in
    let (tree, t, depth, run, good', same) =
      insert_all-IsTree pairs (empty max_keys) (leaf_at 0 [] none) 0 good in
    (
      tree,
      run,
      get-find_entry key tree t depth good' ∙ ap (λ es. some (or_empty (find_entry key es))) same,
    )
