-- ===== src/Index/Tree/Ids.antt =====
-- crates/nova-index/src/lib.rs: the identifiers of a key.
use novabase.Common.{
  ◌≡◌, ◌⊎◌, ◌↔◌, inl, inr, refl, ◌∙◌, false, Bool-cases, some, [], ◌∷◌, ◌++◌, arith,
}
use novabase.Storage.Bytes.{Bytes}
use novabase.Core.Value.{bytes_lt}
use novabase.Index.Key.{IndexKey, key_lt}
use novabase.Index.Tree.{Entries, Ids, find_entry, insert_id, or_empty}
use novabase.Index.Tree.Shape.{
  Shape, Others, leaf_at, branch_at, no_others, other, entries_of, entries_of_others, Bound, upper,
  AscendingIds, IdsInOrder, Fits, FitOthers,
}

-- The identifier is one of them.
abbrev pub HasId : Bytes → Ids → Type 0
HasId x [] = ⊥
HasId x (id ∷ ids) = (x ≡ id) ⊎ HasId x ids

bytes_lt_neither : (a b : Bytes) → bytes_lt a b ≡ false → bytes_lt b a ≡ false → a ≡ b
bytes_lt_neither [] [] h k = refl
bytes_lt_neither [] (c ∷ cs) h k = ground (arith, h)
bytes_lt_neither (b ∷ bs) [] h k = ground (arith, k)
bytes_lt_neither (b ∷ bs) (c ∷ cs) h k = ground (arith, h, k, bytes_lt_neither bs cs)

added : (x id : Bytes) (ids : Ids) → HasId x (insert_id id ids) → (x ≡ id) ⊎ HasId x ids
unfolding insert_id
added x id [] h = h
added x id (first ∷ ids) h = elim (Bool-cases (bytes_lt first id)) [
  | inl below ↦ elim (rw below at h) [
    | inl here ↦ inr (inl here)
    | inr there ↦ elim (added x id ids there) [ inl new ↦ inl new | inr old ↦ inr (inr old) ]
  ]
  | inr not_below ↦ elim (Bool-cases (bytes_lt id first)) [
    | inl above ↦ rw (not_below, above) at h
    | inr not_above ↦ inr (rw (not_below, not_above) at h)
  ]
]

kept : (x id : Bytes) (ids : Ids) → (x ≡ id) ⊎ HasId x ids → HasId x (insert_id id ids)
unfolding insert_id
kept x id [] h = h
kept x id (first ∷ ids) h = elim (Bool-cases (bytes_lt first id)) [
  | inl below ↦ rw below (elim h [
    | inl new ↦ inr (kept x id ids (inl new))
    | inr old ↦ elim old [ inl here ↦ inl here | inr there ↦ inr (kept x id ids (inr there)) ]
  ])
  | inr not_below ↦ elim (Bool-cases (bytes_lt id first)) [
    | inl above ↦ rw (not_below, above) h
    | inr not_above ↦
        rw (not_below, not_above)
          (elim h [
            | inl new ↦ inl (new ∙ bytes_lt_neither id first not_above not_below)
            | inr old ↦ old
          ])
  ]
]

-- The identifier that is inserted is there, with those from before, and no other is.
pub HasId-insert_id :
    (x id : Bytes) (ids : Ids) → HasId x (insert_id id ids) ↔ ((x ≡ id) ⊎ HasId x ids)
HasId-insert_id x id ids = (added x id ids, kept x id ids)

IdsInOrder-append : (es more : Entries) → IdsInOrder es → IdsInOrder more → IdsInOrder (es ++ more)
IdsInOrder-append [] more h k = k
IdsInOrder-append (e ∷ es) more (h, hs) k = (h, IdsInOrder-append es more hs k)

abbrev HaveOrder : Shape → Type 0
HaveOrder t = (low high : Bound) → Fits low high t → IdsInOrder (entries_of t)

abbrev AllHaveOrder : Others → Type 0
AllHaveOrder rest = (high : Bound) → FitOthers high rest → IdsInOrder (entries_of_others rest)

-- The identifiers of each key of a tree
pub entries_of-IdsInOrder : (t : Shape) → HaveOrder t
unfolding Fits entries_of
entries_of-IdsInOrder t = elim t as HaveOrder AllHaveOrder [
  | leaf_at i entries next ↦ λ low high f. f.2
  | branch_at i (t → ih) (rest → ihs) ↦ λ low high f.
      IdsInOrder-append (entries_of t) (entries_of_others rest) (ih low (upper high rest) f.1)
        (ihs high f.2)
  | no_others ↦ λ high f. tt
  | other k (t → ih) (rest → ihs) ↦ λ high f.
      IdsInOrder-append (entries_of t) (entries_of_others rest) (ih (some k) (upper high rest) f.1)
        (ihs high f.2)
]

-- Those that are found for a key
pub find_entry-AscendingIds :
    (key : IndexKey) (es : Entries) → IdsInOrder es → AscendingIds (or_empty (find_entry key es))
unfolding find_entry
find_entry-AscendingIds key [] h = tt
find_entry-AscendingIds key ((k, ids) ∷ es) (h, hs) = elim (Bool-cases (key_lt k key)) [
  | inl below ↦ rw below (find_entry-AscendingIds key es hs)
  | inr not_below ↦ elim (Bool-cases (key_lt key k)) [
    | inl above ↦ rw (not_below, above) tt
    | inr not_above ↦ rw (not_below, not_above) h.1
  ]
]
