-- ===== src/Index/Tree/Leaves.antt =====
-- crates/nova-index/src/lib.rs: the entries of a leaf after an insertion, and its halves.
use novabase.Common.{
  ◌<◌, ◌≡◌, refl, ap, true, false, Bool-cases, inl, inr, none, some, [], ◌∷◌, ◌++◌, length, All,
  arith,
}
use novabase.Storage.Bytes.{Bytes}
use novabase.Core.Value.{bytes_lt, same_bytes}
use novabase.Core.Fields.{same_bytes-eq, bytes_lt-asym}
use novabase.Index.Key.{IndexKey, key_lt}
use novabase.Index.Key.Order.{key_lt-asym, key_lt_split, bytes_lt_split}
use novabase.Index.Tree.{Entries, Ids, find_entry, insert_entry, insert_id, has_id, present}
use novabase.Index.Tree.Shape.{
  Bound, NotBelow, Under, Gap, Within, Ascending, AscendingIds, IdsInOrder,
}
use novabase.Index.Tree.Lookup.{AllBelow, AllAbove, key_lt_trans}

bytes_lt_trans : (a b c : Bytes) → bytes_lt a b ≡ true → bytes_lt b c ≡ true → bytes_lt a c ≡ true
bytes_lt_trans a b c h k = bytes_lt_split a c b h (bytes_lt-asym b c k)

bytes_lt_irrefl :
    (a b : Bytes) → same_bytes a b ≡ true → (bytes_lt a b ≡ false) × (bytes_lt b a ≡ false)
bytes_lt_irrefl a b h = elim (Bool-cases (bytes_lt b b)) [
  | inl less ↦ absurd (ground (arith, less, bytes_lt-asym b b less))
  | inr not_less ↦ rw (same_bytes-eq a b h) (not_less, not_less)
]

abbrev AllIds : Bytes → Ids → Type 0
AllIds id = All (λ later. bytes_lt id later ≡ true)

AllIds-trans : (a b : Bytes) (ids : Ids) → bytes_lt a b ≡ true → AllIds b ids → AllIds a ids
AllIds-trans a b [] h k = tt
AllIds-trans a b (c ∷ ids) h (k, ks) = (bytes_lt_trans a b c h k, AllIds-trans a b ids h ks)

has_id-AllIds : (id : Bytes) (ids : Ids) → AllIds id ids → has_id id ids ≡ false
unfolding has_id
has_id-AllIds id [] h = refl
has_id-AllIds id (other ∷ ids) (h, hs) = elim (Bool-cases (same_bytes other id)) [
  | inl same ↦ absurd (ground (arith, h, bytes_lt_irrefl other id same))
  | inr not_less ↦ rw not_less (has_id-AllIds id ids hs)
]

-- An identifier that is there is put nowhere.
insert_id-has :
    (id : Bytes) (ids : Ids) → AscendingIds ids → has_id id ids ≡ true → insert_id id ids ≡ ids
unfolding insert_id has_id
insert_id-has id [] a h = cc
insert_id-has id (other ∷ ids) (above, a) h = elim (Bool-cases (same_bytes other id)) [
  | inl same ↦
      let (not_less, not_more) = bytes_lt_irrefl other id same in rw (not_less, not_more) refl
  | inr differ ↦ elim (Bool-cases (bytes_lt id other)) [
    | inl less ↦
        absurd
          (ground (arith, h, differ, has_id-AllIds id ids (AllIds-trans id other ids less above)))
    | inr not_less ↦ ground (arith, h, differ, not_less, insert_id-has id ids a)
  ]
]

AllIds-insert_id :
    (a id : Bytes) (ids : Ids) → bytes_lt a id ≡ true → AllIds a ids → AllIds a (insert_id id ids)
unfolding insert_id
AllIds-insert_id a id [] h k = (h, tt)
AllIds-insert_id a id (other ∷ ids) h (k, ks) =
    ground (arith, h, k, ks, AllIds-insert_id a id ids h ks)

pub insert_id-AscendingIds :
    (id : Bytes) (ids : Ids) → AscendingIds ids → AscendingIds (insert_id id ids)
unfolding insert_id
insert_id-AscendingIds id [] a = (tt, tt)
insert_id-AscendingIds id (other ∷ ids) (above, a) = elim (Bool-cases (bytes_lt other id)) [
  | inl below ↦
      rw below (AllIds-insert_id other id ids below above, insert_id-AscendingIds id ids a)
  | inr not_less ↦ elim (Bool-cases (bytes_lt id other)) [
    | inl less ↦ rw (not_less, less) ((less, AllIds-trans id other ids less above), (above, a))
    | inr not_more ↦ rw (not_less, not_more) (above, a)
  ]
]

insert_id-nonempty : (id : Bytes) (ids : Ids) → 0 < length (insert_id id ids)
unfolding insert_id
insert_id-nonempty id [] = omega arith
insert_id-nonempty id (other ∷ ids) = ground arith

module _ (key : IndexKey) (id : Bytes) where
  pub insert_entry-Within :
      (low high : Bound) (entries : Entries)
      → NotBelow low key
      → Under high key
      → Within low high entries
      → Within low high (insert_entry key id entries)
  unfolding insert_entry
  insert_entry-Within low high [] n u w = ((n, u), tt)
  insert_entry-Within low high ((k, ids) ∷ entries) n u (w, ws) = elim (Bool-cases (key_lt k key)) [
    | inl below ↦ rw below (w, insert_entry-Within low high entries n u ws)
    | inr not_less ↦ elim (Bool-cases (key_lt key k)) [
      | inl less ↦ rw (not_less, less) ((n, u), (w, ws))
      | inr not_more ↦ rw (not_less, not_more) (w, ws)
    ]
  ]

  AllAbove-insert_entry :
      (a : IndexKey) (entries : Entries)
      → key_lt a key ≡ true
      → AllAbove a entries
      → AllAbove a (insert_entry key id entries)
  unfolding insert_entry
  AllAbove-insert_entry a [] h k = (h, tt)
  AllAbove-insert_entry a ((b, ids) ∷ entries) h (k, ks) = elim (Bool-cases (key_lt b key)) [
    | inl below ↦ rw below (k, AllAbove-insert_entry a entries h ks)
    | inr not_less ↦ elim (Bool-cases (key_lt key b)) [
      | inl less ↦ rw (not_less, less) (h, (k, ks))
      | inr not_more ↦ rw (not_less, not_more) (k, ks)
    ]
  ]

  AllAbove-trans :
      (a b : IndexKey) (entries : Entries)
      → key_lt a b ≡ true
      → AllAbove b entries
      → AllAbove a entries
  AllAbove-trans a b [] h k = tt
  AllAbove-trans a b (entry ∷ entries) h (k, ks) =
      (key_lt_trans a b entry.0 h k, AllAbove-trans a b entries h ks)

  pub insert_entry-Ascending :
      (entries : Entries) → Ascending entries → Ascending (insert_entry key id entries)
  unfolding insert_entry
  insert_entry-Ascending [] a = (tt, tt)
  insert_entry-Ascending ((k, ids) ∷ entries) (above, a) = elim (Bool-cases (key_lt k key)) [
    | inl below ↦
        rw below (AllAbove-insert_entry k entries below above, insert_entry-Ascending entries a)
    | inr not_less ↦ elim (Bool-cases (key_lt key k)) [
      | inl less ↦ rw (not_less, less) ((less, AllAbove-trans key k entries less above), (above, a))
      | inr not_more ↦ rw (not_less, not_more) (above, a)
    ]
  ]

  pub insert_entry-IdsInOrder :
      (entries : Entries) → IdsInOrder entries → IdsInOrder (insert_entry key id entries)
  unfolding insert_entry
  insert_entry-IdsInOrder [] a = ((omega arith, (tt, tt)), tt)
  insert_entry-IdsInOrder ((k, ids) ∷ entries) (h, hs) = elim (Bool-cases (key_lt k key)) [
    | inl below ↦ rw below (h, insert_entry-IdsInOrder entries hs)
    | inr not_less ↦ elim (Bool-cases (key_lt key k)) [
      | inl less ↦ rw (not_less, less) ((omega arith, (tt, tt)), (h, hs))
      | inr not_more ↦
          rw (not_less, not_more)
            ((insert_id-nonempty id ids, insert_id-AscendingIds id ids h.1), hs)
    ]
  ]

  -- A pair that is there changes nothing.
  pub insert_entry-present :
      (entries : Entries)
      → IdsInOrder entries
      → present key id entries ≡ true
      → insert_entry key id entries ≡ entries
  unfolding insert_entry find_entry has_id
  insert_entry-present [] a h = ground (arith, h)
  insert_entry-present ((k, ids) ∷ entries) ((nonempty, a), later) h =
      elim (Bool-cases (key_lt k key)) [
        | inl below ↦
            rw below (ap (◌∷◌ (k, ids)) (insert_entry-present entries later (rw below at h)))
        | inr not_less ↦ elim (Bool-cases (key_lt key k)) [
          | inl less ↦ absurd (ground (arith, rw (not_less, less) at h))
          | inr not_more ↦
              rw (not_less, not_more)
                (ap (λ x. (k, x) ∷ entries) (insert_id-has id ids a (rw (not_less, not_more) at h)))
        ]
      ]

module _ (P : IndexKey × Ids → Type 0) where
  pub All-parts : (left right : Entries) → All P (left ++ right) → All P left × All P right
  All-parts [] right h = (tt, h)
  All-parts (entry ∷ left) right (h, hs) = let (l, r) = All-parts left right hs in ((h, l), r)

pub Ascending-parts :
    (left right : Entries) → Ascending (left ++ right) → Ascending left × Ascending right
Ascending-parts [] right a = (tt, a)
Ascending-parts (entry ∷ left) right (h, hs) =
    let (l, r) = Ascending-parts left right hs in
    let (hl, hr) = All-parts (λ later. key_lt entry.0 later.0 ≡ true) left right h in ((hl, l), r)

-- The entries before a key are below it.
pub Ascending-AllBelow :
    (left : Entries) (k : IndexKey) (ids : Ids) (right : Entries)
    → Ascending (left ++ (k, ids) ∷ right)
    → AllBelow k left
Ascending-AllBelow [] k ids right a = tt
Ascending-AllBelow (entry ∷ left) k ids right (h, hs) =
    (last left h, Ascending-AllBelow left k ids right hs)
  where
    last :
        (before : Entries) → AllAbove entry.0 (before ++ (k, ids) ∷ right) → key_lt entry.0 k ≡ true
    last [] (above, more) = above
    last (next ∷ before) (above, more) = last before more

pub Within-capped :
    (low high : Bound) (k : IndexKey) (left : Entries)
    → Within low high left
    → AllBelow k left
    → Within low (some k) left
Within-capped low high k [] w b = tt
Within-capped low high k (entry ∷ left) ((n, u), w) (b, bs) =
    ((n, b), Within-capped low high k left w bs)

pub Within-raised :
    (low high : Bound) (k : IndexKey) (right : Entries)
    → Within low high right
    → AllAbove k right
    → Within (some k) high right
Within-raised low high k [] w b = tt
Within-raised low high k (entry ∷ right) ((n, u), w) (b, bs) =
    ((key_lt-asym k entry.0 b, u), Within-raised low high k right w bs)

pub key_lt_irrefl : (k : IndexKey) → key_lt k k ≡ false
key_lt_irrefl k = elim (Bool-cases (key_lt k k)) [
  | inl less ↦ absurd (ground (arith, less, key_lt-asym k k less))
  | inr not_less ↦ not_less
]

-- A key above one that is not below the bound leaves a gap to the bound.
pub Gap-above :
    (low : Bound) (left : Entries) (k : IndexKey)
    → 0 < length left
    → (high : Bound) → Within low high left
    → AllBelow k left
    → Gap low (some k)
Gap-above none left k nonempty high w b = tt
Gap-above (some a) [] k nonempty high w b = absurd (omega (arith, nonempty))
Gap-above (some a) (entry ∷ left) k nonempty high ((n, u), w) (b, bs) =
    elim (Bool-cases (key_lt a k)) [
      | inl less ↦ less
      | inr not_less ↦ absurd (ground (arith, n, key_lt_split entry.0 a k b not_less))
    ]
