-- ===== src/Index/Tree/Lookup.antt =====
-- crates/nova-index/src/lib.rs: searching in entries that are put together.
use novabase.Common.{true, false, none, some, [], ◌∷◌, ◌++◌, ◌≡◌, refl, ap, All, arith}
use novabase.Storage.Bytes.{Bytes}
use novabase.Index.Key.{IndexKey, key_lt}
use novabase.Index.Key.Order.{key_lt-asym, key_lt_split}
use novabase.Index.Tree.{Entries, find_entry, insert_entry}
use novabase.Index.Tree.Shape.{Bound, Under, Gap, Within}

pub key_lt_trans : (a b c : IndexKey) → key_lt a b ≡ true → key_lt b c ≡ true → key_lt a c ≡ true
key_lt_trans a b c h k = key_lt_split a c b h (key_lt-asym b c k)

-- What is not below a bound that is above a key is above the key.
pub key_lt_bound : (a b c : IndexKey) → key_lt a b ≡ true → key_lt c b ≡ false → key_lt a c ≡ true
key_lt_bound a b c h k = key_lt_split a c b h k

-- Every key is below, or above.
abbrev pub AllBelow : IndexKey → Entries → Type 0
AllBelow key = All (λ entry. key_lt entry.0 key ≡ true)

abbrev pub AllAbove : IndexKey → Entries → Type 0
AllAbove key = All (λ entry. key_lt key entry.0 ≡ true)

pub find_entry-AllAbove :
    (key : IndexKey) (entries : Entries) → AllAbove key entries → find_entry key entries ≡ none
unfolding find_entry
find_entry-AllAbove key [] h = refl
find_entry-AllAbove key ((k, ids) ∷ entries) (h, hs) = rw (key_lt-asym key k h, h) refl

pub find_entry-append_right :
    (key : IndexKey) (left right : Entries)
    → AllBelow key left
    → find_entry key (left ++ right) ≡ find_entry key right
unfolding find_entry
find_entry-append_right key [] right h = refl
find_entry-append_right key ((k, ids) ∷ left) right (h, hs) =
    rw h (find_entry-append_right key left right hs)

pub find_entry-append_left :
    (key : IndexKey) (left right : Entries)
    → AllAbove key right
    → find_entry key (left ++ right) ≡ find_entry key left
unfolding find_entry
find_entry-append_left key [] right h = find_entry-AllAbove key right h
find_entry-append_left key ((k, ids) ∷ left) right h =
    rw (find_entry-append_left key left right h) refl

pub insert_entry-append_right :
    (key : IndexKey) (id : Bytes) (left right : Entries)
    → AllBelow key left
    → insert_entry key id (left ++ right) ≡ left ++ insert_entry key id right
unfolding insert_entry
insert_entry-append_right key id [] right h = refl
insert_entry-append_right key id ((k, ids) ∷ left) right (h, hs) =
    rw h (ap (◌∷◌ (k, ids)) (insert_entry-append_right key id left right hs))

insert_entry-AllAbove :
    (key : IndexKey) (id : Bytes) (entries : Entries)
    → AllAbove key entries
    → insert_entry key id entries ≡ (key, id ∷ []) ∷ entries
unfolding insert_entry
insert_entry-AllAbove key id [] h = refl
insert_entry-AllAbove key id ((k, ids) ∷ entries) (h, hs) = rw (key_lt-asym key k h, h) refl

pub insert_entry-append_left :
    (key : IndexKey) (id : Bytes) (left right : Entries)
    → AllAbove key right
    → insert_entry key id (left ++ right) ≡ insert_entry key id left ++ right
unfolding insert_entry
insert_entry-append_left key id [] right h = insert_entry-AllAbove key id right h
insert_entry-append_left key id ((k, ids) ∷ left) right h =
    ground (arith, insert_entry-append_left key id left right h)

-- Bounds and what is between them
pub Within-append :
    (low high : Bound) (left right : Entries)
    → Within low high left
    → Within low high right
    → Within low high (left ++ right)
Within-append low high [] right h k = k
Within-append low high (entry ∷ left) right (h, hs) k = (h, Within-append low high left right hs k)

pub Within-AllBelow :
    (low : Bound) (b key : IndexKey) (entries : Entries)
    → Within low (some b) entries
    → key_lt key b ≡ false
    → AllBelow key entries
Within-AllBelow low b key [] h k = tt
Within-AllBelow low b key (entry ∷ entries) ((h, h'), hs) k =
    (key_lt_bound entry.0 b key h' k, Within-AllBelow low b key entries hs k)

pub Within-AllAbove :
    (b : IndexKey) (high : Bound) (key : IndexKey) (entries : Entries)
    → Within (some b) high entries
    → key_lt key b ≡ true
    → AllAbove key entries
Within-AllAbove b high key [] h k = tt
Within-AllAbove b high key (entry ∷ entries) ((h, h'), hs) k =
    (key_lt_bound key b entry.0 k h, Within-AllAbove b high key entries hs k)

pub Under-trans : (high : Bound) (a b : IndexKey) → key_lt a b ≡ true → Under high b → Under high a
Under-trans none a b h k = tt
Under-trans (some c) a b h k = key_lt_trans a b c h k

pub Within-lower :
    (low high : Bound) (b : IndexKey) (entries : Entries)
    → Gap low (some b)
    → Within (some b) high entries
    → Within low high entries
Within-lower low high b [] g h = tt
Within-lower none high b (entry ∷ entries) g ((h, h'), hs) =
    ((tt, h'), Within-lower none high b entries g hs)
Within-lower (some a) high b (entry ∷ entries) g ((h, h'), hs) = (
  (key_lt-asym a entry.0 (key_lt_bound a b entry.0 g h), h'),
  Within-lower (some a) high b entries g hs,
)

pub Within-higher :
    (low high : Bound) (b : IndexKey) (entries : Entries)
    → Under high b
    → Within low (some b) entries
    → Within low high entries
Within-higher low high b [] g h = tt
Within-higher low high b (entry ∷ entries) g ((h, h'), hs) =
    ((h, Under-trans high entry.0 b h' g), Within-higher low high b entries g hs)
