-- ===== src/Storage/Page/Laws.antt =====
-- What the operations of a page do to the records that its slots hold.
use novabase.Common.{
  ℕ, zero, suc, ◌<◌, ◌==◌, if◌then◌else◌, ◌≡◌, refl, Option, none, some, List, [], ◌∷◌, ◌++◌, arith,
  length, get_elem?, Option-cases, inl, inr, set, length-set, ◌⊎◌,
}
use novabase.Common.Result.{ok, err, not_found}
use novabase.Storage.Bytes.{Bytes}
use novabase.Storage.Page.{Page, get, insert, remove, position_free, slot_id, take_slot, join}

pub position_free_free :
    (slots : List (Option Bytes)) {i : ℕ}
    → position_free slots ≡ some i
    → (get_elem? slots i ≡ some none) × (i < length slots)
unfolding position_free
position_free_free [] h = cc
position_free_free (none ∷ slots) {i} h = ground arith
position_free_free (some r ∷ slots) {i} h = elim (Option-cases (position_free slots)) [
  | inl e ↦ cc (rw e at h)
  | inr (j, e) ↦ ground (arith, position_free_free slots e)
]

get_elem?-set :
    (slots : List (Option Bytes)) (i t : ℕ) (v : Option Bytes)
    → i < length slots
    → get_elem? (set slots i v) t ≡ (if i == t then some v else get_elem? slots t)
get_elem?-set [] i t v h = absurd (omega arith)
get_elem?-set (x ∷ xs) zero zero v h = refl
get_elem?-set (x ∷ xs) zero (suc t) v h = ground arith
get_elem?-set (x ∷ xs) (suc i) zero v h = ground arith
get_elem?-set (x ∷ xs) (suc i) (suc t) v h = ground (arith, get_elem?-set xs i t v)

get_elem?-push :
    (slots : List (Option Bytes)) (t : ℕ) (v : Option Bytes)
    → get_elem? (slots ++ v ∷ []) t ≡ (if length slots == t then some v else get_elem? slots t)
get_elem?-push [] zero v = refl
get_elem?-push [] (suc t) v = ground arith
get_elem?-push (x ∷ xs) zero v = ground arith
get_elem?-push (x ∷ xs) (suc t) v = ground (arith, get_elem?-push xs t v)

get_elem?-length : (slots : List (Option Bytes)) → get_elem? slots (length slots) ≡ none
get_elem?-length [] = refl
get_elem?-length (x ∷ xs) = get_elem?-length xs

-- A successful insertion names a slot that held no record; afterwards that slot holds the record,
-- every other slot reads as before, and the page keeps its identifier.
pub get-insert :
    (bytes : Bytes) (p : Page) (s : ℕ) (q : Page)
    → insert bytes p ≡ (ok s, q)
    → (get s p ≡ none)
      × ((t : ℕ) → get t q ≡ (if s == t then some bytes else get t p))
      × (q.id ≡ p.id)
unfolding insert get slot_id
get-insert bytes p s q h = elim (Option-cases (position_free p.slots)) [
  | inl e ↦ (
    ground (arith, e, get_elem?-length p.slots),
    (λ t. ground (arith, e, get_elem?-push p.slots t (some bytes))),
    ground (arith, e),
  )
  | inr (i, e) ↦
      let free = position_free_free p.slots e in
      (
        ground (arith, e, free),
        (λ t. ground (arith, e, free, get_elem?-set p.slots i t (some bytes) free.1)),
        ground (arith, e),
      )
]

pub get-bound :
    (slots : List (Option Bytes)) (s : ℕ) {r : Bytes}
    → join (get_elem? slots s) ≡ some r
    → s < length slots
get-bound [] s h = cc
get-bound (x ∷ xs) zero h = omega arith
get-bound (x ∷ xs) (suc s) h = omega (arith, get-bound xs s h)

-- A removal of a live record returns it and empties its slot alone; a removal of anything else is
-- a not-found error that changes nothing.
pub get-remove :
    (s : ℕ) (p : Page)
    → ((get s p ≡ none) × (remove s p ≡ (err not_found, p)))
      ⊎ ((r : Bytes) × (q : Page) × (get s p ≡ some r)
          × (remove s p ≡ (ok r, q))
          × ((t : ℕ) → get t q ≡ (if s == t then none else get t p))
          × (q.id ≡ p.id)
          × (length q.slots ≡ length p.slots))
unfolding remove get
get-remove s p = elim (Option-cases (get s p)) [
  | inl e ↦ inl (e, rw (e, take_slot))
  | inr (r, e) ↦ inr (
    r,
    record p { slots = set p.slots s none },
    e,
    rw (e, take_slot),
    (λ t. ground (arith, get_elem?-set p.slots s t none (get-bound p.slots s e))),
    refl,
    length-set p.slots s none,
  )
]
