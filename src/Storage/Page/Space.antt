-- ===== src/Storage/Page/Space.antt =====
-- The space that a page accounts for, and when an insertion succeeds.
use novabase.Common.{
  ℕ, zero, suc, ◌+◌, ◌*◌, ◌≤◌, ◌<◌, if◌then◌else◌, ◌≡◌, refl, ◌≢◌, ◌⊎◌, true, false, Option, none,
  some, List, [], ◌∷◌, ◌++◌, arith, length, get_elem?, Option-cases, inl, inr, set, length-append,
  length-set, any,
}
use novabase.Common.Result.{ok, err, storage}
use novabase.Storage.Bytes.{Bytes}
use novabase.Storage.Page.{
  Page, get, insert, remove, position_free, free_space, join, payload_size, page_size,
  page_header_size, slot_size, is_none, new, take_slot, slot_id,
}
use novabase.Storage.Page.Laws.{position_free_free}

-- The bytes that the header, the slot directory and the records take together.
unfoldable pub used : Page → ℕ
used p = page_header_size + length p.slots * slot_size + payload_size p.slots

-- What a page must satisfy for its bytes to fit the page size.
abbrev pub Fits : Page → Type 0
Fits p = used p ≤ page_size

payload_size-set-some :
    (slots : List (Option Bytes)) (i : ℕ) (r : Bytes)
    → get_elem? slots i ≡ some none
    → payload_size (set slots i (some r)) ≡ payload_size slots + length r
unfolding payload_size
payload_size-set-some [] i r h = cc
payload_size-set-some (none ∷ xs) zero r h = omega arith
payload_size-set-some (some x ∷ xs) zero r h = cc
payload_size-set-some (none ∷ xs) (suc i) r h = payload_size-set-some xs i r h
payload_size-set-some (some x ∷ xs) (suc i) r h = omega (arith, payload_size-set-some xs i r h)

payload_size-set-none :
    (slots : List (Option Bytes)) (i : ℕ) (r : Bytes)
    → join (get_elem? slots i) ≡ some r
    → payload_size (set slots i none) + length r ≡ payload_size slots
unfolding payload_size
payload_size-set-none [] i r h = cc
payload_size-set-none (none ∷ xs) zero r h = cc
payload_size-set-none (some x ∷ xs) zero r h = ground arith
payload_size-set-none (none ∷ xs) (suc i) r h = payload_size-set-none xs i r h
payload_size-set-none (some x ∷ xs) (suc i) r h = omega (arith, payload_size-set-none xs i r h)

pub payload_size-push :
    (slots : List (Option Bytes)) (r : Bytes)
    → payload_size (slots ++ some r ∷ []) ≡ payload_size slots + length r
unfolding payload_size
payload_size-push [] r = omega arith
payload_size-push (none ∷ xs) r = payload_size-push xs r
payload_size-push (some x ∷ xs) r = omega (arith, payload_size-push xs r)

any-position_free :
    (slots : List (Option Bytes))
    → ((any is_none slots ≡ true) × (position_free slots ≢ none))
      ⊎ ((any is_none slots ≡ false) × (position_free slots ≡ none))
unfolding position_free
any-position_free [] = inr (refl, refl)
any-position_free (none ∷ xs) = inl (refl, λ e. cc)
any-position_free (some x ∷ xs) = elim (any-position_free xs) [
  | inl (a, b) ↦ inl (a, λ e. b (ground arith))
  | inr (a, b) ↦ inr (a, rw b)
]

-- The space that an insertion takes.
abbrev pub cost : Bytes → Page → ℕ
cost bytes p = length bytes + (if any is_none p.slots then 0 else slot_size)

le_or_lt : (a b : ℕ) → (a ≤ b) ⊎ (b < a)
le_or_lt a b = grind arith

insert_reuses :
    (bytes : Bytes) (p : Page) (i : ℕ)
    → Fits p
    → any is_none p.slots ≡ true
    → position_free p.slots ≡ some i
    → length bytes ≤ free_space p
    → (s : ℕ) × (q : Page) × (insert bytes p ≡ (ok s, q)) × (used q ≡ used p + cost bytes p)
unfolding insert used free_space slot_id
insert_reuses bytes p i fits free e room =
    let (at, bound) = position_free_free p.slots e in
    (
      i,
      record p { slots = set p.slots i (some bytes) },
      ground (arith, e),
      ground (arith, length-set p.slots i (some bytes), payload_size-set-some p.slots i bytes at),
    )

insert_pushes :
    (bytes : Bytes) (p : Page)
    → Fits p
    → any is_none p.slots ≡ false
    → position_free p.slots ≡ none
    → length bytes ≤ free_space p
    → (s : ℕ) × (q : Page) × (insert bytes p ≡ (ok s, q)) × (used q ≡ used p + cost bytes p)
unfolding insert used free_space slot_id
insert_pushes bytes p fits full e room = (
  length p.slots,
  record p { slots = p.slots ++ some bytes ∷ [] },
  ground (arith, e),
  ground (arith, length-append p.slots (some bytes ∷ []), payload_size-push p.slots bytes),
)

insert_succeeds :
    (bytes : Bytes) (p : Page)
    → Fits p
    → length bytes ≤ free_space p
    → (s : ℕ) × (q : Page) × (insert bytes p ≡ (ok s, q)) × (used q ≡ used p + cost bytes p)
insert_succeeds bytes p fits room = elim (any-position_free p.slots) [
  | inl (free, known) ↦ elim (Option-cases (position_free p.slots)) [
    | inl e ↦ absurd (known e)
    | inr (i, e) ↦ insert_reuses bytes p i fits free e room
  ]
  | inr (full, e) ↦ insert_pushes bytes p fits full e room
]

cost_fits :
    (bytes : Bytes) (p : Page)
    → Fits p
    → length bytes ≤ free_space p
    → 0 < length bytes
    → used p + cost bytes p ≤ page_size
unfolding used free_space
cost_fits bytes p fits room pos = ground arith

-- On a page that fits, an insertion fails exactly when the record is longer than the free space,
-- and then changes nothing; otherwise it succeeds and takes the record's length, and a directory
-- entry if no slot was free, and the page still fits if the record is not empty.
pub insert_fits :
    (bytes : Bytes) (p : Page)
    → Fits p
    → ((free_space p < length bytes) × (insert bytes p ≡ (err storage, p)))
      ⊎ ((s : ℕ) × (q : Page) × (length bytes ≤ free_space p)
          × (insert bytes p ≡ (ok s, q))
          × (used q ≡ used p + cost bytes p)
          × (0 < length bytes → Fits q))
insert_fits bytes p fits = elim (le_or_lt (length bytes) (free_space p)) [
  | inl room ↦
      let (s, q, e, u) = insert_succeeds bytes p fits room in
      inr (s, q, room, e, u, λ pos. omega (arith, u, cost_fits bytes p fits room pos))
  | inr long ↦ inl (long, unfold insert in ground arith)
]

-- A page with no free slot and fewer than four bytes left takes an empty record all the same, and
-- then no longer fits.
pub insert_overfills :
    (p : Page)
    → Fits p
    → any is_none p.slots ≡ false
    → page_size < used p + slot_size
    → (s : ℕ) × (q : Page) × (insert [] p ≡ (ok s, q)) × ¬ Fits q
insert_overfills p fits full tight =
    let (s, q, e, u) = insert_succeeds [] p fits (omega arith) in
    (s, q, e, λ h. ground (arith, u, full))

-- A removal from a page that fits leaves a page that fits, with the record's bytes free again.
pub remove-Fits :
    (s : ℕ) (p : Page) (r : Bytes) (q : Page)
    → Fits p
    → remove s p ≡ (ok r, q)
    → Fits q × (used q + length r ≡ used p)
unfolding remove used get
remove-Fits s p r q fits h = elim (Option-cases (get s p)) [
  | inl e ↦ cc (rw (e, take_slot) at h)
  | inr (x, e) ↦
      let gone = rw (e, take_slot) at h in
      ground (arith, gone, length-set p.slots s none, payload_size-set-none p.slots s x e)
]

-- An empty page has 4060 bytes for its first record.
Fits-new : (id : ℕ) → Fits (new id)
unfolding used new payload_size
Fits-new id = omega arith
