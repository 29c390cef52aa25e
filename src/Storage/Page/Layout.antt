-- ===== src/Storage/Page/Layout.antt =====
-- What the bytes of a page say about its slots, and that the encoder writes it.
use novabase.Common.{
  ℕ, suc, ◌+◌, ◌-◌, ◌<◌, ◌≤◌, ◌≡◌, refl, ap, ◌∙◌, ◌⊎◌, inl, inr, Option, none, some, List, [], ◌∷◌,
  length, arith,
}
use mathlib.Core.Path.{subst}
use novabase.Common.Result.{ok}
use novabase.Storage.Bytes.{Bytes, slice, write_at, to_be_bytes}
use novabase.Storage.Bytes.Laws.{length-write_at, slice-write_at_self, slice-write_at_ne}
use novabase.Storage.Page.{payload_size, page_size}
use novabase.Storage.Page.Codec.{encode_slots, directory_offset, deleted_offset}

-- The two fields of the directory entry at `index`.
abbrev pub Entry : ℕ → ℕ → ℕ → Bytes → Type 0
Entry index offset size bytes =
    (slice (directory_offset index) (directory_offset index + 2) bytes ≡ to_be_bytes 2 offset)
    × (slice (directory_offset index + 2) (directory_offset index + 2 + 2) bytes
        ≡ to_be_bytes 2 size)

-- The entries from `index` on describe the slots, whose records lie one below the other from `top`
-- down to `bottom`.
abbrev pub Describes : ℕ → List (Option Bytes) → ℕ → ℕ → Bytes → Type 0
Describes index [] top bottom bytes = top ≡ bottom
Describes index (none ∷ slots) top bottom bytes =
    Entry index deleted_offset 0 bytes × Describes (suc index) slots top bottom bytes
Describes index (some r ∷ slots) top bottom bytes =
    Entry index (top - length r) (length r) bytes
    × (length r ≤ top)
    × (slice (top - length r) top bytes ≡ r)
    × Describes (suc index) slots (top - length r) bottom bytes

-- Nothing before `from` and nothing from `to` on differs.
abbrev pub Keeps : ℕ → ℕ → Bytes → Bytes → Type 0
Keeps low high bytes bytes' =
    (from to : ℕ) → (to ≤ low) ⊎ (high ≤ from) → slice from to bytes' ≡ slice from to bytes

-- The lengths of the entries from `index` on up to `count` are zero as yet.
abbrev pub Blank : ℕ → ℕ → Bytes → Type 0
Blank index count bytes =
    (i : ℕ)
    → index ≤ i
    → i < count
    → slice (directory_offset i + 2) (directory_offset i + 2 + 2) bytes ≡ to_be_bytes 2 0

-- What a loop has done when it went from `bytes` to `bytes'`.
abbrev pub Written : ℕ → List (Option Bytes) → ℕ → ℕ → Bytes → Bytes → Type 0
Written index slots top bottom bytes bytes' =
    (length bytes' ≡ page_size)
    × Describes index slots top bottom bytes'
    × Keeps (directory_offset index) top bytes bytes'

module _ (index count : ℕ) (bytes : Bytes) (len : length bytes ≡ page_size)
    (room : directory_offset (suc index) ≤ page_size) (blank : Blank index count bytes)
    (inside : index < count) where
  -- a deleted slot's entry
  marked : Bytes
  marked = write_at (directory_offset index) (to_be_bytes 2 deleted_offset) bytes

  marked_ne :
      (from to : ℕ)
      → (to ≤ directory_offset index) ⊎ (directory_offset index + 2 ≤ from)
      → slice from to marked ≡ slice from to bytes
  unfolding marked to_be_bytes
  marked_ne =
      slice-write_at_ne (directory_offset index) (to_be_bytes 2 deleted_offset) bytes
        (omega (arith, len))

  marked-length : length marked ≡ page_size
  unfolding marked to_be_bytes
  marked-length =
      length-write_at (directory_offset index) (to_be_bytes 2 deleted_offset) bytes
        (omega (arith, len))
      ∙ len

  marked-Entry : Entry index deleted_offset 0 marked
  unfolding marked
  marked-Entry = (
    unfold to_be_bytes in
        slice-write_at_self (directory_offset index) (to_be_bytes 2 deleted_offset) bytes
          (omega (arith, len)) _ refl,
    (unfold marked in marked_ne _ _ (inr (omega arith))) ∙ blank index (omega arith) inside,
  )

  marked-Blank : Blank (suc index) count marked
  marked-Blank i h k = marked_ne _ _ (inr (omega arith)) ∙ blank i (omega arith) k

  marked_lem :
      (slots : List (Option Bytes)) (top bottom : ℕ) (bytes' : Bytes)
      → directory_offset (suc index) ≤ top
      → Written (suc index) slots top bottom marked bytes'
      → Written index (none ∷ slots) top bottom bytes bytes'
  marked_lem slots top bottom bytes' below (l, d, keeps) = (
    l,
    (
      (
        keeps _ _ (inl (omega arith)) ∙ marked-Entry.0,
        keeps _ _ (inl (omega arith)) ∙ marked-Entry.1,
      ),
      d,
    ),
    λ from to out. elim out [
      | inl h ↦ keeps from to (inl (omega arith)) ∙ marked_ne from to (inl h)
      | inr h ↦ keeps from to (inr h) ∙ marked_ne from to (inr (omega arith))
    ],
  )

module _ (index top : ℕ) (r bytes : Bytes) (len : length bytes ≡ page_size) (high : top ≤ page_size)
    (fits : directory_offset (suc index) + length r ≤ top) where
  -- a record and its entry
  placed : Bytes
  placed = write_at (top - length r) r bytes

  opened : Bytes
  opened = write_at (directory_offset index) (to_be_bytes 2 (top - length r)) placed

  stored : Bytes
  stored = write_at (directory_offset index + 2) (to_be_bytes 2 (length r)) opened

  placed-length : length placed ≡ page_size
  unfolding placed
  placed-length = length-write_at (top - length r) r bytes (omega (arith, len)) ∙ len

  opened-length : length opened ≡ page_size
  unfolding opened to_be_bytes
  opened-length =
      length-write_at _ (to_be_bytes 2 (top - length r)) placed (omega (arith, placed-length))
      ∙ placed-length

  stored-length : length stored ≡ page_size
  unfolding stored to_be_bytes
  stored-length =
      length-write_at _ (to_be_bytes 2 (length r)) opened (omega (arith, opened-length))
      ∙ opened-length

  stored_ne :
      (from to : ℕ)
      → (to ≤ directory_offset index + 2) ⊎ (directory_offset index + 4 ≤ from)
      → slice from to stored ≡ slice from to opened
  unfolding stored to_be_bytes
  stored_ne from to h =
      slice-write_at_ne _ (to_be_bytes 2 (length r)) opened (omega (arith, opened-length)) from to
        (omega arith)

  opened_ne :
      (from to : ℕ)
      → (to ≤ directory_offset index) ⊎ (directory_offset index + 2 ≤ from)
      → slice from to opened ≡ slice from to placed
  unfolding opened to_be_bytes
  opened_ne from to h =
      slice-write_at_ne _ (to_be_bytes 2 (top - length r)) placed (omega (arith, placed-length))
        from to (omega arith)

  stored-Keeps :
      (from to : ℕ)
      → (to ≤ directory_offset index)
        ⊎ (top ≤ from)
        ⊎ ((directory_offset (suc index) ≤ from) × (to ≤ top - length r))
      → slice from to stored ≡ slice from to bytes
  stored-Keeps from to out =
      stored_ne from to (omega arith)
      ∙ opened_ne from to (omega arith)
      ∙ (unfold placed in
          slice-write_at_ne (top - length r) r bytes (omega (arith, len)) from to (omega arith))

  stored-Entry : Entry index (top - length r) (length r) stored
  stored-Entry = (
    stored_ne _ _ (inl (omega arith))
        ∙ (unfold opened to_be_bytes in
            slice-write_at_self _ (to_be_bytes 2 (top - length r)) placed
              (omega (arith, placed-length)) _ refl),
    (unfold stored to_be_bytes in
        slice-write_at_self _ (to_be_bytes 2 (length r)) opened (omega (arith, opened-length)) _
          refl),
  )

  stored-record : slice (top - length r) top stored ≡ r
  stored-record =
      stored_ne _ _ (inr (omega arith))
      ∙ opened_ne _ _ (inr (omega arith))
      ∙ (unfold placed in
          slice-write_at_self (top - length r) r bytes (omega (arith, len)) top (omega arith))

  stored-Blank :
      (count : ℕ)
      → directory_offset count + length r ≤ top
      → Blank index count bytes
      → Blank (suc index) count stored
  stored-Blank count low blank i h k =
      stored-Keeps _ _ (inr (inr (omega arith))) ∙ blank i (omega arith) k

  stored_lem :
      (slots : List (Option Bytes)) (bottom : ℕ) (bytes' : Bytes)
      → Written (suc index) slots (top - length r) bottom stored bytes'
      → Written index (some r ∷ slots) top bottom bytes bytes'
  stored_lem slots bottom bytes' (l, d, keeps) = (
    l,
    (
      (
        keeps _ _ (inl (omega arith)) ∙ stored-Entry.0,
        keeps _ _ (inl (omega arith)) ∙ stored-Entry.1,
      ),
      omega arith,
      keeps _ _ (inr (omega arith)) ∙ stored-record,
      d,
    ),
    λ from to out. elim out [
      | inl h ↦ keeps from to (inl (omega arith)) ∙ stored-Keeps from to (inl h)
      | inr h ↦ keeps from to (inr (omega arith)) ∙ stored-Keeps from to (inr (inl h))
    ],
  )

encode_deleted :
    (count index top : ℕ) (slots : List (Option Bytes)) (bytes : Bytes)
    (len : length bytes ≡ page_size) (room : directory_offset (suc index) ≤ page_size)
    (blank : Blank index count bytes) (inside : index < count)
    → encode_slots (directory_offset count) index (none ∷ slots) top bytes
      ≡ encode_slots
          (directory_offset count)
          (suc index)
          slots
          top
          (marked index count bytes len room blank inside)
unfolding encode_slots marked
encode_deleted count index top slots bytes len room blank inside = refl

encode_live :
    (count index top : ℕ) (r : Bytes) (slots : List (Option Bytes)) (bytes : Bytes)
    (len : length bytes ≡ page_size) (high : top ≤ page_size)
    (room : directory_offset (suc index) + length r ≤ top)
    → directory_offset count + length r ≤ top
    → encode_slots (directory_offset count) index (some r ∷ slots) top bytes
      ≡ encode_slots
          (directory_offset count)
          (suc index)
          slots
          (top - length r)
          (stored index top r bytes len high room)
unfolding encode_slots stored opened placed
encode_live count index top r slots bytes len high room low = ground arith

-- The encoder's loop, on room for the directory and the records, ends and writes what the entries
-- must say.
pub encode_slots-Written :
    (count index : ℕ) (slots : List (Option Bytes)) (top : ℕ) (bytes : Bytes)
    → count ≡ index + length slots
    → length bytes ≡ page_size
    → top ≤ page_size
    → directory_offset count + payload_size slots ≤ top
    → Blank index count bytes
    → (bytes' : Bytes) × (encode_slots (directory_offset count) index slots top bytes
        ≡ ok (top - payload_size slots, bytes'))
      × Written index slots top (top - payload_size slots) bytes bytes'
unfolding encode_slots payload_size
encode_slots-Written count index [] top bytes n len high fits blank =
    (bytes, ground arith, (len, omega arith, λ from to out. refl))
encode_slots-Written count index (none ∷ slots) top bytes n len high fits blank =
    let room : directory_offset (suc index) ≤ page_size = omega arith in
    let inside : index < count = omega arith in
    let (bytes', e, w) =
      encode_slots-Written count (suc index) slots top
        (marked index count bytes len room blank inside) (omega arith)
        (marked-length index count bytes len room blank inside) high fits
        (marked-Blank index count bytes len room blank inside) in
    (
      bytes',
      encode_deleted count index top slots bytes len room blank inside ∙ e,
      marked_lem index count bytes len room blank inside slots top (top - payload_size slots) bytes'
          (omega arith) w,
    )
encode_slots-Written count index (some r ∷ slots) top bytes n len high fits blank =
    let room : directory_offset (suc index) + length r ≤ top = omega arith in
    let (bytes', e, w) =
      encode_slots-Written count (suc index) slots (top - length r)
        (stored index top r bytes len high room) (omega arith)
        (stored-length index top r bytes len high room) (omega arith) (omega arith)
        (stored-Blank index top r bytes len high room count (omega arith) blank) in
    let bottom : top - length r - payload_size slots ≡ top - (length r + payload_size slots) =
      omega arith in
    (
      bytes',
      encode_live count index top r slots bytes len high room (omega arith)
          ∙ e
          ∙ ap (λ b. ok (b, bytes')) bottom,
      stored_lem index top r bytes len high room slots _ bytes' (
          subst
            (λ b.
              Written (suc index) slots (top - length r) b (stored index top r bytes len high room)
                bytes')
            bottom w),
    )
