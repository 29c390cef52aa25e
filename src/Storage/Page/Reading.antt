-- ===== src/Storage/Page/Reading.antt =====
-- The decoder's loop reads the slots that the entries describe.
use novabase.Common.{
  ℕ, suc, ◌+◌, ◌-◌, ◌<◌, ◌≤◌, ◌≡◌, refl, ap, ◌∙◌, false, Option, none, some, List, [], ◌∷◌, ◌++◌,
  All, any, length, arith,
}
use mathlib.Core.List.{append_assoc, append-nil}
use novabase.Common.Result.{ok}
use novabase.Storage.Bytes.{Bytes, slice, to_be_bytes, from_be_bytes}
use novabase.Storage.Bytes.Laws.{be_word_2}
use novabase.Storage.Page.{page_size}
use novabase.Storage.Page.Codec.{
  decode_slots, directory_offset, deleted_offset, read_word, Range, overlaps, lowest, total,
}
use novabase.Storage.Page.Layout.{Entry, Describes}

-- Every range begins at `top` or above.
abbrev Above : ℕ → List Range → Type 0
Above top = All (λ r. top ≤ r.0)

Above-mono : (top low : ℕ) (ranges : List Range) → low ≤ top → Above top ranges → Above low ranges
Above-mono top low [] h a = tt
Above-mono top low (r ∷ ranges) h (b, a) = (omega arith, Above-mono top low ranges h a)

Above-push :
    (low : ℕ) (ranges : List Range) (r : Range)
    → low ≤ r.0
    → Above low ranges
    → Above low (ranges ++ r ∷ [])
Above-push low [] r h a = (h, tt)
Above-push low (x ∷ ranges) r h (b, a) = (b, Above-push low ranges r h a)

overlaps-Above :
    (top start : ℕ) (ranges : List Range)
    → Above top ranges
    → any (overlaps start top) ranges ≡ false
overlaps-Above top start [] a = refl
overlaps-Above top start ((s, e) ∷ ranges) (b, a) =
    ground (arith, overlaps-Above top start ranges a)

lowest-push :
    (start end : ℕ) (ranges : List Range)
    → start ≤ page_size
    → Above start ranges
    → lowest (ranges ++ (start, end) ∷ []) ≡ start
unfolding lowest
lowest-push start end [] h a = refl
lowest-push start end ((s, e) ∷ []) h (b, a) = omega arith
lowest-push start end ((s, e) ∷ r ∷ ranges) h (b, a) =
    omega (arith, lowest-push start end (r ∷ ranges) h a)

pub total-push :
    (start end : ℕ) (ranges : List Range)
    → total (ranges ++ (start, end) ∷ []) ≡ total ranges + (end - start)
unfolding total
total-push start end [] = omega arith
total-push start end ((s, e) ∷ ranges) = omega (arith, total-push start end ranges)

pub Describes-le :
    (index : ℕ) (slots : List (Option Bytes)) (top bottom : ℕ) (bytes : Bytes)
    → Describes index slots top bottom bytes
    → bottom ≤ top
Describes-le index [] top bottom bytes d = omega arith
Describes-le index (none ∷ slots) top bottom bytes (e, d) =
    Describes-le (suc index) slots top bottom bytes d
Describes-le index (some r ∷ slots) top bottom bytes (e, fits, at, d) =
    omega (arith, Describes-le (suc index) slots (top - length r) bottom bytes d)

word :
    (at v : ℕ) (bytes : Bytes)
    → v < 65536
    → slice at (at + 2) bytes ≡ to_be_bytes 2 v
    → read_word 2 at bytes ≡ v
word at v bytes h e = ap from_be_bytes e ∙ be_word_2 v h

decode_deleted :
    (left index bottom : ℕ) (bytes : Bytes) (ranges : List Range) (done : List (Option Bytes))
    → Entry index deleted_offset 0 bytes
    → decode_slots (suc left) index bottom bytes ranges done
      ≡ decode_slots left (suc index) bottom bytes ranges (done ++ none ∷ [])
unfolding decode_slots
decode_deleted left index bottom bytes ranges done (a, b) =
    ground (arith, word _ deleted_offset bytes (omega arith) a, word _ 0 bytes (omega arith) b)

decode_live :
    (left index bottom top : ℕ) (r bytes : Bytes) (ranges : List Range) (done : List (Option Bytes))
    → Entry index (top - length r) (length r) bytes
    → length r ≤ top
    → top ≤ page_size
    → bottom ≤ top - length r
    → slice (top - length r) top bytes ≡ r
    → Above top ranges
    → decode_slots (suc left) index bottom bytes ranges done
      ≡ decode_slots left
          (suc index)
          bottom
          bytes
          (ranges ++ (top - length r, top) ∷ [])
          (done ++ some r ∷ [])
unfolding decode_slots
decode_live left index bottom top r bytes ranges done (a, b) fits high low e above =
    let start : read_word 2 (directory_offset index) bytes ≡ top - length r =
      word _ (top - length r) bytes (omega arith) a in
    let size : read_word 2 (directory_offset index + 2) bytes ≡ length r =
      word _ (length r) bytes (omega arith) b in
    let end : read_word 2 (directory_offset index) bytes
          + read_word 2 (directory_offset index + 2) bytes
        ≡ top =
      omega arith in
    ground (arith, start, size, end, e, overlaps-Above top (top - length r) ranges above)

-- The decoder's loop accepts what the entries describe and returns it, with ranges that fill the
-- bytes from the lowest record to the end of the page.
pub decode_slots-Describes :
    (slots : List (Option Bytes)) (index top bottom : ℕ) (bytes : Bytes) (ranges : List Range)
    (done : List (Option Bytes))
    → Describes index slots top bottom bytes
    → top ≤ page_size
    → Above top ranges
    → lowest ranges ≡ top
    → total ranges ≡ page_size - top
    → (ranges' : List Range) × (decode_slots (length slots) index bottom bytes ranges done
        ≡ ok (ranges', done ++ slots))
      × (lowest ranges' ≡ bottom)
      × (total ranges' ≡ page_size - bottom)
decode_slots-Describes [] index top bottom bytes ranges done d high above lo to =
    (ranges, unfold decode_slots in cc (append-nil done), omega arith, omega arith)
decode_slots-Describes (none ∷ slots) index top bottom bytes ranges done (entry, d) high above lo
      to =
    let (ranges', e, lo', to') =
      decode_slots-Describes slots (suc index) top bottom bytes ranges (done ++ none ∷ []) d high
        above lo to in
    (
      ranges',
      decode_deleted (length slots) index bottom bytes ranges done entry
          ∙ e
          ∙ ap (λ s. ok (ranges', s)) (append_assoc done (none ∷ []) slots),
      lo',
      to',
    )
decode_slots-Describes (some r ∷ slots) index top bottom bytes ranges done (entry, fits, at, d) high
      above lo to =
    let down : Above (top - length r) ranges =
      Above-mono top (top - length r) ranges (omega arith) above in
    let (ranges', e, lo', to') =
      decode_slots-Describes slots (suc index) (top - length r) bottom bytes
        (ranges ++ (top - length r, top) ∷ []) (done ++ some r ∷ []) d (omega arith)
        (Above-push (top - length r) ranges (top - length r, top) (omega arith) down)
        (lowest-push (top - length r) top ranges (omega arith) down)
        (omega (arith, total-push (top - length r) top ranges)) in
    (
      ranges',
      decode_live (length slots) index bottom top r bytes ranges done entry fits high
            (Describes-le (suc index) slots (top - length r) bottom bytes d) at above
          ∙ e
          ∙ ap (λ s. ok (ranges', s)) (append_assoc done (some r ∷ []) slots),
      lo',
      to',
    )
