-- ===== src/Storage/Page/RoundTrip.antt =====
-- A page that fits is written and read back.
use novabase.Common.{
  ℕ, suc, ◌+◌, ◌-◌, ◌^◌, ◌<◌, ◌≤◌, ◌≡◌, refl, sym, ap, ◌∙◌, false, Option, none, some, List, [],
  ◌∷◌, ◌++◌, length, arith, ltb, ◌==◌, ◌||◌, not, inl, take, drop, replicate, length-replicate,
  drop-replicate, take-replicate, take-append-drop, length-filter-le, length-drop,
}
use mathlib.Core.Path.{subst}
use novabase.Common.Result.{ok}
use novabase.Storage.Bytes.{Bytes, slice, to_be_bytes}
use novabase.Storage.Page.{Page, page_size, payload_size, len, is_some}
use novabase.Storage.Page.Space.{Fits, used}
use novabase.Storage.Page.Codec.{
  as_u16, Range, to_bytes, from_bytes, encode_slots, decode_slots, write_header, seal, check_header,
  check_slots, lowest, total, read_word, directory_offset,
}
use novabase.Storage.Page.Layout.{Describes, Written, encode_slots-Written}
use novabase.Storage.Page.Header.{
  zeros_32, sealed, id_read, sealed-accepted, field_reads, sealed-length, sealed-behind,
}
use novabase.Storage.Page.Reading.{Describes-le, decode_slots-Describes}

Describes-agree :
    (index : ℕ) (slots : List (Option Bytes)) (top bottom : ℕ) (bs cs : Bytes)
    → ((from to : ℕ) → 32 ≤ from → slice from to cs ≡ slice from to bs)
    → 32 ≤ bottom
    → Describes index slots top bottom bs
    → Describes index slots top bottom cs
Describes-agree index [] top bottom bs cs same low d = d
Describes-agree index (none ∷ slots) top bottom bs cs same low ((a, b), d) = (
  (same _ _ (omega arith) ∙ a, same _ _ (omega arith) ∙ b),
  Describes-agree (suc index) slots top bottom bs cs same low d,
)
Describes-agree index (some r ∷ slots) top bottom bs cs same low ((a, b), fits, e, d) = (
  (same _ _ (omega arith) ∙ a, same _ _ (omega arith) ∙ b),
  fits,
  same _ _ (omega (arith, Describes-le (suc index) slots (top - length r) bottom bs d)) ∙ e,
  Describes-agree (suc index) slots (top - length r) bottom bs cs same low d,
)

slice-replicate :
    (n from to size : ℕ)
    → from + size ≤ n
    → to - from ≡ size
    → slice from to (replicate n 0) ≡ replicate size 0
unfolding slice
slice-replicate n from to size room e =
    ap (take (to - from)) (drop-replicate from n 0)
    ∙ ap (λ t. take t (replicate (n - from) 0)) e
    ∙ take-replicate size (n - from) 0 (omega arith)

blank_word : (n at : ℕ) → at + 2 ≤ n → slice at (at + 2) (replicate n 0) ≡ to_be_bytes 2 0
unfolding replicate to_be_bytes
blank_word n at h = slice-replicate n at (at + 2) 2 h (omega arith)

blank_front : slice 0 32 (replicate page_size 0) ≡ zeros_32 []
unfolding replicate
blank_front = slice-replicate page_size 0 32 32 (omega arith) (omega arith)

as_u16-lt : (v : ℕ) → v < 65536 → as_u16 v ≡ ok v
unfolding as_u16
as_u16-lt v h = ground arith

not_above : (v : ℕ) → v ≤ page_size → ltb page_size v ≡ false
not_above v h = ground arith

to_bytes_steps :
    (p : Page) (bottom : ℕ) (bs : Bytes)
    → length p.slots < 65536
    → len p < 65536
    → directory_offset (length p.slots) ≤ page_size
    → bottom < 65536
    → encode_slots (directory_offset (length p.slots)) 0 p.slots page_size (replicate page_size 0)
      ≡ ok (bottom, bs)
    → to_bytes p
      ≡ ok (
          seal (
            write_header p.id
              (length p.slots)
              (len p)
              (directory_offset (length p.slots))
              bottom
              bs))
unfolding to_bytes
to_bytes_steps p bottom bs a b c d e = rw (
  as_u16-lt _ a,
  as_u16-lt _ b,
  not_above _ c,
  e,
  as_u16-lt (directory_offset (length p.slots)) (omega arith),
  as_u16-lt bottom d,
)

in_order :
    (start bottom : ℕ)
    → start ≤ bottom
    → bottom ≤ page_size
    → (not (start == start) || ltb bottom start || ltb page_size bottom) ≡ false
in_order start bottom h k = ground arith

check_slots_accepts :
    (p : Page) (bottom : ℕ) (ranges : List Range)
    → lowest ranges ≡ bottom
    → total ranges ≡ page_size - bottom
    → check_slots (len p) bottom ranges p.slots ≡ ok tt
unfolding check_slots len
check_slots_accepts p bottom ranges lo to = ground arith

from_bytes_steps :
    (p : Page) (bottom : ℕ) (bs : Bytes) (ranges : List Range)
    → check_header bs ≡ ok tt
    → read_word 2 20 bs ≡ length p.slots
    → read_word 2 22 bs ≡ len p
    → read_word 2 24 bs ≡ directory_offset (length p.slots)
    → read_word 2 26 bs ≡ bottom
    → read_word 8 8 bs ≡ p.id
    → directory_offset (length p.slots) ≤ bottom
    → bottom ≤ page_size
    → decode_slots (length p.slots) 0 bottom bs [] [] ≡ ok (ranges, p.slots)
    → lowest ranges ≡ bottom
    → total ranges ≡ page_size - bottom
    → from_bytes bs ≡ ok p
unfolding from_bytes
from_bytes_steps p bottom bs ranges h count live start low id fits high slots lo to = rw (
  h,
  count,
  live,
  start,
  low,
  id,
  in_order _ bottom fits high,
  slots,
  check_slots_accepts p bottom ranges lo to,
)

-- What the encoder's loop makes of a blank page.
module _ (p : Page) (fits : Fits p) where
  bottom_of : ℕ
  bottom_of = page_size - payload_size p.slots

  slots-Written :
      (bs : Bytes) × (encode_slots
          (directory_offset (length p.slots))
          0
          p.slots
          page_size
          (replicate page_size 0)
        ≡ ok (bottom_of, bs))
      × Written 0 p.slots page_size bottom_of (replicate page_size 0) bs
  unfolding bottom_of
  slots-Written =
      encode_slots-Written (length p.slots) 0 p.slots page_size (replicate page_size 0)
        (omega arith) (length-replicate page_size 0) (omega arith)
        (unfold used in omega (arith, fits))
        (λ i h k.
          blank_word page_size (directory_offset i + 2) (unfold used in omega (arith, fits)))

module _ (p : Page) (fits : Fits p) (bs : Bytes)
    (w : Written 0 p.slots page_size (bottom_of p fits) (replicate page_size 0) bs) where
  behind : Bytes
  behind = drop 32 bs

  behind-length : length behind + 32 ≡ page_size
  unfolding behind
  behind-length = omega (arith, w.0, length-drop 32 bs)

  bs-blank : bs ≡ zeros_32 behind
  unfolding behind slice
  bs-blank = sym (take-append-drop 32 bs) ∙ ap (λ t. t ++ drop 32 bs) front
    where
      front : take 32 bs ≡ zeros_32 []
      front = w.2 0 32 (inl (omega arith)) ∙ blank_front

  -- The finished page.
  finished : Bytes
  unfolding behind
  finished =
      sealed p.id (length p.slots) (len p) (directory_offset (length p.slots)) (bottom_of p fits)
        behind

  finished-Describes : Describes 0 p.slots page_size (bottom_of p fits) finished
  unfolding finished
  finished-Describes =
      Describes-agree 0 p.slots page_size (bottom_of p fits) (zeros_32 behind) finished
        (sealed-behind p.id (length p.slots) (len p) (directory_offset (length p.slots))
          (bottom_of p fits) behind)
        (unfold bottom_of used in omega (arith, fits))
        (subst (Describes 0 p.slots page_size (bottom_of p fits)) bs-blank w.1)

  to_bytes-finished :
      encode_slots (directory_offset (length p.slots)) 0 p.slots page_size (replicate page_size 0)
        ≡ ok (bottom_of p fits, bs)
      → to_bytes p ≡ ok finished
  unfolding finished sealed
  to_bytes-finished e =
      to_bytes_steps p (bottom_of p fits) bs (unfold used in omega (arith, fits))
        (unfold len used in omega (arith, fits, length-filter-le is_some p.slots))
        (unfold used in omega (arith, fits)) (unfold bottom_of in omega arith) e
      ∙ ap
          (λ t. ok (
            seal (
              write_header p.id (length p.slots) (len p) (directory_offset (length p.slots))
                (bottom_of p fits) t)))
          bs-blank

  from_bytes-finished : p.id < 2 ^ 64 → from_bytes finished ≡ ok p
  unfolding finished
  from_bytes-finished e =
      let (ranges, slots, lo, to) =
        decode_slots-Describes p.slots 0 page_size (bottom_of p fits) finished [] []
          finished-Describes (omega arith) tt (unfold lowest in refl) (unfold total in refl) in
      let (count, live, start, low) =
        field_reads p.id (length p.slots) (len p) (directory_offset (length p.slots))
          (bottom_of p fits) behind (unfold used in omega (arith, fits))
          (unfold len used in omega (arith, fits, length-filter-le is_some p.slots))
          (unfold used in omega (arith, fits)) (unfold bottom_of in omega arith) in
      from_bytes_steps p (bottom_of p fits) finished ranges
        (sealed-accepted _ _ _ _ _ behind behind-length) count live start low
        (id_read p.id _ _ _ _ behind e) (unfold bottom_of used in omega (arith, fits))
        (unfold bottom_of in omega arith) slots lo to

-- Every page whose header, directory and records fit the page size, with a 64-bit identifier, is
-- encoded as 4096 bytes, and decoding these bytes returns the page itself.
pub from_bytes-to_bytes :
    (p : Page)
    → Fits p
    → p.id < 2 ^ 64
    → (bs : Bytes) × (to_bytes p ≡ ok bs) × (length bs ≡ page_size) × (from_bytes bs ≡ ok p)
from_bytes-to_bytes p fits h =
    let (bs, e, w) = slots-Written p fits in
    (
      finished p fits bs w,
      to_bytes-finished p fits bs w e,
      unfold finished in sealed-length _ _ _ _ _ (behind p fits bs w) (behind-length p fits bs w),
      from_bytes-finished p fits bs w h,
    )
