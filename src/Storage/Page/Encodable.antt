-- ===== src/Storage/Page/Encodable.antt =====
-- The pages that can be encoded are those that fit.
use novabase.Common.{
  ℕ, suc, ◌+◌, ◌-◌, ◌^◌, ◌<◌, ◌≤◌, ◌≡◌, refl, Bool, true, false, Option, none, some, List, [], ◌∷◌,
  length, arith, ltb, replicate,
}
use novabase.Common.Result.{Result, ok, err, storage}
use novabase.Common.Checked.{◌>>=◌, ◌>>◌, refuse_if}
use novabase.Storage.Bytes.{Bytes, to_be_bytes, write_at}
use novabase.Storage.Page.{Page, page_size, payload_size, len}
use novabase.Storage.Page.Space.{Fits, used}
use novabase.Storage.Page.Codec.{
  as_u16, to_bytes, from_bytes, encode_slots, write_header, seal, directory_offset,
}
use novabase.Storage.Page.RoundTrip.{from_bytes-to_bytes}

encode_slots-fits :
    (start index : ℕ) (slots : List (Option Bytes)) (top bottom : ℕ) (bytes bs : Bytes)
    → encode_slots start index slots top bytes ≡ ok (bottom, bs)
    → start ≤ top
    → start + payload_size slots ≤ top
unfolding encode_slots payload_size
encode_slots-fits start index [] top bottom bytes bs e h = omega arith
encode_slots-fits start index (none ∷ slots) top bottom bytes bs e h =
    encode_slots-fits start (suc index) slots top bottom _ bs e h
encode_slots-fits start index (some r ∷ slots) top bottom bytes bs e h =
    let placed = write_at (top - length r) r bytes in
    let opened = write_at (directory_offset index) (to_be_bytes 2 (top - length r)) placed in
    let stored = write_at (directory_offset index + 2) (to_be_bytes 2 (length r)) opened in
    ground (arith, encode_slots-fits start (suc index) slots (top - length r) bottom stored bs)

passed :
    (a b : Result ℕ) (c : Bool) (d : Result (ℕ × Bytes)) (g : ℕ → ℕ → ℕ × Bytes → Result Bytes)
    {bs : Bytes}
    → (a >>= λ x. b >>= λ y. refuse_if c storage >> (d >>= λ z. g x y z)) ≡ ok bs
    → (c ≡ false) × (z : ℕ × Bytes) × (d ≡ ok z)
passed (err e) b c d g h = cc
passed (ok x) (err e) c d g h = cc
passed (ok x) (ok y) true d g h = cc
passed (ok x) (ok y) false (err e) g h = cc
passed (ok x) (ok y) false (ok z) g h = (refl, z, refl)

-- Only pages that fit are encoded at all.
pub to_bytes-Fits : (p : Page) (bs : Bytes) → to_bytes p ≡ ok bs → Fits p
unfolding to_bytes used
to_bytes-Fits p bs e =
    let start = directory_offset (length p.slots) in
    let (low, (bottom, made), d) =
      passed (as_u16 (length p.slots)) (as_u16 (len p)) (ltb page_size start)
        (encode_slots start 0 p.slots page_size (replicate page_size 0))
        (λ x y z.
          as_u16 start >>= λ u. as_u16 z.0 >>= λ v. ok (seal (write_header p.id x y u v z.1)))
        e in
    encode_slots-fits start 0 p.slots page_size bottom (replicate page_size 0) made d (ground arith)

-- What the encoder returns for a page with a 64-bit identifier is 4096 bytes that decode to it.
pub to_bytes-from_bytes :
    (p : Page) (bs : Bytes)
    → p.id < 2 ^ 64
    → to_bytes p ≡ ok bs
    → (length bs ≡ page_size) × (from_bytes bs ≡ ok p)
to_bytes-from_bytes p bs h e =
    let (cs, w, l, r) = from_bytes-to_bytes p (to_bytes-Fits p bs e) h in ground (arith, w, l, r)
