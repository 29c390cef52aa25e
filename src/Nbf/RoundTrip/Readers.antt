-- ===== src/Nbf/RoundTrip/Readers.antt =====
-- crates/nova-nbf/src/lib.rs: the readers of words, texts and counts.
use novabase.Common.{
  ℕ, zero, suc, ◌-◌, ◌/◌, ◌%◌, ◌^◌, ◌<◌, ◌≤◌, ◌≡◌, refl, sym, ap, true, false, [], ◌∷◌, ◌++◌,
  length, arith, ltb, leb, length-append, take-append, drop-append,
}
use mathlib.Core.List.{append_assoc}
use novabase.Common.Int.{ℤ, pos, negsuc}
use novabase.Common.Result.{ok}
use novabase.Storage.Bytes.{Bytes, to_be_bytes}
use novabase.Storage.Bytes.Laws.{be_word_8}
use novabase.Nbf.Varint.{write_varint, read_varint-write_varint}
use novabase.Nbf.Encode.{max_collection_length, encode_text, to_word}
use novabase.Nbf.Decode.{
  of_word, take_bytes, read_varint_value, read_length, read_count, read_string_payload, read_word,
}
use novabase.Nbf.RoundTrip.{IsText, IsInt64}

pub take_bytes-append :
    (n : ℕ) (bs rest : Bytes) → length bs ≡ n → take_bytes n (bs ++ rest) ≡ (ok bs, rest)
unfolding take_bytes
take_bytes-append n bs rest e =
    let fits : leb (length bs) (length (bs ++ rest)) ≡ true =
      ground (arith, length-append bs rest) in
    rw (sym e, fits, take-append bs rest, drop-append bs rest)

read_varint_value-write_varint :
    (n : ℕ) (rest : Bytes) → n < 2 ^ 64 → read_varint_value (write_varint n ++ rest) ≡ (ok n, rest)
unfolding read_varint_value
read_varint_value-write_varint n rest h = rw (read_varint_value, read_varint-write_varint n rest h)

read_length-write_varint :
    (n : ℕ) (rest : Bytes)
    → n < 2 ^ 64
    → n ≤ length rest
    → read_length (write_varint n ++ rest) ≡ (ok n, rest)
unfolding read_length
read_length-write_varint n rest h fits =
    let small : ltb (length rest) n ≡ false = ground (arith, fits) in
    rw (read_varint_value-write_varint n rest h, small)

pub read_count-write_varint :
    (n : ℕ) (rest : Bytes)
    → ltb max_collection_length n ≡ false
    → n ≤ length rest
    → read_count (write_varint n ++ rest) ≡ (ok n, rest)
unfolding read_count
read_count-write_varint n rest h fits =
    let small : ltb (length rest) n ≡ false = ground (arith, fits) in
    rw (read_varint_value-write_varint n rest (ground (arith, h)), h, small)

pub read_string_payload-encode_text :
    (s rest : Bytes) → IsText s → read_string_payload (encode_text s ++ rest) ≡ (ok s, rest)
unfolding read_string_payload encode_text
read_string_payload-encode_text s rest (utf8, h) = rw (
  append_assoc,
  read_length-write_varint (length s) (s ++ rest) h (omega (arith, length-append s rest)),
  take_bytes-append (length s) s rest refl,
  utf8,
)

pub length-to_be_bytes : (n v : ℕ) → length (to_be_bytes n v) ≡ n
unfolding to_be_bytes
length-to_be_bytes zero v = refl
length-to_be_bytes (suc n) v =
    omega (
      arith,
      length-append (to_be_bytes n (v / 256)) (v % 256 ∷ []),
      length-to_be_bytes n (v / 256),
    )

pub read_word-to_be_bytes :
    (v : ℕ) (rest : Bytes) → v < 2 ^ 64 → read_word (to_be_bytes 8 v ++ rest) ≡ (ok v, rest)
unfolding read_word
read_word-to_be_bytes v rest h =
    rw (take_bytes-append 8 (to_be_bytes 8 v) rest (length-to_be_bytes 8 v), be_word_8 v h)

pub of_word-to_word : (i : ℤ) → IsInt64 i → (to_word i < 2 ^ 64) × (of_word (to_word i) ≡ i)
of_word-to_word (pos n) h = (omega (arith, h), ground (arith, h))
of_word-to_word (negsuc n) h =
    let large : ltb (2 ^ 64 - suc n) (2 ^ 63) ≡ false = ground (arith, h) in
    (omega (arith, h), rw large (ap negsuc (omega (arith, h))))
