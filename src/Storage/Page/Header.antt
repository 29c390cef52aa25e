-- ===== src/Storage/Page/Header.antt =====
-- The header that the encoder writes passes the decoder's checks, and its fields read back.
use novabase.Common.{
  ℕ, ◌+◌, ◌-◌, ◌^◌, ◌<◌, ◌≤◌, ◌≡◌, refl, sym, ap, ◌∙◌, true, [], ◌∷◌, length, arith, take,
}
use novabase.Common.Result.{ok}
use novabase.Storage.Bytes.{Bytes, slice, to_be_bytes, from_be_bytes, write_at}
use novabase.Storage.Bytes.Laws.{drop-append_ge, be_word_2, be_word_4, be_word_8}
use novabase.Storage.Checksum.{crc32, crc32_bound, crc32_agree, masks}
use novabase.Storage.Page.{page_size}
use novabase.Storage.Page.Codec.{write_header, seal, check_header, bytes_eq, read_word, page_magic}

abbrev pub zeros_32 : Bytes → Bytes
zeros_32 t =
    0 ∷ 0 ∷ 0 ∷ 0 ∷ 0 ∷ 0 ∷ 0 ∷ 0 ∷ 0 ∷ 0 ∷ 0 ∷ 0 ∷ 0 ∷ 0 ∷ 0 ∷ 0 ∷ 0 ∷ 0 ∷ 0 ∷ 0 ∷ 0 ∷ 0 ∷ 0 ∷ 0
    ∷ 0 ∷ 0 ∷ 0 ∷ 0 ∷ 0 ∷ 0 ∷ 0 ∷ 0 ∷ t

bytes_eq_refl : (bs : Bytes) → bytes_eq bs bs ≡ true
unfolding bytes_eq
bytes_eq_refl [] = refl
bytes_eq_refl (b ∷ bs) = ground (arith, bytes_eq_refl bs)

check_header_accepts :
    (bs : Bytes)
    → length bs ≡ page_size
    → bytes_eq (slice 0 4 bs) page_magic ≡ true
    → read_word 2 4 bs ≡ 1
    → read_word 2 6 bs ≡ 32
    → crc32 bs 16 20 ≡ read_word 4 16 bs
    → bytes_eq (slice 28 32 bs) (0 ∷ 0 ∷ 0 ∷ 0 ∷ []) ≡ true
    → check_header bs ≡ ok tt
unfolding check_header
check_header_accepts bs l m v h c z = ground arith

module _ (id count live start bottom : ℕ) (tail : Bytes) where
  -- a header over 32 zero bytes, before and after the checksum
  unsealed : Bytes
  unsealed = write_header id count live start bottom (zeros_32 tail)

  unfoldable pub sealed : Bytes
  sealed = seal (write_header id count live start bottom (zeros_32 tail))

  checksum_ignores : crc32 sealed 16 20 ≡ crc32 unsealed 16 20
  checksum_ignores =
      crc32_agree 16 20 sealed unsealed
        (unfold masks sealed unsealed seal write_header write_at to_be_bytes in refl)

  checksum_read : read_word 4 16 sealed ≡ crc32 unsealed 16 20
  unfolding sealed unsealed seal write_header slice write_at to_be_bytes
  checksum_read = be_word_4 _ (crc32_bound _ 16 20)

  pub id_read : id < 2 ^ 64 → read_word 8 8 sealed ≡ id
  unfolding sealed seal write_header slice write_at to_be_bytes
  id_read h = be_word_8 id h

  pub sealed-accepted : length tail + 32 ≡ page_size → check_header sealed ≡ ok tt
  sealed-accepted l =
      check_header_accepts sealed
        (unfold sealed seal write_header write_at to_be_bytes in omega arith)
        (unfold sealed seal write_header write_at to_be_bytes slice bytes_eq in refl)
        (unfold sealed seal write_header write_at to_be_bytes slice from_be_bytes in refl)
        (unfold sealed seal write_header write_at to_be_bytes slice from_be_bytes in refl)
        (checksum_ignores ∙ sym checksum_read)
        (unfold sealed seal write_header write_at to_be_bytes slice bytes_eq in refl)

  pub field_reads :
      count < 65536
      → live < 65536
      → start < 65536
      → bottom < 65536
      → (read_word 2 20 sealed ≡ count)
        × (read_word 2 22 sealed ≡ live)
        × (read_word 2 24 sealed ≡ start)
        × (read_word 2 26 sealed ≡ bottom)
  unfolding sealed seal write_header slice write_at to_be_bytes
  field_reads a b c d = (be_word_2 count a, be_word_2 live b, be_word_2 start c, be_word_2 bottom d)

  pub sealed-length : length tail + 32 ≡ page_size → length sealed ≡ page_size
  unfolding sealed seal write_header write_at to_be_bytes
  sealed-length l = omega arith

  -- The header leaves the rest of the page alone.
  pub sealed-behind :
      (from to : ℕ) → 32 ≤ from → slice from to sealed ≡ slice from to (zeros_32 tail)
  unfolding sealed seal write_header slice write_at to_be_bytes
  sealed-behind from to h =
      ap (take (to - from)) (
        drop-append_ge from (take 32 sealed) tail h
        ∙ sym (drop-append_ge from (zeros_32 []) tail h))
