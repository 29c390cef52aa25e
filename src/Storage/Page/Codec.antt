-- ===== src/Storage/Page/Codec.antt =====
-- crates/nova-storage/src/page.rs: a page as 4096 bytes, and back.
use novabase.Common.{
  ℕ, zero, suc, ◌+◌, ◌-◌, ◌*◌, min, Option, none, some, Bool, true, false, not, ◌&&◌, ◌||◌, List,
  [], ◌∷◌, ◌++◌, length, filter, any, replicate, ltb, leb, ◌==◌, if◌then◌else◌,
}
use novabase.Common.Result.{Result, ok, err, storage, corruption, unsupported}
use novabase.Common.Checked.{◌>>=◌, ◌>>◌, refuse_if}
use novabase.Storage.Bytes.{Bytes, to_be_bytes, from_be_bytes, slice, write_at}
use novabase.Storage.Checksum.{crc32}
use novabase.Storage.Page.{Page, page_size, page_header_size, slot_size, is_some, len}

abbrev pub page_magic : Bytes
page_magic = 0x4e ∷ 0x56 ∷ 0x50 ∷ 0x47 ∷ []

abbrev pub page_format_version : ℕ
page_format_version = 1

abbrev pub deleted_offset : ℕ
deleted_offset = 65535

unfoldable pub as_u16 : ℕ → Result ℕ
as_u16 v = if ltb v 65536 then ok v else err storage

-- `put_u16` at an offset
abbrev put_u16 : ℕ → ℕ → Bytes → Bytes
put_u16 at v bs = write_at at (to_be_bytes 2 v) bs

abbrev pub directory_offset : ℕ → ℕ
directory_offset index = page_header_size + index * slot_size

-- `payload_start.checked_sub(record.len()).filter(|start| *start >= free_start)`
abbrev below : ℕ → ℕ → ℕ → Result ℕ
below payload_start size free_start =
    if leb size payload_start && leb free_start (payload_start - size)
    then ok (payload_start - size)
    else err storage

-- The loop over the slots: the payloads grow down from the end, the directory up from the header.
unfoldable pub encode_slots : ℕ → ℕ → List (Option Bytes) → ℕ → Bytes → Result (ℕ × Bytes)
unfolding as_u16
encode_slots free_start index [] payload_start bytes = ok (payload_start, bytes)
encode_slots free_start index (none ∷ slots) payload_start bytes =
    encode_slots free_start (suc index) slots payload_start
      (put_u16 (directory_offset index) deleted_offset bytes)
encode_slots free_start index (some r ∷ slots) payload_start bytes =
    below payload_start (length r) free_start >>= λ start. as_u16 start >>= λ start_field.
    as_u16 (length r) >>= λ length_field. encode_slots free_start (suc index) slots start (
      put_u16 (directory_offset index + 2) length_field
        (put_u16 (directory_offset index) start_field (write_at start r bytes)))

-- The header fields but the checksum.
unfoldable pub write_header : ℕ → ℕ → ℕ → ℕ → ℕ → Bytes → Bytes
write_header id slot_count live_count free_start payload_start bytes = put_u16 26 payload_start (
    put_u16 24 free_start (
      put_u16 22 live_count (
        put_u16 20 slot_count (
          write_at 8 (to_be_bytes 8 id) (
            put_u16 6 page_header_size
              (put_u16 4 page_format_version (write_at 0 page_magic bytes)))))))

unfoldable pub seal : Bytes → Bytes
seal bytes = write_at 16 (to_be_bytes 4 (crc32 bytes 16 20)) bytes

-- `Page::to_bytes`
unfoldable pub to_bytes : Page → Result Bytes
to_bytes p = do
  slot_count ← as_u16 (length p.slots)
  live_count ← as_u16 (len p)
  let free_start = page_header_size + length p.slots * slot_size
  refuse_if (ltb page_size free_start) storage
  (payload_start, bytes) ← encode_slots free_start 0 p.slots page_size (replicate page_size 0)
  free_field ← as_u16 free_start
  payload_field ← as_u16 payload_start
  ok (seal (write_header p.id slot_count live_count free_field payload_field bytes))

-- `read_u16` and its likes, at an offset
abbrev pub read_word : ℕ → ℕ → Bytes → ℕ
read_word width at bytes = from_be_bytes (slice at (at + width) bytes)

unfoldable pub bytes_eq : Bytes → Bytes → Bool
bytes_eq [] [] = true
bytes_eq (a ∷ as') (b ∷ bs) = a == b && bytes_eq as' bs
bytes_eq _ _ = false

abbrev pub Range : Type 0
Range = ℕ × ℕ

-- `start < other_end && other_start < end`
abbrev pub overlaps : ℕ → ℕ → Range → Bool
overlaps start end (other_start, other_end) = ltb start other_end && ltb other_start end

unfoldable pub decode_slots :
    ℕ → ℕ → ℕ → Bytes → List Range → List (Option Bytes) → Result (List Range × List (Option Bytes))
decode_slots zero index free_end bytes ranges slots = ok (ranges, slots)
decode_slots (suc left) index free_end bytes ranges slots =
    let offset = directory_offset index in
    let start = read_word 2 offset bytes in
    let size = read_word 2 (offset + 2) bytes in
    let end = start + size in
    let deleted = decode_slots left (suc index) free_end bytes ranges (slots ++ none ∷ []) in
    let live =
      decode_slots left (suc index) free_end bytes (ranges ++ (start, end) ∷ [])
        (slots ++ some (slice start end bytes) ∷ []) in
    if start == deleted_offset
    then (if size == 0 then deleted else err corruption)
    else if leb free_end start && leb end page_size
    then (if any (overlaps start end) ranges then err corruption else live)
    else err corruption

-- `.min().unwrap_or(PAGE_SIZE)`
unfoldable pub lowest : List Range → ℕ
lowest [] = page_size
lowest ((start, end) ∷ []) = start
lowest ((start, end) ∷ r ∷ ranges) = min start (lowest (r ∷ ranges))

unfoldable pub total : List Range → ℕ
total [] = 0
total ((start, end) ∷ ranges) = (end - start) + total ranges

-- The checks on the header.
unfoldable pub check_header : Bytes → Result (Unit {0})
unfolding bytes_eq
check_header bytes = do
  refuse_if (not (length bytes == page_size)) corruption
  refuse_if (not (bytes_eq (slice 0 4 bytes) page_magic)) corruption
  refuse_if (not (read_word 2 4 bytes == page_format_version)) unsupported
  refuse_if (not (read_word 2 6 bytes == page_header_size)) corruption
  refuse_if (not (crc32 bytes 16 20 == read_word 4 16 bytes)) corruption
  refuse_if (not (bytes_eq (slice 28 32 bytes) (0 ∷ 0 ∷ 0 ∷ 0 ∷ []))) corruption

-- The checks on the slots as a whole.
unfoldable pub check_slots : ℕ → ℕ → List Range → List (Option Bytes) → Result (Unit {0})
check_slots live_count free_end ranges slots = do
  refuse_if (not (length (filter is_some slots) == live_count)) corruption
  refuse_if (not (lowest ranges == free_end)) corruption
  refuse_if (not (page_size - free_end == total ranges)) corruption

-- `Page::from_bytes`
unfoldable pub from_bytes : Bytes → Result Page
from_bytes bytes = do
  check_header bytes
  let slot_count = read_word 2 20 bytes
  let live_count = read_word 2 22 bytes
  let free_start = read_word 2 24 bytes
  let free_end = read_word 2 26 bytes
  refuse_if
      (not (free_start == page_header_size + slot_count * slot_size)
        || ltb free_end free_start
        || ltb page_size free_end)
      corruption
  (ranges, slots) ← decode_slots slot_count 0 free_end bytes [] []
  check_slots live_count free_end ranges slots
  ok (record { id = read_word 8 8 bytes; slots = slots })
