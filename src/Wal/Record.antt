-- ===== src/Wal/Record.antt =====
-- crates/nova-wal/src/lib.rs: log records and their bytes.
use novabase.Common.{
  ℕ, zero, suc, ◌+◌, ◌^◌, Bool, not, ◌&&◌, ◌||◌, List, [], ◌∷◌, ◌++◌, length, take, drop, ltb, ◌==◌,
  if◌then◌else◌,
}
use novabase.Common.Result.{
  Result, ok, err, corruption, unsupported, invalid_argument, storage, timeout,
}
use novabase.Common.Checked.{◌>>=◌, ◌>>◌, refuse_if}
use novabase.Storage.Bytes.{Bytes, to_be_bytes, slice, write_at}
use novabase.Storage.Checksum.{crc32}
use novabase.Storage.Page.{Page, page_size}
use novabase.Storage.Page.Codec.{to_bytes, from_bytes, read_word, bytes_eq}

abbrev pub magic : Bytes
magic = 0x4e ∷ 0x56 ∷ 0x57 ∷ 0x4c ∷ []

abbrev pub version : ℕ
version = 1

abbrev pub header_size : ℕ
header_size = 36

abbrev pub checksum_offset : ℕ
checksum_offset = 28

abbrev pub max_payload : ℕ
max_payload = page_size + 8

pub data Operation : Type 0 where
  begin : Operation
  page_write : ℕ → Page → Operation
  commit : Operation
  abort : Operation
  checkpoint : Operation

pub record LogRecord : Type 0 where
  pub lsn : ℕ
  pub transaction_id : ℕ
  pub operation : Operation

-- The tag and the payload.
unfoldable pub encode_operation : Operation → Result (ℕ × Bytes)
encode_operation begin = ok (0, [])
encode_operation (page_write page_id page) = do
  refuse_if (not (page.id == page_id)) invalid_argument
  bytes ← to_bytes page
  ok (1, to_be_bytes 8 page_id ++ bytes)
encode_operation commit = ok (2, [])
encode_operation abort = ok (3, [])
encode_operation checkpoint = ok (4, [])

-- The record's bytes with a zero checksum.
unfoldable pub unsealed : ℕ → Bytes → LogRecord → Bytes
unsealed tag payload r =
    magic
    ++ (to_be_bytes 2 version
        ++ (tag ∷ 0 ∷ to_be_bytes 4 (length payload)
            ++ (to_be_bytes 8 r.lsn
                ++ (to_be_bytes 8 r.transaction_id
                    ++ (to_be_bytes 4 0 ++ (to_be_bytes 4 0 ++ payload))))))

unfoldable pub seal : Bytes → Bytes
seal bytes =
    write_at checksum_offset (to_be_bytes 4 (crc32 bytes checksum_offset (checksum_offset + 4)))
      bytes

-- `encode_record`
unfoldable pub encode_record : LogRecord → Result Bytes
encode_record r = do
  (tag, payload) ← encode_operation r.operation
  refuse_if (not (ltb (length payload) (2 ^ 32))) storage
  ok (seal (unsealed tag payload r))

abbrev is_marker : ℕ → Bool
is_marker tag = tag == 0 || tag == 2 || tag == 3 || tag == 4

unfoldable pub decode_page_write : Bytes → Result Operation
decode_page_write payload = do
  refuse_if (not (length payload == 8 + page_size)) corruption
  let page_id = read_word 8 0 payload
  page ← from_bytes (drop 8 payload)
  refuse_if (not (page.id == page_id)) corruption
  ok (page_write page_id page)

-- `decode_operation`
unfoldable pub decode_operation : ℕ → Bytes → Result Operation
unfolding decode_page_write
decode_operation tag payload =
    if is_marker tag && not (length payload == 0)
    then err corruption
    else if tag == 0
    then ok begin
    else if tag == 1
    then decode_page_write payload
    else if tag == 2
    then ok commit
    else if tag == 3
    then ok abort
    else if tag == 4
    then ok checkpoint
    else err corruption

-- The checks on a record's header, up to the length of its payload.
unfoldable pub check_header : Bytes → Result (Unit {0})
check_header bytes = do
  refuse_if (not (bytes_eq (slice 0 4 bytes) magic)) corruption
  refuse_if (not (read_word 2 4 bytes == version)) unsupported
  refuse_if
      (not (read_word 1 7 bytes == 0) || not (bytes_eq (slice 32 36 bytes) (0 ∷ 0 ∷ 0 ∷ 0 ∷ [])))
      corruption
  refuse_if (ltb max_payload (read_word 4 8 bytes)) corruption

-- One complete record, `encoded`, that must carry the sequence number `expected`.
unfoldable pub decode_record : ℕ → Bytes → Result LogRecord
decode_record expected encoded = do
  refuse_if (not (read_word 4 28 encoded == crc32 encoded checksum_offset (checksum_offset + 4)))
      corruption
  let lsn = read_word 8 12 encoded
  refuse_if (not (lsn == expected)) corruption
  operation ← decode_operation (read_word 1 6 encoded) (drop header_size encoded)
  ok (record { lsn = lsn; transaction_id = read_word 8 20 encoded; operation = operation })

-- The loop of `decode_records` on the bytes from `position` on. A round takes 36 bytes at least, so
-- fuel for each byte is enough; `timeout`, which nothing here returns, means that it ran out.
unfoldable pub decode_loop : ℕ → Bool → Bytes → List LogRecord → ℕ → Result (List LogRecord × ℕ)
decode_loop fuel torn [] records position = ok (records, position)
decode_loop zero torn (b ∷ rest) records position = err timeout
decode_loop (suc fuel) torn (b ∷ rest) records position =
    let bytes : Bytes = b ∷ rest in
    let total = header_size + read_word 4 8 bytes in
    let stop : Result (List LogRecord × ℕ) =
      if torn then ok (records, position) else err corruption in
    if ltb (length bytes) header_size
    then stop
    else check_header bytes >>= λ u.
        if ltb (length bytes) total
        then stop
        else decode_record (length records) (take total bytes) >>= λ r.
            decode_loop fuel torn (drop total bytes) (records ++ r ∷ []) (position + total)

-- `decode_records`
unfoldable pub decode_records : Bytes → Bool → Result (List LogRecord × ℕ)
decode_records bytes torn = decode_loop (length bytes) torn bytes [] 0
