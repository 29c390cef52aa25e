-- ===== src/Nbf/Decode.antt =====
-- crates/nova-nbf/src/lib.rs: decoding. A `Decoder` is the input that is left. Where the source passes
-- the depth, a reader takes the number of levels that are left below `MAX_NESTING_DEPTH`.
pub mod Errors
pub mod Streams
use novabase.Common.{
  ℕ, zero, suc, ◌+◌, ◌-◌, ◌*◌, ◌/◌, ◌%◌, ◌^◌, Bool, true, false, not, ◌&&◌, Option, none, some,
  List, [], ◌∷◌, ◌++◌, length, take, drop, ltb, leb, ◌==◌, if◌then◌else◌,
}
use novabase.Common.Int.{ℤ, pos, negsuc}
use novabase.Common.Result.{
  NovaError, Result, ok, err, corruption, unsupported, Method, ◌>>=◌, ◌>>◌, return, fail, fail_if,
  gets, lift, ok_or,
}
use novabase.Storage.Bytes.{Bytes, from_be_bytes}
use novabase.Core.Text.{is_utf8}
use novabase.Core.Value
use novabase.Core.Value.{
  NovaValue, Values, Document, Fields, null, boolean, int64, float64, string, array, document,
  timestamp, nova_id, no_values, value, with_id, no_fields, field, same_bytes, new_document,
}
use novabase.Nbf.Varint.{read_varint}
use novabase.Nbf.Encode.{
  magic, format_version, max_nesting_depth, max_collection_length, Tag, null_tag, false_tag,
  true_tag, int64_tag, float64_tag, string_tag, array_tag, document_tag, timestamp_tag, nova_id_tag,
}

abbrev pub Reader : Type 0 → Type 0
Reader A = Method Bytes A

-- `Tag::from_byte`
unfoldable pub from_byte : ℕ → Option Tag
from_byte b =
    if b == 0
    then some null_tag
    else if b == 1
    then some false_tag
    else if b == 2
    then some true_tag
    else if b == 3
    then some int64_tag
    else if b == 4
    then some float64_tag
    else if b == 5
    then some string_tag
    else if b == 6
    then some array_tag
    else if b == 7
    then some document_tag
    else if b == 8
    then some timestamp_tag
    else if b == 9
    then some nova_id_tag
    else none

-- `i64::from_be_bytes`, of the word
abbrev pub of_word : ℕ → ℤ
of_word w = if ltb w (2 ^ 63) then pos w else negsuc (2 ^ 64 - 1 - w)

-- `Decoder::take`
unfoldable pub take_bytes : ℕ → Reader Bytes
take_bytes n input =
    if leb n (length input) then (ok (take n input), drop n input) else (err corruption, input)

-- `Decoder::read_byte`
unfoldable pub read_byte : Reader ℕ
read_byte [] = (err corruption, [])
read_byte (b ∷ input) = (ok b, input)

-- `Decoder::read_varint_value`
unfoldable pub read_varint_value : Reader ℕ
unfolding read_varint
read_varint_value input = elim (read_varint input) [
  | ok (v, rest) ↦ (ok v, rest)
  | err e ↦ (err e, input)
]

-- `Decoder::read_length`, `Decoder::read_count`
unfoldable pub read_length : Reader ℕ
unfolding read_varint_value
read_length = do
  n ← read_varint_value
  left ← gets length
  fail_if (ltb left n) corruption
  return n

unfoldable pub read_count : Reader ℕ
unfolding read_varint_value
read_count = do
  n ← read_varint_value
  fail_if (ltb max_collection_length n) corruption
  left ← gets length
  fail_if (ltb left n) corruption
  return n

-- `Decoder::read_string_payload`
unfoldable pub read_string_payload : Reader Bytes
unfolding read_length take_bytes is_utf8
read_string_payload = do
  n ← read_length
  bytes ← take_bytes n
  fail_if (not (is_utf8 bytes)) corruption
  return bytes

-- `Decoder::read_header`
unfoldable pub read_header : Reader (Unit {0})
unfolding take_bytes from_be_bytes
read_header = do
  found ← take_bytes 4
  fail_if (not (same_bytes found magic)) corruption
  version ← take_bytes 4
  fail_if (not (from_be_bytes version == format_version)) unsupported

-- a word of eight bytes
unfoldable pub read_word : Reader ℕ
unfolding take_bytes from_be_bytes
read_word = do bytes ← take_bytes 8; return (from_be_bytes bytes)

abbrev pub is_some {ℓ} : {A : Type ℓ} → Option A → Bool
is_some none = false
is_some (some a) = true

-- the loop of `read_document`
unfoldable pub read_fields : ℕ → Reader NovaValue → Document → Reader Document
unfolding read_string_payload Value.insert
read_fields zero read_one d = return d
read_fields (suc n) read_one d = do
  key ← read_string_payload
  v ← read_one
  fail_if (is_some (Value.insert key v d).0) corruption
  read_fields n read_one (Value.insert key v d).1

-- `read_document` after its tag, where values are read by `read_one`
unfoldable pub read_document : Reader NovaValue → Reader Document
unfolding take_bytes read_count read_fields new_document
read_document read_one = do
  id ← take_bytes 16
  n ← read_count
  read_fields n read_one (new_document id)

-- the loop of `read_value` over an array
unfoldable pub read_values : ℕ → Reader NovaValue → Reader Values
read_values zero read_one = return no_values
read_values (suc n) read_one = do v ← read_one; vs ← read_values n read_one; return (value v vs)

unfoldable pub read_array : Reader NovaValue → Reader NovaValue
unfolding read_count read_values
read_array read_one = do n ← read_count; vs ← read_values n read_one; return (array vs)

-- the cases of `read_value`, with the readers of arrays and of documents
unfoldable pub read_tagged : Reader NovaValue → Reader NovaValue → Tag → Reader NovaValue
unfolding read_word read_string_payload take_bytes
read_tagged read_list read_nested null_tag = return null
read_tagged read_list read_nested false_tag = return (boolean false)
read_tagged read_list read_nested true_tag = return (boolean true)
read_tagged read_list read_nested int64_tag = do w ← read_word; return (int64 (of_word w))
read_tagged read_list read_nested float64_tag = do w ← read_word; return (float64 w)
read_tagged read_list read_nested string_tag = do s ← read_string_payload; return (string s)
read_tagged read_list read_nested array_tag = read_list
read_tagged read_list read_nested document_tag = read_nested
read_tagged read_list read_nested timestamp_tag = do w ← read_word; return (timestamp (of_word w))
read_tagged read_list read_nested nova_id_tag = do id ← take_bytes 16; return (nova_id id)

unfoldable pub read_any : Reader NovaValue → Reader NovaValue → Reader NovaValue
unfolding read_byte from_byte read_tagged
read_any read_list read_nested = do
  byte ← read_byte
  tag ← lift (ok_or (from_byte byte) corruption)
  read_tagged read_list read_nested tag

unfoldable pub nested : Reader NovaValue → Reader NovaValue
unfolding read_document
nested read_one = do d ← read_document read_one; return (document d)

-- `read_value`, with `levels` levels left; with none, an array and a document fail `check_decode_depth`
unfoldable pub read_value : ℕ → Reader NovaValue
unfolding read_any read_array nested
read_value zero = read_any (fail corruption) (fail corruption)
read_value (suc levels) = read_any (read_array (read_value levels)) (nested (read_value levels))

-- what `decode` does with its decoder; the root is at depth 0
unfoldable pub read_root : Reader Document
unfolding read_header read_byte read_document read_value
read_root = do
  read_header
  tag ← read_byte
  fail_if (not (tag == 7)) corruption
  d ← read_document (read_value 253)
  left ← gets length
  fail_if (not (left == 0)) corruption
  return d

-- `decode`
unfoldable pub decode : Bytes → Result Document
unfolding read_root
decode bytes = (read_root bytes).0
