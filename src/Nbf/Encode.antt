-- ===== src/Nbf/Encode.antt =====
-- crates/nova-nbf/src/lib.rs: encoding. What the source appends to its output is returned.
pub mod Limits
use novabase.Common.{
  ℕ, zero, suc, ◌+◌, ◌-◌, ◌*◌, ◌/◌, ◌%◌, ◌^◌, Bool, true, false, not, ◌&&◌, Option, none, some,
  List, [], ◌∷◌, ◌++◌, length, ltb, leb, ◌==◌, if◌then◌else◌,
}
use novabase.Common.Int.{ℤ, pos, negsuc}
use novabase.Common.Result.{NovaError, Result, ok, err, invalid_argument}
use novabase.Common.Checked.{◌>>=◌, ◌>>◌, refuse_if}
use novabase.Storage.Bytes.{Bytes, to_be_bytes}
use novabase.Core.Value.{
  NovaValue, Values, Document, Fields, null, boolean, int64, float64, string, array, document,
  timestamp, nova_id, no_values, value, with_id, no_fields, field, count_values, count_fields,
}
use novabase.Nbf.Varint.{write_varint}

-- `MAGIC`, `FORMAT_VERSION`
abbrev pub magic : Bytes
magic = 78 ∷ 79 ∷ 86 ∷ 65 ∷ []

abbrev pub format_version : ℕ
format_version = 1

abbrev pub max_nesting_depth : ℕ
max_nesting_depth = 254

abbrev pub max_collection_length : ℕ
max_collection_length = 2 ^ 20

pub data Tag : Type 0 where
  null_tag false_tag true_tag int64_tag float64_tag string_tag array_tag document_tag timestamp_tag
        nova_id_tag :
      Tag

-- `tag as u8`
abbrev pub byte_of : Tag → ℕ
byte_of null_tag = 0
byte_of false_tag = 1
byte_of true_tag = 2
byte_of int64_tag = 3
byte_of float64_tag = 4
byte_of string_tag = 5
byte_of array_tag = 6
byte_of document_tag = 7
byte_of timestamp_tag = 8
byte_of nova_id_tag = 9

-- the word whose bytes `i64::to_be_bytes` gives
abbrev pub to_word : ℤ → ℕ
to_word (pos n) = n
to_word (negsuc n) = 2 ^ 64 - suc n

-- `f64::is_nan` and `f64::NAN`, on the bits
abbrev pub is_nan : ℕ → Bool
is_nan bits = ltb 0x7ff0000000000000 (bits % 2 ^ 63)

abbrev pub nan_bits : ℕ
nan_bits = 0x7ff8000000000000

-- `check_encode_depth`, `check_encode_count`
unfoldable pub check_encode_depth : ℕ → Result (Unit {0})
check_encode_depth depth = refuse_if (leb max_nesting_depth depth) invalid_argument

unfoldable pub check_encode_count : ℕ → Result (Unit {0})
check_encode_count count = refuse_if (ltb max_collection_length count) invalid_argument

-- a length and the bytes
unfoldable pub encode_text : Bytes → Bytes
unfolding write_varint
encode_text bytes = write_varint (length bytes) ++ bytes

unfoldable mutual
  unfolding check_encode_depth check_encode_count encode_text write_varint count_values count_fields
      to_be_bytes

  -- `encode_document`
  pub encode_document : Document → ℕ → Result Bytes
  encode_document (with_id id fs) depth = do
    check_encode_depth depth
    check_encode_count (count_fields fs)
    rest ← encode_fields fs (depth + 1)
    ok (byte_of document_tag ∷ id ++ write_varint (count_fields fs) ++ rest)

  -- its loop over the fields
  pub encode_fields : Fields → ℕ → Result Bytes
  encode_fields no_fields depth = ok []
  encode_fields (field k v fs) depth = do
    bytes ← encode_value v depth
    rest ← encode_fields fs depth
    ok (encode_text k ++ bytes ++ rest)

  -- `encode_value`
  pub encode_value : NovaValue → ℕ → Result Bytes
  encode_value null depth = ok (byte_of null_tag ∷ [])
  encode_value (boolean false) depth = ok (byte_of false_tag ∷ [])
  encode_value (boolean true) depth = ok (byte_of true_tag ∷ [])
  encode_value (int64 i) depth = ok (byte_of int64_tag ∷ to_be_bytes 8 (to_word i))
  encode_value (float64 bits) depth =
      ok (byte_of float64_tag ∷ to_be_bytes 8 (if is_nan bits then nan_bits else bits))
  encode_value (string s) depth = ok (byte_of string_tag ∷ encode_text s)
  encode_value (array vs) depth = do
    check_encode_depth depth
    check_encode_count (count_values vs)
    rest ← encode_values vs (depth + 1)
    ok (byte_of array_tag ∷ write_varint (count_values vs) ++ rest)
  encode_value (document d) depth = encode_document d depth
  encode_value (timestamp millis) depth =
      ok (byte_of timestamp_tag ∷ to_be_bytes 8 (to_word millis))
  encode_value (nova_id id) depth = ok (byte_of nova_id_tag ∷ id)

  -- its loop over an array
  pub encode_values : Values → ℕ → Result Bytes
  encode_values no_values depth = ok []
  encode_values (value v vs) depth = do
    bytes ← encode_value v depth
    rest ← encode_values vs depth
    ok (bytes ++ rest)

-- `encode`
unfoldable pub encode : Document → Result Bytes
unfolding encode_document to_be_bytes
encode d = do bytes ← encode_document d 0; ok (magic ++ to_be_bytes 4 format_version ++ bytes)
