-- ===== src/Nbf/RoundTrip/Nested.antt =====
-- crates/nova-nbf/src/lib.rs: the lengths of what `encode` writes.
use novabase.Common.{
  ℕ, ◌+◌, ◌<◌, ◌≤◌, ◌≡◌, true, false, ◌∷◌, ◌++◌, length, arith, length-append, ltb, leb,
}
use novabase.Common.Result.{ok, invalid_argument}
use novabase.Common.Checked.{>>=-ok, refuse_if-ok}
use novabase.Storage.Bytes.{Bytes}
use novabase.Core.Value.{
  NovaValue, Values, Fields, null, boolean, int64, float64, string, array, document, timestamp,
  nova_id, no_values, value, with_id, no_fields, field, count_values, count_fields,
}
use novabase.Nbf.Varint.{write_varint}
use novabase.Nbf.Encode.{
  byte_of, document_tag, array_tag, check_encode_depth, check_encode_count, encode_text,
  encode_document, encode_fields, encode_value, encode_values, max_collection_length,
}

-- The parts of a document that is encoded.
pub encode_document-ok :
    (id : Bytes) (fs : Fields) (depth : ℕ) (bs : Bytes)
    → encode_document (with_id id fs) depth ≡ ok bs
    → (depth < 254)
      × (count_fields fs ≤ max_collection_length)
      × (rest : Bytes) × (encode_fields fs (depth + 1) ≡ ok rest)
      × (bs ≡ byte_of document_tag ∷ id ++ write_varint (count_fields fs) ++ rest)
unfolding encode_document check_encode_depth check_encode_count
encode_document-ok id fs depth bs e =
    let (u, shallow, e') = >>=-ok (check_encode_depth depth) _ e in
    let (w, few, e'') = >>=-ok (check_encode_count (count_fields fs)) _ e' in
    let (rest, written, e''') = >>=-ok _ _ e'' in
    (
      ground (arith, refuse_if-ok (leb 254 depth) invalid_argument shallow),
      ground
          (arith, refuse_if-ok (ltb max_collection_length (count_fields fs)) invalid_argument few),
      rest,
      written,
      cc,
    )

-- The parts of an array that is encoded.
pub encode_array-ok :
    (vs : Values) (depth : ℕ) (bs : Bytes)
    → encode_value (array vs) depth ≡ ok bs
    → (depth < 254)
      × (count_values vs ≤ max_collection_length)
      × (rest : Bytes) × (encode_values vs (depth + 1) ≡ ok rest)
      × (bs ≡ byte_of array_tag ∷ write_varint (count_values vs) ++ rest)
unfolding encode_value check_encode_depth check_encode_count
encode_array-ok vs depth bs e =
    let (u, shallow, e') = >>=-ok (check_encode_depth depth) _ e in
    let (w, few, e'') = >>=-ok (check_encode_count (count_values vs)) _ e' in
    let (rest, written, e''') = >>=-ok _ _ e'' in
    (
      ground (arith, refuse_if-ok (leb 254 depth) invalid_argument shallow),
      ground
          (arith, refuse_if-ok (ltb max_collection_length (count_values vs)) invalid_argument few),
      rest,
      written,
      cc,
    )

-- The parts of a field and the fields after it.
pub encode_field-ok :
    (k : Bytes) (v : NovaValue) (fs : Fields) (depth : ℕ) (bs : Bytes)
    → encode_fields (field k v fs) depth ≡ ok bs
    → (first : Bytes) × (encode_value v depth ≡ ok first)
      × (rest : Bytes) × (encode_fields fs depth ≡ ok rest)
      × (bs ≡ encode_text k ++ first ++ rest)
unfolding encode_fields
encode_field-ok k v fs depth bs e =
    let (first, head, e') = >>=-ok _ _ e in
    let (rest, tail, e'') = >>=-ok _ _ e' in (first, head, rest, tail, cc)

-- The parts of a value and the values after it.
pub encode_item-ok :
    (v : NovaValue) (vs : Values) (depth : ℕ) (bs : Bytes)
    → encode_values (value v vs) depth ≡ ok bs
    → (first : Bytes) × (encode_value v depth ≡ ok first)
      × (rest : Bytes) × (encode_values vs depth ≡ ok rest)
      × (bs ≡ first ++ rest)
unfolding encode_values
encode_item-ok v vs depth bs e =
    let (first, head, e') = >>=-ok _ _ e in
    let (rest, tail, e'') = >>=-ok _ _ e' in (first, head, rest, tail, cc)

-- Every value takes a byte.
length-encode_value_pos :
    (v : NovaValue) (depth : ℕ) (bs : Bytes) → encode_value v depth ≡ ok bs → 0 < length bs
unfolding encode_value
length-encode_value_pos (array vs) depth bs e =
    let (shallow, few, rest, written, same) = encode_array-ok vs depth bs e in rw same (omega arith)
length-encode_value_pos (document (with_id id fs)) depth bs e =
    let (shallow, few, rest, written, same) = encode_document-ok id fs depth bs e in
    rw same (omega arith)
length-encode_value_pos (boolean false) depth bs e = ground (arith, e)
length-encode_value_pos (boolean true) depth bs e = ground (arith, e)
length-encode_value_pos null depth bs e = ground (arith, e)
length-encode_value_pos (int64 i) depth bs e = ground (arith, e)
length-encode_value_pos (float64 bits) depth bs e = ground (arith, e)
length-encode_value_pos (string s) depth bs e = ground (arith, e)
length-encode_value_pos (timestamp m) depth bs e = ground (arith, e)
length-encode_value_pos (nova_id id) depth bs e = ground (arith, e)

pub count_values-le :
    (vs : Values) (depth : ℕ) (bs : Bytes)
    → encode_values vs depth ≡ ok bs
    → count_values vs ≤ length bs
unfolding count_values
count_values-le no_values depth bs e = omega arith
count_values-le (value v vs) depth bs e =
    let (first, head, rest, tail, same) = encode_item-ok v vs depth bs e in
    rw same (
      omega (
        arith,
        length-append first rest,
        length-encode_value_pos v depth first head,
        count_values-le vs depth rest tail,
      ))

pub count_fields-le :
    (fs : Fields) (depth : ℕ) (bs : Bytes)
    → encode_fields fs depth ≡ ok bs
    → count_fields fs ≤ length bs
unfolding count_fields
count_fields-le no_fields depth bs e = omega arith
count_fields-le (field k v fs) depth bs e =
    let (first, head, rest, tail, same) = encode_field-ok k v fs depth bs e in
    rw same (
      omega (
        arith,
        length-append (encode_text k ++ first) rest,
        length-append (encode_text k) first,
        length-encode_value_pos v depth first head,
        count_fields-le fs depth rest tail,
      ))
