-- ===== src/Nbf/RoundTrip/Documents.antt =====
-- crates/nova-nbf/src/lib.rs: values, documents and whole streams are read back.
use novabase.Common.{
  ℕ, zero, suc, ◌+◌, ◌<◌, ◌≤◌, ◌≡◌, refl, sym, ap, ◌∙◌, Bool, true, false, [], ◌∷◌, ◌++◌, arith,
  length-append, if◌then◌else◌,
}
use mathlib.Core.List.{append_assoc, append-nil}
use novabase.Common.Result.{Result, ok, and_then-ok}
use novabase.Common.Checked.{>>=-ok}
use novabase.Storage.Bytes.{Bytes, to_be_bytes, from_be_bytes}
use novabase.Core.Value.{
  NovaValue, Values, Document, Fields, null, boolean, int64, float64, string, array, document,
  timestamp, nova_id, no_values, value, with_id, no_fields, field, count_values, count_fields,
}
use novabase.Core.Fields.{
  Before, append, append_assoc as fields_assoc, get_field-Below, insert_field-Below, Before-append,
  Before-start, append-no_fields,
}
use novabase.Nbf.Varint.{write_varint}
use novabase.Nbf.Encode.{
  magic, format_version, max_collection_length, encode_document, encode_fields, encode_value,
  encode_values, encode, is_nan, nan_bits, to_word,
}
use novabase.Nbf.Decode.{
  Reader, read_any, nested, read_document, read_fields, read_values, read_value, read_tagged,
  read_byte, from_byte, read_header, read_root, decode,
}
use novabase.Nbf.RoundTrip.{
  IsValue, AreValues, IsDocument, AreFields, canonical, canonical_values, canonical_document,
  canonical_fields,
}
use novabase.Nbf.RoundTrip.Readers.{
  take_bytes-append, read_count-write_varint, read_string_payload-encode_text,
  read_word-to_be_bytes, of_word-to_word,
}
use novabase.Nbf.RoundTrip.Nested.{
  encode_document-ok, encode_array-ok, encode_field-ok, encode_item-ok, count_values-le,
  count_fields-le,
}

-- With `levels` levels left, a reader finds what was written at a depth.
abbrev Reads : {A : Type 0} → (ℕ → Result Bytes) → (ℕ → Reader A) → A → Type 0
Reads written read a =
    (levels depth : ℕ) (bs rest : Bytes)
    → levels + depth ≡ 254
    → written depth ≡ ok bs
    → read levels (bs ++ rest) ≡ (ok a, rest)

abbrev ReadsValue : NovaValue → Type 0
ReadsValue v = IsValue v → Reads (encode_value v) read_value (canonical v)

abbrev ReadsValues : Values → Type 0
ReadsValues vs =
    AreValues vs
    → Reads (encode_values vs) (λ levels. read_values (count_values vs) (read_value levels))
        (canonical_values vs)

abbrev ReadsDocument : Document → Type 0
ReadsDocument d =
    IsDocument d
    → Reads (encode_document d) (λ levels. read_value levels) (document (canonical_document d))

abbrev ReadsFields : Fields → Type 0
ReadsFields fs =
    (id : Bytes) (done : Fields)
    → Before done fs
    → AreFields fs
    → Reads (encode_fields fs)
        (λ levels. read_fields (count_fields fs) (read_value levels) (with_id id done))
        (with_id id (append done (canonical_fields fs)))

inner : {a b : Bytes} → ok a ≡ ok b → b ≡ a
inner e = cc

-- A value that is no array and no document is read alike at all levels.
read_leaf :
    (levels : ℕ) (input : Bytes) (out : Result NovaValue × Bytes)
    → ((read_list read_nested : Reader NovaValue) → read_any read_list read_nested input ≡ out)
    → read_value levels input ≡ out
unfolding read_value
read_leaf zero input out h = h _ _
read_leaf (suc levels) input out h = h _ _

read_boolean :
    (b : Bool) (levels depth : ℕ) (bs rest : Bytes)
    → encode_value (boolean b) depth ≡ ok bs
    → read_value levels (bs ++ rest) ≡ (ok (boolean b), rest)
unfolding encode_value read_any read_byte from_byte read_tagged
read_boolean false levels depth bs rest h = rw (inner h) (read_leaf levels _ _ λ f g. refl)
read_boolean true levels depth bs rest h = rw (inner h) (read_leaf levels _ _ λ f g. refl)

-- What is nested has a level that it takes.
one_level :
    (levels depth : ℕ)
    → levels + depth ≡ 254
    → depth < 254
    → (left : ℕ) × (levels ≡ suc left) × (left + (depth + 1) ≡ 254)
one_level zero depth e h = absurd (omega (arith, e, h))
one_level (suc left) depth e h = (left, refl, omega (arith, e))

read_document-written :
    (id : Bytes) (fs : Fields) (left depth : ℕ) (fields rest : Bytes)
    → ReadsFields fs
    → IsDocument (with_id id fs)
    → left + depth ≡ 254
    → count_fields fs ≤ max_collection_length
    → encode_fields fs depth ≡ ok fields
    → read_document (read_value left) (id ++ write_varint (count_fields fs) ++ fields ++ rest)
      ≡ (ok (canonical_document (with_id id fs)), rest)
unfolding read_document canonical_document IsDocument
read_document-written id fs left depth fields rest ih (sixteen, good) e few written = rw (
  append_assoc,
  append_assoc,
  take_bytes-append 16 id (write_varint (count_fields fs) ++ (fields ++ rest)) sixteen,
  read_count-write_varint (count_fields fs) (fields ++ rest) (ground (arith, few))
      (omega (arith, length-append fields rest, count_fields-le fs depth fields written)),
  ih id no_fields (Before-start fs) good left depth fields rest e written,
)

read_value-Reads : (v : NovaValue) → ReadsValue v
unfolding read_value encode_value read_any read_byte from_byte read_tagged canonical IsValue
read_value-Reads v = elim v as ReadsValue ReadsValues ReadsDocument ReadsFields [
  | null ↦ λ good levels depth bs rest e h. rw (inner h) (read_leaf levels _ _ λ f g. refl)
  | boolean b ↦ λ good levels depth bs rest e h. read_boolean b levels depth bs rest h
  | int64 i ↦ λ good levels depth bs rest e h.
      let (small, same) = of_word-to_word i good in
      rw (inner h)
        (read_leaf levels _ _ λ f g. rw (read_word-to_be_bytes (to_word i) rest small, same))
  | float64 bits ↦ λ good levels depth bs rest e h. rw (inner h) (
      read_leaf levels _ _ λ f g. rw (
        read_word-to_be_bytes (if is_nan bits then nan_bits else bits) rest (ground (arith, good))))
  | string s ↦ λ good levels depth bs rest e h.
      rw (inner h) (read_leaf levels _ _ λ f g. rw (read_string_payload-encode_text s rest good))
  | array (vs → ih) ↦ λ good levels depth bs rest e h.
      let (shallow, few, items, written, same) = encode_array-ok vs depth bs h in
      let (left, up, e') = one_level levels depth e shallow in
      rw (
        up,
        same,
        append_assoc,
        read_count-write_varint (count_values vs) (items ++ rest) (ground (arith, few))
            (omega (arith, length-append items rest, count_values-le vs (depth + 1) items written)),
        ih good left (depth + 1) items rest e' written,
      )
  | document (d → ih) ↦ λ good levels depth bs rest e h. ih good levels depth bs rest e h
  | timestamp i ↦ λ good levels depth bs rest e h.
      let (small, same) = of_word-to_word i good in
      rw (inner h)
        (read_leaf levels _ _ λ f g. rw (read_word-to_be_bytes (to_word i) rest small, same))
  | nova_id id ↦ λ good levels depth bs rest e h.
      rw (inner h) (read_leaf levels _ _ λ f g. rw (take_bytes-append 16 id rest good))
  | no_values ↦ λ good levels depth bs rest e h. rw (inner h) refl
  | value (v → ih) (vs → ihs) ↦ λ good levels depth bs rest e h.
      let (first, head, others, tail, same) = encode_item-ok v vs depth bs h in
      rw (
        same,
        append_assoc,
        ih good.0 levels depth first (others ++ rest) e head,
        ihs good.1 levels depth others rest e tail,
      )
  | with_id id (fs → ih) ↦ λ good levels depth bs rest e h.
      let (shallow, few, fields, written, same) = encode_document-ok id fs depth bs h in
      let (left, up, e') = one_level levels depth e shallow in
      rw (up, same, read_document-written id fs left (depth + 1) fields rest ih good e' few written)
  | no_fields ↦ λ id done b good levels depth bs rest e h.
      rw (inner h) (ap (λ fs. (ok (with_id id fs), rest)) (sym (append-no_fields done)))
  | field k (v → ih) (fs → ihs) ↦ λ id done b good levels depth bs rest e h.
      let (first, head, others, tail, same) = encode_field-ok k v fs depth bs h in
      let (text, above, good_v, good_fs) = good in
      let (below, before) = b in
      rw (
        same,
        append_assoc,
        append_assoc,
        read_string_payload-encode_text k (first ++ (others ++ rest)) text,
        ih good_v levels depth first (others ++ rest) e head,
        get_field-Below k done below,
        insert_field-Below k (canonical v) done below,
        ihs id (append done (field k (canonical v) no_fields))
            (Before-append done k (canonical v) fs before above) good_fs levels depth others rest e
            tail,
        fields_assoc,
      )
]

decode_body :
    (d : Document) (body rest : Bytes)
    → read_value 254 (7 ∷ body) ≡ (ok (document d), rest)
    → read_document (read_value 253) body ≡ (ok d, rest)
unfolding read_value read_any read_byte from_byte read_tagged nested
decode_body d body rest e =
    let (found, left, read, same) = and_then-ok (read_document (read_value 253) body) _ e in cc

read_header_written :
    (rest : Bytes) → read_header (78 ∷ 79 ∷ 86 ∷ 65 ∷ 0 ∷ 0 ∷ 0 ∷ 1 ∷ rest) ≡ (ok tt, rest)
unfolding read_header from_be_bytes
read_header_written rest = rw (
  take_bytes-append 4 magic (0 ∷ 0 ∷ 0 ∷ 1 ∷ rest) refl,
  take_bytes-append 4 (0 ∷ 0 ∷ 0 ∷ 1 ∷ []) rest refl,
)

decode_stream :
    (d : Document) (body : Bytes)
    → read_document (read_value 253) body ≡ (ok d, [])
    → decode (magic ++ to_be_bytes 4 format_version ++ 7 ∷ body) ≡ ok d
unfolding decode read_root read_byte to_be_bytes
decode_stream d body e = rw (decode, read_root, read_header_written (7 ∷ body), e)

-- A stream that `encode` returns is decoded to the document, with every number that is NaN in one form.
-- The document is one that the source's types allow.
pub decode-encode :
    (d : Document) (bs : Bytes)
    → IsDocument d
    → encode d ≡ ok bs
    → decode bs ≡ ok (canonical_document d)
unfolding encode IsValue canonical encode_value
decode-encode (with_id id fs) bs good h =
    let (body, written, same) = >>=-ok (encode_document (with_id id fs) 0) _ h in
    let (shallow, few, fields, inside, parts) = encode_document-ok id fs 0 body written in
    let whole = read_value-Reads (document (with_id id fs)) good 254 0 body [] refl written in
    let root =
      decode_body (canonical_document (with_id id fs)) _ _ (rw (parts, append-nil) at whole) in
    ap decode (inner same ∙ ap (λ b. magic ++ to_be_bytes 4 format_version ++ b) parts)
    ∙ decode_stream _ _ root
