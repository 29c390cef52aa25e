-- ===== src/Nbf/RoundTrip/Again.antt =====
-- crates/nova-nbf/src/lib.rs: what was decoded is encoded to the same bytes.
use novabase.Common.{ℕ, ◌+◌, ◌≡◌, refl, sym, ◌∙◌, Bool-cases, inl, inr, if◌then◌else◌}
use novabase.Common.Result.{Result, ok}
use novabase.Storage.Bytes.{Bytes}
use novabase.Core.Value.{
  NovaValue, Values, Document, Fields, array, document, float64, value, with_id, no_fields,
  no_values, field, count_values, count_fields,
}
use novabase.Nbf.Encode.{
  encode_document, encode_fields, encode_value, encode_values, encode, is_nan, nan_bits,
}
use novabase.Nbf.Decode.{decode}
use novabase.Nbf.RoundTrip.{
  IsDocument, canonical, canonical_values, canonical_document, canonical_fields,
}
use novabase.Nbf.RoundTrip.Documents.{decode-encode}

count_values-canonical : (vs : Values) → count_values (canonical_values vs) ≡ count_values vs
unfolding count_values canonical
count_values-canonical no_values = refl
count_values-canonical (value v vs) = rw (count_values-canonical vs) refl

count_fields-canonical : (fs : Fields) → count_fields (canonical_fields fs) ≡ count_fields fs
unfolding count_fields canonical
count_fields-canonical no_fields = refl
count_fields-canonical (field k v fs) = rw (count_fields-canonical fs) refl

abbrev one_nan : ℕ → ℕ
one_nan bits = if is_nan bits then nan_bits else bits

one_nan_idem : (bits : ℕ) → one_nan (one_nan bits) ≡ one_nan bits
one_nan_idem bits = elim (Bool-cases (is_nan bits)) [
  | inl nan ↦ rw nan refl
  | inr number ↦ rw (number, number) refl
]

abbrev Same : {A : Type 0} → (A → A) → (A → ℕ → Result Bytes) → A → Type 0
Same normal enc a = (depth : ℕ) → enc (normal a) depth ≡ enc a depth

encode_value-canonical : (v : NovaValue) → Same canonical encode_value v
unfolding encode_value canonical
encode_value-canonical v =
    elim v
      as (Same canonical encode_value) (Same canonical_values encode_values) (Same
        canonical_document encode_document) (Same canonical_fields encode_fields) [
          | array (vs → ih) ↦ λ depth. rw (count_values-canonical vs, ih (depth + 1)) refl
          | document (d → ih) ↦ ih
          | float64 bits ↦ λ depth. rw (one_nan_idem bits) refl
          | value (v → ih) (vs → ihs) ↦ λ depth. rw (ih depth, ihs depth) refl
          | with_id id (fs → ih) ↦ λ depth. rw (count_fields-canonical fs, ih (depth + 1)) refl
          | field k (v → ih) (fs → ihs) ↦ λ depth. rw (ih depth, ihs depth) refl
          | _ ↦ λ depth. refl
        ]

encode-canonical_document : (d : Document) → encode (canonical_document d) ≡ encode d
unfolding encode encode_value canonical
encode-canonical_document d = rw (encode_value-canonical (document d) 0) refl

-- What is decoded from a stream that `encode` returned is encoded to the same bytes. The document that
-- was encoded is one that the source's types allow.
pub encode_again :
    (d found : Document) (bs : Bytes)
    → IsDocument d
    → encode d ≡ ok bs
    → decode bs ≡ ok found
    → encode found ≡ ok bs
encode_again d found bs good h e =
    let same : canonical_document d ≡ found = cc (decode-encode d bs good h, e) in
    rw (sym same) (encode-canonical_document d ∙ h)
