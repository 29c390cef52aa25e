-- ===== src/Tests/Nbf.antt =====
-- crates/nova-nbf: a document with an array, a nested document and a number that is NaN.
use novabase.Common.{◌≡◌, ◌↔◌, ◌⊎◌, refl, true, [], ◌∷◌, ◌++◌, arith}
use novabase.Common.Int.{negsuc}
use novabase.Common.Result.{ok, err, corruption, unsupported}
use novabase.Storage.Bytes.{Bytes}
use novabase.Core.Text.{is_utf8}
use novabase.Core.Value.{
  Values, Document, null, boolean, int64, float64, array, document, no_values, value, with_id,
  no_fields, field,
}
use novabase.Nbf.Varint.{write_varint, read_varint, read_varint_iff}
use novabase.Nbf.Encode.{encode, magic}
use novabase.Nbf.Encode.Limits.{Outcome, height_document, widest_document, encode_limits}
use novabase.Nbf.Decode.{decode}
use novabase.Nbf.Decode.Streams.{decode-err, IsOtherVersion}
use novabase.Nbf.RoundTrip.{IsDocument, canonical_document}
use novabase.Nbf.RoundTrip.Documents.{decode-encode}
use novabase.Nbf.RoundTrip.Again.{encode_again}

abbrev some_id : Bytes
some_id = 1 ∷ 2 ∷ 3 ∷ 4 ∷ 5 ∷ 6 ∷ 7 ∷ 8 ∷ 9 ∷ 10 ∷ 11 ∷ 12 ∷ 13 ∷ 14 ∷ 15 ∷ 16 ∷ []

-- {"a": [null, -5, NaN], "b": {"é": true}}
abbrev sample : Document
sample =
    with_id some_id (field (97 ∷ []) (array parts) (field (98 ∷ []) (document inside) no_fields))
  where
    parts : Values
    parts = value null (value (int64 (negsuc 4)) (value (float64 0x7ff8000000000001) no_values))

    inside : Document
    inside = with_id some_id (field (195 ∷ 169 ∷ []) (boolean true) no_fields)

abbrev stream : Bytes
stream =
    magic
    ++ 0 ∷ 0 ∷ 0 ∷ 1 ∷ 7 ∷ some_id
    ++ 2 ∷ 1 ∷ 97 ∷ 6 ∷ 3 ∷ 0 ∷ 3 ∷ 255 ∷ 255 ∷ 255 ∷ 255 ∷ 255 ∷ 255 ∷ 255 ∷ 251 ∷ 4 ∷ 127 ∷ 248
      ∷ 0 ∷ 0 ∷ 0 ∷ 0 ∷ 0 ∷ 0 ∷ 1 ∷ 98 ∷ 7 ∷ some_id
    ++ 1 ∷ 2 ∷ 195 ∷ 169 ∷ 2 ∷ []

stream-sample : encode sample ≡ ok stream
unfolding encode
stream-sample = refl

sample-IsDocument : IsDocument sample
unfolding IsDocument is_utf8
sample-IsDocument = (
  refl,
  (
    (refl, omega arith),
    (refl, tt),
    (tt, (omega arith, (omega arith, tt))),
    ((refl, omega arith), tt, (refl, ((refl, omega arith), tt, tt, tt)), tt),
  ),
)

decode-encode_example : decode stream ≡ ok (canonical_document sample)
decode-encode_example = decode-encode sample stream sample-IsDocument stream-sample

encode_again_example : encode (canonical_document sample) ≡ ok stream
encode_again_example =
    encode_again sample (canonical_document sample) stream sample-IsDocument stream-sample
      decode-encode_example

read_varint_iff_example :
    read_varint (172 ∷ 2 ∷ 7 ∷ []) ≡ ok (300, 7 ∷ [])
    ↔ (172 ∷ 2 ∷ 7 ∷ [] ≡ write_varint 300 ++ 7 ∷ [])
read_varint_iff_example =
    read_varint_iff 300 (172 ∷ 2 ∷ 7 ∷ []) (7 ∷ []) (omega arith)
      (omega arith, (omega arith, (omega arith, tt)))

encode_limits_example : Outcome (encode sample) (height_document sample) (widest_document sample)
encode_limits_example = encode_limits sample

-- a stream of version 2
abbrev later : Bytes
later = magic ++ 0 ∷ 0 ∷ 0 ∷ 2 ∷ 7 ∷ []

later_refused : decode later ≡ err unsupported
unfolding decode
later_refused = refl

decode-err_example :
    (unsupported ≡ corruption) ⊎ ((unsupported ≡ unsupported) × IsOtherVersion later)
decode-err_example = decode-err later unsupported later_refused

-- Fields in another order are read too.
any_order :
    decode (magic ++ 0 ∷ 0 ∷ 0 ∷ 1 ∷ 7 ∷ some_id ++ 2 ∷ 1 ∷ 98 ∷ 0 ∷ 1 ∷ 97 ∷ 0 ∷ [])
    ≡ ok (with_id some_id (field (97 ∷ []) null (field (98 ∷ []) null no_fields)))
unfolding decode
any_order = refl
