-- ===== src/Nbf/Decode/Streams.antt =====
-- crates/nova-nbf/src/lib.rs: the errors of the header and of whole streams.
use novabase.Common.{
  ℕ, ◌≡◌, ◌≢◌, ◌⊎◌, inl, inr, sym, ap, ◌∙◌, Bool, true, not, arith, length, take, drop, ◌==◌,
}
use novabase.Common.Result.{
  NovaError, Result, ok, err, corruption, unsupported, ◌>>=◌, ◌>>◌, return, fail_if, fail_if-ok,
  gets, and_then-err,
}
use novabase.Storage.Bytes.{Bytes, from_be_bytes}
use novabase.Core.Value.{Document, same_bytes}
use novabase.Core.Fields.{same_bytes-eq}
use novabase.Nbf.Encode.{magic, format_version}
use novabase.Nbf.Decode.{
  take_bytes, read_byte, read_header, read_document, read_value, read_root, decode,
}
use novabase.Nbf.Decode.Errors.{
  FindsCorruption, corrupt, fail_if-FindsCorruption, take_bytes-FindsCorruption,
  read_document-FindsCorruption, read_value-FindsCorruption,
}

take_bytes-ok :
    (n : ℕ) (input found rest : Bytes)
    → take_bytes n input ≡ (ok found, rest)
    → (found ≡ take n input) × (rest ≡ drop n input)
unfolding take_bytes
take_bytes-ok n input found rest p = ground (arith, p)

fail_if-err :
    (b : Bool) (kind e : NovaError) (input rest : Bytes)
    → ◌≡◌ {A = Result (Unit {0}) × Bytes} (fail_if b kind input) (err e, rest)
    → (b ≡ true) × (e ≡ kind)
fail_if-err b kind e input rest p = ground (arith, p)

-- The version of a stream is not the one that is supported.
abbrev pub IsOtherVersion : Bytes → Type 0
IsOtherVersion bs = (take 4 bs ≡ magic) × (from_be_bytes (take 4 (drop 4 bs)) ≢ format_version)

read_header-err :
    (input rest : Bytes) (e : NovaError)
    → read_header input ≡ (err e, rest)
    → (e ≡ corruption) ⊎ ((e ≡ unsupported) × IsOtherVersion input)
unfolding read_header
read_header-err input rest e p = elim (and_then-err (take_bytes 4 input) _ p) [
  | inl short ↦ inl (take_bytes-FindsCorruption 4 input rest e short)
  | inr (found, left, taken, p') ↦
      elim (and_then-err (fail_if (not (same_bytes found magic)) corruption left) _ p') [
        | inl bad ↦ inl (fail_if-FindsCorruption (not (same_bytes found magic)) left rest e bad)
        | inr (u, left', good, p'') ↦ elim (and_then-err (take_bytes 4 left') _ p'') [
          | inl short ↦ inl (take_bytes-FindsCorruption 4 left' rest e short)
          | inr (version, left'', taken', last) ↦
              let (other, kind) = fail_if-err _ unsupported e left'' rest last in
              let (good', same) = fail_if-ok _ corruption good in
              let (magic_found, moved) = take_bytes-ok 4 input found left taken in
              let (version_found, moved') = take_bytes-ok 4 left' version left'' taken' in
              inr (
                kind,
                (
                  sym magic_found ∙ same_bytes-eq found magic (ground (arith, good')),
                  λ v.
                      let known : from_be_bytes version ≡ format_version =
                        ap from_be_bytes (version_found ∙ ap (take 4) (same ∙ moved)) ∙ v in
                      ground (arith, rw known at other),
                ),
              )
        ]
      ]
]

-- `decode` fails with `Corruption`, and with `Unsupported` only where the magic is right and the
-- version that follows it is not the version of the format.
pub decode-err :
    (bs : Bytes) (e : NovaError)
    → decode bs ≡ err e
    → (e ≡ corruption) ⊎ ((e ≡ unsupported) × IsOtherVersion bs)
unfolding decode read_root
decode-err bs e p = elim (and_then-err (read_header bs) _ (failed (read_root bs) p)) [
  | inl first ↦ read_header-err bs _ e first
  | inr (u, left, same, later) ↦ inl (body left _ e later)
]
  where
    failed : (x : Result Document × Bytes) → x.0 ≡ err e → x ≡ (err e, x.1)
    failed x h = ap (λ r. (r, x.1)) h

    whole : FindsCorruption (read_document (read_value 253))
    whole = read_document-FindsCorruption (read_value 253) (read_value-FindsCorruption 253)

    body : FindsCorruption do
      tag ← read_byte
      fail_if (not (tag == 7)) corruption
      d ← read_document (read_value 253)
      left ← gets length
      fail_if (not (left == 0)) corruption
      return d
    body = search (corrupt, whole) depth 12 fits 10000
