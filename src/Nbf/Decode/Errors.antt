-- ===== src/Nbf/Decode/Errors.antt =====
-- crates/nova-nbf/src/lib.rs: the errors of `decode`.
use novabase.Common.{
  ℕ, zero, suc, ◌+◌, ◌*◌, ◌%◌, ◌^◌, ◌≡◌, inl, inr, ap, Bool, Option, none, some, [], ◌∷◌, arith,
}
use novabase.Common.Result.{
  NovaError, Result, ok, err, corruption, ◌>>=◌, return, fail, fail_if, gets, lift, ok_or,
  and_then-err,
}
use novabase.Storage.Bytes.{Bytes}
use novabase.Core.Value
use novabase.Core.Value.{NovaValue, Document, same_bytes, new_document}
use novabase.Nbf.Varint.{read_varint, read_loop}
use novabase.Nbf.Encode.{
  Tag, null_tag, false_tag, true_tag, int64_tag, float64_tag, string_tag, array_tag, document_tag,
  timestamp_tag, nova_id_tag,
}
use novabase.Nbf.Decode.{
  Reader, take_bytes, read_byte, read_varint_value, read_length, read_count, read_string_payload,
  read_word, read_fields, read_document, read_values, read_array, read_tagged, read_any, nested,
  read_value,
}

-- A reader that fails finds corruption.
abbrev pub FindsCorruption : {A : Type 0} → Reader A → Type 0
FindsCorruption {A} read =
    (input rest : Bytes) (e : NovaError) → read input ≡ (err e, rest) → e ≡ corruption

pub bind-FindsCorruption :
    {A B : Type 0} (read : Reader A) (f : A → Reader B)
    → FindsCorruption read
    → ((a : A) → FindsCorruption (f a))
    → FindsCorruption (read >>= f)
bind-FindsCorruption read f h k input rest e p = elim (and_then-err (read input) f p) [
  | inl first ↦ h input rest e first
  | inr (a, left, same, later) ↦ k a left rest e later
]

pub return-FindsCorruption : {A : Type 0} (a : A) → FindsCorruption (return a)
return-FindsCorruption a input rest e p = cc

pub fail_if-FindsCorruption : (b : Bool) → FindsCorruption (fail_if b corruption)
fail_if-FindsCorruption b input rest e p = ground (arith, p)

pub gets-FindsCorruption : {A : Type 0} (f : Bytes → A) → FindsCorruption (gets f)
gets-FindsCorruption f input rest e p = cc

pub take_bytes-FindsCorruption : (n : ℕ) → FindsCorruption (take_bytes n)
unfolding take_bytes
take_bytes-FindsCorruption n input rest e p = ground (arith, p)

pub read_byte-FindsCorruption : FindsCorruption read_byte
unfolding read_byte
read_byte-FindsCorruption [] rest e p = ground (arith, p)
read_byte-FindsCorruption (b ∷ input) rest e p = cc

read_loop-err :
    (rounds index acc : ℕ) (input : Bytes) (e : NovaError)
    → read_loop rounds index acc input ≡ err e
    → e ≡ corruption
unfolding read_loop
read_loop-err zero index acc input e p = ground (arith, p)
read_loop-err (suc rounds) index acc [] e p = ground (arith, p)
read_loop-err (suc rounds) index acc (b ∷ input) e p =
    ground (arith, p, read_loop-err rounds (index + 1) (acc + b % 128 * 2 ^ (index * 7)) input e)

pub read_varint_value-FindsCorruption : FindsCorruption read_varint_value
unfolding read_varint_value read_varint
read_varint_value-FindsCorruption input rest e p =
    known (read_varint input) p (read_loop-err 10 0 0 input e)
  where
    known :
        (r : Result (ℕ × Bytes))
        → ◌≡◌ {A = Result ℕ × Bytes}
            (elim r as (λ k. Result ℕ × Bytes) [
              | ok (v, left) ↦ (ok v, left)
              | err e ↦ (err e, input)
            ])
            (err e, rest)
        → (r ≡ err e → e ≡ corruption)
        → e ≡ corruption
    known (ok (v, left)) p h = cc
    known (err found) p h = h (ap err (ground (arith, p)))

pub ruleset corrupt = (
  bind-FindsCorruption, return-FindsCorruption, fail_if-FindsCorruption, gets-FindsCorruption,
  take_bytes-FindsCorruption, read_byte-FindsCorruption, read_varint_value-FindsCorruption,
)

read_length-FindsCorruption : FindsCorruption read_length
unfolding read_length
read_length-FindsCorruption = search corrupt

read_count-FindsCorruption : FindsCorruption read_count
unfolding read_count
read_count-FindsCorruption = search corrupt

read_string_payload-FindsCorruption : FindsCorruption read_string_payload
unfolding read_string_payload
read_string_payload-FindsCorruption = search (corrupt, read_length-FindsCorruption)

read_word-FindsCorruption : FindsCorruption read_word
unfolding read_word
read_word-FindsCorruption = search corrupt

read_fields-FindsCorruption :
    (n : ℕ) (read_one : Reader NovaValue) (d : Document)
    → FindsCorruption read_one
    → FindsCorruption (read_fields n read_one d)
unfolding read_fields
read_fields-FindsCorruption zero read_one d h = search corrupt
read_fields-FindsCorruption (suc n) read_one d h = search (
  corrupt,
  read_string_payload-FindsCorruption,
  h,
  λ (k : Bytes) (v : NovaValue). read_fields-FindsCorruption n read_one (Value.insert k v d).1 h,
)

pub read_document-FindsCorruption :
    (read_one : Reader NovaValue)
    → FindsCorruption read_one
    → FindsCorruption (read_document read_one)
unfolding read_document
read_document-FindsCorruption read_one h = search (
  corrupt,
  read_count-FindsCorruption,
  λ (n : ℕ) (id : Bytes). read_fields-FindsCorruption n read_one (new_document id) h,
)

read_values-FindsCorruption :
    (n : ℕ) (read_one : Reader NovaValue)
    → FindsCorruption read_one
    → FindsCorruption (read_values n read_one)
unfolding read_values
read_values-FindsCorruption zero read_one h = search corrupt
read_values-FindsCorruption (suc n) read_one h =
    search (corrupt, h, read_values-FindsCorruption n read_one h)

read_array-FindsCorruption :
    (read_one : Reader NovaValue) → FindsCorruption read_one → FindsCorruption (read_array read_one)
unfolding read_array
read_array-FindsCorruption read_one h =
    search
      (corrupt, read_count-FindsCorruption, λ (n : ℕ). read_values-FindsCorruption n read_one h)

nested-FindsCorruption :
    (read_one : Reader NovaValue) → FindsCorruption read_one → FindsCorruption (nested read_one)
unfolding nested
nested-FindsCorruption read_one h = search (corrupt, read_document-FindsCorruption read_one h)

module _ (read_list read_nested : Reader NovaValue) (h : FindsCorruption read_list)
    (k : FindsCorruption read_nested) where
  read_tagged-FindsCorruption :
      (tag : Tag) → FindsCorruption (read_tagged read_list read_nested tag)
  unfolding read_tagged
  read_tagged-FindsCorruption null_tag = search corrupt
  read_tagged-FindsCorruption false_tag = search corrupt
  read_tagged-FindsCorruption true_tag = search corrupt
  read_tagged-FindsCorruption int64_tag = search (corrupt, read_word-FindsCorruption)
  read_tagged-FindsCorruption float64_tag = search (corrupt, read_word-FindsCorruption)
  read_tagged-FindsCorruption string_tag = search (corrupt, read_string_payload-FindsCorruption)
  read_tagged-FindsCorruption array_tag = h
  read_tagged-FindsCorruption document_tag = k
  read_tagged-FindsCorruption timestamp_tag = search (corrupt, read_word-FindsCorruption)
  read_tagged-FindsCorruption nova_id_tag = search corrupt

  known_tag : (tag : Option Tag) → FindsCorruption (lift (ok_or tag corruption))
  known_tag none input rest e p = ground (arith, p)
  known_tag (some tag) input rest e p = cc

  read_any-FindsCorruption : FindsCorruption (read_any read_list read_nested)
  unfolding read_any
  read_any-FindsCorruption = search (corrupt, known_tag, read_tagged-FindsCorruption)

fail-FindsCorruption : {A : Type 0} → FindsCorruption {A = A} (fail corruption)
fail-FindsCorruption input rest e p = ground (arith, p)

pub read_value-FindsCorruption : (levels : ℕ) → FindsCorruption (read_value levels)
unfolding read_value
read_value-FindsCorruption zero =
    read_any-FindsCorruption _ _ fail-FindsCorruption fail-FindsCorruption
read_value-FindsCorruption (suc levels) =
    let h = read_value-FindsCorruption levels in
    read_any-FindsCorruption _ _ (read_array-FindsCorruption _ h) (nested-FindsCorruption _ h)
