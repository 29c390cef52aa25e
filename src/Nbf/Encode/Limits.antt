-- ===== src/Nbf/Encode/Limits.antt =====
-- crates/nova-nbf/src/lib.rs: the documents that `encode` refuses.
use novabase.Common.{
  ℕ, ◌+◌, ◌<◌, ◌≤◌, ◌≡◌, ◌⊎◌, inl, inr, refl, true, false, Bool-cases, max, ◌++◌, arith, ltb, leb,
}
use novabase.Common.Result.{Result, ok, err, invalid_argument}
use novabase.Common.Checked.{◌>>=◌, ◌>>◌}
use novabase.Storage.Bytes.{Bytes, to_be_bytes}
use novabase.Core.Value.{
  NovaValue, Values, Document, Fields, null, boolean, int64, float64, string, array, document,
  timestamp, nova_id, no_values, value, with_id, no_fields, field, count_values, count_fields,
}
use novabase.Nbf.Encode.{
  magic, format_version, max_nesting_depth, max_collection_length, check_encode_depth,
  check_encode_count, encode_document, encode_fields, encode_value, encode_values, encode,
}

-- How deep arrays and documents are nested, and the size of the largest of them.
unfoldable mutual
  unfolding count_values count_fields

  pub height : NovaValue → ℕ
  height (array vs) = height_values vs + 1
  height (document d) = height_document d
  height _ = 0

  height_values : Values → ℕ
  height_values no_values = 0
  height_values (value v vs) = max (height v) (height_values vs)

  pub height_document : Document → ℕ
  height_document (with_id id fs) = height_fields fs + 1

  height_fields : Fields → ℕ
  height_fields no_fields = 0
  height_fields (field k v fs) = max (height v) (height_fields fs)

  pub widest : NovaValue → ℕ
  widest (array vs) = max (count_values vs) (widest_values vs)
  widest (document d) = widest_document d
  widest _ = 0

  widest_values : Values → ℕ
  widest_values no_values = 0
  widest_values (value v vs) = max (widest v) (widest_values vs)

  pub widest_document : Document → ℕ
  widest_document (with_id id fs) = max (count_fields fs) (widest_fields fs)

  widest_fields : Fields → ℕ
  widest_fields no_fields = 0
  widest_fields (field k v fs) = max (widest v) (widest_fields fs)

-- Bytes within the limits, and an error beyond them
abbrev pub Outcome : Result Bytes → ℕ → ℕ → Type 0
Outcome written high wide =
    ((bs : Bytes) × (written ≡ ok bs) × (high ≤ max_nesting_depth) × (wide ≤ max_collection_length))
    ⊎ ((written ≡ err invalid_argument)
        × ((max_nesting_depth < high) ⊎ (max_collection_length < wide)))

abbrev Limited : {A : Type 0} → (A → ℕ → Result Bytes) → (A → ℕ) → (A → ℕ) → A → Type 0
Limited enc high wide a =
    (depth : ℕ) → depth ≤ max_nesting_depth → Outcome (enc a depth) (high a + depth) (wide a)

both :
    {x y : Result Bytes} (hx hy wx wy depth : ℕ) (f : Bytes → Bytes → Bytes)
    → Outcome x (hx + depth) wx
    → Outcome y (hy + depth) wy
    → Outcome (x >>= λ a. y >>= λ b. ok (f a b)) (max hx hy + depth) (max wx wy)
both hx hy wx wy depth f (inl (a, e, h, w)) (inl (b, e', h', w')) =
    inl (f a b, rw (e, e') refl, omega (arith, h, h'), omega (arith, w, w'))
both hx hy wx wy depth f (inl (a, e, h, w)) (inr (e', inl over)) =
    inr (rw (e, e') refl, inl (omega (arith, over)))
both hx hy wx wy depth f (inl (a, e, h, w)) (inr (e', inr over)) =
    inr (rw (e, e') refl, inr (omega (arith, over)))
both hx hy wx wy depth f (inr (e, inl over)) y = inr (rw e refl, inl (omega (arith, over)))
both hx hy wx wy depth f (inr (e, inr over)) y = inr (rw e refl, inr (omega (arith, over)))

within_one :
    {x : Result Bytes} (high wide count depth : ℕ) (f : Bytes → Bytes)
    → depth ≤ max_nesting_depth
    → (depth + 1 ≤ max_nesting_depth → Outcome x (high + (depth + 1)) wide)
    → Outcome
        (check_encode_depth depth >> (check_encode_count count >> (x >>= λ a. ok (f a))))
        (high + 1 + depth)
        (max count wide)
unfolding check_encode_depth check_encode_count
within_one high wide count depth f h k = elim (Bool-cases (leb max_nesting_depth depth)) [
  | inl deep ↦ inr (rw deep refl, inl (ground (arith, deep)))
  | inr shallow ↦ elim (Bool-cases (ltb max_collection_length count)) [
    | inl many ↦ inr (rw (shallow, many) refl, inr (ground (arith, many)))
    | inr few ↦ elim (k (ground (arith, shallow))) [
      | inl (a, e, h', w) ↦
          inl (f a, rw (shallow, few, e) refl, omega (arith, h'), ground (arith, w, few))
      | inr (e, inl over) ↦ inr (rw (shallow, few, e) refl, inl (omega (arith, over)))
      | inr (e, inr over) ↦ inr (rw (shallow, few, e) refl, inr (omega (arith, over)))
    ]
  ]
]

flat : (bs : Bytes) (depth : ℕ) → depth ≤ max_nesting_depth → Outcome (ok bs) (0 + depth) 0
flat bs depth h = inl (bs, refl, omega (arith, h), omega arith)

encode_value-Limited : (v : NovaValue) → Limited encode_value height widest v
unfolding encode_value height
encode_value-Limited v =
    elim v
      as (Limited encode_value height widest) (Limited encode_values height_values
        widest_values) (Limited encode_document height_document widest_document) (Limited
          encode_fields height_fields widest_fields) [
            | array (vs → ih) ↦
                λ depth h. within_one _ _ (count_values vs) depth _ h (ih (depth + 1))
            | document (d → ih) ↦ ih
            | value (v → ih) (vs → ihs) ↦ λ depth h. both _ _ _ _ depth _ (ih depth h) (ihs depth h)
            | with_id id (fs → ih) ↦
                λ depth h. within_one _ _ (count_fields fs) depth _ h (ih (depth + 1))
            | field k (v → ih) (fs → ihs) ↦
                λ depth h. both _ _ _ _ depth _ (ih depth h) (ihs depth h)
            | boolean b ↦ elim b as (λ b. Limited encode_value height widest (boolean b)) [
              | false ↦ flat _
              | true ↦ flat _
            ]
            | no_values ↦ flat _
            | no_fields ↦ flat _
            | null ↦ flat _
            | int64 i ↦ flat _
            | float64 bits ↦ flat _
            | string s ↦ flat _
            | timestamp millis ↦ flat _
            | nova_id id ↦ flat _
          ]

-- A document is encoded when nothing in it is nested deeper than 254 levels and no array or document
-- has more than 2^20 parts, and is refused as an invalid argument otherwise.
pub encode_limits : (d : Document) → Outcome (encode d) (height_document d) (widest_document d)
unfolding encode height_document
encode_limits d = elim (encode_value-Limited (document d) 0 (omega arith)) [
  | inl (bs, e, h, w) ↦
      inl (magic ++ to_be_bytes 4 format_version ++ bs, rw e refl, omega (arith, h), w)
  | inr (e, over) ↦ inr (rw e refl, ground (arith, over))
]
