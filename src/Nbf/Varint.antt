-- ===== src/Nbf/Varint.antt =====
-- crates/nova-nbf/src/varint.rs: 64-bit words in groups of seven bits, the lowest first.
use novabase.Common.{
  ℕ, zero, suc, ◌+◌, ◌*◌, ◌/◌, ◌%◌, ◌^◌, ◌<◌, ◌≡◌, ◌↔◌, refl, ap, ◌∙◌, true, false, ◌&&◌,
  Bool-cases, inl, inr, [], ◌∷◌, ◌++◌, arith, ltb, leb, ◌==◌, if◌then◌else◌, All,
}
use native.Mathlib.Nat.{pow-suc, add-mul, mul_comm, mul_left_comm, div-add-mod'}
use novabase.Common.Result.{Result, ok, err, corruption}
use novabase.Storage.Bytes.{Bytes, IsByte}

abbrev pub max_varint_bytes : ℕ
max_varint_bytes = 10

-- the loop of `write_varint`, whose rounds each divide the word by 128
unfoldable pub write_loop : ℕ → ℕ → Bytes
write_loop zero value = []
write_loop (suc rounds) value =
    let rest = write_loop rounds (value / 128) in
    if leb 128 value then (value % 128 + 128) ∷ rest else value ∷ []

-- `write_varint`; ten rounds are enough for 64 bits
unfoldable pub write_varint : ℕ → Bytes
unfolding write_loop
write_varint value = write_loop max_varint_bytes value

-- the loop of `read_varint` from the byte `index` on; the groups do not overlap, so that `|=` adds
unfoldable pub read_loop : ℕ → ℕ → ℕ → Bytes → Result (ℕ × Bytes)
read_loop zero index value input = err corruption
read_loop (suc rounds) index value [] = err corruption
read_loop (suc rounds) index value (byte ∷ input) =
    let payload = byte % 128 in
    let sum = value + payload * 2 ^ (index * 7) in
    let rest = read_loop rounds (index + 1) sum input in
    if index == 9 && ltb 1 payload
    then err corruption
    else if ltb byte 128
    then (if ltb 0 index && payload == 0 then err corruption else ok (sum, input))
    else rest

-- `read_varint`
unfoldable pub read_varint : Bytes → Result (ℕ × Bytes)
unfolding read_loop
read_varint input = read_loop max_varint_bytes 0 0 input

next_group : (i : ℕ) → 2 ^ ((i + 1) * 7) ≡ 2 ^ (i * 7) * 128
next_group i = ap (λ e. 2 ^ e) (omega arith) ∙ seven (i * 7)
  where
    seven : (k : ℕ) → 2 ^ suc (suc (suc (suc (suc (suc (suc k)))))) ≡ 2 ^ k * 128
    seven k = omega (
      arith,
      pow-suc 2 k,
      pow-suc 2 (suc k),
      pow-suc 2 (suc (suc k)),
      pow-suc 2 (suc (suc (suc k))),
      pow-suc 2 (suc (suc (suc (suc k)))),
      pow-suc 2 (suc (suc (suc (suc (suc k))))),
      pow-suc 2 (suc (suc (suc (suc (suc (suc k)))))),
    )

scaled : (value s : ℕ) → value % 128 * s + value / 128 * (s * 128) ≡ value * s
scaled value s =
    let q = value / 128 in
    omega (
      arith,
      add-mul (q * 128) (value % 128) s,
      mul_left_comm q s 128,
      mul_comm (q * 128) s,
      ap (λ v. v * s) (div-add-mod' value 128),
    )

-- What stays of a word that needs more groups.
rest_bound : (value s : ℕ) → value * s < 2 ^ 64 → value / 128 * (s * 128) < 2 ^ 64
rest_bound value s h = omega (arith, h, scaled value s)

last_group : (index value : ℕ) → index ≡ 9 → value * 2 ^ (index * 7) < 2 ^ 64 → value < 2
last_group index value e h = omega (arith, rw e at h)

read_loop-write_loop :
    (rounds index acc value : ℕ) (rest : Bytes)
    → rounds + index ≡ 10
    → value * 2 ^ (index * 7) < 2 ^ 64
    → (0 < index → 0 < value)
    → read_loop rounds index acc (write_loop rounds value ++ rest)
      ≡ ok (acc + value * 2 ^ (index * 7), rest)
unfolding read_loop write_loop
read_loop-write_loop zero index acc value rest e h p =
    let ten : index ≡ 10 = omega (arith, e) in
    absurd (omega (arith, rw ten at h, p (omega (arith, ten))))
read_loop-write_loop (suc rounds) index acc value rest e h p = elim (Bool-cases (leb 128 value)) [
  | inl more ↦
      let ih =
        read_loop-write_loop rounds (index + 1) (acc + value % 128 * 2 ^ (index * 7)) (value / 128)
          rest (omega (arith, e)) (rw next_group (rest_bound value (2 ^ (index * 7)) h))
          (λ q. ground (arith, more)) in
      ground
        (arith, more, ih, scaled value (2 ^ (index * 7)), next_group index, last_group index value)
  | inr last ↦ ground (arith, last, p, last_group index value)
]

-- Every 64-bit word is read back from what was written of it, and what follows it is left.
pub read_varint-write_varint :
    (value : ℕ) (rest : Bytes)
    → value < 2 ^ 64
    → read_varint (write_varint value ++ rest) ≡ ok (value, rest)
unfolding read_varint write_varint
read_varint-write_varint value rest h =
    read_loop-write_loop 10 0 0 value rest refl (omega (arith, h)) (λ q. omega (arith, q))
    ∙ ap (λ v. ok (v, rest)) (omega arith)

group_scaled : (byte w s : ℕ) → (byte % 128 + w * 128) * s ≡ byte % 128 * s + w * (s * 128)
group_scaled byte w s =
    omega (arith, add-mul (byte % 128) (w * 128) s, mul_left_comm w s 128, mul_comm (w * 128) s)

write_group :
    (rounds byte w : ℕ) (input rest : Bytes)
    → byte < 256
    → ltb byte 128 ≡ false
    → 0 < w
    → input ≡ write_loop rounds w ++ rest
    → byte ∷ input ≡ write_loop (suc rounds) (byte % 128 + w * 128) ++ rest
unfolding write_loop
write_group rounds byte w input rest b more p same =
    let large : leb 128 (byte % 128 + w * 128) ≡ true = ground (arith, p) in
    rw large (cc (same, byte_again, w_again))
  where
    byte_again : (byte % 128 + w * 128) % 128 + 128 ≡ byte
    byte_again = ground (arith, b, more)

    w_again : (byte % 128 + w * 128) / 128 ≡ w
    w_again = omega arith

read_loop-Written :
    (rounds index acc value : ℕ) (input rest : Bytes)
    → All IsByte input
    → read_loop rounds index acc input ≡ ok (value, rest)
    → (w : ℕ) × (value ≡ acc + w * 2 ^ (index * 7))
      × (0 < index → 0 < w)
      × (input ≡ write_loop rounds w ++ rest)
unfolding read_loop write_loop
read_loop-Written zero index acc value input rest a e = cc
read_loop-Written (suc rounds) index acc value [] rest a e = cc
read_loop-Written (suc rounds) index acc value (byte ∷ input) rest (b, a) e =
    elim (Bool-cases (ltb byte 128)) [
      | inl last ↦ (
        byte,
        ground (arith, last, e),
        (λ q. ground (arith, last, e, q)),
        ground (arith, last, e),
      )
      | inr more ↦
          let (w, sum, p, same) =
            read_loop-Written rounds (index + 1) (acc + byte % 128 * 2 ^ (index * 7)) value input
              rest a (ground (arith, more, e)) in
          (
            byte % 128 + w * 128,
            omega (
              arith,
              sum,
              group_scaled byte w (2 ^ (index * 7)),
              ap (λ s. w * s) (next_group index),
            ),
            (λ q. omega (arith, p (omega arith))),
            write_group rounds byte w input rest b more (p (omega arith)) same,
          )
    ]

-- Words are written in one way only: bytes that are read as a word are what is written of it.
pub read_varint-Written :
    (input : Bytes) (value : ℕ) (rest : Bytes)
    → All IsByte input
    → read_varint input ≡ ok (value, rest)
    → input ≡ write_varint value ++ rest
unfolding read_varint write_varint
read_varint-Written input value rest a e =
    let (w, sum, p, same) = read_loop-Written 10 0 0 value input rest a e in
    same ∙ ap (λ v. write_loop 10 v ++ rest) (omega (arith, sum))

-- The reader and the writer of words agree: on bytes, a word of 64 bits is read with a rest exactly when
-- the input is what is written of the word, and the rest. A word has one encoding, the shortest.
pub read_varint_iff :
    (value : ℕ) (input rest : Bytes)
    → value < 2 ^ 64
    → All IsByte input
    → read_varint input ≡ ok (value, rest) ↔ (input ≡ write_varint value ++ rest)
read_varint_iff value input rest h a = (
  read_varint-Written input value rest a,
  λ e. ap read_varint e ∙ read_varint-write_varint value rest h,
)
