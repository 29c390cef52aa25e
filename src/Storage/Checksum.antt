-- ===== src/Storage/Checksum.antt =====
-- crates/nova-storage/src/checksum.rs: CRC-32 with a range of bytes read as zero. The write-ahead
-- log has the same function once more.
use Prim.Native.Nat.{bit_and, bit_xor}
use novabase.Common.{
  ℕ, zero, suc, ◌-◌, ◌/◌, ◌%◌, ◌^◌, ◌<◌, ◌≡◌, refl, ap, ◌∙◌, ◌&&◌, [], ◌∷◌, arith, ltb, leb,
  if◌then◌else◌,
}
use novabase.Storage.Bytes.{Bytes}

-- One of the eight rounds for a byte; `0_u32.wrapping_sub(crc & 1)` is the mask.
crc_round : ℕ → ℕ
crc_round crc =
    let mask = (2 ^ 32 - bit_and crc 1) % 2 ^ 32 in bit_xor (crc / 2) (bit_and 0xedb88320 mask)

crc_rounds : ℕ → ℕ → ℕ
unfolding crc_round
crc_rounds zero crc = crc
crc_rounds (suc n) crc = crc_rounds n (crc_round crc)

-- the byte at `index`, or zero within `from..to`
abbrev pub masked : ℕ → ℕ → ℕ → ℕ → ℕ
masked from to index byte = if leb from index && ltb index to then 0 else byte

crc_loop : ℕ → ℕ → ℕ → ℕ → Bytes → ℕ
unfolding crc_rounds
crc_loop from to index crc [] = 2 ^ 32 - 1 - crc
crc_loop from to index crc (byte ∷ bytes) =
    crc_loop from to (suc index) (crc_rounds 8 (bit_xor crc (masked from to index byte))) bytes

-- `crc32(bytes, from..to)`; the last step, `!crc`, is the difference from 2 ^ 32 - 1
unfoldable pub crc32 : Bytes → ℕ → ℕ → ℕ
unfolding crc_loop
crc32 bytes from to = crc_loop from to 0 (2 ^ 32 - 1) bytes

crc_loop_bound : (from to i c : ℕ) (bs : Bytes) → crc_loop from to i c bs < 2 ^ 32
unfolding crc_loop
crc_loop_bound from to i c [] = omega arith
crc_loop_bound from to i c (b ∷ bs) = crc_loop_bound from to (suc i) _ bs

-- The checksum is a 32-bit word.
pub crc32_bound : (bs : Bytes) (from to : ℕ) → crc32 bs from to < 2 ^ 32
unfolding crc32
crc32_bound bs from to = crc_loop_bound from to 0 _ bs

-- The bytes as the checksum reads them.
unfoldable pub masks : ℕ → ℕ → ℕ → Bytes → Bytes
masks from to i [] = []
masks from to i (b ∷ bs) = masked from to i b ∷ masks from to (suc i) bs

masked_twice : (from to i b : ℕ) → masked from to i (masked from to i b) ≡ masked from to i b
masked_twice from to i b = ground arith

crc_loop-masks :
    (from to i c : ℕ) (bs : Bytes)
    → crc_loop from to i c (masks from to i bs) ≡ crc_loop from to i c bs
unfolding crc_loop masks
crc_loop-masks from to i c [] = refl
crc_loop-masks from to i c (b ∷ bs) =
    let next = λ (t : ℕ). crc_rounds 8 (bit_xor c t) in
    ap (λ t. crc_loop from to (suc i) (next t) (masks from to (suc i) bs))
      (masked_twice from to i b)
    ∙ crc_loop-masks from to (suc i) (crc_rounds 8 (bit_xor c (masked from to i b))) bs

-- Two texts that differ in the masked range only have one checksum.
pub crc32_agree :
    (from to : ℕ) (bs cs : Bytes)
    → masks from to 0 bs ≡ masks from to 0 cs
    → crc32 bs from to ≡ crc32 cs from to
unfolding crc32
crc32_agree from to bs cs e = cc (
  crc_loop-masks from to 0 (2 ^ 32 - 1) bs,
  crc_loop-masks from to 0 (2 ^ 32 - 1) cs,
  ap (crc_loop from to 0 (2 ^ 32 - 1)) e,
)

check_value :
    crc32 (0x31 ∷ 0x32 ∷ 0x33 ∷ 0x34 ∷ 0x35 ∷ 0x36 ∷ 0x37 ∷ 0x38 ∷ 0x39 ∷ []) 0 0 ≡ 0xcbf43926
unfolding crc32
check_value = refl
