-- ===== src/Storage/Bytes.antt =====
-- Byte strings as lists of numbers below 256: big-endian words, slices and writes in place.
pub mod Laws
use novabase.Common.{
  ℕ, zero, suc, ◌+◌, ◌-◌, ◌*◌, ◌/◌, ◌%◌, ◌<◌, List, [], ◌∷◌, ◌++◌, take, drop, length,
}

abbrev pub Bytes : Type 0
Bytes = List ℕ

abbrev pub IsByte : ℕ → Type 0
IsByte b = b < 256

-- `value.to_be_bytes()`, of a word of `n` bytes
unfoldable pub to_be_bytes : ℕ → ℕ → Bytes
to_be_bytes zero v = []
to_be_bytes (suc n) v = to_be_bytes n (v / 256) ++ v % 256 ∷ []

unfoldable pub from_be : ℕ → Bytes → ℕ
from_be acc [] = acc
from_be acc (b ∷ bs) = from_be (acc * 256 + b) bs

-- `uN::from_be_bytes(bytes)`
unfoldable pub from_be_bytes : Bytes → ℕ
unfolding from_be
from_be_bytes bs = from_be 0 bs

-- `&bytes[from..to]`, for bounds within the bytes
unfoldable pub slice : ℕ → ℕ → Bytes → Bytes
slice from to bs = take (to - from) (drop from bs)

-- `bytes[at..at + new.len()].copy_from_slice(new)`, for bounds within the bytes
unfoldable pub write_at : ℕ → Bytes → Bytes → Bytes
write_at at new bs = take at bs ++ (new ++ drop (at + length new) bs)
