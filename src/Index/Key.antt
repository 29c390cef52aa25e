-- ===== src/Index/Key.antt =====
-- crates/nova-index/src/lib.rs: the keys of an index and their order.
pub mod Order
use novabase.Common.{
  ℕ, zero, suc, ◌+◌, ◌-◌, ◌%◌, ◌^◌, Bool, true, false, List, [], ◌∷◌, ltb, ◌==◌, ◌&&◌, ◌||◌,
  if◌then◌else◌,
}
use novabase.Common.Int.{ℤ, pos, negsuc}
use novabase.Common.Result.{Result, ok, err, invalid_argument}
use novabase.Storage.Bytes.{Bytes}
use novabase.Core.Value
use novabase.Core.Value.{NovaValue, bytes_lt}

-- `IndexKey`, with the bits of `OrderedF64`
pub data IndexKey : Type 0 where
  int64 : ℤ → IndexKey
  float64 : ℕ → IndexKey
  string : Bytes → IndexKey
  nova_id : Bytes → IndexKey

-- `OrderedF64::new`
unfoldable pub ordered_f64 : ℕ → ℕ
ordered_f64 bits = if ltb 0x7ff0000000000000 (bits % 2 ^ 63) then 0x7ff8000000000000 else bits

-- `IndexKey::float64`
unfoldable pub float64_key : ℕ → IndexKey
unfolding ordered_f64
float64_key bits = float64 (ordered_f64 bits)

-- `IndexKey::try_from`
unfoldable pub try_from : NovaValue → Result IndexKey
unfolding float64_key
try_from (Value.int64 i) = ok (int64 i)
try_from (Value.float64 bits) = ok (float64_key bits)
try_from (Value.string s) = ok (string s)
try_from (Value.nova_id id) = ok (nova_id id)
try_from _ = err invalid_argument

-- `i64::cmp`
abbrev pub int_lt : ℤ → ℤ → Bool
int_lt (pos a) (pos b) = ltb a b
int_lt (pos a) (negsuc b) = false
int_lt (negsuc a) (pos b) = true
int_lt (negsuc a) (negsuc b) = ltb b a

-- The place of a float in the order of `f64::total_cmp`: the negative ones, downwards, then the others.
abbrev pub float_rank : ℕ → ℕ
float_rank bits = if ltb bits (2 ^ 63) then bits + 2 ^ 63 else 2 ^ 64 - 1 - bits

-- the derived order of `IndexKey`: the variant first
unfoldable pub key_lt : IndexKey → IndexKey → Bool
key_lt (int64 a) (int64 b) = int_lt a b
key_lt (float64 a) (float64 b) = ltb (float_rank a) (float_rank b)
key_lt (string a) (string b) = bytes_lt a b
key_lt (nova_id a) (nova_id b) = bytes_lt a b
key_lt (int64 a) (float64 b) = true
key_lt (int64 a) (string b) = true
key_lt (int64 a) (nova_id b) = true
key_lt (float64 a) (string b) = true
key_lt (float64 a) (nova_id b) = true
key_lt (string a) (nova_id b) = true
key_lt _ _ = false
