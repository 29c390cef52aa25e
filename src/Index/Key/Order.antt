-- ===== src/Index/Key/Order.antt =====
-- crates/nova-index/src/lib.rs: the order of keys is a strict order in which what is not less is
-- above or the same.
use novabase.Common.{◌≡◌, refl, true, false, [], ◌∷◌, arith}
use novabase.Common.Int.{ℤ, pos, negsuc}
use novabase.Storage.Bytes.{Bytes}
use novabase.Core.Value.{bytes_lt}
use novabase.Core.Fields.{bytes_lt-asym}
use novabase.Index.Key.{IndexKey, int64, float64, string, nova_id, int_lt, key_lt}

pub bytes_lt_split :
    (a b c : Bytes) → bytes_lt a c ≡ true → bytes_lt b c ≡ false → bytes_lt a b ≡ true
bytes_lt_split a b [] h k = ground (arith, h)
bytes_lt_split [] [] (z ∷ c) h k = k_ne k
  where
    k_ne : true ≡ false → false ≡ true
    k_ne e = ground (arith, e)
bytes_lt_split [] (y ∷ b) (z ∷ c) h k = refl
bytes_lt_split (x ∷ a) [] (z ∷ c) h k = ground (arith, k)
bytes_lt_split (x ∷ a) (y ∷ b) (z ∷ c) h k = ground (arith, h, k, bytes_lt_split a b c)

int_lt-asym : (a b : ℤ) → int_lt a b ≡ true → int_lt b a ≡ false
int_lt-asym (pos a) (pos b) h = ground (arith, h)
int_lt-asym (pos a) (negsuc b) h = ground (arith, h)
int_lt-asym (negsuc a) (pos b) h = refl
int_lt-asym (negsuc a) (negsuc b) h = ground (arith, h)

int_lt_split : (a b c : ℤ) → int_lt a c ≡ true → int_lt b c ≡ false → int_lt a b ≡ true
int_lt_split (pos a) (pos b) (pos c) h k = ground (arith, h, k)
int_lt_split (pos a) b (negsuc c) h k = ground (arith, h)
int_lt_split (pos a) (negsuc b) (pos c) h k = ground (arith, k)
int_lt_split (negsuc a) (pos b) c h k = refl
int_lt_split (negsuc a) (negsuc b) (pos c) h k = ground (arith, k)
int_lt_split (negsuc a) (negsuc b) (negsuc c) h k = ground (arith, h, k)

pub key_lt-asym : (a b : IndexKey) → key_lt a b ≡ true → key_lt b a ≡ false
unfolding key_lt
key_lt-asym (int64 a) (int64 b) h = int_lt-asym a b h
key_lt-asym (float64 a) (float64 b) h = ground (arith, h)
key_lt-asym (string a) (string b) h = bytes_lt-asym a b h
key_lt-asym (nova_id a) (nova_id b) h = bytes_lt-asym a b h
key_lt-asym a b h = ground (arith, h)

-- What is below `c` is below all that is not.
pub key_lt_split : (a b c : IndexKey) → key_lt a c ≡ true → key_lt b c ≡ false → key_lt a b ≡ true
unfolding key_lt
key_lt_split (int64 a) (int64 b) (int64 c) h k = int_lt_split a b c h k
key_lt_split (float64 a) (float64 b) (float64 c) h k = ground (arith, h, k)
key_lt_split (string a) (string b) (string c) h k = bytes_lt_split a b c h k
key_lt_split (nova_id a) (nova_id b) (nova_id c) h k = bytes_lt_split a b c h k
key_lt_split a b c h k = ground (arith, h, k)
