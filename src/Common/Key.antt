-- ===== src/Common/Key.antt =====
-- Keys of ordered maps: Rust's `Eq` and `Ord`, with the law of equality that the maps need.
use Prim.Native.Nat.{ℕ}
use Prim.Native.String.{String, compare}
use mathlib.Core.Path.{◌≡◌}
use mathlib.Core.Logic.{◌↔◌}
use mathlib.Core.Bool.{Bool, true, ◌&&◌, ◌||◌}
use native.Mathlib.Omega.{arith}
use text.Mathlib.Text.{◌==◌ as str_eq, is_lt}
use text.Mathlib.TextEquality.{eq_iff}
use novabase.Common.Tests.{ltb, ◌==◌, ==_iff}

pub record Key {ℓ} (K : Type ℓ) : Type ℓ where
  pub beq : K → K → Bool
  pub before : K → K → Bool
  pub beq_iff : (a b : K) → (beq a b ≡ true) ↔ (a ≡ b)

abbrev pub same {ℓ} : {K : Type ℓ} ⦃e : Key K⦄ → K → K → Bool
same ⦃e⦄ = e.beq

instance abbrev pub nat_key : Key ℕ
nat_key = record { beq = ◌==◌; before = ltb; beq_iff = ==_iff }

abbrev pub str_lt : String → String → Bool
str_lt a b = is_lt (compare a b)

instance abbrev pub string_key : Key String
string_key = record { beq = str_eq; before = str_lt; beq_iff = eq_iff }

-- A pair of texts, ordered lexicographically.
abbrev pub pair_eq : String × String → String × String → Bool
pair_eq (a, b) (c, d) = str_eq a c && str_eq b d

pub pair_eq_iff : (p q : String × String) → (pair_eq p q ≡ true) ↔ (p ≡ q)
pair_eq_iff (a, b) (c, d) = ground (arith, eq_iff a c, eq_iff b d)

instance abbrev pub pair_key : Key (String × String)
pair_key = record {
  beq = pair_eq;
  before = λ p q. str_lt p.0 q.0 || (str_eq p.0 q.0 && str_lt p.1 q.1);
  beq_iff = pair_eq_iff;
}
