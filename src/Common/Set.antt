-- ===== src/Common/Set.antt =====
-- `BTreeSet`: a list that insertion keeps in order and without repetition.
use mathlib.Core.Path.{◌≡◌, refl}
use mathlib.Core.Bool.{Bool, false, ◌||◌, ◌&&◌, not}
use mathlib.Core.List.{List, [], ◌∷◌}
use native.Mathlib.Omega.{arith}
use novabase.Common.Tests.{if◌then◌else◌}
use novabase.Common.Key.{Key, same}

module _ {ℓ} {K : Type ℓ} ⦃e : Key K⦄ where
  unfoldable pub contains : K → List K → Bool
  contains k [] = false
  contains k (j ∷ s) = same j k || contains k s

  unfoldable pub insert : K → List K → List K
  insert k [] = k ∷ []
  insert k (j ∷ s) = if same j k then j ∷ s else if e.before k j then k ∷ j ∷ s else j ∷ insert k s

  unfoldable pub remove : K → List K → List K
  remove k [] = []
  remove k (j ∷ s) = if same j k then remove k s else j ∷ remove k s

  pub contains-insert :
      (k j : K) (s : List K) → contains j (insert k s) ≡ (same k j || contains j s)
  unfolding contains insert
  contains-insert k j [] = refl
  contains-insert k j (i ∷ s) =
      ground (arith, e.beq_iff i k, e.beq_iff i j, e.beq_iff k j, contains-insert k j s)

  pub contains-remove :
      (k j : K) (s : List K) → contains j (remove k s) ≡ (not (same k j) && contains j s)
  unfolding contains remove
  contains-remove k j [] = ground arith
  contains-remove k j (i ∷ s) =
      ground (arith, e.beq_iff i k, e.beq_iff i j, e.beq_iff k j, contains-remove k j s)
