-- ===== src/Common/Map.antt =====
-- `BTreeMap`: an association list that insertion keeps in the order of its keys.
use mathlib.Core.Path.{◌≡◌, refl}
use mathlib.Core.Logic.{inl, inr}
use mathlib.Core.Option.{Option, none, some}
use mathlib.Core.List.{List, [], ◌∷◌}
use Prim.Native.Nat.{◌+◌, ◌≤◌}
use native.Mathlib.Omega.{arith}
use novabase.Common.Tests.{if◌then◌else◌, Option-cases, Bool-cases}
use novabase.Common.Lists.{length}
use novabase.Common.Key.{Key, same}

abbrev pub Map {ℓ κ} : Type ℓ → Type κ → Type (ℓ ⊔ κ)
Map K V = List (K × V)

module _ {ℓ κ} {K : Type ℓ} {V : Type κ} ⦃e : Key K⦄ where
  unfoldable pub lookup : K → Map K V → Option V
  lookup k [] = none
  lookup k ((j, v) ∷ m) = if same j k then some v else lookup k m

  -- a new value under a key that is there
  unfoldable pub replace : K → V → Map K V → Map K V
  replace k v [] = []
  replace k v ((j, w) ∷ m) = if same j k then (k, v) ∷ m else (j, w) ∷ replace k v m

  -- a new key, before the first that comes after it
  unfoldable pub place : K → V → Map K V → Map K V
  place k v [] = (k, v) ∷ []
  place k v ((j, w) ∷ m) = if e.before k j then (k, v) ∷ (j, w) ∷ m else (j, w) ∷ place k v m

  -- `insert`
  unfoldable pub insert : K → V → Map K V → Map K V
  insert k v m = elim (lookup k m) [ none ↦ place k v m | some w ↦ replace k v m ]

  unfoldable pub remove : K → Map K V → Map K V
  remove k [] = []
  remove k ((j, w) ∷ m) = if same j k then remove k m else (j, w) ∷ remove k m

  -- Each key stands once.
  abbrev pub IsUnique : Map K V → Type κ
  IsUnique [] = Unit {κ}
  IsUnique ((k, v) ∷ m) = (lookup k m ≡ none) × IsUnique m

  lookup-replace :
      (k j : K) (v w : V) (m : Map K V)
      → lookup k m ≡ some w
      → lookup j (replace k v m) ≡ (if same k j then some v else lookup j m)
  unfolding lookup replace
  lookup-replace k j v w [] h = cc
  lookup-replace k j v w ((i, x) ∷ m) h =
      ground (arith, e.beq_iff i k, e.beq_iff i j, e.beq_iff k j, lookup-replace k j v w m)

  lookup-place :
      (k j : K) (v : V) (m : Map K V)
      → lookup k m ≡ none
      → lookup j (place k v m) ≡ (if same k j then some v else lookup j m)
  unfolding lookup place
  lookup-place k j v [] h = refl
  lookup-place k j v ((i, x) ∷ m) h =
      ground (arith, e.beq_iff i k, e.beq_iff i j, e.beq_iff k j, lookup-place k j v m)

  pub lookup-insert :
      (k j : K) (v : V) (m : Map K V)
      → lookup j (insert k v m) ≡ (if same k j then some v else lookup j m)
  unfolding insert
  lookup-insert k j v m = elim (Option-cases (lookup k m)) [
    | inl h ↦ rw (h, insert) (lookup-place k j v m h)
    | inr (w, h) ↦ rw (h, insert) (lookup-replace k j v w m h)
  ]

  pub lookup-remove :
      (k j : K) (m : Map K V) → lookup j (remove k m) ≡ (if same k j then none else lookup j m)
  unfolding lookup remove
  lookup-remove k j [] = ground arith
  lookup-remove k j ((i, w) ∷ m) =
      ground (arith, e.beq_iff i k, e.beq_iff i j, e.beq_iff k j, lookup-remove k j m)

  place-IsUnique :
      (k : K) (v : V) (m : Map K V) → lookup k m ≡ none → IsUnique m → IsUnique (place k v m)
  unfolding place lookup
  place-IsUnique k v [] h u = (refl, tt)
  place-IsUnique k v ((j, w) ∷ m) h (x, u) = elim (Bool-cases (e.before k j)) [
    | inl first ↦ rw (first, place) (h, (x, u))
    | inr later ↦
        rw (later, place)
          (
            ground (arith, lookup-place k j v m, e.beq_iff j k, e.beq_iff k j),
            place-IsUnique k v m (ground (arith, e.beq_iff j k)) u,
          )
  ]

  replace-IsUnique :
      (k : K) (v w : V) (m : Map K V) → lookup k m ≡ some w → IsUnique m → IsUnique (replace k v m)
  unfolding replace lookup
  replace-IsUnique k v w [] h u = tt
  replace-IsUnique k v w ((j, x) ∷ m) h (f, u) = elim (Bool-cases (same j k)) [
    | inl here ↦ rw (here, replace) (ground (arith, e.beq_iff j k), u)
    | inr there ↦
        rw (there, replace)
          (
            ground (arith, lookup-replace k j v w m, e.beq_iff j k, e.beq_iff k j),
            replace-IsUnique k v w m (ground arith) u,
          )
  ]

  pub IsUnique-insert : (k : K) (v : V) (m : Map K V) → IsUnique m → IsUnique (insert k v m)
  unfolding insert
  IsUnique-insert k v m u = elim (Option-cases (lookup k m)) [
    | inl h ↦ rw (h, insert) (place-IsUnique k v m h u)
    | inr (w, h) ↦ rw (h, insert) (replace-IsUnique k v w m h u)
  ]

  pub IsUnique-remove : (k : K) (m : Map K V) → IsUnique m → IsUnique (remove k m)
  unfolding remove
  IsUnique-remove k [] u = tt
  IsUnique-remove k ((j, w) ∷ m) (f, u) = elim (Bool-cases (same j k)) [
    | inl here ↦ rw (here, remove) (IsUnique-remove k m u)
    | inr there ↦ rw (there, remove) (ground (arith, lookup-remove k j m), IsUnique-remove k m u)
  ]

  length-place : (k : K) (v : V) (m : Map K V) → length (place k v m) ≡ length m + 1
  unfolding place
  length-place k v [] = omega arith
  length-place k v ((j, w) ∷ m) = ground (arith, length-place k v m)

  length-replace : (k : K) (v : V) (m : Map K V) → length (replace k v m) ≡ length m
  unfolding replace
  length-replace k v [] = refl
  length-replace k v ((j, w) ∷ m) = ground (arith, length-replace k v m)

  pub length-insert-le : (k : K) (v : V) (m : Map K V) → length (insert k v m) ≤ length m + 1
  unfolding insert
  length-insert-le k v m = ground (arith, length-place k v m, length-replace k v m)

  -- A new value under a key that is there adds no entry.
  pub length-insert_old :
      (k : K) (v w : V) (m : Map K V) → lookup k m ≡ some w → length (insert k v m) ≡ length m
  unfolding insert
  length-insert_old k v w m h = rw (h, insert) (length-replace k v m)

  length-remove-le : (k : K) (m : Map K V) → length (remove k m) ≤ length m
  unfolding remove
  length-remove-le k [] = omega arith
  length-remove-le k ((j, w) ∷ m) = ground (arith, length-remove-le k m)

  -- Removing a key that is there takes an entry at least.
  pub length-remove_old :
      (k : K) (w : V) (m : Map K V) → lookup k m ≡ some w → length (remove k m) + 1 ≤ length m
  unfolding lookup remove
  length-remove_old k w [] h = cc
  length-remove_old k w ((j, x) ∷ m) h =
      ground (arith, length-remove-le k m, length-remove_old k w m)
