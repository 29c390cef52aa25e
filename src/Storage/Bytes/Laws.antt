-- ===== src/Storage/Bytes/Laws.antt =====
-- Reading behind a write, and big-endian words read back.
use novabase.Common.{
  ℕ, zero, suc, ◌+◌, ◌-◌, ◌^◌, ◌<◌, ◌≤◌, ◌≡◌, refl, sym, ap, ◌∙◌, List, [], ◌∷◌, ◌++◌, take, drop,
  length, arith, length-append, length-take, length-drop, take-append, ◌⊎◌, inl, inr,
}
use mathlib.Core.List.{append-nil}
use novabase.Storage.Bytes.{Bytes, slice, write_at, to_be_bytes, from_be_bytes}

module _ {ℓ} {A : Type ℓ} where
  pub drop-append_ge :
      (n : ℕ) (xs ys : List A) → length xs ≤ n → drop n (xs ++ ys) ≡ drop (n - length xs) ys
  drop-append_ge zero [] ys h = refl
  drop-append_ge (suc n) [] ys h = ap (λ t. drop t ys) {x = suc n} (omega arith)
  drop-append_ge zero (x ∷ xs) ys h = absurd (omega arith)
  drop-append_ge (suc n) (x ∷ xs) ys h =
      drop-append_ge n xs ys (omega arith) ∙ ap (λ t. drop t ys) (omega arith)

  drop-append_le : (n : ℕ) (xs ys : List A) → n ≤ length xs → drop n (xs ++ ys) ≡ drop n xs ++ ys
  drop-append_le zero xs ys h = refl
  drop-append_le (suc n) [] ys h = absurd (omega arith)
  drop-append_le (suc n) (x ∷ xs) ys h = drop-append_le n xs ys (omega arith)

  pub take-append_le : (n : ℕ) (xs ys : List A) → n ≤ length xs → take n (xs ++ ys) ≡ take n xs
  take-append_le zero xs ys h = refl
  take-append_le (suc n) [] ys h = absurd (omega arith)
  take-append_le (suc n) (x ∷ xs) ys h = ap (◌∷◌ x) (take-append_le n xs ys (omega arith))

  drop-nil : (n : ℕ) → drop {A = A} n [] ≡ []
  drop-nil zero = refl
  drop-nil (suc n) = refl

  drop-drop : (n m : ℕ) (xs : List A) → drop n (drop m xs) ≡ drop (m + n) xs
  drop-drop n zero xs = ap (λ t. drop t xs) (omega arith)
  drop-drop n (suc m) [] = drop-nil n ∙ sym (drop-nil (suc m + n))
  drop-drop n (suc m) (x ∷ xs) =
      drop-drop n m xs ∙ ap (λ t. drop t (x ∷ xs)) {x = suc (m + n)} (omega arith)

  take-drop-take :
      (n m k : ℕ) (xs : List A) → m + n ≤ k → take n (drop m (take k xs)) ≡ take n (drop m xs)
  take-drop-take zero m k xs h = refl
  take-drop-take (suc n) zero zero xs h = absurd (omega arith)
  take-drop-take (suc n) zero (suc k) [] h = refl
  take-drop-take (suc n) zero (suc k) (x ∷ xs) h =
      ap (◌∷◌ x) (take-drop-take n zero k xs (omega arith))
  take-drop-take (suc n) (suc m) zero xs h = absurd (omega arith)
  take-drop-take (suc n) (suc m) (suc k) [] h = refl
  take-drop-take (suc n) (suc m) (suc k) (x ∷ xs) h = take-drop-take (suc n) m k xs (omega arith)

le_total : (a b : ℕ) → (a ≤ b) ⊎ (b < a)
le_total a b = grind arith

slice_empty : (from to : ℕ) (xs ys : Bytes) → to ≤ from → slice from to xs ≡ slice from to ys
unfolding slice
slice_empty from to xs ys h =
    ap (λ t. take t (drop from xs)) none_left ∙ ap (λ t. take t (drop from ys)) (sym none_left)
  where
    none_left : to - from ≡ 0
    none_left = omega arith

module _ (at : ℕ) (new bs : Bytes) (room : at + length new ≤ length bs) where
  front : length (take at bs) ≡ at
  front = omega (arith, length-take at bs)

  pub length-write_at : length (write_at at new bs) ≡ length bs
  unfolding write_at
  length-write_at = omega (
    arith,
    length-append (take at bs) (new ++ drop (at + length new) bs),
    length-append new (drop (at + length new) bs),
    length-drop (at + length new) bs,
    front,
  )

  -- A read of the range that was written returns what was written.
  pub slice-write_at_self : (to : ℕ) → to ≡ at + length new → slice at to (write_at at new bs) ≡ new
  unfolding slice write_at
  slice-write_at_self to e =
      let rest = new ++ drop (at + length new) bs in
      ap (take (to - at)) (drop-append_ge at (take at bs) rest (omega (arith, front)))
      ∙ ap (λ t. take (to - at) (drop t rest)) back
      ∙ ap (λ t. take t rest) size
      ∙ take-append new (drop (at + length new) bs)
    where
      back : at - length (take at bs) ≡ 0
      back = omega (arith, front)

      size : to - at ≡ length new
      size = omega arith

  slice_ahead :
      (from to : ℕ) → to ≤ at → from ≤ at → slice from to (write_at at new bs) ≡ slice from to bs
  unfolding slice write_at
  slice_ahead from to h k =
      let rest = new ++ drop (at + length new) bs in
      ap (take (to - from)) (drop-append_le from (take at bs) rest (omega (arith, front)))
      ∙ take-append_le (to - from) (drop from (take at bs)) rest
          (omega (arith, front, length-drop from (take at bs)))
      ∙ take-drop-take (to - from) from at bs (omega arith)

  -- A read before or behind the range that was written sees no change.
  pub slice-write_at_ne :
      (from to : ℕ)
      → (to ≤ at) ⊎ (at + length new ≤ from)
      → slice from to (write_at at new bs) ≡ slice from to bs
  slice-write_at_ne from to (inl h) = elim (le_total from at) [
    | inl k ↦ slice_ahead from to h k
    | inr k ↦ slice_empty from to (write_at at new bs) bs (omega arith)
  ]
  slice-write_at_ne from to (inr h) = unfold slice write_at in ap (take (to - from)) dropped
    where
      tail : Bytes
      tail = drop (at + length new) bs

      whole : (n : ℕ) → n ≡ from → drop n bs ≡ drop from bs
      whole n e = ap (λ t. drop t bs) e

      dropped : drop from (take at bs ++ (new ++ tail)) ≡ drop from bs
      dropped =
          drop-append_ge from (take at bs) (new ++ tail) (omega (arith, front))
          ∙ drop-append_ge (from - length (take at bs)) new tail (omega (arith, front))
          ∙ drop-drop (from - length (take at bs) - length new) (at + length new) bs
          ∙ whole _ (omega (arith, front))

pub be_word_2 : (v : ℕ) → v < 65536 → from_be_bytes (to_be_bytes 2 v) ≡ v
unfolding from_be_bytes to_be_bytes
be_word_2 v h = omega arith

pub be_word_4 : (v : ℕ) → v < 2 ^ 32 → from_be_bytes (to_be_bytes 4 v) ≡ v
unfolding from_be_bytes to_be_bytes
be_word_4 v h = omega arith

pub be_word_8 : (v : ℕ) → v < 2 ^ 64 → from_be_bytes (to_be_bytes 8 v) ≡ v
unfolding from_be_bytes to_be_bytes
be_word_8 v h = omega arith

-- A write at the end appends.
pub write_at-end : (new bs : Bytes) → write_at (length bs) new bs ≡ bs ++ new
unfolding write_at
write_at-end new bs = cc (
  ap (λ t. t ++ (new ++ drop (length bs + length new) bs)) whole,
  ap (λ t. bs ++ (new ++ t)) gone,
  append-nil new,
)
  where
    whole : take (length bs) bs ≡ bs
    whole = ap (take (length bs)) (sym (append-nil bs)) ∙ take-append bs []

    gone : drop (length bs + length new) bs ≡ []
    gone =
        ap (drop (length bs + length new)) (sym (append-nil bs))
        ∙ drop-append_ge (length bs + length new) bs [] (omega arith)
        ∙ drop-nil (length bs + length new - length bs)

pub slice-append_front :
    (from to : ℕ) (bs new : Bytes) → to ≤ length bs → slice from to (bs ++ new) ≡ slice from to bs
slice-append_front from to bs new h = elim (le_total from (length bs)) [
  | inl k ↦
      unfold slice in
      (ap (take (to - from)) (drop-append_le from bs new k)
        ∙ take-append_le (to - from) (drop from bs) new (omega (arith, length-drop from bs)))
  | inr k ↦ slice_empty from to (bs ++ new) bs (omega arith)
]

pub slice-append_end :
    (from to : ℕ) (bs new : Bytes)
    → from ≡ length bs
    → to ≡ length bs + length new
    → slice from to (bs ++ new) ≡ new
unfolding slice
slice-append_end from to bs new e k =
    ap (take (to - from)) (drop-append_ge from bs new (omega arith))
    ∙ ap (λ t. take (to - from) (drop t new)) none_left
    ∙ ap (λ t. take t new) size
    ∙ ap (take (length new)) (sym (append-nil new))
    ∙ take-append new []
  where
    none_left : from - length bs ≡ 0
    none_left = omega arith

    size : to - from ≡ length new
    size = omega arith
