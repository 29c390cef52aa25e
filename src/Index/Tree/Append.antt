-- ===== src/Index/Tree/Append.antt =====
-- crates/nova-index/src/lib.rs: children that are put together, and taken apart.
use novabase.Common.{
  ℕ, zero, suc, ◌<◌, ◌≡◌, ◌⊎◌, inl, inr, refl, ap, List, ◌∷◌, ◌++◌, length, arith,
}
use mathlib.Core.List.{append_assoc}
use novabase.Index.Key.{IndexKey}
use novabase.Index.Tree.{Node}
use novabase.Index.Tree.Shape.{
  Shape, Others, no_others, other, at, keys_of, children_of, entries_of, entries_of_others, Stored,
  StoredOthers, Bound, upper, Fits, FitOthers,
}
use novabase.Index.Tree.Places.{Uses, UsesOthers, Distinct, DistinctOthers}

abbrev pub append : Others → Others → Others
append no_others more = more
append (other k t rest) more = other k t (append rest more)

module _ (more : Others) where
  pub keys_of-append : (rest : Others) → keys_of (append rest more) ≡ keys_of rest ++ keys_of more
  unfolding keys_of
  keys_of-append no_others = refl
  keys_of-append (other k t rest) = ap (◌∷◌ k) (keys_of-append rest)

  pub children_of-append :
      (rest : Others) → children_of (append rest more) ≡ children_of rest ++ children_of more
  unfolding children_of
  children_of-append no_others = refl
  children_of-append (other k t rest) = ap (◌∷◌ (at t)) (children_of-append rest)

  pub entries_of_others-append :
      (rest : Others)
      → entries_of_others (append rest more) ≡ entries_of_others rest ++ entries_of_others more
  unfolding entries_of
  entries_of_others-append no_others = refl
  entries_of_others-append (other k t rest) = rw (entries_of_others-append rest, append_assoc) refl

  pub upper-append :
      (high : Bound) (rest : Others) → upper high (append rest more) ≡ upper (upper high more) rest
  upper-append high no_others = refl
  upper-append high (other k t rest) = refl

  pub FitOthers-append :
      (high : Bound) (rest : Others)
      → FitOthers (upper high more) rest
      → FitOthers high more
      → FitOthers high (append rest more)
  unfolding Fits
  FitOthers-append high no_others f g = g
  FitOthers-append high (other k t rest) (gap, f, fs) g =
      rw (upper-append high rest) (gap, f, FitOthers-append high rest fs g)

  pub FitOthers-parts :
      (high : Bound) (rest : Others)
      → FitOthers high (append rest more)
      → FitOthers (upper high more) rest × FitOthers high more
  unfolding Fits
  FitOthers-parts high no_others f = (tt, f)
  FitOthers-parts high (other k t rest) (gap, f, fs) =
      let (left, right) = FitOthers-parts high rest fs in
      ((rw (upper-append high rest) at gap, rw (upper-append high rest) at f, left), right)

  pub StoredOthers-append :
      (nodes : List Node) (depth : ℕ) (rest : Others)
      → StoredOthers nodes depth rest
      → StoredOthers nodes depth more
      → StoredOthers nodes depth (append rest more)
  unfolding Stored
  StoredOthers-append nodes depth no_others s r = r
  StoredOthers-append nodes depth (other k t rest) (s, ss) r =
      (s, StoredOthers-append nodes depth rest ss r)

  pub StoredOthers-parts :
      (nodes : List Node) (depth : ℕ) (rest : Others)
      → StoredOthers nodes depth (append rest more)
      → StoredOthers nodes depth rest × StoredOthers nodes depth more
  unfolding Stored
  StoredOthers-parts nodes depth no_others s = (tt, s)
  StoredOthers-parts nodes depth (other k t rest) (s, ss) =
      let (left, right) = StoredOthers-parts nodes depth rest ss in ((s, left), right)

  pub UsesOthers-append :
      (rest : Others) (j : ℕ)
      → UsesOthers (append rest more) j
      → UsesOthers rest j ⊎ UsesOthers more j
  unfolding Uses
  UsesOthers-append no_others j u = inr u
  UsesOthers-append (other k t rest) j (inl here) = inl (inl here)
  UsesOthers-append (other k t rest) j (inr u) = elim (UsesOthers-append rest j u) [
    | inl left ↦ inl (inr left)
    | inr right ↦ inr right
  ]

  pub UsesOthers-left :
      (rest : Others) (j : ℕ) → UsesOthers rest j → UsesOthers (append rest more) j
  unfolding Uses
  UsesOthers-left no_others j u = absurd u
  UsesOthers-left (other k t rest) j (inl here) = inl here
  UsesOthers-left (other k t rest) j (inr u) = inr (UsesOthers-left rest j u)

  pub UsesOthers-right :
      (rest : Others) (j : ℕ) → UsesOthers more j → UsesOthers (append rest more) j
  unfolding Uses
  UsesOthers-right no_others j u = u
  UsesOthers-right (other k t rest) j u = inr (UsesOthers-right rest j u)

  pub DistinctOthers-append :
      (rest : Others)
      → DistinctOthers rest
      → DistinctOthers more
      → ((j : ℕ) → UsesOthers rest j → ¬ UsesOthers more j)
      → DistinctOthers (append rest more)
  unfolding Distinct Uses
  DistinctOthers-append no_others d e apart = e
  DistinctOthers-append (other k t rest) (first, d, ds) e apart = (
    (λ j u v. elim (UsesOthers-append rest j v) [
      | inl left ↦ first j u left
      | inr right ↦ apart j (inl u) right
    ]),
    d,
    DistinctOthers-append rest ds e (λ j u. apart j (inr u)),
  )

  pub DistinctOthers-parts :
      (rest : Others)
      → DistinctOthers (append rest more)
      → DistinctOthers rest
        × DistinctOthers more
        × ((j : ℕ) → UsesOthers rest j → ¬ UsesOthers more j)
  unfolding Distinct Uses
  DistinctOthers-parts no_others d = (tt, d, λ j u v. absurd u)
  DistinctOthers-parts (other k t rest) (first, d, ds) =
      let (left, right, apart) = DistinctOthers-parts rest ds in
      (
        ((λ j u v. first j u (UsesOthers-left rest j v)), d, left),
        right,
        λ j u v. elim u [
          | inl here ↦ first j here (UsesOthers-right rest j v)
          | inr later ↦ apart j later v
        ],
      )

-- The children around a separator
pub cut :
    (m : ℕ) (rest : Others)
    → m < length (keys_of rest)
    → (left : Others) × (k : IndexKey) × (t : Shape) × (right : Others) × (rest
        ≡ append left (other k t right))
      × (length (keys_of left) ≡ m)
unfolding keys_of
cut m no_others h = absurd (omega (arith, h))
cut zero (other k t rest) h = (no_others, k, t, rest, refl, refl)
cut (suc m) (other k t rest) h =
    let (left, k', u, right, same, size) = cut m rest (omega (arith, h)) in
    (other k t left, k', u, right, ap (other k t) same, ap suc size)

pub length-children_of : (rest : Others) → length (children_of rest) ≡ length (keys_of rest)
unfolding keys_of children_of
length-children_of no_others = refl
length-children_of (other k t rest) = ap suc (length-children_of rest)
