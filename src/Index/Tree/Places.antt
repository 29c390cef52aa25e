-- ===== src/Index/Tree/Places.antt =====
-- crates/nova-index/src/lib.rs: the places of the nodes of a tree.
use novabase.Common.{
  ℕ, zero, suc, ◌<◌, ◌≡◌, ◌⊎◌, inl, inr, refl, ◌∙◌, some, List, [], ◌∷◌, length, get_elem?, arith,
}
use novabase.Index.Tree.{Node}
use novabase.Index.Tree.Shape.{
  Shape, Others, leaf_at, branch_at, no_others, other, Stored, StoredOthers,
}

-- The place is one of the tree's nodes.
unfoldable mutual
  pub Uses : Shape → ℕ → Type 0
  Uses (leaf_at i entries next) j = j ≡ i
  Uses (branch_at i t rest) j = (j ≡ i) ⊎ Uses t j ⊎ UsesOthers rest j

  pub UsesOthers : Others → ℕ → Type 0
  UsesOthers no_others j = ⊥
  UsesOthers (other k t rest) j = Uses t j ⊎ UsesOthers rest j

-- No place is used twice.
unfoldable mutual
  unfolding Uses

  pub Distinct : Shape → Type 0
  Distinct (leaf_at i entries next) = Unit {0}
  Distinct (branch_at i t rest) =
      (¬ Uses t i)
      × (¬ UsesOthers rest i)
      × ((j : ℕ) → Uses t j → ¬ UsesOthers rest j)
      × Distinct t
      × DistinctOthers rest

  pub DistinctOthers : Others → Type 0
  DistinctOthers no_others = Unit {0}
  DistinctOthers (other k t rest) =
      ((j : ℕ) → Uses t j → ¬ UsesOthers rest j) × Distinct t × DistinctOthers rest

pub get_elem?-bound {ℓ} :
    {A : Type ℓ} (xs : List A) (i : ℕ) {x : A} → get_elem? xs i ≡ some x → i < length xs
get_elem?-bound [] i e = cc
get_elem?-bound (y ∷ xs) zero e = omega arith
get_elem?-bound (y ∷ xs) (suc i) e = omega (arith, get_elem?-bound xs i e)

abbrev IsBounded : List Node → Shape → Type 0
IsBounded nodes t = (depth j : ℕ) → Stored nodes depth t → Uses t j → j < length nodes

abbrev AreBounded : List Node → Others → Type 0
AreBounded nodes rest =
    (depth j : ℕ) → StoredOthers nodes depth rest → UsesOthers rest j → j < length nodes

-- A tree's places are among the nodes.
pub Uses_bound : (nodes : List Node) (t : Shape) → IsBounded nodes t
unfolding Uses Stored
Uses_bound nodes t = elim t as (IsBounded nodes) (AreBounded nodes) [
  | leaf_at i entries next ↦ λ depth j s u. rw u (get_elem?-bound nodes i s.1)
  | branch_at i (t → ih) (rest → ihs) ↦ λ depth j s u.
      let (below, deep, node, first, others) = s in
      elim u [
        | inl here ↦ rw here (get_elem?-bound nodes i node)
        | inr within ↦ elim within [
          | inl left ↦ ih below j first left
          | inr right ↦ ihs below j others right
        ]
      ]
  | no_others ↦ λ depth j s u. absurd u
  | other k (t → ih) (rest → ihs) ↦
      λ depth j s u. elim u [ inl left ↦ ih depth j s.0 left | inr right ↦ ihs depth j s.1 right ]
]

pub UsesOthers_bound : (nodes : List Node) (rest : Others) → AreBounded nodes rest
unfolding Uses Stored
UsesOthers_bound nodes no_others depth j s u = absurd u
UsesOthers_bound nodes (other k t rest) depth j (s, ss) (inl left) =
    Uses_bound nodes t depth j s left
UsesOthers_bound nodes (other k t rest) depth j (s, ss) (inr right) =
    UsesOthers_bound nodes rest depth j ss right

-- Where the nodes at a tree's places stay, the tree stays.
abbrev Stays : List Node → List Node → Shape → Type 0
Stays nodes later t =
    (depth : ℕ)
    → ((j : ℕ) → Uses t j → get_elem? later j ≡ get_elem? nodes j)
    → Stored nodes depth t
    → Stored later depth t

abbrev StayAll : List Node → List Node → Others → Type 0
StayAll nodes later rest =
    (depth : ℕ)
    → ((j : ℕ) → UsesOthers rest j → get_elem? later j ≡ get_elem? nodes j)
    → StoredOthers nodes depth rest
    → StoredOthers later depth rest

pub Stored-Stays : (nodes later : List Node) (t : Shape) → Stays nodes later t
unfolding Uses Stored
Stored-Stays nodes later t = elim t as (Stays nodes later) (StayAll nodes later) [
  | leaf_at i entries next ↦ λ depth h s. (s.0, h i refl ∙ s.1)
  | branch_at i (t → ih) (rest → ihs) ↦ λ depth h s.
      let (below, deep, node, first, others) = s in
      (
        below,
        deep,
        h i (inl refl) ∙ node,
        ih below (λ j u. h j (inr (inl u))) first,
        ihs below (λ j u. h j (inr (inr u))) others,
      )
  | no_others ↦ λ depth h s. tt
  | other k (t → ih) (rest → ihs) ↦
      λ depth h s. (ih depth (λ j u. h j (inl u)) s.0, ihs depth (λ j u. h j (inr u)) s.1)
]

pub StoredOthers_stay : (nodes later : List Node) (rest : Others) → StayAll nodes later rest
unfolding Uses Stored
StoredOthers_stay nodes later no_others depth h s = tt
StoredOthers_stay nodes later (other k t rest) depth h (s, ss) = (
  Stored-Stays nodes later t depth (λ j u. h j (inl u)) s,
  StoredOthers_stay nodes later rest depth (λ j u. h j (inr u)) ss,
)
