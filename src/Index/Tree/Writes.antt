-- ===== src/Index/Tree/Writes.antt =====
-- crates/nova-index/src/lib.rs: a node that is written, and nodes that are pushed.
use novabase.Common.{
  ℕ, zero, suc, ◌+◌, ◌<◌, ◌≤◌, ◌≡◌, ◌⊎◌, inl, inr, Bool-cases, ltb, refl, sym, ap, ◌∙◌, some, List,
  [], ◌∷◌, ◌++◌, length, get_elem?, set, length-set, get_elem?-set_self, get_elem?-set_ne,
  length-append, arith,
}
use novabase.Index.Tree.{Node}

module _ {ℓ} {A : Type ℓ} where
  pub get_elem?-append_left :
      (xs ys : List A) (j : ℕ) → j < length xs → get_elem? (xs ++ ys) j ≡ get_elem? xs j
  get_elem?-append_left [] ys j h = absurd (omega (arith, h))
  get_elem?-append_left (x ∷ xs) ys zero h = refl
  get_elem?-append_left (x ∷ xs) ys (suc j) h = get_elem?-append_left xs ys j (omega (arith, h))

  pub get_elem?-append_at : (xs ys : List A) (y : A) → get_elem? (xs ++ y ∷ ys) (length xs) ≡ some y
  get_elem?-append_at [] ys y = refl
  get_elem?-append_at (x ∷ xs) ys y = get_elem?-append_at xs ys y

pub lt_or_eq : (j n : ℕ) → j < n + 1 → (j < n) ⊎ (j ≡ n)
lt_or_eq j n h = elim (Bool-cases (ltb j n)) [
  | inl less ↦ inl (ground (arith, less))
  | inr not_less ↦ inr (ground (arith, h, not_less))
]

pub lt_or_le : (j n : ℕ) → (j < n) ⊎ (n ≤ j)
lt_or_le j n = elim (Bool-cases (ltb j n)) [
  | inl less ↦ inl (ground (arith, less))
  | inr not_less ↦ inr (ground (arith, not_less))
]

-- There are more nodes, and those that are not used are the same.
abbrev pub Frame : List Node → List Node → (ℕ → Type 0) → Type 0
Frame nodes later Used =
    (length nodes ≤ length later)
    × ((j : ℕ) → j < length nodes → ¬ Used j → get_elem? later j ≡ get_elem? nodes j)

module _ (nodes new : List Node) (i : ℕ) (x : Node) (h : i < length nodes) where
  abbrev written : List Node
  written = set nodes i x ++ new

  pub Frame-set : Frame nodes (set nodes i x ++ new) (λ j. j ≡ i)
  Frame-set = (
    omega (arith, length-append (set nodes i x) new, length-set nodes i x),
    λ j less other.
        get_elem?-append_left (set nodes i x) new j (omega (arith, less, length-set nodes i x))
        ∙ get_elem?-set_ne nodes i j x (λ e. other (sym e)),
  )

  pub length-written : length (set nodes i x ++ new) ≡ length nodes + length new
  length-written = omega (arith, length-append (set nodes i x) new, length-set nodes i x)

  pub get_elem?-written : get_elem? (set nodes i x ++ new) i ≡ some x
  get_elem?-written =
      get_elem?-append_left (set nodes i x) new i (omega (arith, h, length-set nodes i x))
      ∙ get_elem?-set_self nodes i x h

pub get_elem?-pushed :
    (nodes : List Node) (i : ℕ) (x y : Node)
    → get_elem? (set nodes i x ++ y ∷ []) (length nodes) ≡ some y
get_elem?-pushed nodes i x y =
    ap (get_elem? (set nodes i x ++ y ∷ [])) (sym (length-set nodes i x))
    ∙ get_elem?-append_at (set nodes i x) [] y

-- Frames in a row
pub Frame_trans :
    (a b c : List Node) (P Q R : ℕ → Type 0)
    → Frame a b P
    → Frame b c Q
    → ((j : ℕ) → j < length a → P j → R j)
    → ((j : ℕ) → j < length a → Q j → R j)
    → Frame a c R
Frame_trans a b c P Q R (grown, same) (more, same') p q = (
  omega (arith, grown, more),
  λ j less unused.
      same' j (omega (arith, less, grown)) (λ u. unused (q j less u))
      ∙ same j less (λ u. unused (p j less u)),
)
