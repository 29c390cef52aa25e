-- ===== src/Intelligence/Advice.antt =====
-- What is recommended: exactly the candidates that meet every threshold and have no index yet.
use novabase.Common.{
  ◌≤◌, ◌≡◌, refl, sym, ap, true, false, Bool-cases, inl, inr, ◌⊎◌, List, [], ◌∷◌, String, arith,
}
use mathlib.Core.Path.{subst}
use text.Mathlib.TextEquality.{eq_iff}
use novabase.Common.Key.{pair_eq, pair_key}
use novabase.Common.Set
use novabase.Common.Set.{contains-insert}
use novabase.Common.Result.{ok}
use novabase.Intelligence.Report.{IndexCandidateStats, IndexRecommendation, WorkloadReport}
use novabase.Intelligence.Advisor.{
  AdvisorConfig, IndexDefinition, join, to_set, skipped, recommendation, recommend_all,
  recommend_indexes, ratio_basis_points,
}

-- Membership in a list.
abbrev pub In : {A : Type 0} → A → List A → Type 0
In a [] = ⊥
In a (x ∷ xs) = (x ≡ a) ⊎ In a xs

-- Some definition is on that collection and path.
abbrev pub Indexed : String → String → List IndexDefinition → Type 0
Indexed collection path [] = ⊥
Indexed collection path (d ∷ definitions) =
    ((d.collection ≡ collection) × (join d.field ≡ path)) ⊎ Indexed collection path definitions

-- The candidate meets the thresholds.
pub record Meets (config : AdvisorConfig) (c : IndexCandidateStats) : Type 0 where
  pub executions : config.min_successful_executions ≤ c.successful_executions
  pub scans : config.min_collection_scans ≤ c.collection_scans
  pub examined : config.min_collection_scan_examined ≤ c.collection_scan_examined
  pub selective :
      ratio_basis_points c.collection_scan_returned c.collection_scan_examined
      ≤ config.max_return_ratio_basis_points

contains-to_set :
    (collection path : String) (definitions : List IndexDefinition)
    → Set.contains (collection, path) (to_set definitions) ≡ true
    → Indexed collection path definitions
unfolding to_set
contains-to_set collection path [] h = unfold Set.contains in cc (h)
contains-to_set collection path (d ∷ definitions) h =
    elim (Bool-cases (pair_eq (d.collection, join d.field) (collection, path))) [
      | inl here ↦ inl (
        ground (arith, eq_iff d.collection collection, here),
        ground (arith, eq_iff (join d.field) path, here),
      )
      | inr there ↦ inr (
          contains-to_set collection path definitions (
            ground (
              arith,
              h,
              there,
              contains-insert (d.collection, join d.field) (collection, path) (to_set definitions),
            )))
    ]

to_set-contains :
    (collection path : String) (definitions : List IndexDefinition)
    → Indexed collection path definitions
    → Set.contains (collection, path) (to_set definitions) ≡ true
unfolding to_set
to_set-contains collection path [] h = elim h [ ]
to_set-contains collection path (d ∷ definitions) (inl (c, p)) = ground (
  arith,
  contains-insert (d.collection, join d.field) (collection, path) (to_set definitions),
  eq_iff d.collection collection,
  eq_iff (join d.field) path,
  c,
  p,
)
to_set-contains collection path (d ∷ definitions) (inr h) = ground (
  arith,
  contains-insert (d.collection, join d.field) (collection, path) (to_set definitions),
  to_set-contains collection path definitions h,
)

skipped-Meets :
    (definitions : List IndexDefinition) (config : AdvisorConfig) (c : IndexCandidateStats)
    → skipped (to_set definitions) config c ≡ false
    → Meets config c × ¬ Indexed c.collection c.path definitions
unfolding skipped
skipped-Meets definitions config c h = (
  record {
    executions = ground (arith, h);
    scans = ground (arith, h);
    examined = ground (arith, h);
    selective = ground (arith, h);
  },
  λ i. ground (arith, h, to_set-contains c.collection c.path definitions i),
)

Meets-skipped :
    (definitions : List IndexDefinition) (config : AdvisorConfig) (c : IndexCandidateStats)
    → Meets config c
    → ¬ Indexed c.collection c.path definitions
    → skipped (to_set definitions) config c ≡ false
unfolding skipped
Meets-skipped definitions config c m free =
    elim (Bool-cases (Set.contains (c.collection, c.path) (to_set definitions))) [
      | inl there ↦ absurd (free (contains-to_set c.collection c.path definitions there))
      | inr absent ↦ ground (arith, absent, m.executions, m.scans, m.examined, m.selective)
    ]

recommend_all_sound :
    (definitions : List IndexDefinition) (config : AdvisorConfig)
    (candidates : List IndexCandidateStats) (r : IndexRecommendation)
    → In r (recommend_all (to_set definitions) config candidates)
    → (c : IndexCandidateStats) × In c candidates
      × (r ≡ recommendation c)
      × Meets config c
      × ¬ Indexed c.collection c.path definitions
unfolding recommend_all
recommend_all_sound definitions config [] r h = elim h [ ]
recommend_all_sound definitions config (c ∷ candidates) r h =
    elim (Bool-cases (skipped (to_set definitions) config c)) [
      | inl over ↦
          let (k, i, e, m, f) =
            recommend_all_sound definitions config candidates r (rw (over, recommend_all) at h) in
          (k, inr i, e, m, f)
      | inr good ↦ elim (rw (good, recommend_all) at h) [
        | inl e ↦ let (m, f) = skipped-Meets definitions config c good in (c, inl refl, sym e, m, f)
        | inr later ↦
            let (k, i, e, m, f) = recommend_all_sound definitions config candidates r later in
            (k, inr i, e, m, f)
      ]
    ]

recommend_all_complete :
    (definitions : List IndexDefinition) (config : AdvisorConfig)
    (candidates : List IndexCandidateStats) (c : IndexCandidateStats)
    → In c candidates
    → Meets config c
    → ¬ Indexed c.collection c.path definitions
    → In (recommendation c) (recommend_all (to_set definitions) config candidates)
unfolding recommend_all
recommend_all_complete definitions config [] c i m f = elim i [ ]
recommend_all_complete definitions config (k ∷ candidates) c i m f =
    elim (Bool-cases (skipped (to_set definitions) config k)) [
      | inl over ↦ elim i [
        | inl e ↦ cc (Meets-skipped definitions config c m f, over, e)
        | inr later ↦
            rw (over, recommend_all)
              (recommend_all_complete definitions config candidates c later m f)
      ]
      | inr good ↦ elim i [
        | inl e ↦ rw (good, recommend_all) (inl (ap recommendation e))
        | inr later ↦
            rw (good, recommend_all)
              (inr (recommend_all_complete definitions config candidates c later m f))
      ]
    ]

-- Where the advisor answers, it recommends exactly the candidates of the report that meet every
-- threshold and whose collection and path have no index.
pub recommended_iff :
    (report : WorkloadReport) (definitions : List IndexDefinition) (config : AdvisorConfig)
    (rs : List IndexRecommendation)
    → recommend_indexes report definitions config ≡ ok rs
    → ((r : IndexRecommendation)
        → In r rs
        → (c : IndexCandidateStats) × In c report.index_candidates
          × (r ≡ recommendation c)
          × Meets config c
          × ¬ Indexed c.collection c.path definitions)
      × ((c : IndexCandidateStats)
          → In c report.index_candidates
          → Meets config c
          → ¬ Indexed c.collection c.path definitions
          → In (recommendation c) rs)
unfolding recommend_indexes
recommended_iff report definitions config rs e =
    let made : recommend_all (to_set definitions) config report.index_candidates ≡ rs =
      ground (arith, e) in
    (
      (λ r i.
          recommend_all_sound definitions config report.index_candidates r
            (subst (In r) (sym made) i)),
      (λ c i m f.
          subst (In (recommendation c)) made
            (recommend_all_complete definitions config report.index_candidates c i m f)),
    )
