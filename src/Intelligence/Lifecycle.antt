-- ===== src/Intelligence/Lifecycle.antt =====
-- crates/nova-intelligence/src/lifecycle.rs: the decisions on recommendations and their evaluation.
use novabase.Common.{
  ℕ, ◌-◌, ◌*◌, ◌/◌, ◌^◌, min, Bool, true, false, not, ◌&&◌, Option, none, some, List, [], ◌∷◌,
  String, ltb, leb, ◌==◌, map, if◌then◌else◌,
}
use novabase.Common.Int.{ℤ, pos, neg}
use novabase.Common.Key.{same, string_key, pair_key}
use novabase.Common.Map
use novabase.Common.Map.{Map}
use novabase.Common.Result.{
  Result, ok, err, invalid_argument, not_found, invalid_state, Method, ◌>>=◌, ◌>>◌, return, fail_if,
  lift, modify, ok_or,
}
use novabase.Intelligence.Report.{IndexRecommendation, IndexCandidateStats, WorkloadReport}

pub data RecommendationStatus : Type 0 where
  proposed accepted dismissed applied evaluated : RecommendationStatus

-- `==` of two states
abbrev pub same_status : RecommendationStatus → RecommendationStatus → Bool
same_status proposed proposed = true
same_status accepted accepted = true
same_status dismissed dismissed = true
same_status applied applied = true
same_status evaluated evaluated = true
same_status _ _ = false

pub record EvaluationConfig : Type 0 where
  pub min_index_scans : ℕ

-- `EvaluationConfig::default`
abbrev pub default_config : EvaluationConfig
default_config = record { min_index_scans = 3 }

pub record ImpactEvaluation : Type 0 where
  pub baseline_collection_scans : ℕ
  pub observed_index_scans : ℕ
  pub baseline_average_examined : ℕ
  pub observed_average_examined : ℕ
  pub baseline_average_elapsed_micros : ℕ
  pub observed_average_elapsed_micros : ℕ
  pub examined_reduction_basis_points : ℤ
  pub elapsed_reduction_basis_points : ℤ

pub record RecommendationRecord : Type 0 where
  pub recommendation : IndexRecommendation
  pub status : RecommendationStatus
  pub evaluation : Option ImpactEvaluation

abbrev pub RecommendationLifecycle : Type 0
RecommendationLifecycle = Map (String × String) RecommendationRecord

abbrev pub key_of : IndexRecommendation → String × String
key_of r = (r.collection, r.path)

abbrev pub fresh : IndexRecommendation → RecommendationRecord
fresh r = record { recommendation = r; status = proposed; evaluation = none }

-- the loop of `from_recommendations`, over the records that are there
unfoldable pub add_all :
    List IndexRecommendation → RecommendationLifecycle → Result RecommendationLifecycle
add_all [] records = ok records
add_all (r ∷ rest) records = elim (Map.lookup (key_of r) records) [
  | none ↦ add_all rest (Map.insert (key_of r) (fresh r) records)
  | some old ↦ err invalid_argument
]

-- `from_recommendations`
unfoldable pub from_recommendations : List IndexRecommendation → Result RecommendationLifecycle
unfolding add_all
from_recommendations recommendations = add_all recommendations []

-- `records`
unfoldable pub records : RecommendationLifecycle → List RecommendationRecord
records s = map (λ x. x.1) s

-- `average`
unfoldable pub average : ℕ → ℕ → ℕ
average total count = if count == 0 then 0 else total / count

-- `reduction_basis_points`: the quotient goes towards 0, and is held in an `i32`
unfoldable pub reduction_basis_points : ℕ → ℕ → ℤ
reduction_basis_points baseline observed =
    if baseline == 0
    then pos 0
    else if leb observed baseline
    then pos (min ((baseline - observed) * 10000 / baseline) (2 ^ 31 - 1))
    else neg (min ((observed - baseline) * 10000 / baseline) (2 ^ 31))

-- `record_mut`
unfoldable pub find_record : String → String → Method RecommendationLifecycle RecommendationRecord
find_record collection path s = (ok_or (Map.lookup (collection, path) s) not_found, s)

unfoldable pub put_record :
    String → String → RecommendationRecord → Method RecommendationLifecycle (Unit {0})
put_record collection path r = modify (Map.insert (collection, path) r)

-- `transition`
unfoldable pub transition :
    String
    → String
    → RecommendationStatus
    → RecommendationStatus
    → Method RecommendationLifecycle (Unit {0})
unfolding find_record put_record
transition collection path expected next = do
  r ← find_record collection path
  fail_if (not (same_status r.status expected)) invalid_state
  put_record collection path (record r { status = next })

-- `accept`, `dismiss`, `mark_applied`
unfoldable pub accept : String → String → Method RecommendationLifecycle (Unit {0})
unfolding transition
accept collection path = transition collection path proposed accepted

unfoldable pub dismiss : String → String → Method RecommendationLifecycle (Unit {0})
unfolding transition
dismiss collection path = transition collection path proposed dismissed

unfoldable pub mark_applied : String → String → Method RecommendationLifecycle (Unit {0})
unfolding transition
mark_applied collection path = transition collection path accepted applied

-- `.iter().find(..)`
unfoldable pub candidate_for :
    String → String → List IndexCandidateStats → Option IndexCandidateStats
candidate_for collection path [] = none
candidate_for collection path (c ∷ candidates) =
    let rest = candidate_for collection path candidates in
    if same c.collection collection && same c.path path then some c else rest

-- The comparison that `evaluate` stores and returns.
unfoldable pub impact : IndexRecommendation → IndexCandidateStats → ImpactEvaluation
unfolding average reduction_basis_points
impact recommendation candidate =
    let evidence = recommendation.evidence in
    let baseline_scans = evidence.collection_scans in
    let baseline_examined = average evidence.collection_scan_examined baseline_scans in
    let baseline_elapsed = average evidence.collection_scan_elapsed_micros baseline_scans in
    let observed_examined = average candidate.index_scan_examined candidate.index_scans in
    let observed_elapsed = average candidate.index_scan_elapsed_micros candidate.index_scans in
    record {
      baseline_collection_scans = baseline_scans;
      observed_index_scans = candidate.index_scans;
      baseline_average_examined = baseline_examined;
      observed_average_examined = observed_examined;
      baseline_average_elapsed_micros = baseline_elapsed;
      observed_average_elapsed_micros = observed_elapsed;
      examined_reduction_basis_points = reduction_basis_points baseline_examined observed_examined;
      elapsed_reduction_basis_points = reduction_basis_points baseline_elapsed observed_elapsed;
    }

-- `evaluate`
unfoldable pub evaluate :
    String
    → String
    → WorkloadReport
    → EvaluationConfig
    → Method RecommendationLifecycle ImpactEvaluation
unfolding find_record put_record candidate_for impact
evaluate collection path report config = do
  fail_if (config.min_index_scans == 0) invalid_argument
  r ← find_record collection path
  fail_if (not (same_status r.status applied)) invalid_state
  candidate ← lift (ok_or (candidate_for collection path report.index_candidates) not_found)
  fail_if (ltb candidate.index_scans config.min_index_scans) invalid_state
  put_record collection path
      (record r { status = evaluated; evaluation = some (impact r.recommendation candidate) })
  return (impact r.recommendation candidate)
