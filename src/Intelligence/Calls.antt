-- ===== src/Intelligence/Calls.antt =====
-- The calls on recommendations, and what each may do.
use novabase.Common.{◌≡◌, ◌≢◌, ◌<◌, ◌⊎◌, Bool, true, false, none, some, List, [], ◌∷◌, String}
use novabase.Common.Key.{pair_key, string_key}
use novabase.Common.Result.{Result, ok, err}
use novabase.Intelligence.Report.{IndexCandidateStats, WorkloadReport}
use novabase.Intelligence.Lifecycle
use novabase.Intelligence.Lifecycle.{
  RecommendationStatus, proposed, accepted, dismissed, applied, evaluated, same_status,
  EvaluationConfig, RecommendationRecord, RecommendationLifecycle, impact, candidate_for,
}

-- The calls on a lifecycle.
pub data Call : Type 0 where
  accepts_one : String → String → Call
  dismisses_one : String → String → Call
  applies_one : String → String → Call
  evaluates_one : String → String → WorkloadReport → EvaluationConfig → Call

-- The key of the record that a call names
abbrev pub concerns : Call → String × String
concerns (accepts_one collection path) = (collection, path)
concerns (dismisses_one collection path) = (collection, path)
concerns (applies_one collection path) = (collection, path)
concerns (evaluates_one collection path report config) = (collection, path)

abbrev pub answer {ℓ} :
    {A : Type ℓ} → Result A × RecommendationLifecycle → Bool × RecommendationLifecycle
answer (ok x, s) = (true, s)
answer (err e, s) = (false, s)

-- Whether the call succeeds, and the records after it
unfoldable pub call : Call → RecommendationLifecycle → Bool × RecommendationLifecycle
call (accepts_one collection path) s = answer (Lifecycle.accept collection path s)
call (dismisses_one collection path) s = answer (Lifecycle.dismiss collection path s)
call (applies_one collection path) s = answer (Lifecycle.mark_applied collection path s)
call (evaluates_one collection path report config) s =
    answer (Lifecycle.evaluate collection path report config s)

unfoldable pub run : List Call → RecommendationLifecycle → RecommendationLifecycle
unfolding call
run [] s = s
run (c ∷ calls) s = run calls (call c s).1

-- The decision that a call makes, from the state before to the state after
pub data Decides : Call → RecommendationStatus → RecommendationStatus → Type 0 where
  accepts : (collection path : String) → Decides (accepts_one collection path) proposed accepted
  dismisses :
      (collection path : String) → Decides (dismisses_one collection path) proposed dismissed
  applies : (collection path : String) → Decides (applies_one collection path) accepted applied
  evaluates :
      (collection path : String) (report : WorkloadReport) (config : EvaluationConfig)
      → Decides (evaluates_one collection path report config) applied evaluated

-- Why a call is refused: the state is another one, or there is not enough to evaluate.
abbrev pub Refuses : Call → RecommendationStatus → Type 0
Refuses (accepts_one collection path) s = s ≢ proposed
Refuses (dismisses_one collection path) s = s ≢ proposed
Refuses (applies_one collection path) s = s ≢ accepted
Refuses (evaluates_one collection path report config) s =
    (s ≢ applied)
    ⊎ (config.min_index_scans ≡ 0)
    ⊎ ((x : IndexCandidateStats)
        → candidate_for collection path report.index_candidates ≡ some x
        → x.index_scans < config.min_index_scans)

-- A record has an evaluation exactly when it is evaluated.
abbrev pub has_evaluation : RecommendationRecord → Bool
has_evaluation r = elim r.evaluation [ none ↦ false | some e ↦ true ]

abbrev pub IsSettled : RecommendationRecord → Type 0
IsSettled r = has_evaluation r ≡ same_status r.status evaluated

-- What a call makes of the record under the key
pub data Handled (c : Call) (succeeds : Bool) (k : String × String) (r : RecommendationRecord)
    : RecommendationRecord → Type 0 where
  unnamed : concerns c ≢ k → Handled c succeeds k r r
  refused : concerns c ≡ k → succeeds ≡ false → Refuses c r.status → Handled c succeeds k r r
  decided :
      {r' : RecommendationRecord}
      → concerns c ≡ k
      → succeeds ≡ true
      → Decides c r.status r'.status
      → r'.recommendation ≡ r.recommendation
      → Handled c succeeds k r r'
