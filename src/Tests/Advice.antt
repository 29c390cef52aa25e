-- ===== src/Tests/Advice.antt =====
-- Index recommendations for a small report.
use novabase.Common.{true, false, ◌≡◌, refl, none, some, List, [], ◌∷◌}
use novabase.Common.Key.{pair_key}
use novabase.Common.Map
use novabase.Common.Set
use novabase.Common.Result.{ok}
use novabase.Intelligence.Report.{IndexCandidateStats, IndexRecommendation, WorkloadReport}
use novabase.Intelligence.Advisor
use novabase.Intelligence.Advisor.{IndexDefinition, recommend_indexes, recommendation}
use novabase.Intelligence.Advice.{In, Indexed, Meets, recommended_iff}
use novabase.Intelligence.Lifecycle
use novabase.Intelligence.Lifecycle.{RecommendationRecord, proposed}
use novabase.Intelligence.Analysis.{TelemetryEvent, collection_scan, index_scan}
use novabase.Intelligence.Workload.{analyze_workload}
use novabase.Intelligence.Totals.{analyze_workload-counts}
use novabase.Intelligence.Calls.{
  Call, IsSettled, Handled, call, run, accepts_one, applies_one, evaluates_one,
}
use novabase.Intelligence.Moves.{life_of_record}

abbrev branch : IndexCandidateStats
branch = record {
  collection = "students";
  path = "branch";
  successful_executions = 5;
  failed_executions = 0;
  collection_scans = 4;
  index_scans = 3;
  collection_scan_examined = 400;
  collection_scan_returned = 8;
  collection_scan_elapsed_micros = 90;
  index_scan_examined = 6;
  index_scan_returned = 6;
  index_scan_elapsed_micros = 3;
}

abbrev report : WorkloadReport
report = record {
  total_events = 7;
  successful_events = 7;
  failed_events = 0;
  command_executions = 0;
  collection_scans = 4;
  index_scans = 3;
  total_examined = 406;
  total_returned = 14;
  total_elapsed_micros = 93;
  fingerprints = [];
  predicate_paths = [];
  index_candidates = branch ∷ [];
}

abbrev existing : List IndexDefinition
existing =
    record { name = "by_city"; collection = "students"; field = "address" ∷ "city" ∷ [] } ∷ []

recommend_branch :
    recommend_indexes report existing Advisor.default_config ≡ ok (recommendation branch ∷ [])
unfolding recommend_indexes Advisor.validate_config Advisor.recommend_all Advisor.to_set
    Advisor.join Advisor.skipped Advisor.ratio_basis_points Set.contains Set.insert
recommend_branch = refl

recommended_iff_example :
    ((r : IndexRecommendation)
      → In r (recommendation branch ∷ [])
      → (c : IndexCandidateStats) × In c (branch ∷ [])
        × (r ≡ recommendation c)
        × Meets Advisor.default_config c
        × ¬ Indexed c.collection c.path existing)
    × ((c : IndexCandidateStats)
        → In c (branch ∷ [])
        → Meets Advisor.default_config c
        → ¬ Indexed c.collection c.path existing
        → In (recommendation c) (recommendation branch ∷ []))
recommended_iff_example =
    recommended_iff report existing Advisor.default_config (recommendation branch ∷ [])
      recommend_branch

abbrev first : RecommendationRecord
first = record { recommendation = recommendation branch; status = proposed; evaluation = none }

take_up :
    Lifecycle.from_recommendations (recommendation branch ∷ [])
    ≡ ok ((("students", "branch"), first) ∷ [])
unfolding Lifecycle.from_recommendations Lifecycle.add_all Map.lookup Map.insert Map.place
    recommendation
take_up = refl

abbrev taken_up : Lifecycle.RecommendationLifecycle
taken_up = (("students", "branch"), first) ∷ []

abbrev two_decisions : List Call
two_decisions = accepts_one "students" "branch" ∷ applies_one "students" "branch" ∷ []

abbrev evaluates_branch : Call
evaluates_branch = evaluates_one "students" "branch" report Lifecycle.default_config

life_of_record_example :
    (proposed ≡ proposed)
    × (r1 r2 : RecommendationRecord) × (Map.lookup
          ("students", "branch")
          (run two_decisions taken_up)
        ≡ some r1)
    × (Map.lookup ("students", "branch") (call evaluates_branch (run two_decisions taken_up)).1
        ≡ some r2)
    × (r1.recommendation ≡ recommendation branch)
    × IsSettled r1
    × Handled evaluates_branch
        (call evaluates_branch (run two_decisions taken_up)).0
        ("students", "branch")
        r1
        r2
life_of_record_example =
    life_of_record (recommendation branch ∷ []) taken_up two_decisions evaluates_branch
      ("students", "branch") first take_up (unfold Map.lookup in refl)

abbrev scan : TelemetryEvent
scan = record {
  fingerprint = "get:students|filter";
  collection = some "students";
  predicate_paths = "branch" ∷ [];
  index_candidate_paths = "branch" ∷ [];
  access = collection_scan;
  examined = 10;
  returned = 2;
  elapsed_micros = 5;
  succeeded = true;
}

abbrev failed_scan : TelemetryEvent
failed_scan = record scan { access = index_scan "by_branch"; succeeded = false }

abbrev scans : List TelemetryEvent
scans = scan ∷ failed_scan ∷ scan ∷ []

analyze_workload-counts_example :
    ((analyze_workload scans).total_events ≡ 3)
    × ((analyze_workload scans).successful_events ≡ 2)
    × ((analyze_workload scans).failed_events ≡ 1)
    × ((analyze_workload scans).command_executions ≡ 0)
    × ((analyze_workload scans).collection_scans ≡ 2)
    × ((analyze_workload scans).index_scans ≡ 1)
    × ((analyze_workload scans).total_examined ≡ 20)
    × ((analyze_workload scans).total_returned ≡ 4)
    × ((analyze_workload scans).total_elapsed_micros ≡ 10)
analyze_workload-counts_example = analyze_workload-counts scans
