-- ===== src/Intelligence/Workload.antt =====
-- crates/nova-intelligence/src/analysis.rs: `analyze_workload`.
use novabase.Common.{
  ◌≡◌, ◌↔◌, Bool, true, false, ◌&&◌, ◌||◌, Option, none, some, List, [], ◌∷◌, String, map, arith,
}
use text.Mathlib.Text.{◌==◌ as str_eq}
use text.Mathlib.TextEquality.{eq_iff}
use novabase.Common.Key.{Key, string_key, pair_key, str_lt}
use novabase.Common.Map
use novabase.Common.Map.{Map}
use novabase.Common.Set
use novabase.Intelligence.Report.{
  WorkloadReport, FingerprintStats, PredicatePathStats, IndexCandidateStats,
}
use novabase.Intelligence.Analysis.{
  TelemetryEvent, count_event, count_outcome, add_fingerprint, add_path, add_candidate,
}

abbrev pub option_eq : Option String → Option String → Bool
option_eq none none = true
option_eq (some a) (some b) = str_eq a b
option_eq _ _ = false

abbrev pub option_lt : Option String → Option String → Bool
option_lt none (some b) = true
option_lt (some a) (some b) = str_lt a b
option_lt _ none = false

abbrev pub shape_eq : Option String × String → Option String × String → Bool
shape_eq (c, f) (d, g) = option_eq c d && str_eq f g

pub shape_eq_iff : (p q : Option String × String) → (shape_eq p q ≡ true) ↔ (p ≡ q)
shape_eq_iff (none, f) (none, g) = ground (arith, eq_iff f g)
shape_eq_iff (none, f) (some d, g) = ground arith
shape_eq_iff (some c, f) (none, g) = ground arith
shape_eq_iff (some c, f) (some d, g) = ground (arith, eq_iff c d, eq_iff f g)

-- A collection, if there is one, with a fingerprint.
instance abbrev pub shape_key : Key (Option String × String)
shape_key = record {
  beq = shape_eq;
  before = λ p q. option_lt p.0 q.0 || (option_eq p.0 q.0 && str_lt p.1 q.1);
  beq_iff = shape_eq_iff;
}

-- The state of the loop.
pub record Tally : Type 0 where
  pub report : WorkloadReport
  pub fingerprints : Map (Option String × String) FingerprintStats
  pub predicate_paths : Map (String × String) PredicatePathStats
  pub index_candidates : Map (String × String) IndexCandidateStats

unfoldable pub entry_or : {V : Type 0} → V → Option V → V
entry_or d none = d
entry_or d (some v) = v

abbrev pub no_report : WorkloadReport
no_report = record {
  total_events = 0;
  successful_events = 0;
  failed_events = 0;
  command_executions = 0;
  collection_scans = 0;
  index_scans = 0;
  total_examined = 0;
  total_returned = 0;
  total_elapsed_micros = 0;
  fingerprints = [];
  predicate_paths = [];
  index_candidates = [];
}

abbrev no_fingerprint : Option String → String → FingerprintStats
no_fingerprint c f = record {
  collection = c;
  fingerprint = f;
  successful_executions = 0;
  failed_executions = 0;
  collection_scans = 0;
  index_scans = 0;
  total_examined = 0;
  total_returned = 0;
  total_elapsed_micros = 0;
}

abbrev no_path : String → String → PredicatePathStats
no_path c p = record {
  collection = c;
  path = p;
  successful_executions = 0;
  failed_executions = 0;
  collection_scans = 0;
  index_scans = 0;
  total_examined = 0;
  total_returned = 0;
  total_elapsed_micros = 0;
}

abbrev no_candidate : String → String → IndexCandidateStats
no_candidate c p = record {
  collection = c;
  path = p;
  successful_executions = 0;
  failed_executions = 0;
  collection_scans = 0;
  index_scans = 0;
  collection_scan_examined = 0;
  collection_scan_returned = 0;
  collection_scan_elapsed_micros = 0;
  index_scan_examined = 0;
  index_scan_returned = 0;
  index_scan_elapsed_micros = 0;
}

-- `.iter().collect::<BTreeSet<_>>()`
unfoldable pub distinct : List String → List String
distinct [] = []
distinct (p ∷ paths) = Set.insert p (distinct paths)

unfoldable pub add_paths :
    TelemetryEvent
    → String
    → List String
    → Map (String × String) PredicatePathStats
    → Map (String × String) PredicatePathStats
add_paths e c [] m = m
add_paths e c (p ∷ paths) m =
    add_paths e c paths
      (Map.insert (c, p) (add_path e (entry_or (no_path c p) (Map.lookup (c, p) m))) m)

unfoldable pub add_candidates :
    TelemetryEvent
    → String
    → List String
    → Map (String × String) IndexCandidateStats
    → Map (String × String) IndexCandidateStats
add_candidates e c [] m = m
add_candidates e c (p ∷ paths) m =
    add_candidates e c paths
      (Map.insert (c, p) (add_candidate e (entry_or (no_candidate c p) (Map.lookup (c, p) m))) m)

-- the body of the loop
unfoldable pub add_event : TelemetryEvent → Tally → Tally
add_event e t =
    let k : Option String × String = (e.collection, e.fingerprint) in
    let t = record t {
      report = count_outcome e (count_event e t.report);
      fingerprints =
          Map.insert k
            (add_fingerprint e
              (entry_or (no_fingerprint e.collection e.fingerprint) (Map.lookup k t.fingerprints)))
            t.fingerprints;
    } in
    elim e.collection [
      | none ↦ t
      | some c ↦ record t {
        predicate_paths = add_paths e c (distinct e.predicate_paths) t.predicate_paths;
        index_candidates = add_candidates e c (distinct e.index_candidate_paths) t.index_candidates;
      }
    ]

unfoldable pub add_events : List TelemetryEvent → Tally → Tally
add_events [] t = t
add_events (e ∷ events) t = add_events events (add_event e t)

abbrev pub nothing_seen : Tally
nothing_seen = record {
  report = no_report;
  fingerprints = [];
  predicate_paths = [];
  index_candidates = [];
}

-- `analyze_workload`
unfoldable pub analyze_workload : List TelemetryEvent → WorkloadReport
analyze_workload events =
    let t = add_events events nothing_seen in
    record t.report {
      fingerprints = map (λ x. x.1) t.fingerprints;
      predicate_paths = map (λ x. x.1) t.predicate_paths;
      index_candidates = map (λ x. x.1) t.index_candidates;
    }
