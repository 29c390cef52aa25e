-- ===== src/Intelligence/Analysis.antt =====
-- crates/nova-intelligence/src/analysis.rs and lib.rs: telemetry events and their aggregation. Counts
-- saturate at 64 bits, and `usize` has 64 bits.
use novabase.Common.{ℕ, ◌+◌, ◌-◌, ◌^◌, Bool, Option, List, String, ltb, if◌then◌else◌}
use novabase.Common.Key.{string_key, pair_key}
use novabase.Intelligence.Report.{
  WorkloadReport, FingerprintStats, PredicatePathStats, IndexCandidateStats,
}

pub data TelemetryAccess : Type 0 where
  command : TelemetryAccess
  collection_scan : TelemetryAccess
  index_scan : String → TelemetryAccess

pub record TelemetryEvent : Type 0 where
  pub fingerprint : String
  pub collection : Option String
  pub predicate_paths : List String
  pub index_candidate_paths : List String
  pub access : TelemetryAccess
  pub examined : ℕ
  pub returned : ℕ
  pub elapsed_micros : ℕ
  pub succeeded : Bool

-- `saturating_add` on a `u64`
unfoldable pub saturating_add : ℕ → ℕ → ℕ
saturating_add a b = if ltb (a + b) (2 ^ 64) then a + b else 2 ^ 64 - 1

-- `add_access`, of both counts
unfoldable pub add_access : TelemetryAccess → ℕ × ℕ → ℕ × ℕ
unfolding saturating_add
add_access command counts = counts
add_access collection_scan (scans, index_scans) = (saturating_add scans 1, index_scans)
add_access (index_scan index) (scans, index_scans) = (scans, saturating_add index_scans 1)

-- the counts of every event
unfoldable pub count_event : TelemetryEvent → WorkloadReport → WorkloadReport
unfolding saturating_add
count_event e r =
    let r = record r { total_events = saturating_add r.total_events 1 } in
    elim e.access [
      | command ↦ record r { command_executions = saturating_add r.command_executions 1 }
      | collection_scan ↦ record r { collection_scans = saturating_add r.collection_scans 1 }
      | index_scan index ↦ record r { index_scans = saturating_add r.index_scans 1 }
    ]

-- `add_successful_metrics`
unfoldable pub add_successful_metrics : TelemetryEvent → WorkloadReport → WorkloadReport
unfolding saturating_add
add_successful_metrics e r = record r {
  total_examined = saturating_add r.total_examined e.examined;
  total_returned = saturating_add r.total_returned e.returned;
  total_elapsed_micros = saturating_add r.total_elapsed_micros e.elapsed_micros;
}

-- the counts that depend on the outcome
unfoldable pub count_outcome : TelemetryEvent → WorkloadReport → WorkloadReport
unfolding saturating_add add_successful_metrics
count_outcome e r =
    if e.succeeded
    then add_successful_metrics e
        (record r { successful_events = saturating_add r.successful_events 1 })
    else record r { failed_events = saturating_add r.failed_events 1 }

-- `add_fingerprint_success`, or a failure
unfoldable pub add_fingerprint : TelemetryEvent → FingerprintStats → FingerprintStats
unfolding saturating_add add_access
add_fingerprint e s =
    if e.succeeded
    then (record s {
      successful_executions = saturating_add s.successful_executions 1;
      collection_scans = (add_access e.access (s.collection_scans, s.index_scans)).0;
      index_scans = (add_access e.access (s.collection_scans, s.index_scans)).1;
      total_examined = saturating_add s.total_examined e.examined;
      total_returned = saturating_add s.total_returned e.returned;
      total_elapsed_micros = saturating_add s.total_elapsed_micros e.elapsed_micros;
    })
    else (record s { failed_executions = saturating_add s.failed_executions 1 })

-- `add_path_success`, or a failure
unfoldable pub add_path : TelemetryEvent → PredicatePathStats → PredicatePathStats
unfolding saturating_add add_access
add_path e s =
    if e.succeeded
    then (record s {
      successful_executions = saturating_add s.successful_executions 1;
      collection_scans = (add_access e.access (s.collection_scans, s.index_scans)).0;
      index_scans = (add_access e.access (s.collection_scans, s.index_scans)).1;
      total_examined = saturating_add s.total_examined e.examined;
      total_returned = saturating_add s.total_returned e.returned;
      total_elapsed_micros = saturating_add s.total_elapsed_micros e.elapsed_micros;
    })
    else (record s { failed_executions = saturating_add s.failed_executions 1 })

add_scan : TelemetryEvent → IndexCandidateStats → IndexCandidateStats
unfolding saturating_add
add_scan e s = elim e.access [
  | command ↦ s
  | collection_scan ↦ record s {
    collection_scan_examined = saturating_add s.collection_scan_examined e.examined;
    collection_scan_returned = saturating_add s.collection_scan_returned e.returned;
    collection_scan_elapsed_micros =
        saturating_add s.collection_scan_elapsed_micros e.elapsed_micros;
  }
  | index_scan index ↦ record s {
    index_scan_examined = saturating_add s.index_scan_examined e.examined;
    index_scan_returned = saturating_add s.index_scan_returned e.returned;
    index_scan_elapsed_micros = saturating_add s.index_scan_elapsed_micros e.elapsed_micros;
  }
]

-- `add_candidate_success`, or a failure
unfoldable pub add_candidate : TelemetryEvent → IndexCandidateStats → IndexCandidateStats
unfolding saturating_add add_access add_scan
add_candidate e s =
    if e.succeeded
    then add_scan e (record s {
      successful_executions = saturating_add s.successful_executions 1;
      collection_scans = (add_access e.access (s.collection_scans, s.index_scans)).0;
      index_scans = (add_access e.access (s.collection_scans, s.index_scans)).1;
    })
    else (record s { failed_executions = saturating_add s.failed_executions 1 })
