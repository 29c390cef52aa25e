-- ===== src/Intelligence/Report.antt =====
-- crates/nova-intelligence/src/analysis.rs and advisor.rs: the records of a workload report and of
-- a recommendation. All counts are `u64`.
use novabase.Common.{ℕ, Option, List, String}

pub record FingerprintStats : Type 0 where
  pub collection : Option String
  pub fingerprint : String
  pub successful_executions : ℕ
  pub failed_executions : ℕ
  pub collection_scans : ℕ
  pub index_scans : ℕ
  pub total_examined : ℕ
  pub total_returned : ℕ
  pub total_elapsed_micros : ℕ

pub record PredicatePathStats : Type 0 where
  pub collection : String
  pub path : String
  pub successful_executions : ℕ
  pub failed_executions : ℕ
  pub collection_scans : ℕ
  pub index_scans : ℕ
  pub total_examined : ℕ
  pub total_returned : ℕ
  pub total_elapsed_micros : ℕ

pub record IndexCandidateStats : Type 0 where
  pub collection : String
  pub path : String
  pub successful_executions : ℕ
  pub failed_executions : ℕ
  pub collection_scans : ℕ
  pub index_scans : ℕ
  pub collection_scan_examined : ℕ
  pub collection_scan_returned : ℕ
  pub collection_scan_elapsed_micros : ℕ
  pub index_scan_examined : ℕ
  pub index_scan_returned : ℕ
  pub index_scan_elapsed_micros : ℕ

pub record WorkloadReport : Type 0 where
  pub total_events : ℕ
  pub successful_events : ℕ
  pub failed_events : ℕ
  pub command_executions : ℕ
  pub collection_scans : ℕ
  pub index_scans : ℕ
  pub total_examined : ℕ
  pub total_returned : ℕ
  pub total_elapsed_micros : ℕ
  pub fingerprints : List FingerprintStats
  pub predicate_paths : List PredicatePathStats
  pub index_candidates : List IndexCandidateStats

pub record RecommendationEvidence : Type 0 where
  pub successful_executions : ℕ
  pub collection_scans : ℕ
  pub index_scans : ℕ
  pub collection_scan_examined : ℕ
  pub collection_scan_returned : ℕ
  pub collection_scan_elapsed_micros : ℕ
  pub return_ratio_basis_points : ℕ

pub record IndexRecommendation : Type 0 where
  pub collection : String
  pub path : String
  pub evidence : RecommendationEvidence
