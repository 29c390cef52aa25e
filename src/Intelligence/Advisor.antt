-- ===== src/Intelligence/Advisor.antt =====
-- crates/nova-intelligence/src/advisor.rs: which candidates of a report are recommended.
use novabase.Common.{ℕ, ◌*◌, ◌/◌, min, Bool, ◌||◌, List, [], ◌∷◌, String, ltb, ◌==◌, if◌then◌else◌}
use Prim.Native.String.{◌++◌}
use novabase.Common.Key.{pair_key}
use novabase.Common.Set
use novabase.Common.Result.{Result, ok, err, invalid_argument}
use novabase.Intelligence.Report.{IndexCandidateStats, IndexRecommendation, WorkloadReport}

pub record AdvisorConfig : Type 0 where
  pub min_successful_executions : ℕ
  pub min_collection_scans : ℕ
  pub min_collection_scan_examined : ℕ
  pub max_return_ratio_basis_points : ℕ

-- `AdvisorConfig::default`
abbrev pub default_config : AdvisorConfig
default_config = record {
  min_successful_executions = 3;
  min_collection_scans = 3;
  min_collection_scan_examined = 100;
  max_return_ratio_basis_points = 2500;
}

-- `validate_config`
unfoldable pub validate_config : AdvisorConfig → Result (Unit {0})
validate_config config =
    if config.min_successful_executions == 0
      || config.min_collection_scans == 0
      || config.min_collection_scan_examined == 0
    then err invalid_argument
    else if ltb 10000 config.max_return_ratio_basis_points
    then err invalid_argument
    else ok tt

-- `ratio_basis_points`
unfoldable pub ratio_basis_points : ℕ → ℕ → ℕ
ratio_basis_points returned examined =
    if examined == 0 then 10000 else min (returned * 10000 / examined) 10000

-- the guards of the loop that `continue`
unfoldable pub skipped : List (String × String) → AdvisorConfig → IndexCandidateStats → Bool
unfolding ratio_basis_points
skipped existing config c =
    Set.contains (c.collection, c.path) existing
    || ltb c.successful_executions config.min_successful_executions
    || ltb c.collection_scans config.min_collection_scans
    || ltb c.collection_scan_examined config.min_collection_scan_examined
    || ltb config.max_return_ratio_basis_points
        (ratio_basis_points c.collection_scan_returned c.collection_scan_examined)

unfoldable pub recommendation : IndexCandidateStats → IndexRecommendation
unfolding ratio_basis_points
recommendation c = record {
  collection = c.collection;
  path = c.path;
  evidence = record {
    successful_executions = c.successful_executions;
    collection_scans = c.collection_scans;
    index_scans = c.index_scans;
    collection_scan_examined = c.collection_scan_examined;
    collection_scan_returned = c.collection_scan_returned;
    collection_scan_elapsed_micros = c.collection_scan_elapsed_micros;
    return_ratio_basis_points =
        ratio_basis_points c.collection_scan_returned c.collection_scan_examined;
  };
}

unfoldable pub recommend_all :
    List (String × String) → AdvisorConfig → List IndexCandidateStats → List IndexRecommendation
unfolding skipped recommendation
recommend_all existing config [] = []
recommend_all existing config (c ∷ candidates) =
    let rest = recommend_all existing config candidates in
    if skipped existing config c then rest else recommendation c ∷ rest

-- `IndexDefinition` of crates/nova-index/src/catalog.rs
pub record IndexDefinition : Type 0 where
  pub name : String
  pub collection : String
  pub field : List String

-- `field.join(".")`
unfoldable pub join : List String → String
join [] = ""
join (s ∷ []) = s
join (s ∷ t ∷ segments) = s ++ "." ++ join (t ∷ segments)

-- the existing collection and path pairs, as a `BTreeSet`
unfoldable pub to_set : List IndexDefinition → List (String × String)
unfolding join
to_set [] = []
to_set (d ∷ definitions) = Set.insert (d.collection, join d.field) (to_set definitions)

-- `recommend_indexes`
unfoldable pub recommend_indexes :
    WorkloadReport → List IndexDefinition → AdvisorConfig → Result (List IndexRecommendation)
unfolding validate_config recommend_all to_set
recommend_indexes report existing config = elim (validate_config config) [
  | err e ↦ err e
  | ok u ↦ ok (recommend_all (to_set existing) config report.index_candidates)
]
