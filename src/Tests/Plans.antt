-- ===== src/Tests/Plans.antt =====
-- crates/nova-planner: a query whose filter equates a field that has an index.
use novabase.Common.{◌≡◌, ◌⊎◌, refl, false, none, List, [], ◌∷◌}
use novabase.Common.Int.{pos}
use novabase.Index.Key.{IndexKey}
use novabase.Index.Key
use novabase.Intelligence.Advisor.{IndexDefinition}
use novabase.Query.Syntax.{
  integer_literal, and_operator, equal, greater, Expression, literal, path, binary, filter_stage,
  limit_stage, get_command, Query,
}
use novabase.Planner.{equality_key, index_scan, collection_scan, plan}
use novabase.Planner.Choice.{In, Demands, plan-Choice}

-- age = 20 and height > 3
abbrev adults : Expression
adults =
    binary (binary (path ("age" ∷ [])) equal (literal (integer_literal (pos 20)))) and_operator
      (binary (path ("height" ∷ [])) greater (literal (integer_literal (pos 3))))

abbrev query : Query
query = record {
  explain = false;
  command = get_command "students";
  stages = filter_stage adults ∷ limit_stage 5 ∷ [];
}

abbrev indexes : List IndexDefinition
indexes =
    record { name = "by_height"; collection = "students"; field = "height" ∷ [] }
    ∷ record { name = "by_age"; collection = "students"; field = "age" ∷ [] }
    ∷ []

plan-query : (plan query indexes).access ≡ index_scan "students" "by_age" (Key.int64 (pos 20))
unfolding plan
plan-query = refl

plan-Choice_example :
    ((d : IndexDefinition) × (key : IndexKey) × In d indexes
      × (d.collection ≡ "students")
      × Demands adults d.field key
      × ((plan query indexes).access ≡ index_scan "students" d.name key))
    ⊎ (((plan query indexes).access ≡ collection_scan "students")
        × ((d : IndexDefinition)
            → In d indexes
            → d.collection ≡ "students"
            → equality_key adults d.field ≡ none))
unfolding plan
plan-Choice_example = plan-Choice query indexes "students" adults refl refl
