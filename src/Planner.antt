-- ===== src/Planner.antt =====
-- crates/nova-planner/src/lib.rs: the access path of a query.
pub mod Choice
use novabase.Common.{
  ℕ, Bool, true, false, ◌&&◌, Option, none, some, List, [], ◌∷◌, String, map, filter, if◌then◌else◌,
}
use novabase.Common.Key.{same, str_lt, string_key}
use novabase.Index.Key.{IndexKey, float64_key}
use novabase.Index.Key
use novabase.Intelligence.Advisor.{IndexDefinition}
use novabase.Query.Syntax.{
  Literal, null_literal, boolean_literal, integer_literal, float_literal, string_literal,
  BinaryOperator, and_operator, equal, Expression, literal, path, binary, Stage, filter_stage,
  project_stage, sort_stage, limit_stage, skip_stage, set_stage, Command, get_command,
  update_command, delete_command, Query,
}

pub data AccessPath : Type 0 where
  command_only : AccessPath
  collection_scan : String → AccessPath
  index_scan : String → String → IndexKey → AccessPath

pub data Operator : Type 0 where
  filter_operator project_operator sort_operator limit_operator skip_operator set_operator :
      Operator

pub record QueryPlan : Type 0 where
  pub access : AccessPath
  pub operators : List Operator

abbrev pub or_else {ℓ} : {A : Type ℓ} → Option A → Option A → Option A
or_else none other = other
or_else (some a) other = some a

abbrev pub same_path : List String → List String → Bool
same_path [] [] = true
same_path (s ∷ p) (t ∷ q) = same s t && same_path p q
same_path _ _ = false

-- the key of a literal
unfoldable pub literal_key : Literal → Option IndexKey
unfolding float64_key
literal_key (integer_literal i) = some (Key.int64 i)
literal_key (float_literal bits) = some (float64_key bits)
literal_key (string_literal s) = some (Key.string s)
literal_key _ = none

-- `path_literal`
unfoldable pub path_literal : Expression → Expression → List String → Option IndexKey
unfolding literal_key
path_literal (path segments) (literal l) field =
    if same_path segments field then literal_key l else none
path_literal _ _ field = none

-- `equality_key`
unfoldable pub equality_key : Expression → List String → Option IndexKey
unfolding path_literal
equality_key (binary left and_operator right) field =
    or_else (equality_key left field) (equality_key right field)
equality_key (binary left equal right) field =
    or_else (path_literal left right field) (path_literal right left field)
equality_key _ field = none

-- `command_collection`
unfoldable pub command_collection : Command → Option String
command_collection (get_command collection) = some collection
command_collection (update_command collection) = some collection
command_collection (delete_command collection) = some collection
command_collection _ = none

-- the first filter
unfoldable pub find_predicate : List Stage → Option Expression
find_predicate [] = none
find_predicate (filter_stage e ∷ stages) = some e
find_predicate (stage ∷ stages) = find_predicate stages

-- `sort_by` on the names, which keeps the order of equal ones
unfoldable pub insert_by_name : IndexDefinition → List IndexDefinition → List IndexDefinition
insert_by_name d [] = d ∷ []
insert_by_name d (e ∷ sorted) =
    let rest = insert_by_name d sorted in
    if str_lt e.name d.name then e ∷ rest else d ∷ (e ∷ sorted)

unfoldable pub sort_by_name : List IndexDefinition → List IndexDefinition
unfolding insert_by_name
sort_by_name [] = []
sort_by_name (d ∷ definitions) = insert_by_name d (sort_by_name definitions)

-- the first candidate with a key
unfoldable pub find_key : Expression → List IndexDefinition → Option (String × IndexKey)
unfolding equality_key
find_key predicate [] = none
find_key predicate (d ∷ candidates) =
    let rest = find_key predicate candidates in
    elim (equality_key predicate d.field) [ none ↦ rest | some key ↦ some (d.name, key) ]

-- `find_index_scan`
unfoldable pub find_index_scan :
    String → List Stage → List IndexDefinition → Option (String × IndexKey)
unfolding find_predicate sort_by_name find_key
find_index_scan collection stages definitions = elim (find_predicate stages) [
  | none ↦ none
  | some predicate ↦
      find_key predicate (sort_by_name (filter (λ d. same d.collection collection) definitions))
]

-- `stage_name`
unfoldable pub stage_name : Stage → Operator
stage_name (filter_stage e) = filter_operator
stage_name (project_stage paths) = project_operator
stage_name (sort_stage keys) = sort_operator
stage_name (limit_stage n) = limit_operator
stage_name (skip_stage n) = skip_operator
stage_name (set_stage assignments) = set_operator

abbrev pub access_of : String → Option (String × IndexKey) → AccessPath
access_of collection none = collection_scan collection
access_of collection (some (index, key)) = index_scan collection index key

-- `plan`
unfoldable pub plan : Query → List IndexDefinition → QueryPlan
unfolding command_collection find_index_scan stage_name
plan query definitions = record {
  access = elim (command_collection query.command) [
    | none ↦ command_only
    | some collection ↦ access_of collection (find_index_scan collection query.stages definitions)
  ];
  operators = map stage_name query.stages;
}
