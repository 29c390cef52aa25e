-- ===== src/Query/Syntax.antt =====
-- crates/nova-query/src/ast.rs: the syntax of queries, without the places in the text. A text literal is
-- its bytes, and a float its bits.
use novabase.Common.{ℕ, Bool, List, String}
use novabase.Common.Int.{ℤ}
use novabase.Storage.Bytes.{Bytes}

pub data Literal : Type 0 where
  null_literal : Literal
  boolean_literal : Bool → Literal
  integer_literal : ℤ → Literal
  float_literal : ℕ → Literal
  string_literal : Bytes → Literal

pub data UnaryOperator : Type 0 where
  negation negate positive : UnaryOperator

pub data BinaryOperator : Type 0 where
  or_operator and_operator equal not_equal less less_equal greater greater_equal contains add
        subtract multiply divide remainder :
      BinaryOperator

-- `ExpressionKind`; the segments of a path stand in place of it
mutual
  pub data Expression : Type 0 where
    literal : Literal → Expression
    path : List String → Expression
    array : Expressions → Expression
    object : ObjectFields → Expression
    unary : UnaryOperator → Expression → Expression
    binary : Expression → BinaryOperator → Expression → Expression

  pub data Expressions : Type 0 where
    no_expressions : Expressions
    expression : Expression → Expressions → Expressions

  pub data ObjectFields : Type 0 where
    no_object_fields : ObjectFields
    object_field : String → Expression → ObjectFields → ObjectFields

pub data SortDirection : Type 0 where
  ascending descending : SortDirection

pub record SortKey : Type 0 where
  pub path : List String
  pub direction : SortDirection

pub record Assignment : Type 0 where
  pub path : List String
  pub value : Expression

pub data Stage : Type 0 where
  filter_stage : Expression → Stage
  project_stage : List (List String) → Stage
  sort_stage : List SortKey → Stage
  limit_stage : ℕ → Stage
  skip_stage : ℕ → Stage
  set_stage : List Assignment → Stage

pub data Command : Type 0 where
  get_command : String → Command
  insert_command : String → Expression → Command
  update_command : String → Command
  delete_command : String → Command
  create_collection : String → Command
  drop_collection : String → Command
  create_index : String → String → List (List String) → Command
  drop_index : String → Command

pub record Query : Type 0 where
  pub explain : Bool
  pub command : Command
  pub stages : List Stage
