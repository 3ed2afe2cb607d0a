-- ===== src/Analyze/Pipelines.antt =====
-- The stages of a query (rust/src/analyze/pipeline.rs).
use mathlib.Core.Option
use typedb_driver.Common.{ℕ, Option, List, Bytes}
use typedb_driver.Common.Maps
use typedb_driver.Concept.{External}
use typedb_driver.Analyze.Conjunctions.{ConjunctionId, Variable, variable_eq, Conjunction}

pub record VariableInfo : Type 0 where
  pub name : Bytes

pub record Reducer : Type 0 where
  pub arguments : List Variable
  pub reducer : Bytes

pub record ReduceAssignment : Type 0 where
  pub assigned : Variable
  pub reducer : Reducer

pub data SortOrder : Type 0 where
  ascending descending : SortOrder

pub record SortVariable : Type 0 where
  pub variable : Variable
  pub order : SortOrder

pub data PipelineStage : Type 0 where
  match insert put update : (block : ConjunctionId) → PipelineStage
  delete : (block : ConjunctionId) (deleted_variables : List Variable) → PipelineStage
  select : (variables : List Variable) → PipelineStage
  sort : (variables : List SortVariable) → PipelineStage
  require : (variables : List Variable) → PipelineStage
  offset : (offset : ℕ) → PipelineStage
  limit : (limit : ℕ) → PipelineStage
  distinct : PipelineStage
  reduce : (reducers : List ReduceAssignment) (groupby : List Variable) → PipelineStage

pub record Pipeline (X : External) : Type 0 where
  pub conjunctions : List (Conjunction X)
  pub stages : List PipelineStage
  pub variable_info : List (Variable × VariableInfo)
  pub outputs : List Variable

pub variable_name : {X : External} → Pipeline X → Variable → Option Bytes
variable_name pipeline v = Option.map (λ info. info.name) (Maps.lookup v pipeline.variable_info)
