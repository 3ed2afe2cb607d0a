-- ===== src/Analyze.antt =====
-- What the server finds out about a query (rust/src/analyze/mod.rs). `Conjunctions` and `Pipelines` have
-- the parts that the modules conjunction and pipeline declare.
pub mod Conjunctions
pub mod Pipelines
use typedb_driver.Common.{◌≡◌, Option, List, Bytes}
use typedb_driver.Concept.{External, ValueType}
use typedb_driver.Analyze.Conjunctions.{Variable, VariableAnnotations}
use typedb_driver.Analyze.Pipelines.{Pipeline, Reducer}

pub data ReturnOperation : Type 0 where
  stream : (variables : List Variable) → ReturnOperation
  single : (selector : Bytes) (variables : List Variable) → ReturnOperation
  check : ReturnOperation
  reduce : (reducers : List Reducer) → ReturnOperation

pub record Function (X : External) : Type 0 where
  pub argument_variables : List Variable
  pub return_operation : ReturnOperation
  pub body : Pipeline X
  pub argument_annotations : List VariableAnnotations
  pub return_annotations : List VariableAnnotations

pub record Given : Type 0 where
  pub variables : List Variable
  pub variable_annotations : List (Variable × VariableAnnotations)

pub record FetchLeaf : Type 0 where
  pub annotations : List ValueType

mutual
  pub data Fetch : Type 0 where
    list : Fetch → Fetch
    leaf : FetchLeaf → Fetch
    object : FetchEntries → Fetch

  -- The entries of a `HashMap<String, Fetch>`, in the order of iteration.
  pub data FetchEntries : Type 0 where
    no_fetch : FetchEntries
    fetch_entry : Bytes → Fetch → FetchEntries → FetchEntries

pub record AnalyzedQuery (X : External) : Type 0 where
  pub source : Bytes
  pub preamble : List (Function X)
  pub given : Option Given
  pub query : Pipeline X
  pub fetch : Option Fetch
