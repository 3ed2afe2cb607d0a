-- ===== src/Proto/Analyze.antt =====
-- The messages of an analyzed query, with the constructors that
-- rust/src/connection/network/proto/analyze.rs names. The entries of a map are in the order of iteration.
pub mod Vertices
pub mod Tests
pub mod Sent
pub mod RoundTrip
pub mod Constraints
pub mod Stages
pub mod Queries
use typedb_driver.Common.{ℕ, Bool, Option, List, Bytes}
use typedb_driver.Common.Int.{ℤ}
use typedb_driver.Concept.{External}
use typedb_driver.Proto.{AttributeTypeProto, ValueProto, ValueTypeProto, ValueTypeStructProto}

-- The conversion of a number to an enum, which the protocol's compiler makes.
pub record ProtoEnum (T : Type 0) : Type 0 where
  pub type_name : Bytes
  pub from_i32 : ℤ → Option T

pub data ConstraintExactnessProto : Type 0 where
  exact subtypes : ConstraintExactnessProto

pub data ComparatorProto : Type 0 where
  equal not_equal less less_or_equal greater greater_or_equal like contains : ComparatorProto

pub data SortDirection : Type 0 where
  asc desc : SortDirection

pub record Enums : Type 0 where
  pub exactness : ProtoEnum ConstraintExactnessProto
  pub comparator : ProtoEnum ComparatorProto
  pub direction : ProtoEnum SortDirection

pub data TypeProtoInner : Type 0 where
  entity_type relation_type role_type : Bytes → TypeProtoInner
  attribute_type : AttributeTypeProto → TypeProtoInner

abbrev pub TypeProto : Type 0
TypeProto = Option TypeProtoInner

pub record VariableProto : Type 0 where
  pub id : ℕ

pub record NamedRoleProto : Type 0 where
  pub variable : Option VariableProto
  pub name : Bytes

pub data VertexProtoInner (X : External) : Type 0 where
  variable : VariableProto → VertexProtoInner X
  label : TypeProto → VertexProtoInner X
  value : ValueProto X → VertexProtoInner X
  named_role : NamedRoleProto → VertexProtoInner X

abbrev pub VertexProto : External → Type 0
VertexProto X = Option (VertexProtoInner X)

pub data AnnotationsProto : Type 0 where
  instance_types type_types : List TypeProto → AnnotationsProto
  value_annotations : Option ValueTypeProto → AnnotationsProto

pub record VariableAnnotationsProto : Type 0 where
  pub is_optional : Bool
  pub annotations : Option AnnotationsProto

-- A vertex that is a field may be missing, and a vertex may be empty.
pub data ConstraintProto (X : External) : Type 0 where
  or : (branches : List ℕ) → ConstraintProto X
  not try : (conjunction : ℕ) → ConstraintProto X
  isa : (instance_vertex type : Option (VertexProto X)) (exactness : ℤ) → ConstraintProto X
  has : (owner attribute : Option (VertexProto X)) (exactness : ℤ) → ConstraintProto X
  links : (relation player role : Option (VertexProto X)) (exactness : ℤ) → ConstraintProto X
  kind : (kind : ℤ) (type : Option (VertexProto X)) → ConstraintProto X
  sub : (subtype supertype : Option (VertexProto X)) (exactness : ℤ) → ConstraintProto X
  owns : (owner attribute : Option (VertexProto X)) (exactness : ℤ) → ConstraintProto X
  relates : (relation role : Option (VertexProto X)) (exactness : ℤ) → ConstraintProto X
  plays : (player role : Option (VertexProto X)) (exactness : ℤ) → ConstraintProto X
  value :
      (attribute_type : Option (VertexProto X)) (value_type : Option ValueTypeStructProto)
      → ConstraintProto X
  label : (type : Option (VertexProto X)) (label : Bytes) → ConstraintProto X
  comparison : (lhs rhs : Option (VertexProto X)) (comparator : ℤ) → ConstraintProto X
  expression :
      (assigned : Option (VertexProto X)) (arguments : List (VertexProto X)) (text : Bytes)
      → ConstraintProto X
  function_call : (name : Bytes) (assigned arguments : List (VertexProto X)) → ConstraintProto X
  is : (lhs rhs : Option (VertexProto X)) → ConstraintProto X
  iid : (concept : Option (VertexProto X)) (iid : Bytes) → ConstraintProto X

pub record ConstraintSpanProto : Type 0 where
  pub begin : ℕ
  pub end : ℕ

pub record ConstraintWithSpanProto (X : External) : Type 0 where
  pub constraint : Option (ConstraintProto X)
  pub span : Option ConstraintSpanProto

pub record ConjunctionProto (X : External) : Type 0 where
  pub constraints : List (ConstraintWithSpanProto X)
  pub variable_annotations : List (ℕ × VariableAnnotationsProto)

pub record ReducerProto : Type 0 where
  pub variables : List VariableProto
  pub reducer : Bytes

pub record ReduceAssignProto : Type 0 where
  pub assigned : Option VariableProto
  pub reducer : Option ReducerProto

pub record SortVariableProto : Type 0 where
  pub variable : Option VariableProto
  pub direction : ℤ

pub data StageProto : Type 0 where
  match insert put update : (block : ℕ) → StageProto
  delete : (block : ℕ) (deleted_variables : List VariableProto) → StageProto
  select : (variables : List VariableProto) → StageProto
  sort : (sort_variables : List SortVariableProto) → StageProto
  require : (variables : List VariableProto) → StageProto
  offset : (offset : ℕ) → StageProto
  limit : (limit : ℕ) → StageProto
  distinct : StageProto
  reduce : (reducers : List ReduceAssignProto) (groupby : List VariableProto) → StageProto

pub record PipelineProto (X : External) : Type 0 where
  pub conjunctions : List (ConjunctionProto X)
  pub stages : List (Option StageProto)
  pub variable_info : List (ℕ × Bytes)
  pub outputs : List VariableProto

pub data ReturnProto : Type 0 where
  stream : (variables : List VariableProto) → ReturnProto
  single : (selector : Bytes) (variables : List VariableProto) → ReturnProto
  check : ReturnProto
  reduce : (reducers : List ReducerProto) → ReturnProto

-- The operation of a function's return may be missing, or empty.
pub record FunctionProto (X : External) : Type 0 where
  pub body : Option (PipelineProto X)
  pub arguments : List VariableProto
  pub return_operation : Option (Option ReturnProto)
  pub arguments_annotations : List VariableAnnotationsProto
  pub return_annotations : List VariableAnnotationsProto

pub record AnalyzedGivenProto : Type 0 where
  pub variables : List VariableProto
  pub variable_annotations : List (ℕ × VariableAnnotationsProto)

mutual
  -- A fetch whose node is missing is a case of its own.
  pub data FetchProto : Type 0 where
    absent : FetchProto
    object : FetchEntriesProto → FetchProto
    list : FetchProto → FetchProto
    leaf : (annotations : List ValueTypeStructProto) → FetchProto

  pub data FetchEntriesProto : Type 0 where
    no_fetch : FetchEntriesProto
    fetch_entry : Bytes → FetchProto → FetchEntriesProto → FetchEntriesProto

pub record AnalyzedQueryProto (X : External) : Type 0 where
  pub source : Bytes
  pub preamble : List (FunctionProto X)
  pub given : Option AnalyzedGivenProto
  pub query : Option (PipelineProto X)
  pub fetch : Option FetchProto

-- `typedb_protocol::Error`
pub record ErrorProto : Type 0 where
  pub error_code : Bytes
  pub domain : Bytes
  pub stack_trace : List Bytes

pub data AnalyzeResultProto (X : External) : Type 0 where
  ok : AnalyzedQueryProto X → AnalyzeResultProto X
  err : ErrorProto → AnalyzeResultProto X

-- `analyze::Res`
abbrev pub AnalyzeResProto : External → Type 0
AnalyzeResProto X = Option (AnalyzeResultProto X)
