-- ===== src/Proto/Analyze/Sent.antt =====
-- The message that carries an analyzed query, field by field: what a server sends, from the reading that
-- rust/src/connection/network/proto/analyze.rs gives the fields. `codes` has the numbers of the enums.
pub mod Queries
use typedb_driver.Common.{ℕ, ◌≡◌, Bool, Option, none, some, List, map, All, Outcome, ok, err, panic}
use typedb_driver.Common.Int.{ℤ, pos}
use mathlib.Core.Option
use typedb_driver.Concept.{External, Value, ValueType, Kind, AttributeType}
use typedb_driver.Analyze.{ReturnOperation, Function, Given, Fetch, FetchEntries, AnalyzedQuery}
use typedb_driver.Analyze.Conjunctions.{
  Variable, ConceptType, TypeAnnotations, VariableAnnotations, ConstraintExactness, NamedRole,
  ConstraintVertex, Comparator, Constraint, ConstraintSpan, ConstraintWithSpan, Conjunction,
}
use typedb_driver.Analyze.Pipelines.{
  VariableInfo, Reducer, ReduceAssignment, SortOrder, SortVariable, PipelineStage, Pipeline,
}
use typedb_driver.Proto.{
  Chrono, ValueProto, ValueTypeProto, ValueTypeStructProto, AttributeTypeProto,
}
use typedb_driver.Proto.Values.{value_into_proto}
use typedb_driver.Proto.Values.RoundTrip.{IsSendable}
use typedb_driver.Proto.Analyze.{
  ProtoEnum, ConstraintExactnessProto, ComparatorProto, SortDirection, Enums, TypeProto,
  TypeProtoInner, VariableProto, NamedRoleProto, VertexProto, VertexProtoInner, AnnotationsProto,
  VariableAnnotationsProto, ConstraintProto, ConstraintSpanProto, ConstraintWithSpanProto,
  ConjunctionProto, ReducerProto, ReduceAssignProto, SortVariableProto, StageProto, PipelineProto,
  ReturnProto, FunctionProto, AnalyzedGivenProto, FetchProto, FetchEntriesProto, AnalyzedQueryProto,
  AnalyzeResultProto, AnalyzeResProto,
}

-- A number for each value of an enum, from which it is found again.
pub record EnumCodes {T : Type 0} (enum : ProtoEnum T) : Type 0 where
  pub to_i32 : T → ℤ
  pub from-to : (x : T) → enum.from_i32 (to_i32 x) ≡ some x

pub record Codes (enums : Enums) : Type 0 where
  pub exactness : EnumCodes enums.exactness
  pub comparator : EnumCodes enums.comparator
  pub direction : EnumCodes enums.direction

unfoldable pub sent_value_type : ValueType → ValueTypeProto
sent_value_type ValueType.boolean = ValueTypeProto.boolean
sent_value_type ValueType.integer = ValueTypeProto.integer
sent_value_type ValueType.double = ValueTypeProto.double
sent_value_type ValueType.decimal = ValueTypeProto.decimal
sent_value_type ValueType.string = ValueTypeProto.string
sent_value_type ValueType.date = ValueTypeProto.date
sent_value_type ValueType.datetime = ValueTypeProto.datetime
sent_value_type ValueType.datetime_tz = ValueTypeProto.datetime_tz
sent_value_type ValueType.duration = ValueTypeProto.duration
sent_value_type (ValueType.struct name) = ValueTypeProto.struct name

unfoldable pub sent_attribute_type : AttributeType → AttributeTypeProto
sent_attribute_type t = record {
  label = t.label;
  value_type = Option.map (λ v. some (sent_value_type v)) t.value_type;
}

unfoldable pub sent_type : ConceptType → TypeProto
sent_type (ConceptType.entity_type t) = some (TypeProtoInner.entity_type t.label)
sent_type (ConceptType.relation_type t) = some (TypeProtoInner.relation_type t.label)
sent_type (ConceptType.attribute_type t) =
    some (TypeProtoInner.attribute_type (sent_attribute_type t))
sent_type (ConceptType.role_type t) = some (TypeProtoInner.role_type t.label)

unfoldable pub sent_kind : Kind → ℤ
sent_kind Kind.entity = pos 0
sent_kind Kind.relation = pos 1
sent_kind Kind.attribute = pos 2
sent_kind Kind.role = pos 3

unfoldable pub sent_exactness : ConstraintExactness → ConstraintExactnessProto
sent_exactness ConstraintExactness.exact = ConstraintExactnessProto.exact
sent_exactness ConstraintExactness.subtypes = ConstraintExactnessProto.subtypes

unfoldable pub sent_comparator : Comparator → ComparatorProto
sent_comparator Comparator.equal = ComparatorProto.equal
sent_comparator Comparator.not_equal = ComparatorProto.not_equal
sent_comparator Comparator.less_than = ComparatorProto.less
sent_comparator Comparator.less_or_equal = ComparatorProto.less_or_equal
sent_comparator Comparator.greater = ComparatorProto.greater
sent_comparator Comparator.greater_or_equal = ComparatorProto.greater_or_equal
sent_comparator Comparator.like = ComparatorProto.like
sent_comparator Comparator.contains = ComparatorProto.contains

abbrev pub sent_variable : Variable → VariableProto
sent_variable v = record { id = v.id }

abbrev pub sent_role : NamedRole → NamedRoleProto
sent_role r = record { variable = some (sent_variable r.variable); name = r.name }

unfoldable pub sent_annotations : TypeAnnotations → AnnotationsProto
sent_annotations (TypeAnnotations.instance_types l) =
    AnnotationsProto.instance_types (map sent_type l)
sent_annotations (TypeAnnotations.type_types l) = AnnotationsProto.type_types (map sent_type l)
sent_annotations (TypeAnnotations.value_type t) =
    AnnotationsProto.value_annotations (some (sent_value_type t))

abbrev pub sent_variable_annotations : VariableAnnotations → VariableAnnotationsProto
sent_variable_annotations x = record {
  is_optional = x.is_optional;
  annotations = some (sent_annotations x.types);
}

abbrev pub sent_annotated : Variable × VariableAnnotations → ℕ × VariableAnnotationsProto
sent_annotated x = (x.0.id, sent_variable_annotations x.1)

module _ {X : External} (chrono : Chrono X) where
  -- A struct has no message.
  unfoldable pub sent_value : Value X → ValueProto X
  sent_value v = elim (value_into_proto {A = Unit {0}} chrono v) [
    | ok proto ↦ proto
    | err x ↦ none
    | panic ↦ none
  ]

  unfoldable pub sent_vertex : ConstraintVertex X → VertexProto X
  sent_vertex (ConstraintVertex.variable v) = some (VertexProtoInner.variable (sent_variable v))
  sent_vertex (ConstraintVertex.label t) = some (VertexProtoInner.label (sent_type t))
  sent_vertex (ConstraintVertex.value v) = some (VertexProtoInner.value (sent_value v))
  sent_vertex (ConstraintVertex.named_role r) = some (VertexProtoInner.named_role (sent_role r))

module _ {X : External} (chrono : Chrono X) {enums : Enums} (codes : Codes enums) where
  abbrev pub field : ConstraintVertex X → Option (VertexProto X)
  field v = some (sent_vertex chrono v)

  abbrev pub exactness_code : ConstraintExactness → ℤ
  exactness_code e = codes.exactness.to_i32 (sent_exactness e)

  unfoldable pub sent_constraint : Constraint X → ConstraintProto X
  sent_constraint (Constraint.isa v type e) =
      ConstraintProto.isa (field v) (field type) (exactness_code e)
  sent_constraint (Constraint.has owner attribute e) =
      ConstraintProto.has (field owner) (field attribute) (exactness_code e)
  sent_constraint (Constraint.links relation player role e) =
      ConstraintProto.links (field relation) (field player) (field role) (exactness_code e)
  sent_constraint (Constraint.sub subtype supertype e) =
      ConstraintProto.sub (field subtype) (field supertype) (exactness_code e)
  sent_constraint (Constraint.owns owner attribute e) =
      ConstraintProto.owns (field owner) (field attribute) (exactness_code e)
  sent_constraint (Constraint.relates relation role e) =
      ConstraintProto.relates (field relation) (field role) (exactness_code e)
  sent_constraint (Constraint.plays player role e) =
      ConstraintProto.plays (field player) (field role) (exactness_code e)
  sent_constraint (Constraint.function_call name assigned arguments) =
      ConstraintProto.function_call name (map (sent_vertex chrono) assigned)
        (map (sent_vertex chrono) arguments)
  sent_constraint (Constraint.expression text assigned arguments) =
      ConstraintProto.expression (field assigned) (map (sent_vertex chrono) arguments) text
  sent_constraint (Constraint.is lhs rhs) = ConstraintProto.is (field lhs) (field rhs)
  sent_constraint (Constraint.iid concept iid) = ConstraintProto.iid (field concept) iid
  sent_constraint (Constraint.comparison lhs rhs comparator) =
      ConstraintProto.comparison (field lhs) (field rhs)
        (codes.comparator.to_i32 (sent_comparator comparator))
  sent_constraint (Constraint.kind kind type) = ConstraintProto.kind (sent_kind kind) (field type)
  sent_constraint (Constraint.label type label) = ConstraintProto.label (field type) label
  sent_constraint (Constraint.value attribute_type value_type) =
      ConstraintProto.value (field attribute_type) (some (some (sent_value_type value_type)))
  sent_constraint (Constraint.or branches) = ConstraintProto.or (map (λ b. b.id) branches)
  sent_constraint (Constraint.not conjunction) = ConstraintProto.not conjunction.id
  sent_constraint (Constraint.try conjunction) = ConstraintProto.try conjunction.id

  abbrev pub sent_span : ConstraintSpan → ConstraintSpanProto
  sent_span s = record { begin = s.begin; end = s.end }

  abbrev pub sent_constraint_with_span : ConstraintWithSpan X → ConstraintWithSpanProto X
  sent_constraint_with_span c = record {
    constraint = some (sent_constraint c.constraint);
    span = Option.map sent_span c.span;
  }

  abbrev pub sent_conjunction : Conjunction X → ConjunctionProto X
  sent_conjunction c = record {
    constraints = map sent_constraint_with_span c.constraints;
    variable_annotations = map sent_annotated c.variable_annotations;
  }
