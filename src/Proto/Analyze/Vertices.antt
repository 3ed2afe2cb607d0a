-- ===== src/Proto/Analyze/Vertices.antt =====
-- Types, variables, vertices and annotations from messages, and the helpers of the conversions
-- (rust/src/connection/network/proto/analyze.rs, and `Type` in concept.rs). `A` stands for the addresses of
-- errors, and `checks` is the build's `overflow-checks`.
use typedb_driver.Common.{
  ℕ, Bool, Option, none, some, List, [], ◌∷◌, Bytes, codes, Outcome, ok, err, ◌>>=◌, ok_or,
}
use typedb_driver.Common.Int.{ℤ}
use typedb_driver.Errors.{Error, analyze, AnalyzeError}
use typedb_driver.Concept.{External}
use typedb_driver.Analyze.Conjunctions.{
  Variable, ConceptType, TypeAnnotations, VariableAnnotations, NamedRole, ConstraintVertex,
  ConstraintExactness, Comparator,
}
use typedb_driver.Proto.{Chrono}
use typedb_driver.Proto.Values.{missing, value_type_from_proto, value_try_from_proto}
use typedb_driver.Proto.Concepts.{
  entity_type_from_proto, relation_type_from_proto, role_type_from_proto, attribute_type_from_proto,
}
use typedb_driver.Proto.Analyze.{
  ProtoEnum, ConstraintExactnessProto, ComparatorProto, TypeProto, TypeProtoInner, VariableProto,
  NamedRoleProto, VertexProto, VertexProtoInner, AnnotationsProto, VariableAnnotationsProto,
}

module _ {A : Type 0} where
  abbrev pub missing_field : Bytes → Error A
  missing_field field = analyze (AnalyzeError.missing_response_field field)

  module _ {S D : Type 0} (try_from_proto : S → Outcome (Error A) D) where
    abbrev pub expect_try_from_proto : Option S → Bytes → Outcome (Error A) D
    expect_try_from_proto x field = ok_or (missing_field field) x >>= try_from_proto

    unfoldable pub vec_from_proto : List S → Outcome (Error A) (List D)
    vec_from_proto [] = ok []
    vec_from_proto (x ∷ l) =
        (let rest = vec_from_proto l in try_from_proto x >>= λ d. rest >>= λ ds. ok (d ∷ ds))

    -- `transpose` of an optional field.
    abbrev pub optional_from_proto : Option S → Outcome (Error A) (Option D)
    optional_from_proto none = ok none
    optional_from_proto (some x) = try_from_proto x >>= λ d. ok (some d)

  abbrev pub enum_from_proto : {T : Type 0} → ProtoEnum T → ℤ → Outcome (Error A) T
  enum_from_proto enum as_i32 =
      ok_or (analyze (AnalyzeError.unknown_enum_value enum.type_name as_i32)) (enum.from_i32 as_i32)

  unfoldable pub exactness_try_from_proto :
      ConstraintExactnessProto → Outcome (Error A) ConstraintExactness
  exactness_try_from_proto ConstraintExactnessProto.exact = ok ConstraintExactness.exact
  exactness_try_from_proto ConstraintExactnessProto.subtypes = ok ConstraintExactness.subtypes

  unfoldable pub comparator_try_from_proto : ComparatorProto → Outcome (Error A) Comparator
  comparator_try_from_proto ComparatorProto.equal = ok Comparator.equal
  comparator_try_from_proto ComparatorProto.not_equal = ok Comparator.not_equal
  comparator_try_from_proto ComparatorProto.less = ok Comparator.less_than
  comparator_try_from_proto ComparatorProto.less_or_equal = ok Comparator.less_or_equal
  comparator_try_from_proto ComparatorProto.greater = ok Comparator.greater
  comparator_try_from_proto ComparatorProto.greater_or_equal = ok Comparator.greater_or_equal
  comparator_try_from_proto ComparatorProto.like = ok Comparator.like
  comparator_try_from_proto ComparatorProto.contains = ok Comparator.contains

  unfoldable pub type_try_from_proto : TypeProto → Outcome (Error A) ConceptType
  unfolding attribute_type_from_proto
  type_try_from_proto none = err (missing (codes "type"))
  type_try_from_proto (some (TypeProtoInner.entity_type t)) =
      ok (ConceptType.entity_type (entity_type_from_proto t))
  type_try_from_proto (some (TypeProtoInner.relation_type t)) =
      ok (ConceptType.relation_type (relation_type_from_proto t))
  type_try_from_proto (some (TypeProtoInner.attribute_type t)) =
      attribute_type_from_proto t >>= λ t. ok (ConceptType.attribute_type t)
  type_try_from_proto (some (TypeProtoInner.role_type t)) =
      ok (ConceptType.role_type (role_type_from_proto t))

  abbrev pub variable_try_from_proto : VariableProto → Outcome (Error A) Variable
  variable_try_from_proto proto = ok (record { id = proto.id })

  abbrev pub named_role_try_from_proto : NamedRoleProto → Outcome (Error A) NamedRole
  named_role_try_from_proto proto =
      expect_try_from_proto variable_try_from_proto proto.variable (codes "NamedRole.variable")
      >>= λ variable. ok (record { variable = variable; name = proto.name })

  unfoldable pub type_annotations_try_from_proto :
      AnnotationsProto → Outcome (Error A) TypeAnnotations
  unfolding vec_from_proto type_try_from_proto value_type_from_proto
  type_annotations_try_from_proto (AnnotationsProto.instance_types types) =
      vec_from_proto type_try_from_proto types >>= λ types.
      ok (TypeAnnotations.instance_types types)
  type_annotations_try_from_proto (AnnotationsProto.type_types types) =
      vec_from_proto type_try_from_proto types >>= λ types. ok (TypeAnnotations.type_types types)
  type_annotations_try_from_proto (AnnotationsProto.value_annotations proto) =
      ok_or (missing_field (codes "Value.value_type in VariableAnnotations::ValueAnnotations"))
        proto
      >>= λ t. ok (TypeAnnotations.value_type (value_type_from_proto t))

  unfoldable pub variable_annotations_try_from_proto :
      VariableAnnotationsProto → Outcome (Error A) VariableAnnotations
  unfolding type_annotations_try_from_proto
  variable_annotations_try_from_proto proto =
      expect_try_from_proto type_annotations_try_from_proto proto.annotations
        (codes "VariableAnnotations.annotations")
      >>= λ types. ok (record { is_optional = proto.is_optional; types = types })

  -- An entry of a map of annotations.
  abbrev pub annotated_from_proto :
      ℕ × VariableAnnotationsProto → Outcome (Error A) (Variable × VariableAnnotations)
  annotated_from_proto entry = variable_annotations_try_from_proto entry.1 >>= λ annotations.
      ok (record { id = entry.0 }, annotations)

module _ {A : Type 0} {X : External} (chrono : Chrono X) (checks : Bool) where
  unfoldable pub vertex_try_from_proto : VertexProto X → Outcome (Error A) (ConstraintVertex X)
  unfolding type_try_from_proto value_try_from_proto
  vertex_try_from_proto (some (VertexProtoInner.variable v)) =
      variable_try_from_proto v >>= λ v. ok (ConstraintVertex.variable v)
  vertex_try_from_proto (some (VertexProtoInner.label t)) =
      type_try_from_proto t >>= λ t. ok (ConstraintVertex.label t)
  vertex_try_from_proto (some (VertexProtoInner.value v)) =
      value_try_from_proto chrono checks v >>= λ v. ok (ConstraintVertex.value v)
  vertex_try_from_proto (some (VertexProtoInner.named_role r)) =
      named_role_try_from_proto r >>= λ r. ok (ConstraintVertex.named_role r)
  vertex_try_from_proto none = err (missing_field (codes "StructureVertex.vertex"))
