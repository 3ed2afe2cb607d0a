-- ===== src/Proto/Analyze/Constraints.antt =====
-- Constraints and conjunctions from messages (rust/src/connection/network/proto/analyze.rs). `A` stands for
-- the addresses of errors, and `checks` is the build's `overflow-checks`.
use typedb_driver.Common.{ℕ, Bool, Option, Bytes, codes, Outcome, ok, ◌>>=◌, map}
use typedb_driver.Common.Int.{ℤ}
use typedb_driver.Errors.{Error}
use typedb_driver.Concept.{External}
use typedb_driver.Analyze.Conjunctions.{
  ConjunctionId, ConstraintVertex, Constraint, ConstraintSpan, ConstraintWithSpan, Conjunction,
}
use typedb_driver.Proto.{Chrono}
use typedb_driver.Proto.Values.{value_type_try_from_proto, kind_try_from_proto}
use typedb_driver.Proto.Analyze.{
  Enums, ConstraintExactnessProto, VertexProto, ConstraintProto, ConstraintSpanProto,
  ConstraintWithSpanProto, ConjunctionProto,
}
use typedb_driver.Proto.Analyze.Vertices.{
  expect_try_from_proto, vec_from_proto, optional_from_proto, enum_from_proto,
  exactness_try_from_proto, comparator_try_from_proto, vertex_try_from_proto, annotated_from_proto,
}

abbrev pub conjunction_id : ℕ → ConjunctionId
conjunction_id n = record { id = n }

abbrev pub span_from_proto : {A : Type 0} → ConstraintSpanProto → Outcome (Error A) ConstraintSpan
span_from_proto proto = ok (record { begin = proto.begin; end = proto.end })

module _ {A : Type 0} {X : External} (chrono : Chrono X) (enums : Enums) (checks : Bool) where
  -- A vertex that is a field of a constraint.
  abbrev pub vertex_from_proto :
      Option (VertexProto X) → Bytes → Outcome (Error A) (ConstraintVertex X)
  vertex_from_proto = expect_try_from_proto (vertex_try_from_proto chrono checks)

  abbrev pub exactness_from_proto : ℤ → Outcome (Error A) ConstraintExactnessProto
  exactness_from_proto = enum_from_proto enums.exactness

  unfoldable pub constraint_try_from_proto : ConstraintProto X → Outcome (Error A) (Constraint X)
  unfolding vertex_try_from_proto exactness_try_from_proto comparator_try_from_proto vec_from_proto
      kind_try_from_proto value_type_try_from_proto
  constraint_try_from_proto (ConstraintProto.or branches) =
      ok (Constraint.or (map conjunction_id branches))
  constraint_try_from_proto (ConstraintProto.not conjunction) =
      ok (Constraint.not (conjunction_id conjunction))
  constraint_try_from_proto (ConstraintProto.try conjunction) =
      ok (Constraint.try (conjunction_id conjunction))
  constraint_try_from_proto (ConstraintProto.isa instance_vertex type exactness) =
      exactness_from_proto exactness >>= λ exactness_proto.
      vertex_from_proto instance_vertex (codes "structure_constraint::Isa.instance")
      >>= λ instance_vertex.
          vertex_from_proto type (codes "structure_constraint::Isa.type") >>= λ type.
          exactness_try_from_proto exactness_proto >>= λ exactness.
          ok (Constraint.isa instance_vertex type exactness)
  constraint_try_from_proto (ConstraintProto.has owner attribute exactness) =
      exactness_from_proto exactness >>= λ exactness_proto.
      vertex_from_proto owner (codes "structure_constraint::Has.owner") >>= λ owner.
      vertex_from_proto attribute (codes "structure_constraint::Has.attribute") >>= λ attribute.
      exactness_try_from_proto exactness_proto >>= λ exactness.
      ok (Constraint.has owner attribute exactness)
  constraint_try_from_proto (ConstraintProto.links relation player role exactness) =
      exactness_from_proto exactness >>= λ exactness_proto.
      vertex_from_proto relation (codes "structure_constraint::Links.relation") >>= λ relation.
      vertex_from_proto player (codes "structure_constraint::Links.player") >>= λ player.
      vertex_from_proto role (codes "structure_constraint::Links.role") >>= λ role.
      exactness_try_from_proto exactness_proto >>= λ exactness.
      ok (Constraint.links relation player role exactness)
  constraint_try_from_proto (ConstraintProto.sub subtype supertype exactness) =
      exactness_from_proto exactness >>= λ exactness_proto.
      vertex_from_proto subtype (codes "structure_constraint::Sub.subtype") >>= λ subtype.
      vertex_from_proto supertype (codes "structure_constraint::Sub.supertype") >>= λ supertype.
      exactness_try_from_proto exactness_proto >>= λ exactness.
      ok (Constraint.sub subtype supertype exactness)
  constraint_try_from_proto (ConstraintProto.owns owner attribute exactness) =
      exactness_from_proto exactness >>= λ exactness_proto.
      vertex_from_proto owner (codes "structure_constraint::Owns.owner") >>= λ owner.
      vertex_from_proto attribute (codes "structure_constraint::Owns.attribute") >>= λ attribute.
      exactness_try_from_proto exactness_proto >>= λ exactness.
      ok (Constraint.owns owner attribute exactness)
  constraint_try_from_proto (ConstraintProto.relates relation role exactness) =
      exactness_from_proto exactness >>= λ exactness_proto.
      vertex_from_proto relation (codes "structure_constraint::Relates.relation") >>= λ relation.
      vertex_from_proto role (codes "structure_constraint::Relates.role") >>= λ role.
      exactness_try_from_proto exactness_proto >>= λ exactness.
      ok (Constraint.relates relation role exactness)
  constraint_try_from_proto (ConstraintProto.plays player role exactness) =
      exactness_from_proto exactness >>= λ exactness_proto.
      vertex_from_proto player (codes "structure_constraint::Plays.player") >>= λ player.
      vertex_from_proto role (codes "structure_constraint::Plays.role") >>= λ role.
      exactness_try_from_proto exactness_proto >>= λ exactness.
      ok (Constraint.plays player role exactness)
  constraint_try_from_proto (ConstraintProto.kind kind type) = kind_try_from_proto kind >>= λ kind.
      vertex_from_proto type (codes "structure_constraint::Kind.kind") >>= λ type.
      ok (Constraint.kind kind type)
  constraint_try_from_proto (ConstraintProto.value attribute_type value_type) =
      vertex_from_proto attribute_type (codes "structure_constraint::Value.attribute_type")
      >>= λ attribute_type.
          expect_try_from_proto value_type_try_from_proto value_type
            (codes "structure_constraint::Value.value_type")
          >>= λ value_type. ok (Constraint.value attribute_type value_type)
  constraint_try_from_proto (ConstraintProto.label type label) =
      vertex_from_proto type (codes "structure_constraint::Label.type") >>= λ type.
      ok (Constraint.label type label)
  constraint_try_from_proto (ConstraintProto.comparison lhs rhs comparator) =
      enum_from_proto enums.comparator comparator >>= λ comparator.
      vertex_from_proto lhs (codes "structure_constraint::Comparison.lhs") >>= λ lhs.
      vertex_from_proto rhs (codes "structure_constraint::Comparison.rhs") >>= λ rhs.
      comparator_try_from_proto comparator >>= λ comparator.
      ok (Constraint.comparison lhs rhs comparator)
  constraint_try_from_proto (ConstraintProto.expression assigned arguments text) =
      vertex_from_proto assigned (codes "Expression.assigned") >>= λ assigned.
      vec_from_proto (vertex_try_from_proto chrono checks) arguments >>= λ arguments.
      ok (Constraint.expression text assigned arguments)
  constraint_try_from_proto (ConstraintProto.function_call name assigned arguments) =
      vec_from_proto (vertex_try_from_proto chrono checks) assigned >>= λ assigned.
      vec_from_proto (vertex_try_from_proto chrono checks) arguments >>= λ arguments.
      ok (Constraint.function_call name assigned arguments)
  constraint_try_from_proto (ConstraintProto.is lhs rhs) =
      vertex_from_proto lhs (codes "structure_constraint::Is.lhs") >>= λ lhs.
      vertex_from_proto rhs (codes "structure_constraint::Is.rhs") >>= λ rhs.
      ok (Constraint.is lhs rhs)
  constraint_try_from_proto (ConstraintProto.iid concept iid) =
      vertex_from_proto concept (codes "structure_constraint::Iid.concept") >>= λ concept.
      ok (Constraint.iid concept iid)

  unfoldable pub constraint_with_span_try_from_proto :
      ConstraintWithSpanProto X → Outcome (Error A) (ConstraintWithSpan X)
  unfolding constraint_try_from_proto
  constraint_with_span_try_from_proto proto =
      expect_try_from_proto constraint_try_from_proto proto.constraint
        (codes "Constraint.constraint")
      >>= λ constraint. optional_from_proto span_from_proto proto.span >>= λ span.
          ok (record { constraint = constraint; span = span })

  unfoldable pub conjunction_try_from_proto : ConjunctionProto X → Outcome (Error A) (Conjunction X)
  unfolding vec_from_proto constraint_with_span_try_from_proto
  conjunction_try_from_proto proto =
      vec_from_proto annotated_from_proto proto.variable_annotations >>= λ annotations.
      vec_from_proto constraint_with_span_try_from_proto proto.constraints >>= λ constraints.
      ok (record { constraints = constraints; variable_annotations = annotations })
