-- ===== src/Proto/Analyze/RoundTrip.antt =====
-- Vertices and constraints that are read back (rust/src/connection/network/proto/analyze.rs).
pub mod Vertices
pub mod Constraints
pub mod Queries
use mathlib.Core.Option
use typedb_driver.Common.{
  ℕ, ◌≡◌, refl, sym, ap, ◌∙◌, Bool, Option, none, some, List, [], ◌∷◌, ◌++◌, map, All, Outcome, ok,
  err, panic, ◌>>=◌, Outcome-cases,
}
use typedb_driver.Errors.{Error}
use typedb_driver.Concept.{External, Value, ValueType, Kind, AttributeType}
use typedb_driver.Analyze.Conjunctions.{
  Variable, ConceptType, TypeAnnotations, VariableAnnotations, ConstraintExactness, NamedRole,
  ConstraintVertex, Comparator, Constraint, ConstraintSpan, ConstraintWithSpan, Conjunction,
}
use typedb_driver.Proto.{Chrono}
use typedb_driver.Proto.Values.{
  value_into_proto, value_try_from_proto, value_type_from_proto, kind_try_from_proto,
  value_type_try_from_proto,
}
use typedb_driver.Proto.Values.RoundTrip.{
  IsSendable, ChronoLaws, value_try_from_proto-value_into_proto,
}
use typedb_driver.Proto.Concepts.{attribute_type_from_proto}
use typedb_driver.Proto.Analyze.{Enums}
use typedb_driver.Proto.Analyze.Vertices.{
  vec_from_proto, optional_from_proto, exactness_try_from_proto, comparator_try_from_proto,
  type_try_from_proto, type_annotations_try_from_proto, variable_annotations_try_from_proto,
  annotated_from_proto, vertex_try_from_proto,
}
use typedb_driver.Proto.Analyze.Constraints.{
  conjunction_id, constraint_try_from_proto, constraint_with_span_try_from_proto,
  conjunction_try_from_proto, span_from_proto,
}
use typedb_driver.Proto.Analyze.Sent.{
  Codes, sent_value_type, sent_attribute_type, sent_type, sent_kind, sent_exactness,
  sent_comparator, sent_annotations, sent_variable_annotations, sent_annotated, sent_value,
  sent_vertex, sent_constraint, sent_constraint_with_span, sent_conjunction, sent_span,
}

module _ {A S D : Type 0} (read : S → Outcome (Error A) D) (send : D → S) where
  -- A list whose elements are read back is read back.
  pub vec_from_proto-map :
      (l : List D) → All (λ x. read (send x) ≡ ok x) l → vec_from_proto read (map send l) ≡ ok l
  unfolding vec_from_proto
  vec_from_proto-map [] h = refl
  vec_from_proto-map (x ∷ l) (here, rest) = rw (here, vec_from_proto-map l rest) refl

  pub vec_from_proto-map_all :
      ((x : D) → read (send x) ≡ ok x) → (l : List D) → vec_from_proto read (map send l) ≡ ok l
  unfolding vec_from_proto
  vec_from_proto-map_all h [] = refl
  vec_from_proto-map_all h (x ∷ l) = rw (h x, vec_from_proto-map_all h l) refl

  pub optional_from_proto-map :
      ((x : D) → read (send x) ≡ ok x)
      → (o : Option D) → optional_from_proto read (Option.map send o) ≡ ok o
  optional_from_proto-map h none = refl
  optional_from_proto-map h (some x) = rw (h x) refl

pub value_type_from_proto-sent : (t : ValueType) → value_type_from_proto (sent_value_type t) ≡ t
unfolding value_type_from_proto sent_value_type
value_type_from_proto-sent ValueType.boolean = refl
value_type_from_proto-sent ValueType.integer = refl
value_type_from_proto-sent ValueType.double = refl
value_type_from_proto-sent ValueType.decimal = refl
value_type_from_proto-sent ValueType.string = refl
value_type_from_proto-sent ValueType.date = refl
value_type_from_proto-sent ValueType.datetime = refl
value_type_from_proto-sent ValueType.datetime_tz = refl
value_type_from_proto-sent ValueType.duration = refl
value_type_from_proto-sent (ValueType.struct name) = refl

module _ {A : Type 0} where
  attribute_type_from_proto-sent :
      (t : AttributeType) → attribute_type_from_proto {A = A} (sent_attribute_type t) ≡ ok t
  unfolding attribute_type_from_proto sent_attribute_type
  attribute_type_from_proto-sent t =
      elim t.value_type
        as (λ v.
          attribute_type_from_proto {A = A} (sent_attribute_type (record t { value_type = v }))
          ≡ ok (record t { value_type = v })) [
            | none ↦ refl
            | some v ↦ rw (value_type_from_proto-sent v) refl
          ]

  pub type_try_from_proto-sent :
      (t : ConceptType) → type_try_from_proto {A = A} (sent_type t) ≡ ok t
  unfolding type_try_from_proto sent_type
  type_try_from_proto-sent (ConceptType.entity_type t) = refl
  type_try_from_proto-sent (ConceptType.relation_type t) = refl
  type_try_from_proto-sent (ConceptType.attribute_type t) =
      rw (attribute_type_from_proto-sent t) refl
  type_try_from_proto-sent (ConceptType.role_type t) = refl

  types_try_from_proto-sent :
      (l : List ConceptType) → vec_from_proto {A = A} type_try_from_proto (map sent_type l) ≡ ok l
  types_try_from_proto-sent =
      vec_from_proto-map_all type_try_from_proto sent_type type_try_from_proto-sent

  pub annotations_try_from_proto-sent :
      (x : VariableAnnotations)
      → variable_annotations_try_from_proto {A = A} (sent_variable_annotations x) ≡ ok x
  unfolding variable_annotations_try_from_proto type_annotations_try_from_proto sent_annotations
  annotations_try_from_proto-sent x =
      elim x.types
        as (λ t.
          variable_annotations_try_from_proto {A = A}
            (sent_variable_annotations (record x { types = t }))
          ≡ ok (record x { types = t })) [
            | TypeAnnotations.instance_types l ↦ rw (types_try_from_proto-sent l) refl
            | TypeAnnotations.type_types l ↦ rw (types_try_from_proto-sent l) refl
            | TypeAnnotations.value_type t ↦ rw (value_type_from_proto-sent t) refl
          ]

  pub annotated_from_proto-sent :
      (x : Variable × VariableAnnotations) → annotated_from_proto {A = A} (sent_annotated x) ≡ ok x
  annotated_from_proto-sent x = rw (annotations_try_from_proto-sent x.1) refl

  pub kind_try_from_proto-sent : (k : Kind) → kind_try_from_proto {A = A} (sent_kind k) ≡ ok k
  unfolding kind_try_from_proto sent_kind
  kind_try_from_proto-sent Kind.entity = refl
  kind_try_from_proto-sent Kind.attribute = refl
  kind_try_from_proto-sent Kind.relation = refl
  kind_try_from_proto-sent Kind.role = refl

  pub exactness_try_from_proto-sent :
      (e : ConstraintExactness) → exactness_try_from_proto {A = A} (sent_exactness e) ≡ ok e
  unfolding exactness_try_from_proto sent_exactness
  exactness_try_from_proto-sent ConstraintExactness.exact = refl
  exactness_try_from_proto-sent ConstraintExactness.subtypes = refl

  pub comparator_try_from_proto-sent :
      (c : Comparator) → comparator_try_from_proto {A = A} (sent_comparator c) ≡ ok c
  unfolding comparator_try_from_proto sent_comparator
  comparator_try_from_proto-sent Comparator.equal = refl
  comparator_try_from_proto-sent Comparator.not_equal = refl
  comparator_try_from_proto-sent Comparator.less_than = refl
  comparator_try_from_proto-sent Comparator.less_or_equal = refl
  comparator_try_from_proto-sent Comparator.greater = refl
  comparator_try_from_proto-sent Comparator.greater_or_equal = refl
  comparator_try_from_proto-sent Comparator.like = refl
  comparator_try_from_proto-sent Comparator.contains = refl
