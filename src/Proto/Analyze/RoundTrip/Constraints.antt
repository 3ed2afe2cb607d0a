-- ===== src/Proto/Analyze/RoundTrip/Constraints.antt =====
-- Constraints and conjunctions that are read back
-- (rust/src/connection/network/proto/analyze.rs).
use typedb_driver.Common.{◌≡◌, refl, Bool, none, some, List, [], ◌∷◌, map, All, ok}
use typedb_driver.Concept.{External}
use typedb_driver.Analyze.Conjunctions.{Constraint, ConstraintWithSpan, Conjunction}
use typedb_driver.Proto.{Chrono}
use typedb_driver.Proto.Values.RoundTrip.{ChronoLaws}
use typedb_driver.Proto.Analyze.{Enums}
use typedb_driver.Proto.Analyze.Vertices.{vec_from_proto, annotated_from_proto}
use typedb_driver.Proto.Analyze.Constraints.{
  constraint_try_from_proto, constraint_with_span_try_from_proto, conjunction_try_from_proto,
}
use typedb_driver.Proto.Analyze.Sent.{
  Codes, sent_annotated, sent_exactness, sent_comparator, sent_constraint,
  sent_constraint_with_span, sent_conjunction,
}
use typedb_driver.Proto.Analyze.RoundTrip.{
  vec_from_proto-map_all, value_type_from_proto-sent, annotated_from_proto-sent,
  kind_try_from_proto-sent, exactness_try_from_proto-sent, comparator_try_from_proto-sent,
}
use typedb_driver.Proto.Analyze.RoundTrip.Vertices.{
  vertices, IsSendableVertex, IsSendableConstraint, IsSendableConjunction,
  vertex_try_from_proto-sent, vertices_try_from_proto-sent, parts_of_All, blocks-sent,
}

module _ {A : Type 0} {X : External} {chrono : Chrono X} {enums : Enums} (laws : ChronoLaws chrono)
    (codes : Codes enums) (checks : Bool) where
  constraint_try_from_proto-sent :
      (c : Constraint X)
      → All IsSendableVertex (vertices c)
      → constraint_try_from_proto {A = A} chrono enums checks (sent_constraint chrono codes c)
        ≡ ok c
  unfolding constraint_try_from_proto sent_constraint
  constraint_try_from_proto-sent (Constraint.isa v type e) (h, (i, _)) =
      rw
        (
          codes.exactness.from-to (sent_exactness e),
          vertex_try_from_proto-sent {A = A} laws checks v h,
          vertex_try_from_proto-sent {A = A} laws checks type i,
          exactness_try_from_proto-sent {A = A} e,
        )
        refl
  constraint_try_from_proto-sent (Constraint.has owner attribute e) (h, (i, _)) =
      rw
        (
          codes.exactness.from-to (sent_exactness e),
          vertex_try_from_proto-sent {A = A} laws checks owner h,
          vertex_try_from_proto-sent {A = A} laws checks attribute i,
          exactness_try_from_proto-sent {A = A} e,
        )
        refl
  constraint_try_from_proto-sent (Constraint.links relation player role e) (h, (i, (j, _))) =
      rw
        (
          codes.exactness.from-to (sent_exactness e),
          vertex_try_from_proto-sent {A = A} laws checks relation h,
          vertex_try_from_proto-sent {A = A} laws checks player i,
          vertex_try_from_proto-sent {A = A} laws checks role j,
          exactness_try_from_proto-sent {A = A} e,
        )
        refl
  constraint_try_from_proto-sent (Constraint.sub subtype supertype e) (h, (i, _)) =
      rw
        (
          codes.exactness.from-to (sent_exactness e),
          vertex_try_from_proto-sent {A = A} laws checks subtype h,
          vertex_try_from_proto-sent {A = A} laws checks supertype i,
          exactness_try_from_proto-sent {A = A} e,
        )
        refl
  constraint_try_from_proto-sent (Constraint.owns owner attribute e) (h, (i, _)) =
      rw
        (
          codes.exactness.from-to (sent_exactness e),
          vertex_try_from_proto-sent {A = A} laws checks owner h,
          vertex_try_from_proto-sent {A = A} laws checks attribute i,
          exactness_try_from_proto-sent {A = A} e,
        )
        refl
  constraint_try_from_proto-sent (Constraint.relates relation role e) (h, (i, _)) =
      rw
        (
          codes.exactness.from-to (sent_exactness e),
          vertex_try_from_proto-sent {A = A} laws checks relation h,
          vertex_try_from_proto-sent {A = A} laws checks role i,
          exactness_try_from_proto-sent {A = A} e,
        )
        refl
  constraint_try_from_proto-sent (Constraint.plays player role e) (h, (i, _)) =
      rw
        (
          codes.exactness.from-to (sent_exactness e),
          vertex_try_from_proto-sent {A = A} laws checks player h,
          vertex_try_from_proto-sent {A = A} laws checks role i,
          exactness_try_from_proto-sent {A = A} e,
        )
        refl
  constraint_try_from_proto-sent (Constraint.function_call name assigned arguments) h =
      (let parts = parts_of_All IsSendableVertex assigned arguments h in
        rw
          (
            vertices_try_from_proto-sent {A = A} laws checks assigned parts.0,
            vertices_try_from_proto-sent {A = A} laws checks arguments parts.1,
          )
          refl)
  constraint_try_from_proto-sent (Constraint.expression text assigned arguments) (h, rest) =
      rw
        (
          vertex_try_from_proto-sent {A = A} laws checks assigned h,
          vertices_try_from_proto-sent {A = A} laws checks arguments rest,
        )
        refl
  constraint_try_from_proto-sent (Constraint.is lhs rhs) (h, (i, _)) =
      rw
        (
          vertex_try_from_proto-sent {A = A} laws checks lhs h,
          vertex_try_from_proto-sent {A = A} laws checks rhs i,
        )
        refl
  constraint_try_from_proto-sent (Constraint.iid concept iid) (h, _) =
      rw (vertex_try_from_proto-sent {A = A} laws checks concept h) refl
  constraint_try_from_proto-sent (Constraint.comparison lhs rhs comparator) (h, (i, _)) =
      rw
        (
          codes.comparator.from-to (sent_comparator comparator),
          vertex_try_from_proto-sent {A = A} laws checks lhs h,
          vertex_try_from_proto-sent {A = A} laws checks rhs i,
          comparator_try_from_proto-sent {A = A} comparator,
        )
        refl
  constraint_try_from_proto-sent (Constraint.kind kind type) (h, _) =
      rw
        (
          kind_try_from_proto-sent {A = A} kind,
          vertex_try_from_proto-sent {A = A} laws checks type h,
        )
        refl
  constraint_try_from_proto-sent (Constraint.label type label) (h, _) =
      rw (vertex_try_from_proto-sent {A = A} laws checks type h) refl
  constraint_try_from_proto-sent (Constraint.value attribute_type value_type) (h, _) =
      rw
        (
          vertex_try_from_proto-sent {A = A} laws checks attribute_type h,
          value_type_from_proto-sent value_type,
        )
        refl
  constraint_try_from_proto-sent (Constraint.or branches) h = rw (blocks-sent branches) refl
  constraint_try_from_proto-sent (Constraint.not conjunction) h = refl
  constraint_try_from_proto-sent (Constraint.try conjunction) h = refl

  constraint_with_span-sent :
      (c : ConstraintWithSpan X)
      → IsSendableConstraint c
      → constraint_with_span_try_from_proto {A = A} chrono enums checks
          (sent_constraint_with_span chrono codes c)
        ≡ ok c
  unfolding constraint_with_span_try_from_proto
  constraint_with_span-sent c h =
      elim c.span
        as (λ s.
          constraint_with_span_try_from_proto {A = A} chrono enums checks
            (sent_constraint_with_span chrono codes (record c { span = s }))
          ≡ ok (record c { span = s })) [
            | none ↦ rw (constraint_try_from_proto-sent c.constraint h) refl
            | some s ↦ rw (constraint_try_from_proto-sent c.constraint h) refl
          ]

  constraints-sent :
      (l : List (ConstraintWithSpan X))
      → All IsSendableConstraint l
      → vec_from_proto
          (constraint_with_span_try_from_proto {A = A} chrono enums checks)
          (map (sent_constraint_with_span chrono codes) l)
        ≡ ok l
  unfolding vec_from_proto
  constraints-sent [] h = refl
  constraints-sent (c ∷ l) (here, rest) =
      rw (constraint_with_span-sent c here, constraints-sent l rest) refl

  conjunction_try_from_proto-sent :
      (c : Conjunction X)
      → IsSendableConjunction c
      → conjunction_try_from_proto {A = A} chrono enums checks (sent_conjunction chrono codes c)
        ≡ ok c
  unfolding conjunction_try_from_proto
  conjunction_try_from_proto-sent c h =
      rw
        (
          vec_from_proto-map_all annotated_from_proto sent_annotated
              (annotated_from_proto-sent {A = A}) c.variable_annotations,
          constraints-sent c.constraints h,
        )
        refl

  pub conjunctions-sent :
      (l : List (Conjunction X))
      → All IsSendableConjunction l
      → vec_from_proto
          (conjunction_try_from_proto {A = A} chrono enums checks)
          (map (sent_conjunction chrono codes) l)
        ≡ ok l
  unfolding vec_from_proto
  conjunctions-sent [] h = refl
  conjunctions-sent (c ∷ l) (here, rest) =
      rw (conjunction_try_from_proto-sent c here, conjunctions-sent l rest) refl
