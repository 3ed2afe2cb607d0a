-- ===== src/Proto/Analyze/RoundTrip/Vertices.antt =====
-- Vertices that are read back, and the condition on their values
-- (rust/src/connection/network/proto/analyze.rs).
use typedb_driver.Common.{◌≡◌, refl, sym, ap, ◌∙◌, Bool, List, [], ◌∷◌, ◌++◌, map, All, ok, ◌>>=◌}
use typedb_driver.Concept.{External, Value}
use typedb_driver.Analyze.Conjunctions.{
  ConjunctionId, ConstraintVertex, Constraint, ConstraintWithSpan, Conjunction,
}
use typedb_driver.Proto.{Chrono}
use typedb_driver.Proto.Values.{value_into_proto, value_try_from_proto}
use typedb_driver.Proto.Values.RoundTrip.{
  IsSendable, ChronoLaws, value_try_from_proto-value_into_proto,
}
use typedb_driver.Proto.Analyze.Vertices.{vec_from_proto, vertex_try_from_proto}
use typedb_driver.Proto.Analyze.Constraints.{conjunction_id}
use typedb_driver.Proto.Analyze.Sent.{sent_value, sent_vertex}
use typedb_driver.Proto.Analyze.RoundTrip.{type_try_from_proto-sent}

module _ {X : External} where
  -- The vertices of a constraint.
  abbrev pub vertices : Constraint X → List (ConstraintVertex X)
  vertices (Constraint.isa v type e) = v ∷ type ∷ []
  vertices (Constraint.has owner attribute e) = owner ∷ attribute ∷ []
  vertices (Constraint.links relation player role e) = relation ∷ player ∷ role ∷ []
  vertices (Constraint.sub subtype supertype e) = subtype ∷ supertype ∷ []
  vertices (Constraint.owns owner attribute e) = owner ∷ attribute ∷ []
  vertices (Constraint.relates relation role e) = relation ∷ role ∷ []
  vertices (Constraint.plays player role e) = player ∷ role ∷ []
  vertices (Constraint.function_call name assigned arguments) = assigned ++ arguments
  vertices (Constraint.expression text assigned arguments) = assigned ∷ arguments
  vertices (Constraint.is lhs rhs) = lhs ∷ rhs ∷ []
  vertices (Constraint.iid concept iid) = concept ∷ []
  vertices (Constraint.comparison lhs rhs comparator) = lhs ∷ rhs ∷ []
  vertices (Constraint.kind kind type) = type ∷ []
  vertices (Constraint.label type label) = type ∷ []
  vertices (Constraint.value attribute_type value_type) = attribute_type ∷ []
  vertices (Constraint.or branches) = []
  vertices (Constraint.not conjunction) = []
  vertices (Constraint.try conjunction) = []

  -- A vertex that can be sent: its value, if it is one, can be.
  abbrev pub IsSendableVertex : ConstraintVertex X → Type 0
  IsSendableVertex (ConstraintVertex.value v) = IsSendable v
  IsSendableVertex _ = Unit

  abbrev pub IsSendableConstraint : ConstraintWithSpan X → Type 0
  IsSendableConstraint c = All IsSendableVertex (vertices c.constraint)

  abbrev pub IsSendableConjunction : Conjunction X → Type 0
  IsSendableConjunction c = All IsSendableConstraint c.constraints

  value_into_proto-sent :
      {A : Type 0} (chrono : Chrono X) (v : Value X)
      → IsSendable v
      → value_into_proto {A = A} chrono v ≡ ok (sent_value chrono v)
  unfolding value_into_proto sent_value
  value_into_proto-sent chrono (Value.boolean b) h = refl
  value_into_proto-sent chrono (Value.integer z) h = refl
  value_into_proto-sent chrono (Value.double x) h = refl
  value_into_proto-sent chrono (Value.decimal d) h = refl
  value_into_proto-sent chrono (Value.string s) h = refl
  value_into_proto-sent chrono (Value.date d) h = refl
  value_into_proto-sent chrono (Value.datetime t) h = refl
  value_into_proto-sent chrono (Value.datetime_tz d) h = refl
  value_into_proto-sent chrono (Value.duration d) h = refl
  value_into_proto-sent chrono (Value.struct fields name) h = absurd h

module _ {A : Type 0} {X : External} {chrono : Chrono X} (laws : ChronoLaws chrono)
    (checks : Bool) where
  value_try_from_proto-sent :
      (v : Value X)
      → IsSendable v
      → value_try_from_proto {A = A} chrono checks (sent_value chrono v) ≡ ok v
  value_try_from_proto-sent v h =
      ap (λ m. m >>= value_try_from_proto {A = A} chrono checks)
        (sym (value_into_proto-sent {A = A} chrono v h))
      ∙ value_try_from_proto-value_into_proto {A = A} laws checks v h

  pub vertex_try_from_proto-sent :
      (v : ConstraintVertex X)
      → IsSendableVertex v
      → vertex_try_from_proto {A = A} chrono checks (sent_vertex chrono v) ≡ ok v
  unfolding vertex_try_from_proto sent_vertex
  vertex_try_from_proto-sent (ConstraintVertex.variable v) h = refl
  vertex_try_from_proto-sent (ConstraintVertex.label t) h = rw (type_try_from_proto-sent t) refl
  vertex_try_from_proto-sent (ConstraintVertex.value v) h = rw (value_try_from_proto-sent v h) refl
  vertex_try_from_proto-sent (ConstraintVertex.named_role r) h = refl

  pub vertices_try_from_proto-sent :
      (l : List (ConstraintVertex X))
      → All IsSendableVertex l
      → vec_from_proto (vertex_try_from_proto {A = A} chrono checks) (map (sent_vertex chrono) l)
        ≡ ok l
  unfolding vec_from_proto
  vertices_try_from_proto-sent [] h = refl
  vertices_try_from_proto-sent (v ∷ l) (here, rest) =
      rw (vertex_try_from_proto-sent v here, vertices_try_from_proto-sent l rest) refl

-- The conditions on the two parts of a list.
pub parts_of_All :
    {B : Type 0} (P : B → Type 0) (xs ys : List B) → All P (xs ++ ys) → All P xs × All P ys
parts_of_All P [] ys h = (tt, h)
parts_of_All P (x ∷ xs) ys (here, rest) =
    (let parts = parts_of_All P xs ys rest in ((here, parts.0), parts.1))

-- Blocks are read back.
pub blocks-sent : (l : List ConjunctionId) → map conjunction_id (map (λ b. b.id) l) ≡ l
blocks-sent [] = refl
blocks-sent (b ∷ l) = rw (blocks-sent l) refl
