-- ===== src/Proto/Concepts.antt =====
-- Concepts and rows of concepts from messages, and instances to messages
-- (rust/src/connection/network/proto/concept.rs). `A` stands for the addresses of errors, and `checks` is
-- the build's `overflow-checks`.
pub mod Rows
use mathlib.Core.Option
use typedb_driver.Common.{
  ◌≡◌, Bool, Option, none, some, List, [], ◌∷◌, Bytes, codes, Outcome, ok, err, panic, ◌>>=◌,
  unwrap, ok_or,
}
use typedb_driver.Errors.{Error, connection, lists_not_implemented}
use typedb_driver.Concept.{
  External, Value, Concept, EntityType, RelationType, AttributeType, RoleType, Entity, Relation,
  Attribute,
}
use typedb_driver.Proto.{
  Chrono, AttributeTypeProto, InstanceProto, AttributeProto, ConceptProtoInner, ConceptProto, Entry,
  ConceptRowProto,
}
use typedb_driver.Proto.Values.{missing, value_type_from_proto, value_try_from_proto}

abbrev pub entity_type_from_proto : Bytes → EntityType
entity_type_from_proto label = record { label = label }

abbrev pub relation_type_from_proto : Bytes → RelationType
relation_type_from_proto label = record { label = label }

abbrev pub role_type_from_proto : Bytes → RoleType
role_type_from_proto label = record { label = label }

module _ {A : Type 0} where
  -- The message of the value type is unwrapped: without a value type in it this panics.
  unfoldable pub attribute_type_from_proto : AttributeTypeProto → Outcome (Error A) AttributeType
  unfolding value_type_from_proto
  attribute_type_from_proto proto = elim proto.value_type [
    | none ↦ ok (record { label = proto.label; value_type = none })
    | some inner ↦ unwrap inner >>= λ t.
        ok (record { label = proto.label; value_type = some (value_type_from_proto t) })
  ]

  abbrev pub attribute_types_from_proto :
      Option AttributeTypeProto → Outcome (Error A) (Option AttributeType)
  attribute_types_from_proto none = ok none
  attribute_types_from_proto (some proto) = attribute_type_from_proto proto >>= λ t. ok (some t)

abbrev pub entity_from_proto : InstanceProto → Entity
entity_from_proto proto = record {
  iid = proto.iid;
  type = Option.map entity_type_from_proto proto.type_label;
}

abbrev pub relation_from_proto : InstanceProto → Relation
relation_from_proto proto = record {
  iid = proto.iid;
  type = Option.map relation_type_from_proto proto.type_label;
}

module _ {A : Type 0} {X : External} (chrono : Chrono X) (checks : Bool) where
  unfoldable pub attribute_try_from_proto : AttributeProto X → Outcome (Error A) (Attribute X)
  unfolding attribute_type_from_proto value_try_from_proto
  attribute_try_from_proto proto = attribute_types_from_proto proto.attribute_type >>= λ type.
      ok_or (missing (codes "value")) proto.value >>= λ value.
      value_try_from_proto chrono checks value >>= λ v.
      ok (record { iid = proto.iid; type = type; value = v })

  unfoldable pub concept_try_from_proto : ConceptProto X → Outcome (Error A) (Concept X)
  unfolding attribute_type_from_proto attribute_try_from_proto
  concept_try_from_proto none = err (missing (codes "concept"))
  concept_try_from_proto (some (ConceptProtoInner.entity_type t)) =
      ok (Concept.entity_type (entity_type_from_proto t))
  concept_try_from_proto (some (ConceptProtoInner.relation_type t)) =
      ok (Concept.relation_type (relation_type_from_proto t))
  concept_try_from_proto (some (ConceptProtoInner.attribute_type t)) =
      attribute_type_from_proto t >>= λ t. ok (Concept.attribute_type t)
  concept_try_from_proto (some (ConceptProtoInner.role_type t)) =
      ok (Concept.role_type (role_type_from_proto t))
  concept_try_from_proto (some (ConceptProtoInner.entity e)) =
      ok (Concept.entity (entity_from_proto e))
  concept_try_from_proto (some (ConceptProtoInner.relation r)) =
      ok (Concept.relation (relation_from_proto r))
  concept_try_from_proto (some (ConceptProtoInner.attribute a)) =
      attribute_try_from_proto a >>= λ a. ok (Concept.attribute a)

  -- An entry of a row, which may be empty.
  unfoldable pub entry_try_from_proto : Option (Entry X) → Outcome (Error A) (Option (Concept X))
  unfolding concept_try_from_proto value_try_from_proto
  entry_try_from_proto none = err (missing (codes "ConceptRow.entry"))
  entry_try_from_proto (some Entry.empty) = ok none
  entry_try_from_proto (some (Entry.concept c)) = concept_try_from_proto c >>= λ c. ok (some c)
  entry_try_from_proto (some (Entry.value v)) =
      value_try_from_proto chrono checks v >>= λ v. ok (some (Concept.value v))
  entry_try_from_proto (some Entry.concept_list) = err (connection lists_not_implemented)
  entry_try_from_proto (some Entry.value_list) = err (connection lists_not_implemented)

  unfoldable pub entries_try_from_proto :
      List (Option (Entry X)) → Outcome (Error A) (List (Option (Concept X)))
  unfolding entry_try_from_proto
  entries_try_from_proto [] = ok []
  entries_try_from_proto (x ∷ l) =
      (let rest = entries_try_from_proto l in
        entry_try_from_proto x >>= λ c. rest >>= λ row. ok (c ∷ row))

  unfoldable pub row_try_from_proto :
      ConceptRowProto X → Outcome (Error A) (List (Option (Concept X)) × Option Bytes)
  unfolding entries_try_from_proto
  row_try_from_proto proto =
      entries_try_from_proto proto.row >>= λ row. ok (row, proto.involved_blocks)

-- `iid.bytes_cloned()`: an instance is sent without its type.
abbrev pub entity_into_proto : Entity → InstanceProto
entity_into_proto e = record { iid = e.iid; type_label = none }

abbrev pub relation_into_proto : Relation → InstanceProto
relation_into_proto r = record { iid = r.iid; type_label = none }

abbrev pub attribute_into_proto : {X : External} → Attribute X → AttributeProto X
attribute_into_proto a = record { iid = a.iid; attribute_type = none; value = none }
