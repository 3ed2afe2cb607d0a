-- ===== src/Document.antt =====
-- rust/src/answer/concept_document.rs: documents of concepts and their JSON. `F64` has a conversion from
-- integers, and `display_value` prints the values that have no JSON of their own.
pub mod Tests
use typedb_driver.Common.{
  ◌≡◌, Bool, Option, none, some, Bytes, codes, Outcome, ok, err, panic, ◌>>=◌,
}
use typedb_driver.Common.Int.{ℤ}
use typedb_driver.Concept.{
  External, Value, ValueType, Fields, Concept, Kind, kind_name, value_type_name,
}
use typedb_driver.Json.{
  Json, Entries, Items, object, array, string, number, boolean, null, entry, no_entry, item,
  no_item,
}

pub data Leaf (X : External) : Type 0 where
  empty : Leaf X
  concept : Concept X → Leaf X
  value_type : ValueType → Leaf X
  kind : Kind → Leaf X

mutual
  pub data Node (X : External) : Type 0 where
    map : NodeEntries X → Node X
    list : Nodes X → Node X
    leaf : Option (Leaf X) → Node X

  -- The entries of a map, in the order of iteration.
  pub data NodeEntries (X : External) : Type 0 where
    no_node_entry : NodeEntries X
    node_entry : Bytes → Node X → NodeEntries X → NodeEntries X

  pub data Nodes (X : External) : Type 0 where
    no_node : Nodes X
    node : Node X → Nodes X → Nodes X

module _ {F : Type 0} where
  abbrev pub json_kind : Kind → Json F
  json_kind k = string (kind_name k)

  pub json_type : Kind → Bytes → Json F
  json_type k label =
      object (entry (codes "kind") (json_kind k) (entry (codes "label") (string label) no_entry))

  unfoldable pub json_value_type : Option ValueType → Json F
  unfolding value_type_name
  json_value_type none = string (codes "none")
  json_value_type (some t) = string (value_type_name t)

  pub json_attribute_type : Bytes → Option ValueType → Json F
  unfolding json_value_type
  json_attribute_type label t = object (
      entry (codes "kind") (string (kind_name Kind.attribute)) (
        entry (codes "label") (string label)
          (entry (codes "valueType") (json_value_type t) no_entry)))

module _ {X : External} (of_integer : ℤ → X.F64) (display_value : Value X → Bytes) where
  unfoldable mutual
    pub json_value : Value X → Json (X.F64)
    json_value (Value.boolean b) = boolean b
    json_value (Value.integer z) = number (of_integer z)
    json_value (Value.double x) = number x
    json_value (Value.string s) = string s
    json_value (Value.decimal d) = string (display_value (Value.decimal d))
    json_value (Value.date d) = string (display_value (Value.date d))
    json_value (Value.datetime d) = string (display_value (Value.datetime d))
    json_value (Value.datetime_tz d) = string (display_value (Value.datetime_tz d))
    json_value (Value.duration d) = string (display_value (Value.duration d))
    json_value (Value.struct fields name) =
        object (entry name (object (json_struct fields)) no_entry)

    pub json_struct : Fields X → Entries (X.F64)
    json_struct Fields.no_field = no_entry
    json_struct (Fields.field key value l) = entry key (json_value value) (json_struct l)
    json_struct (Fields.empty_field key l) = entry key null (json_struct l)

module _ {E : Type 0} {X : External} (of_integer : ℤ → X.F64)
    (display_value : Value X → Bytes) where
  -- Entities and relations are `unreachable!`.
  unfoldable pub leaf_into_json : Leaf X → Outcome E (Json (X.F64))
  unfolding json_type json_attribute_type json_value json_value_type
  leaf_into_json empty = ok null
  leaf_into_json (concept (Concept.entity_type t)) = ok (json_type Kind.entity t.label)
  leaf_into_json (concept (Concept.relation_type t)) = ok (json_type Kind.relation t.label)
  leaf_into_json (concept (Concept.attribute_type t)) =
      ok (json_attribute_type t.label t.value_type)
  leaf_into_json (concept (Concept.role_type t)) = ok (json_type Kind.role t.label)
  leaf_into_json (concept (Concept.attribute a)) = ok (json_value of_integer display_value a.value)
  leaf_into_json (concept (Concept.value v)) = ok (json_value of_integer display_value v)
  leaf_into_json (concept (Concept.entity e)) = panic
  leaf_into_json (concept (Concept.relation r)) = panic
  leaf_into_json (value_type t) = ok (json_value_type (some t))
  leaf_into_json (kind k) = ok (json_kind k)

  unfoldable mutual
    unfolding leaf_into_json

    pub node_into_json : Node X → Outcome E (Json (X.F64))
    node_into_json (map l) = entries_into_json l >>= λ entries. ok (object entries)
    node_into_json (list l) = nodes_into_json l >>= λ items. ok (array items)
    node_into_json (leaf (some x)) = leaf_into_json x
    node_into_json (leaf none) = ok null

    pub entries_into_json : NodeEntries X → Outcome E (Entries (X.F64))
    entries_into_json no_node_entry = ok no_entry
    entries_into_json (node_entry key x l) =
        node_into_json x >>= λ json. entries_into_json l >>= λ rest. ok (entry key json rest)

    pub nodes_into_json : Nodes X → Outcome E (Items (X.F64))
    nodes_into_json no_node = ok no_item
    nodes_into_json (node x l) =
        node_into_json x >>= λ json. nodes_into_json l >>= λ rest. ok (item json rest)

  -- `ConceptDocument::into_json`
  unfoldable pub document_into_json : Option (Node X) → Outcome E (Json (X.F64))
  unfolding node_into_json
  document_into_json none = ok null
  document_into_json (some root) = node_into_json root
