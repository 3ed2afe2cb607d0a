-- ===== src/Proto/Documents/Printable.antt =====
-- Documents that a server sends have a JSON (rust/src/answer/concept_document.rs).
use typedb_driver.Common.{
  ◌≡◌, ◌≢◌, arith, refl, Bool, Option, none, some, Bytes, Outcome, ok, >>=-eq-ok,
}
use typedb_driver.Common.Int.{ℤ}
use typedb_driver.Concept.{External, Concept, Value, Entity, Relation}
use typedb_driver.Json.{object, array, null, entry, no_entry, item, no_item}
use typedb_driver.Document.{
  Leaf, Node, NodeEntries, Nodes, leaf_into_json, node_into_json, entries_into_json,
  nodes_into_json, document_into_json,
}
use typedb_driver.Proto.{Chrono}
use typedb_driver.Proto.Documents.{
  LeafProto, NodeProto, EntriesProto, NodesProto, leaf_try_from_proto, node_try_from_proto,
  entries_try_from_proto, nodes_try_from_proto, document_try_from_proto,
}

-- A conversion to JSON that gives one, which is no panic.
abbrev pub IsDone : {E B : Type 0} → Outcome E B → Type 0
IsDone {E} {B} x = (json : B) × (x ≡ ok json)

module _ {A : Type 0} {X : External} (chrono : Chrono X) (checks : Bool) where
  no_entity :
      (x : Option (LeafProto X)) (e : Entity)
      → leaf_try_from_proto {A = A} chrono checks x ≢ ok (some (Leaf.concept (Concept.entity e)))
  unfolding leaf_try_from_proto
  no_entity x e = ground arith

  no_relation :
      (x : Option (LeafProto X)) (r : Relation)
      → leaf_try_from_proto {A = A} chrono checks x ≢ ok (some (Leaf.concept (Concept.relation r)))
  unfolding leaf_try_from_proto
  no_relation x r = ground arith

module _ {A : Type 0} (E : Type 0) {X : External} (chrono : Chrono X) (checks : Bool)
    (of_integer : ℤ → X.F64) (display_value : Value X → Bytes) where
  leaf-IsDone :
      (x : Option (LeafProto X)) (y : Leaf X)
      → leaf_try_from_proto {A = A} chrono checks x ≡ ok (some y)
      → IsDone (leaf_into_json {E = E} of_integer display_value y)
  unfolding leaf_into_json
  leaf-IsDone x Leaf.empty h = (_, refl)
  leaf-IsDone x (Leaf.value_type t) h = (_, refl)
  leaf-IsDone x (Leaf.kind k) h = (_, refl)
  leaf-IsDone x (Leaf.concept (Concept.entity_type t)) h = (_, refl)
  leaf-IsDone x (Leaf.concept (Concept.relation_type t)) h = (_, refl)
  leaf-IsDone x (Leaf.concept (Concept.attribute_type t)) h = (_, refl)
  leaf-IsDone x (Leaf.concept (Concept.role_type t)) h = (_, refl)
  leaf-IsDone x (Leaf.concept (Concept.attribute a)) h = (_, refl)
  leaf-IsDone x (Leaf.concept (Concept.value v)) h = (_, refl)
  leaf-IsDone x (Leaf.concept (Concept.entity e)) h = absurd (no_entity chrono checks x e h)
  leaf-IsDone x (Leaf.concept (Concept.relation r)) h = absurd (no_relation chrono checks x r h)

  leaf_node-IsDone :
      (x : Option (LeafProto X)) (y : Option (Leaf X))
      → leaf_try_from_proto {A = A} chrono checks x ≡ ok y
      → IsDone (node_into_json {E = E} of_integer display_value (Node.leaf y))
  unfolding node_into_json
  leaf_node-IsDone x none h = (null, refl)
  leaf_node-IsDone x (some y) h = leaf-IsDone x y h

  mutual
    unfolding node_try_from_proto node_into_json

    node-IsDone :
        (x : NodeProto X) (y : Node X)
        → node_try_from_proto {A = A} chrono checks x ≡ ok y
        → IsDone (node_into_json {E = E} of_integer display_value y)
    node-IsDone NodeProto.absent y h = cc
    node-IsDone (NodeProto.map l) y h =
        (let (k, read, same) = >>=-eq-ok (entries_try_from_proto {A = A} chrono checks l) _ h in
          let (json, printed) = entries-IsDone l k read in
          let is_map : Node.map k ≡ y = cc in rw (← is_map, printed) (object json, refl))
    node-IsDone (NodeProto.list l) y h =
        (let (k, read, same) = >>=-eq-ok (nodes_try_from_proto {A = A} chrono checks l) _ h in
          let (json, printed) = nodes-IsDone l k read in
          let is_list : Node.list k ≡ y = cc in rw (← is_list, printed) (array json, refl))
    node-IsDone (NodeProto.leaf x) y h =
        (let (k, read, same) = >>=-eq-ok (leaf_try_from_proto {A = A} chrono checks x) _ h in
          let is_leaf : Node.leaf k ≡ y = cc in rw (← is_leaf) (leaf_node-IsDone x k read))

    entries-IsDone :
        (x : EntriesProto X) (y : NodeEntries X)
        → entries_try_from_proto {A = A} chrono checks x ≡ ok y
        → IsDone (entries_into_json {E = E} of_integer display_value y)
    entries-IsDone EntriesProto.no_entry y h =
        (let is_empty : NodeEntries.no_node_entry ≡ y = cc in rw (← is_empty) (no_entry, refl))
    entries-IsDone (EntriesProto.entry key x l) y h =
        (let (n, read, more) = >>=-eq-ok (node_try_from_proto {A = A} chrono checks x) _ h in
          let (k, read_rest, same) =
            >>=-eq-ok (entries_try_from_proto {A = A} chrono checks l) _ more in
          let (json, printed) = node-IsDone x n read in
          let (rest, printed_rest) = entries-IsDone l k read_rest in
          let is_entry : NodeEntries.node_entry key n k ≡ y = cc in
          rw (← is_entry, printed, printed_rest) (entry key json rest, refl))

    nodes-IsDone :
        (x : NodesProto X) (y : Nodes X)
        → nodes_try_from_proto {A = A} chrono checks x ≡ ok y
        → IsDone (nodes_into_json {E = E} of_integer display_value y)
    nodes-IsDone NodesProto.no_node y h =
        (let is_empty : Nodes.no_node ≡ y = cc in rw (← is_empty) (no_item, refl))
    nodes-IsDone (NodesProto.node x l) y h =
        (let (n, read, more) = >>=-eq-ok (node_try_from_proto {A = A} chrono checks x) _ h in
          let (k, read_rest, same) =
            >>=-eq-ok (nodes_try_from_proto {A = A} chrono checks l) _ more in
          let (json, printed) = node-IsDone x n read in
          let (rest, printed_rest) = nodes-IsDone l k read_rest in
          let is_node : Nodes.node n k ≡ y = cc in
          rw (← is_node, printed, printed_rest) (item json rest, refl))

  -- A document that a server sends has a JSON, if its message can be read: the conversion does not meet
  -- the concepts on which it would panic.
  pub document_into_json-IsDone :
      (x : Option (NodeProto X)) (y : Option (Node X))
      → document_try_from_proto {A = A} chrono checks x ≡ ok y
      → IsDone (document_into_json {E = E} of_integer display_value y)
  unfolding document_try_from_proto document_into_json
  document_into_json-IsDone none y h = (let is_none : none ≡ y = cc in rw (← is_none) (null, refl))
  document_into_json-IsDone (some root) y h =
      (let (n, read, same) = >>=-eq-ok (node_try_from_proto {A = A} chrono checks root) _ h in
        let is_root : some n ≡ y = cc in rw (← is_root) (node-IsDone root n read))
