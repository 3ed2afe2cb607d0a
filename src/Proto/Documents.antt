-- ===== src/Proto/Documents.antt =====
-- Documents of concepts from messages (rust/src/connection/network/proto/concept.rs). `A` stands for the
-- addresses of errors, and `checks` is the build's `overflow-checks`.
pub mod Printable
use mathlib.Core.Option
use typedb_driver.Common.{
  ◌≡◌, Bool, Option, none, some, Bytes, codes, Outcome, ok, err, panic, ◌>>=◌,
}
use typedb_driver.Common.Int.{ℤ}
use typedb_driver.Errors.{Error}
use typedb_driver.Concept.{External, Concept}
use typedb_driver.Document.{Leaf, Node, NodeEntries, Nodes}
use typedb_driver.Proto.{
  Chrono, ValueProto, AttributeTypeProto, AttributeProto, ValueTypeStructProto,
}
use typedb_driver.Proto.Values.{
  missing, value_type_try_from_proto, value_try_from_proto, kind_try_from_proto,
}
use typedb_driver.Proto.Concepts.{
  entity_type_from_proto, relation_type_from_proto, role_type_from_proto, attribute_type_from_proto,
  attribute_try_from_proto,
}

pub data LeafProto (X : External) : Type 0 where
  empty : LeafProto X
  entity_type relation_type role_type : Bytes → LeafProto X
  attribute_type : AttributeTypeProto → LeafProto X
  value_type : ValueTypeStructProto → LeafProto X
  attribute : AttributeProto X → LeafProto X
  value : ValueProto X → LeafProto X
  kind : ℤ → LeafProto X

mutual
  -- A node whose field is missing is a case of its own.
  pub data NodeProto (X : External) : Type 0 where
    absent : NodeProto X
    map : EntriesProto X → NodeProto X
    list : NodesProto X → NodeProto X
    leaf : Option (LeafProto X) → NodeProto X

  pub data EntriesProto (X : External) : Type 0 where
    no_entry : EntriesProto X
    entry : Bytes → NodeProto X → EntriesProto X → EntriesProto X

  pub data NodesProto (X : External) : Type 0 where
    no_node : NodesProto X
    node : NodeProto X → NodesProto X → NodesProto X

module _ {A : Type 0} {X : External} (chrono : Chrono X) (checks : Bool) where
  unfoldable pub leaf_try_from_proto : Option (LeafProto X) → Outcome (Error A) (Option (Leaf X))
  leaf_try_from_proto none = ok none
  leaf_try_from_proto (some LeafProto.empty) = ok none
  leaf_try_from_proto (some (LeafProto.entity_type t)) =
      ok (some (Leaf.concept (Concept.entity_type (entity_type_from_proto t))))
  leaf_try_from_proto (some (LeafProto.relation_type t)) =
      ok (some (Leaf.concept (Concept.relation_type (relation_type_from_proto t))))
  leaf_try_from_proto (some (LeafProto.attribute_type t)) =
      attribute_type_from_proto t >>= λ t. ok (some (Leaf.concept (Concept.attribute_type t)))
  leaf_try_from_proto (some (LeafProto.role_type t)) =
      ok (some (Leaf.concept (Concept.role_type (role_type_from_proto t))))
  leaf_try_from_proto (some (LeafProto.value_type t)) =
      value_type_try_from_proto t >>= λ t. ok (some (Leaf.value_type t))
  leaf_try_from_proto (some (LeafProto.attribute a)) =
      attribute_try_from_proto chrono checks a >>= λ a.
      ok (some (Leaf.concept (Concept.attribute a)))
  leaf_try_from_proto (some (LeafProto.value v)) =
      value_try_from_proto chrono checks v >>= λ v. ok (some (Leaf.concept (Concept.value v)))
  leaf_try_from_proto (some (LeafProto.kind k)) =
      kind_try_from_proto k >>= λ k. ok (some (Leaf.kind k))

  unfoldable mutual
    unfolding leaf_try_from_proto

    pub node_try_from_proto : NodeProto X → Outcome (Error A) (Node X)
    node_try_from_proto NodeProto.absent = err (missing (codes "node"))
    node_try_from_proto (NodeProto.map l) = entries_try_from_proto l >>= λ l. ok (Node.map l)
    node_try_from_proto (NodeProto.list l) = nodes_try_from_proto l >>= λ l. ok (Node.list l)
    node_try_from_proto (NodeProto.leaf x) = leaf_try_from_proto x >>= λ x. ok (Node.leaf x)

    pub entries_try_from_proto : EntriesProto X → Outcome (Error A) (NodeEntries X)
    entries_try_from_proto EntriesProto.no_entry = ok NodeEntries.no_node_entry
    entries_try_from_proto (EntriesProto.entry key x l) = node_try_from_proto x >>= λ x.
        entries_try_from_proto l >>= λ l. ok (NodeEntries.node_entry key x l)

    pub nodes_try_from_proto : NodesProto X → Outcome (Error A) (Nodes X)
    nodes_try_from_proto NodesProto.no_node = ok Nodes.no_node
    nodes_try_from_proto (NodesProto.node x l) =
        node_try_from_proto x >>= λ x. nodes_try_from_proto l >>= λ l. ok (Nodes.node x l)

  -- A document is its root, which may be missing.
  unfoldable pub document_try_from_proto :
      Option (NodeProto X) → Outcome (Error A) (Option (Node X))
  unfolding node_try_from_proto
  document_try_from_proto none = ok none
  document_try_from_proto (some root) = node_try_from_proto root >>= λ root. ok (some root)
