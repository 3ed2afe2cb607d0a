-- ===== src/Document/Tests.antt =====
-- A concrete document.
use typedb_driver.Common.{ℕ, ◌≡◌, refl, some, codes, ok}
use typedb_driver.Common.Int.{pos}
use typedb_driver.Concept.{Value, Concept}
use typedb_driver.Concept.Tests.{machine}
use typedb_driver.Json.{object, number, entry, no_entry}
use typedb_driver.Document.{
  Node, NodeEntries, Leaf, node_into_json, leaf_into_json, json_value, document_into_json,
}

abbrev person : Node machine
person = Node.map (
    NodeEntries.node_entry (codes "age")
      (Node.leaf (some (Leaf.concept (Concept.value (Value.integer (pos 3))))))
      NodeEntries.no_node_entry)

document_into_json-test :
    document_into_json {E = ℕ} {X = machine} (λ z. z) (λ v. codes "") (some person)
    ≡ ok (object (entry (codes "age") (number (pos 3)) no_entry))
unfolding document_into_json node_into_json leaf_into_json json_value
document_into_json-test = refl
