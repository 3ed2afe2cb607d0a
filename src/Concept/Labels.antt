-- ===== src/Concept/Labels.antt =====
-- The labels of concepts and how a concept is printed (rust/src/concept/mod.rs).
use mathlib.Core.Option
use typedb_driver.Common.{
  ◌≡◌, refl, true, false, Option, none, some, [], ◌∷◌, ◌++◌, append-nil, Bytes, codes, arith,
}
use typedb_driver.Concept.{
  External, Value, Concept, value_type_name, get_type, get_type_name, category_name,
}
use typedb_driver.Concept.Kinds.{
  try_get_value, try_get_value_type, try_get_iid, get_category, is_type,
}

abbrev pub unknown_label : Bytes
unknown_label = codes "unknown"

abbrev pub or_unknown : Option Bytes → Bytes
or_unknown none = unknown_label
or_unknown (some label) = label

module _ {X : External} where
  unfoldable pub try_get_label : Concept X → Option Bytes
  unfolding get_type_name
  try_get_label (Concept.entity_type t) = some t.label
  try_get_label (Concept.relation_type t) = some t.label
  try_get_label (Concept.attribute_type t) = some t.label
  try_get_label (Concept.role_type t) = some t.label
  try_get_label (Concept.entity e) = Option.map (λ t. t.label) e.type
  try_get_label (Concept.relation r) = Option.map (λ t. t.label) r.type
  try_get_label (Concept.attribute a) = Option.map (λ t. t.label) a.type
  try_get_label (Concept.value v) = some (get_type_name v)

  unfoldable pub get_label : Concept X → Bytes
  unfolding try_get_label
  get_label c = or_unknown (try_get_label c)

  pub try_get_value_label : Concept X → Option Bytes
  unfolding get_type_name value_type_name
  try_get_value_label (Concept.attribute_type t) = Option.map value_type_name t.value_type
  try_get_value_label (Concept.attribute a) = some (get_type_name a.value)
  try_get_value_label (Concept.value v) = some (get_type_name v)
  try_get_value_label _ = none

-- `display_value` and `display_iid` stand for the prints of values and ids.
module _ {X : External} (display_value : Value X → Bytes) (display_iid : Bytes → Bytes) where
  abbrev pub display_held : Bytes → Option (Value X) → Bytes
  display_held before none = []
  display_held before (some v) = before ++ display_value v

  abbrev pub display_details : Option Bytes → Option (Value X) → Bytes
  display_details (some iid) v = codes ": " ++ (display_iid iid ++ display_held (codes ", ") v)
  display_details none v = display_held (codes ": ") v

  -- `impl Debug for Concept`
  pub display_concept : Concept X → Bytes
  unfolding is_type get_category category_name get_label try_get_iid try_get_value
  display_concept c =
      category_name (get_category c)
      ++ (b'('
          ∷ (get_label c ++ (elim (is_type c) [
            | true ↦ b')' ∷ []
            | false ↦ display_details (try_get_iid c) (try_get_value c) ++ b')' ∷ []
          ])))

module _ {X : External} where
  -- The label of the value type is the name of the value type, where a concept has one.
  pub try_get_value_label-try_get_value_type :
      (c : Concept X) → try_get_value_label c ≡ Option.map value_type_name (try_get_value_type c)
  unfolding try_get_value_label try_get_value_type get_type get_type_name value_type_name
  try_get_value_label-try_get_value_type c = ground arith

  -- What is printed after the label: nothing of a type, the id of an entity or a relation, and the value
  -- of an attribute or a value.
  abbrev pub details : (Value X → Bytes) → (Bytes → Bytes) → Concept X → Bytes
  details display_value display_iid (Concept.entity e) = codes ": " ++ display_iid e.iid
  details display_value display_iid (Concept.relation r) = codes ": " ++ display_iid r.iid
  details display_value display_iid (Concept.attribute a) = codes ": " ++ display_value a.value
  details display_value display_iid (Concept.value v) = codes ": " ++ display_value v
  details display_value display_iid _ = []

  -- A concept is printed as its category, and in parentheses its label and these details; so the print
  -- never gives both an id and a value.
  pub display_concept-details :
      (display_value : Value X → Bytes) (display_iid : Bytes → Bytes) (c : Concept X)
      → display_concept display_value display_iid c
        ≡ category_name (get_category c)
          ++ (b'(' ∷ (get_label c ++ (details display_value display_iid c ++ b')' ∷ [])))
  unfolding display_concept is_type try_get_iid try_get_value
  display_concept-details display_value display_iid (Concept.entity_type t) = refl
  display_concept-details display_value display_iid (Concept.relation_type t) = refl
  display_concept-details display_value display_iid (Concept.role_type t) = refl
  display_concept-details display_value display_iid (Concept.attribute_type t) = refl
  display_concept-details display_value display_iid (Concept.attribute a) = refl
  display_concept-details display_value display_iid (Concept.value v) = refl
  display_concept-details display_value display_iid (Concept.entity e) =
      rw (append-nil (display_iid e.iid)) refl
  display_concept-details display_value display_iid (Concept.relation r) =
      rw (append-nil (display_iid r.iid)) refl
