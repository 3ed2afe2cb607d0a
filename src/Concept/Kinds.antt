-- ===== src/Concept/Kinds.antt =====
-- The accessors of concepts (rust/src/concept/mod.rs and value.rs): which kind a concept is, and the value
-- that it holds.
pub mod Typed
use typedb_driver.Common.{ℕ, ◌≡◌, Bool, true, false, ◌||◌, Option, none, some, Bytes}
use typedb_driver.Common.Int.{ℤ}
use typedb_driver.Decimal.{Decimal}
use typedb_driver.Duration.{Duration}
use typedb_driver.Concept.{
  External, ValueType, Value, Fields, Concept, ConceptCategory, AttributeType, Attribute,
  EntityType, RelationType, RoleType, Entity, Relation, get_type,
}

module _ {X : External} where
  unfoldable pub get_boolean : Value X → Option Bool
  get_boolean (Value.boolean x) = some x
  get_boolean _ = none

  unfoldable pub get_integer : Value X → Option ℤ
  get_integer (Value.integer x) = some x
  get_integer _ = none

  unfoldable pub get_double : Value X → Option X.F64
  get_double (Value.double x) = some x
  get_double _ = none

  unfoldable pub get_string : Value X → Option Bytes
  get_string (Value.string x) = some x
  get_string _ = none

  unfoldable pub get_decimal : Value X → Option Decimal
  get_decimal (Value.decimal x) = some x
  get_decimal _ = none

  unfoldable pub get_date : Value X → Option X.NaiveDate
  get_date (Value.date x) = some x
  get_date _ = none

  unfoldable pub get_datetime : Value X → Option X.NaiveDateTime
  get_datetime (Value.datetime x) = some x
  get_datetime _ = none

  unfoldable pub get_datetime_tz : Value X → Option X.DateTimeTz
  get_datetime_tz (Value.datetime_tz x) = some x
  get_datetime_tz _ = none

  unfoldable pub get_duration : Value X → Option Duration
  get_duration (Value.duration x) = some x
  get_duration _ = none

  unfoldable pub get_struct : Value X → Option (Fields X)
  get_struct (Value.struct x name) = some x
  get_struct _ = none

  unfoldable pub try_get_value : Concept X → Option (Value X)
  try_get_value (Concept.attribute a) = some a.value
  try_get_value (Concept.value v) = some v
  try_get_value _ = none

  unfoldable pub try_get_iid : Concept X → Option Bytes
  try_get_iid (Concept.entity e) = some e.iid
  try_get_iid (Concept.relation r) = some r.iid
  try_get_iid _ = none

  unfoldable pub try_get_value_type : Concept X → Option ValueType
  unfolding get_type
  try_get_value_type (Concept.attribute_type a) = a.value_type
  try_get_value_type (Concept.attribute a) = some (get_type a.value)
  try_get_value_type (Concept.value v) = some (get_type v)
  try_get_value_type _ = none

  unfoldable pub get_category : Concept X → ConceptCategory
  get_category (Concept.entity_type x) = ConceptCategory.entity_type
  get_category (Concept.relation_type x) = ConceptCategory.relation_type
  get_category (Concept.role_type x) = ConceptCategory.role_type
  get_category (Concept.attribute_type x) = ConceptCategory.attribute_type
  get_category (Concept.entity x) = ConceptCategory.entity
  get_category (Concept.relation x) = ConceptCategory.relation
  get_category (Concept.attribute x) = ConceptCategory.attribute
  get_category (Concept.value x) = ConceptCategory.value

  -- `Option::and_then`
  abbrev pub and_then : {B : Type 0} → Option (Value X) → (Value X → Option B) → Option B
  and_then none get = none
  and_then (some v) get = get v

  unfoldable pub try_get_boolean : Concept X → Option Bool
  unfolding try_get_value get_boolean
  try_get_boolean c = and_then (try_get_value c) get_boolean

  unfoldable pub try_get_integer : Concept X → Option ℤ
  unfolding try_get_value get_integer
  try_get_integer c = and_then (try_get_value c) get_integer

  unfoldable pub try_get_double : Concept X → Option X.F64
  unfolding try_get_value get_double
  try_get_double c = and_then (try_get_value c) get_double

  unfoldable pub try_get_string : Concept X → Option Bytes
  unfolding try_get_value get_string
  try_get_string c = and_then (try_get_value c) get_string

  unfoldable pub try_get_decimal : Concept X → Option Decimal
  unfolding try_get_value get_decimal
  try_get_decimal c = and_then (try_get_value c) get_decimal

  unfoldable pub try_get_date : Concept X → Option X.NaiveDate
  unfolding try_get_value get_date
  try_get_date c = and_then (try_get_value c) get_date

  unfoldable pub try_get_datetime : Concept X → Option X.NaiveDateTime
  unfolding try_get_value get_datetime
  try_get_datetime c = and_then (try_get_value c) get_datetime

  unfoldable pub try_get_datetime_tz : Concept X → Option X.DateTimeTz
  unfolding try_get_value get_datetime_tz
  try_get_datetime_tz c = and_then (try_get_value c) get_datetime_tz

  unfoldable pub try_get_duration : Concept X → Option Duration
  unfolding try_get_value get_duration
  try_get_duration c = and_then (try_get_value c) get_duration

  unfoldable pub try_get_struct : Concept X → Option (Fields X)
  unfolding try_get_value get_struct
  try_get_struct c = and_then (try_get_value c) get_struct

  unfoldable pub is_type : Concept X → Bool
  is_type (Concept.entity_type x) = true
  is_type (Concept.relation_type x) = true
  is_type (Concept.role_type x) = true
  is_type (Concept.attribute_type x) = true
  is_type _ = false

  unfoldable pub is_instance : Concept X → Bool
  is_instance (Concept.entity x) = true
  is_instance (Concept.relation x) = true
  is_instance (Concept.attribute x) = true
  is_instance _ = false

  unfoldable pub is_entity_type : Concept X → Bool
  unfolding get_category
  is_entity_type c = elim (get_category c) [ ConceptCategory.entity_type ↦ true | _ ↦ false ]

  unfoldable pub is_relation_type : Concept X → Bool
  unfolding get_category
  is_relation_type c = elim (get_category c) [ ConceptCategory.relation_type ↦ true | _ ↦ false ]

  unfoldable pub is_role_type : Concept X → Bool
  unfolding get_category
  is_role_type c = elim (get_category c) [ ConceptCategory.role_type ↦ true | _ ↦ false ]

  unfoldable pub is_attribute_type : Concept X → Bool
  unfolding get_category
  is_attribute_type c = elim (get_category c) [ ConceptCategory.attribute_type ↦ true | _ ↦ false ]

  unfoldable pub is_entity : Concept X → Bool
  unfolding get_category
  is_entity c = elim (get_category c) [ ConceptCategory.entity ↦ true | _ ↦ false ]

  unfoldable pub is_relation : Concept X → Bool
  unfolding get_category
  is_relation c = elim (get_category c) [ ConceptCategory.relation ↦ true | _ ↦ false ]

  unfoldable pub is_attribute : Concept X → Bool
  unfolding get_category
  is_attribute c = elim (get_category c) [ ConceptCategory.attribute ↦ true | _ ↦ false ]

  unfoldable pub is_value : Concept X → Bool
  unfolding get_category
  is_value c = elim (get_category c) [ ConceptCategory.value ↦ true | _ ↦ false ]

  unfoldable pub is_boolean : Concept X → Bool
  unfolding try_get_value_type
  is_boolean c = elim (try_get_value_type c) [
    | none ↦ false
    | some t ↦ elim t [ ValueType.boolean ↦ true | _ ↦ false ]
  ]

  unfoldable pub is_integer : Concept X → Bool
  unfolding try_get_value_type
  is_integer c = elim (try_get_value_type c) [
    | none ↦ false
    | some t ↦ elim t [ ValueType.integer ↦ true | _ ↦ false ]
  ]

  unfoldable pub is_double : Concept X → Bool
  unfolding try_get_value_type
  is_double c = elim (try_get_value_type c) [
    | none ↦ false
    | some t ↦ elim t [ ValueType.double ↦ true | _ ↦ false ]
  ]

  unfoldable pub is_string : Concept X → Bool
  unfolding try_get_value_type
  is_string c = elim (try_get_value_type c) [
    | none ↦ false
    | some t ↦ elim t [ ValueType.string ↦ true | _ ↦ false ]
  ]

  unfoldable pub is_decimal : Concept X → Bool
  unfolding try_get_value_type
  is_decimal c = elim (try_get_value_type c) [
    | none ↦ false
    | some t ↦ elim t [ ValueType.decimal ↦ true | _ ↦ false ]
  ]

  unfoldable pub is_date : Concept X → Bool
  unfolding try_get_value_type
  is_date c = elim (try_get_value_type c) [
    | none ↦ false
    | some t ↦ elim t [ ValueType.date ↦ true | _ ↦ false ]
  ]

  unfoldable pub is_datetime : Concept X → Bool
  unfolding try_get_value_type
  is_datetime c = elim (try_get_value_type c) [
    | none ↦ false
    | some t ↦ elim t [ ValueType.datetime ↦ true | _ ↦ false ]
  ]

  unfoldable pub is_datetime_tz : Concept X → Bool
  unfolding try_get_value_type
  is_datetime_tz c = elim (try_get_value_type c) [
    | none ↦ false
    | some t ↦ elim t [ ValueType.datetime_tz ↦ true | _ ↦ false ]
  ]

  unfoldable pub is_duration : Concept X → Bool
  unfolding try_get_value_type
  is_duration c = elim (try_get_value_type c) [
    | none ↦ false
    | some t ↦ elim t [ ValueType.duration ↦ true | _ ↦ false ]
  ]

  unfoldable pub is_struct : Concept X → Bool
  unfolding try_get_value_type
  is_struct c = elim (try_get_value_type c) [
    | none ↦ false
    | some t ↦ elim t [ ValueType.struct name ↦ true | _ ↦ false ]
  ]
