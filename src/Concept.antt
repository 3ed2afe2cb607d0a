-- ===== src/Concept.antt =====
-- rust/src/concept/: concepts, their types, and the values that they hold. `External` has the types that
-- the source takes from chrono and from the machine.
pub mod Kinds
pub mod Labels
pub mod Tests
use typedb_driver.Common.{
  ℕ, ◌≡◌, Bool, true, false, ◌||◌, Option, none, some, List, [], ◌∷◌, Bytes, codes,
}
use typedb_driver.Common.Int.{ℤ}
use typedb_driver.Decimal.{Decimal}
use typedb_driver.Duration.{Duration}

-- `f64`, `NaiveDate`, `NaiveDateTime` and `DateTime<TimeZone>`.
pub record External : Type 1 where
  pub F64 : Type 0
  pub NaiveDate : Type 0
  pub NaiveDateTime : Type 0
  pub DateTimeTz : Type 0

pub data ValueType : Type 0 where
  boolean integer double decimal string date datetime datetime_tz duration : ValueType
  struct : Bytes → ValueType

unfoldable pub value_type_name : ValueType → Bytes
value_type_name ValueType.boolean = codes "boolean"
value_type_name ValueType.integer = codes "integer"
value_type_name ValueType.double = codes "double"
value_type_name ValueType.decimal = codes "decimal"
value_type_name ValueType.string = codes "string"
value_type_name ValueType.date = codes "date"
value_type_name ValueType.datetime = codes "datetime"
value_type_name ValueType.datetime_tz = codes "datetime-tz"
value_type_name ValueType.duration = codes "duration"
value_type_name (ValueType.struct name) = name

mutual
  pub data Value (X : External) : Type 0 where
    boolean : Bool → Value X
    integer : ℤ → Value X
    double : X.F64 → Value X
    decimal : Decimal → Value X
    string : Bytes → Value X
    date : X.NaiveDate → Value X
    datetime : X.NaiveDateTime → Value X
    datetime_tz : X.DateTimeTz → Value X
    duration : Duration → Value X
    struct : Fields X → Bytes → Value X

  -- The fields of a `Struct`, in the order of iteration.
  pub data Fields (X : External) : Type 0 where
    no_field : Fields X
    field : Bytes → Value X → Fields X → Fields X
    empty_field : Bytes → Fields X → Fields X

pub record EntityType : Type 0 where
  pub label : Bytes

pub record RelationType : Type 0 where
  pub label : Bytes

pub record AttributeType : Type 0 where
  pub label : Bytes
  pub value_type : Option ValueType

pub record RoleType : Type 0 where
  pub label : Bytes

pub record Entity : Type 0 where
  pub iid : Bytes
  pub type : Option EntityType

pub record Relation : Type 0 where
  pub iid : Bytes
  pub type : Option RelationType

pub record Attribute (X : External) : Type 0 where
  pub iid : Bytes
  pub value : Value X
  pub type : Option AttributeType

pub data Concept (X : External) : Type 0 where
  entity_type : EntityType → Concept X
  relation_type : RelationType → Concept X
  role_type : RoleType → Concept X
  attribute_type : AttributeType → Concept X
  entity : Entity → Concept X
  relation : Relation → Concept X
  attribute : Attribute X → Concept X
  value : Value X → Concept X

pub data ConceptCategory : Type 0 where
  entity_type relation_type role_type attribute_type entity relation attribute value :
      ConceptCategory

unfoldable pub category_name : ConceptCategory → Bytes
category_name ConceptCategory.entity_type = codes "EntityType"
category_name ConceptCategory.relation_type = codes "RelationType"
category_name ConceptCategory.role_type = codes "RoleType"
category_name ConceptCategory.attribute_type = codes "AttributeType"
category_name ConceptCategory.entity = codes "Entity"
category_name ConceptCategory.relation = codes "Relation"
category_name ConceptCategory.attribute = codes "Attribute"
category_name ConceptCategory.value = codes "Value"

-- `Kind`, the base of a type.
pub data Kind : Type 0 where
  entity attribute relation role : Kind

unfoldable pub kind_name : Kind → Bytes
kind_name Kind.entity = codes "entity"
kind_name Kind.attribute = codes "attribute"
kind_name Kind.relation = codes "relation"
kind_name Kind.role = codes "relation:role"

module _ {X : External} where
  unfoldable pub get_type : Value X → ValueType
  get_type (Value.boolean x) = ValueType.boolean
  get_type (Value.integer x) = ValueType.integer
  get_type (Value.double x) = ValueType.double
  get_type (Value.string x) = ValueType.string
  get_type (Value.decimal x) = ValueType.decimal
  get_type (Value.date x) = ValueType.date
  get_type (Value.datetime x) = ValueType.datetime
  get_type (Value.datetime_tz x) = ValueType.datetime_tz
  get_type (Value.duration x) = ValueType.duration
  get_type (Value.struct x name) = ValueType.struct name

  unfoldable pub get_type_name : Value X → Bytes
  unfolding value_type_name
  get_type_name (Value.boolean x) = value_type_name ValueType.boolean
  get_type_name (Value.integer x) = value_type_name ValueType.integer
  get_type_name (Value.double x) = value_type_name ValueType.double
  get_type_name (Value.string x) = value_type_name ValueType.string
  get_type_name (Value.decimal x) = value_type_name ValueType.decimal
  get_type_name (Value.date x) = value_type_name ValueType.date
  get_type_name (Value.datetime x) = value_type_name ValueType.datetime
  get_type_name (Value.datetime_tz x) = value_type_name ValueType.datetime_tz
  get_type_name (Value.duration x) = value_type_name ValueType.duration
  get_type_name (Value.struct x name) = name
