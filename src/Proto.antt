-- ===== src/Proto.antt =====
-- The messages of the protocol that carry concepts, with the constructors that
-- rust/src/connection/network/proto/concept.rs names, and what the conversions use of chrono.
pub mod Values
pub mod Concepts
pub mod Documents
pub mod Analyze
pub mod Transactions
pub mod Tests
use typedb_driver.Common.{ℕ, ◌≡◌, Option, none, some, List, Bool, Bytes, ◌<◌}
use typedb_driver.Common.Int.{ℤ, pos, negsuc}
use typedb_driver.Concept.{External}

pub data TimeZone (Tz FixedOffset : Type 0) : Type 0 where
  iana : Tz → TimeZone Tz FixedOffset
  fixed : FixedOffset → TimeZone Tz FixedOffset

-- The functions of chrono and chrono_tz. `from_timestamp` is followed by `naive_utc`.
pub record Chrono (X : External) : Type 1 where
  pub Tz : Type 0
  pub FixedOffset : Type 0
  pub from_num_days_from_ce_opt : ℤ → Option X.NaiveDate
  pub num_days_from_ce : X.NaiveDate → ℤ
  pub from_timestamp : ℤ → ℕ → Option X.NaiveDateTime
  pub timestamp : X.NaiveDateTime → ℤ
  pub nanosecond : X.NaiveDateTime → ℕ
  pub tz_from_str : Bytes → Option Tz
  pub tz_name : Tz → Bytes
  pub east_opt : ℤ → Option FixedOffset
  pub west_opt : ℤ → Option FixedOffset
  pub local_minus_utc : FixedOffset → ℤ
  pub from_utc_datetime : TimeZone Tz FixedOffset → X.NaiveDateTime → X.DateTimeTz
  pub naive_utc : X.DateTimeTz → X.NaiveDateTime
  pub timezone : X.DateTimeTz → TimeZone Tz FixedOffset

pub data TimezoneProto : Type 0 where
  named : Bytes → TimezoneProto
  offset : ℤ → TimezoneProto

pub record DatetimeProto : Type 0 where
  pub seconds : ℤ
  pub nanos : ℕ

pub data ValueProtoInner (X : External) : Type 0 where
  boolean : Bool → ValueProtoInner X
  integer : ℤ → ValueProtoInner X
  double : X.F64 → ValueProtoInner X
  string : Bytes → ValueProtoInner X
  decimal : (integer : ℤ) (fractional : ℕ) → ValueProtoInner X
  date : (num_days_since_ce : ℤ) → ValueProtoInner X
  datetime : DatetimeProto → ValueProtoInner X
  datetime_tz :
      (datetime : Option DatetimeProto) (timezone : Option TimezoneProto) → ValueProtoInner X
  duration : (months days nanos : ℕ) → ValueProtoInner X
  struct : ValueProtoInner X

-- A field of a message may be missing.
abbrev pub ValueProto : External → Type 0
ValueProto X = Option (ValueProtoInner X)

pub data ValueTypeProto : Type 0 where
  boolean integer double string decimal date datetime datetime_tz duration : ValueTypeProto
  struct : Bytes → ValueTypeProto

abbrev pub ValueTypeStructProto : Type 0
ValueTypeStructProto = Option ValueTypeProto

pub record AttributeTypeProto : Type 0 where
  pub label : Bytes
  pub value_type : Option ValueTypeStructProto

pub record InstanceProto : Type 0 where
  pub iid : Bytes
  pub type_label : Option Bytes

pub record AttributeProto (X : External) : Type 0 where
  pub iid : Bytes
  pub attribute_type : Option AttributeTypeProto
  pub value : Option (ValueProto X)

-- The types of entities, relations and roles are their labels.
pub data ConceptProtoInner (X : External) : Type 0 where
  entity_type relation_type role_type : Bytes → ConceptProtoInner X
  attribute_type : AttributeTypeProto → ConceptProtoInner X
  entity relation : InstanceProto → ConceptProtoInner X
  attribute : AttributeProto X → ConceptProtoInner X

abbrev pub ConceptProto : External → Type 0
ConceptProto X = Option (ConceptProtoInner X)

pub data Entry (X : External) : Type 0 where
  empty concept_list value_list : Entry X
  concept : ConceptProto X → Entry X
  value : ValueProto X → Entry X

pub record ConceptRowProto (X : External) : Type 0 where
  pub row : List (Option (Entry X))
  pub involved_blocks : Option Bytes
