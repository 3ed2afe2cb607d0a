-- ===== src/Proto/Values.antt =====
-- Values and their types to and from messages (rust/src/connection/network/proto/concept.rs). `A` stands
-- for the addresses of errors, and `checks` is the build's `overflow-checks`.
pub mod RoundTrip
use typedb_driver.Common.{
  ℕ, suc, ◌≡◌, Bool, true, false, Option, none, some, List, [], ◌∷◌, Bytes, codes, if◌then◌else◌,
  ◌==◌, ◌<◌, Outcome, ok, err, panic, ◌>>=◌, unwrap, ok_or,
}
use typedb_driver.Common.Int.{ℤ, pos, negsuc}
use typedb_driver.Errors.{
  Error, connection, missing_response_field, value_time_zone_name_not_recognised,
  value_time_zone_offset_not_recognised, value_struct_not_implemented, unexpected_kind,
}
use typedb_driver.Decimal.{Decimal, from_parts}
use typedb_driver.Duration.{Duration}
use typedb_driver.Concept.{External, Value, ValueType, Kind}
use typedb_driver.Proto.{
  Chrono, TimeZone, iana, fixed, TimezoneProto, named, offset, DatetimeProto, ValueProtoInner,
  ValueProto, ValueTypeProto, ValueTypeStructProto,
}

unfoldable pub value_type_from_proto : ValueTypeProto → ValueType
value_type_from_proto ValueTypeProto.boolean = ValueType.boolean
value_type_from_proto ValueTypeProto.integer = ValueType.integer
value_type_from_proto ValueTypeProto.double = ValueType.double
value_type_from_proto ValueTypeProto.string = ValueType.string
value_type_from_proto ValueTypeProto.decimal = ValueType.decimal
value_type_from_proto ValueTypeProto.date = ValueType.date
value_type_from_proto ValueTypeProto.datetime = ValueType.datetime
value_type_from_proto ValueTypeProto.datetime_tz = ValueType.datetime_tz
value_type_from_proto ValueTypeProto.duration = ValueType.duration
value_type_from_proto (ValueTypeProto.struct name) = ValueType.struct name

module _ {A : Type 0} where
  abbrev pub missing : Bytes → Error A
  missing field = connection (missing_response_field field)

  unfoldable pub value_type_try_from_proto : ValueTypeStructProto → Outcome (Error A) ValueType
  unfolding value_type_from_proto
  value_type_try_from_proto proto =
      ok_or (missing (codes "value_type")) proto >>= λ inner. ok (value_type_from_proto inner)

  unfoldable pub kind_try_from_proto : ℤ → Outcome (Error A) Kind
  kind_try_from_proto (pos n) =
      if n == 0
      then ok Kind.entity
      else if n == 1
      then ok Kind.relation
      else if n == 2
      then ok Kind.attribute
      else if n == 3
      then ok Kind.role
      else err (connection (unexpected_kind (pos n)))
  kind_try_from_proto (negsuc n) = err (connection (unexpected_kind (negsuc n)))

  -- `-offset_seconds` of an `i32` below zero, -(n + 1).
  abbrev pub neg_i32 : Bool → ℕ → Outcome (Error A) ℤ
  neg_i32 checks n =
      if suc n == 2_147_483_648 then (if checks then panic else ok (negsuc n)) else ok (pos (suc n))

module _ {A : Type 0} {X : External} (chrono : Chrono X) (checks : Bool) where
  abbrev pub naive_datetime_from_timestamp : DatetimeProto → Outcome (Error A) X.NaiveDateTime
  naive_datetime_from_timestamp d = unwrap (chrono.from_timestamp d.seconds d.nanos)

  abbrev pub fixed_offset : ℤ → Outcome (Error A) (Option chrono.FixedOffset)
  fixed_offset (pos n) = ok (chrono.east_opt (pos n))
  fixed_offset (negsuc n) = neg_i32 checks n >>= λ west. ok (chrono.west_opt west)

  abbrev pub time_zone_from_proto :
      TimezoneProto → Outcome (Error A) (TimeZone chrono.Tz chrono.FixedOffset)
  time_zone_from_proto (named name) =
      ok_or (connection (value_time_zone_name_not_recognised name)) (chrono.tz_from_str name)
      >>= λ tz. ok (iana tz)
  time_zone_from_proto (offset seconds) = fixed_offset seconds >>= λ o.
      ok_or (connection (value_time_zone_offset_not_recognised seconds)) o >>= λ f. ok (fixed f)

  unfoldable pub value_try_from_proto : ValueProto X → Outcome (Error A) (Value X)
  value_try_from_proto none = err (missing (codes "Value.value"))
  value_try_from_proto (some (ValueProtoInner.boolean b)) = ok (Value.boolean b)
  value_try_from_proto (some (ValueProtoInner.integer z)) = ok (Value.integer z)
  value_try_from_proto (some (ValueProtoInner.double x)) = ok (Value.double x)
  value_try_from_proto (some (ValueProtoInner.string s)) = ok (Value.string s)
  value_try_from_proto (some (ValueProtoInner.decimal integer fractional)) =
      from_parts integer fractional >>= λ d. ok (Value.decimal d)
  value_try_from_proto (some (ValueProtoInner.date days)) =
      unwrap (chrono.from_num_days_from_ce_opt days) >>= λ d. ok (Value.date d)
  value_try_from_proto (some (ValueProtoInner.datetime d)) =
      naive_datetime_from_timestamp d >>= λ t. ok (Value.datetime t)
  value_try_from_proto (some (ValueProtoInner.datetime_tz datetime timezone)) =
      ok_or (missing (codes "Value.datetime_tz.datetime")) datetime >>= λ d.
      naive_datetime_from_timestamp d >>= λ t.
      ok_or (missing (codes "Value.datetime_tz.timezone")) timezone >>= λ z.
      time_zone_from_proto z >>= λ time_zone.
      ok (Value.datetime_tz (chrono.from_utc_datetime time_zone t))
  value_try_from_proto (some (ValueProtoInner.duration months days nanos)) =
      ok (Value.duration (record { months = months; days = days; nanos = nanos }))
  value_try_from_proto (some ValueProtoInner.struct) = err (connection value_struct_not_implemented)

module _ {X : External} (chrono : Chrono X) where
  abbrev pub datetime_into_proto : X.NaiveDateTime → DatetimeProto
  datetime_into_proto t = record { seconds = chrono.timestamp t; nanos = chrono.nanosecond t }

  abbrev pub timezone_into_proto : TimeZone chrono.Tz chrono.FixedOffset → TimezoneProto
  timezone_into_proto (iana tz) = named (chrono.tz_name tz)
  timezone_into_proto (fixed f) = offset (chrono.local_minus_utc f)

module _ {A : Type 0} {X : External} (chrono : Chrono X) where
  -- A struct is `unreachable!`.
  unfoldable pub value_into_proto : Value X → Outcome (Error A) (ValueProto X)
  value_into_proto (Value.boolean b) = ok (some (ValueProtoInner.boolean b))
  value_into_proto (Value.integer z) = ok (some (ValueProtoInner.integer z))
  value_into_proto (Value.double x) = ok (some (ValueProtoInner.double x))
  value_into_proto (Value.decimal d) = ok (some (ValueProtoInner.decimal d.integer d.fractional))
  value_into_proto (Value.string s) = ok (some (ValueProtoInner.string s))
  value_into_proto (Value.date d) = ok (some (ValueProtoInner.date (chrono.num_days_from_ce d)))
  value_into_proto (Value.datetime t) =
      ok (some (ValueProtoInner.datetime (datetime_into_proto chrono t)))
  value_into_proto (Value.datetime_tz d) = ok (
      some (
        ValueProtoInner.datetime_tz (some (datetime_into_proto chrono (chrono.naive_utc d)))
          (some (timezone_into_proto chrono (chrono.timezone d)))))
  value_into_proto (Value.duration d) = ok (some (ValueProtoInner.duration d.months d.days d.nanos))
  value_into_proto (Value.struct fields name) = panic
