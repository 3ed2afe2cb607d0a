-- ===== src/Proto/Values/RoundTrip.antt =====
-- A value that is sent and received again (rust/src/connection/network/proto/concept.rs).
use typedb_driver.Common.{ℕ, suc, ◌≡◌, ◌<◌, refl, Bool, some, arith, lt→ltb, ok, ◌>>=◌}
use typedb_driver.Common.Int.{pos, negsuc}
use typedb_driver.Decimal.{fractional_part_denominator}
use typedb_driver.Concept.{External, Value}
use typedb_driver.Proto.{Chrono, TimeZone, iana, fixed}
use typedb_driver.Proto.Values.{
  value_try_from_proto, value_into_proto, timezone_into_proto, time_zone_from_proto, fixed_offset,
}

-- What chrono documents of these functions: each value is found again from its parts, and an offset is
-- less than a day.
pub record ChronoLaws {X : External} (chrono : Chrono X) : Type 0 where
  pub days :
      (d : X.NaiveDate) → chrono.from_num_days_from_ce_opt (chrono.num_days_from_ce d) ≡ some d
  pub stamp :
      (t : X.NaiveDateTime)
      → chrono.from_timestamp (chrono.timestamp t) (chrono.nanosecond t) ≡ some t
  pub named : (z : chrono.Tz) → chrono.tz_from_str (chrono.tz_name z) ≡ some z
  pub east :
      (f : chrono.FixedOffset) (n : ℕ)
      → chrono.local_minus_utc f ≡ pos n
      → chrono.east_opt (pos n) ≡ some f
  pub west :
      (f : chrono.FixedOffset) (n : ℕ)
      → chrono.local_minus_utc f ≡ negsuc n
      → chrono.west_opt (pos (suc n)) ≡ some f
  pub less_than_a_day :
      (f : chrono.FixedOffset) (n : ℕ) → chrono.local_minus_utc f ≡ negsuc n → suc n < 86_400
  pub zoned :
      (d : X.DateTimeTz) → chrono.from_utc_datetime (chrono.timezone d) (chrono.naive_utc d) ≡ d

-- A value that can be sent: a decimal is one that `from_parts` makes, and there is no struct.
abbrev pub IsSendable : {X : External} → Value X → Type 0
IsSendable (Value.decimal d) = d.fractional < fractional_part_denominator
IsSendable (Value.struct fields name) = ⊥
IsSendable _ = Unit

module _ {A : Type 0} {X : External} {chrono : Chrono X} (laws : ChronoLaws chrono)
    (checks : Bool) where
  fixed_offset-local_minus_utc :
      (f : chrono.FixedOffset)
      → fixed_offset {A = A} chrono checks (chrono.local_minus_utc f) ≡ ok (some f)
  fixed_offset-local_minus_utc f =
      elim (chrono.local_minus_utc f)
          as (λ z.
            chrono.local_minus_utc f ≡ z → fixed_offset {A = A} chrono checks z ≡ ok (some f)) [
              | pos n ↦ λ e. rw (laws.east f n e) refl
              | negsuc n ↦ λ e. ground (arith, laws.west f n e, laws.less_than_a_day f n e)
            ]
        refl

  time_zone-round :
      (z : TimeZone chrono.Tz chrono.FixedOffset)
      → time_zone_from_proto {A = A} chrono checks (timezone_into_proto chrono z) ≡ ok z
  time_zone-round (iana tz) = rw (laws.named tz) refl
  time_zone-round (fixed f) = rw (fixed_offset-local_minus_utc f) refl

  -- A value that is sent and received again is the same.
  pub value_try_from_proto-value_into_proto :
      (v : Value X)
      → IsSendable v
      → (value_into_proto chrono v >>= value_try_from_proto {A = A} chrono checks) ≡ ok v
  unfolding value_into_proto value_try_from_proto
  value_try_from_proto-value_into_proto (Value.boolean b) h = refl
  value_try_from_proto-value_into_proto (Value.integer z) h = refl
  value_try_from_proto-value_into_proto (Value.double x) h = refl
  value_try_from_proto-value_into_proto (Value.string s) h = refl
  value_try_from_proto-value_into_proto (Value.duration d) h = refl
  value_try_from_proto-value_into_proto (Value.struct fields name) h = absurd h
  value_try_from_proto-value_into_proto (Value.decimal d) h =
      rw (lt→ltb d.fractional fractional_part_denominator h) refl
  value_try_from_proto-value_into_proto (Value.date d) h = rw (laws.days d) refl
  value_try_from_proto-value_into_proto (Value.datetime t) h = rw (laws.stamp t) refl
  value_try_from_proto-value_into_proto (Value.datetime_tz d) h =
      rw (laws.stamp (chrono.naive_utc d), time_zone-round (chrono.timezone d), laws.zoned d) refl
