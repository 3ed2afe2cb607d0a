-- ===== src/Concept/Tests.antt =====
-- Concrete concepts.
use typedb_driver.Common.{ℕ, ◌≡◌, refl, none, some, codes}
use typedb_driver.Common.Int.{ℤ, pos}
use typedb_driver.Concept.{External, Value, Concept}
use typedb_driver.Concept.Kinds.{
  try_get_value, get_integer, try_get_integer, try_get_boolean, is_boolean, try_get_double,
  is_double, try_get_decimal, is_decimal, try_get_string, is_string, try_get_date, is_date,
  try_get_datetime, is_datetime, try_get_datetime_tz, is_datetime_tz, try_get_duration, is_duration,
  is_integer,
}
use typedb_driver.Concept.Kinds.Typed.{IsAccessor, typed-IsAccessor}
use typedb_driver.Concept.Labels.{get_label, try_get_label}

-- External values are numbers.
abbrev pub machine : External
machine = record { F64 = ℤ; NaiveDate = ℤ; NaiveDateTime = ℤ × ℕ; DateTimeTz = ℤ × ℕ }

abbrev age : Concept machine
age = Concept.attribute (record { iid = codes "0x1"; value = Value.integer (pos 28); type = none })

try_get_integer-test : try_get_integer age ≡ some (pos 28)
unfolding try_get_integer try_get_value get_integer
try_get_integer-test = refl

get_label-test : get_label age ≡ codes "unknown"
unfolding get_label try_get_label
get_label-test = refl

typed-IsAccessor_example :
    IsAccessor (try_get_boolean age) (is_boolean age) (λ x. Value.boolean x) age
    × IsAccessor (try_get_integer age) (is_integer age) (λ x. Value.integer x) age
    × IsAccessor (try_get_double age) (is_double age) (λ x. Value.double x) age
    × IsAccessor (try_get_decimal age) (is_decimal age) (λ x. Value.decimal x) age
    × IsAccessor (try_get_string age) (is_string age) (λ x. Value.string x) age
    × IsAccessor (try_get_date age) (is_date age) (λ x. Value.date x) age
    × IsAccessor (try_get_datetime age) (is_datetime age) (λ x. Value.datetime x) age
    × IsAccessor (try_get_datetime_tz age) (is_datetime_tz age) (λ x. Value.datetime_tz x) age
    × IsAccessor (try_get_duration age) (is_duration age) (λ x. Value.duration x) age
typed-IsAccessor_example = typed-IsAccessor age
