-- ===== src/Duration/Tests.antt =====
-- Runs of the duration printer and parser on concrete texts.
use typedb_driver.Common.{
  ◌≡◌, refl, ◌≢◌, true, false, none, some, [], arith, codes, nat_eq, ok, err, panic,
}
use typedb_driver.Digits.{format, format_width, parse_u64}
use typedb_driver.Duration.{Duration, IsWord, display, from_str, duration_parse_error}
use typedb_driver.Duration.RoundTrip.{from_str-display}
use typedb_driver.Duration.Totality.{from_str-total}

abbrev mixed : Duration
mixed = record { months = 14; days = 3; nanos = 3_661_000_000_005 }

mixed_text : display mixed ≡ codes "P1Y2M3DT1H1M1.000000005S"
unfolding display format format_width
mixed_text = refl

mixed_read : from_str true (codes "P1Y2M3DT1H1M1.000000005S") ≡ some (ok mixed)
unfolding from_str parse_u64
mixed_read = refl

weeks_read : from_str true (codes "P2W") ≡ some (ok (record { months = 0; days = 14; nanos = 0 }))
unfolding from_str parse_u64
weeks_read = refl

point_needs_seconds : from_str true (codes "PT1.5H") ≡ some (err duration_parse_error)
unfolding from_str parse_u64
point_needs_seconds = refl

-- `number as u32` drops the high bits without an error.
truncated_months :
    from_str true (codes "P4294967297M") ≡ some (ok (record { months = 1; days = 0; nanos = 0 }))
unfolding from_str parse_u64
truncated_months = refl

-- Ten digits behind the point: a panic with overflow checks, and a wrong value without.
long_fraction : from_str true (codes "PT0.0000000001S") ≡ some panic
unfolding from_str parse_u64
long_fraction = refl

empty_text : from_str false [] ≡ some panic
unfolding from_str
empty_text = refl

mixed-IsWord : IsWord mixed
mixed-IsWord = record {
  months_word = omega arith;
  days_word = omega arith;
  nanos_word = omega arith;
}

from_str-display_example : from_str false (display mixed) ≡ some (ok mixed)
from_str-display_example = from_str-display false mixed mixed-IsWord

from_str-total_example : from_str true (codes "PT1.5H") ≢ none
from_str-total_example = from_str-total true (codes "PT1.5H")
