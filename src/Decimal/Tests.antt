-- ===== src/Decimal/Tests.antt =====
-- Concrete decimals.
use typedb_driver.Common.{◌≡◌, refl, Bool, true, arith, ok, panic}
use typedb_driver.Common.Int.{pos, negsuc, ◌+ℤ◌, ◌-ℤ◌}
use typedb_driver.Decimal.{Decimal, add, sub, neg}
use typedb_driver.Decimal.Exact.{scaled, IsDecimal, add-scaled, sub-scaled, neg-scaled}

-- Minus a quarter and three quarters: the integer part is rounded down.
abbrev minus_quarter : Decimal
minus_quarter = record { integer = negsuc 0; fractional = 7_500_000_000_000_000_000 }

abbrev three_quarters : Decimal
three_quarters = record { integer = pos 0; fractional = 7_500_000_000_000_000_000 }

abbrev half : Decimal
half = record { integer = pos 0; fractional = 5_000_000_000_000_000_000 }

minus_quarter-IsDecimal : IsDecimal minus_quarter
minus_quarter-IsDecimal = omega arith

three_quarters-IsDecimal : IsDecimal three_quarters
three_quarters-IsDecimal = omega arith

summed : add {E = Bool} true minus_quarter three_quarters ≡ ok half
unfolding add ◌+ℤ◌
summed = refl

-- The smallest integer part cannot be negated.
negated_min :
    neg {E = Bool} true (record { integer = negsuc 9_223_372_036_854_775_807; fractional = 0 })
    ≡ panic
unfolding neg ◌-ℤ◌
negated_min = refl

add-scaled_example :
    (c : Decimal) × (add {E = Bool} true minus_quarter three_quarters ≡ ok c)
    × (IsDecimal c × (scaled c ≡ scaled minus_quarter +ℤ scaled three_quarters))
unfolding ◌+ℤ◌
add-scaled_example =
    add-scaled true minus_quarter three_quarters minus_quarter-IsDecimal three_quarters-IsDecimal
      refl refl

difference_of_decimals :
    (c : Decimal) × (sub {E = Bool} true minus_quarter three_quarters ≡ ok c)
    × (IsDecimal c × (scaled c ≡ scaled minus_quarter -ℤ scaled three_quarters))
unfolding ◌-ℤ◌
difference_of_decimals =
    sub-scaled true minus_quarter three_quarters minus_quarter-IsDecimal three_quarters-IsDecimal
      refl refl

neg_of_decimal :
    (c : Decimal) × (neg {E = Bool} true minus_quarter ≡ ok c)
    × (IsDecimal c × (scaled c ≡ pos 0 -ℤ scaled minus_quarter))
unfolding ◌-ℤ◌
neg_of_decimal = neg-scaled true minus_quarter minus_quarter-IsDecimal refl refl
