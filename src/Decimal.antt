-- ===== src/Decimal.antt =====
-- rust/src/concept/value.rs, `Decimal`: its arithmetic, with the wrap-around of machine words. `checks`
-- is the build's `overflow-checks`. Print and parser are left out.
pub mod Exact
pub mod Tests
use typedb_driver.Common.{
  ℕ, zero, suc, ◌+◌, ◌-◌, ◌*◌, ◌/◌, ◌%◌, ◌^◌, ◌≤◌, ◌<◌, ◌≡◌, refl, sym, ap, ◌∙◌, ◌⊎◌, inl, inr,
  Bool, true, false, not, ◌&&◌, ◌||◌, Option, none, some, List, [], ◌∷◌, ◌++◌, arith, ltb, leb,
  ◌==◌, if◌then◌else◌, Bool-cases, Bytes, codes, length, Outcome, ok, err, panic, ◌>>=◌, fit,
  fit_ok, ltb→lt, lt→ltb, leb→le,
}
use typedb_driver.Common.Int.{
  ℤ, pos, negsuc, pos_part, neg_part, sub_ℕ, ◌+ℤ◌, ◌-ℤ◌, +ℤ_parts, -ℤ_parts, eq_of_parts, int_laws,
}

-- `integer` is an `i64`, `fractional` a `u64` below the denominator.
pub record Decimal : Type 0 where
  pub integer : ℤ
  pub fractional : ℕ

abbrev pub fractional_part_denominator : ℕ
fractional_part_denominator = 10_000_000_000_000_000_000

abbrev pub u64_mod : ℕ
u64_mod = 18_446_744_073_709_551_616

abbrev pub i64_limit : ℕ
i64_limit = 9_223_372_036_854_775_808

abbrev pub is_i64 : ℤ → Bool
is_i64 z = ltb (pos_part z) i64_limit && leb (neg_part z) i64_limit

-- The integer of 64 bits in two's complement that is equal modulo 2^64.
abbrev pub wrap_i64 : ℤ → ℤ
wrap_i64 (pos n) =
    if ltb (n % u64_mod) i64_limit then pos (n % u64_mod) else negsuc (u64_mod - 1 - n % u64_mod)
wrap_i64 (negsuc n) =
    if ltb (n % u64_mod) i64_limit then negsuc (n % u64_mod) else pos (u64_mod - 1 - n % u64_mod)

-- The match of `sub` on the difference of the fractional parts.
abbrev pub sub_carry : ℕ → ℕ → ℕ × ℕ
sub_carry f g =
    if leb g f then (f - g, 0) else ((u64_mod + f - g + fractional_part_denominator) % u64_mod, 1)

abbrev pub default : Decimal
default = record { integer = pos 0; fractional = 0 }

module _ {E : Type 0} where
  abbrev pub fit_i64 : Bool → ℤ → Outcome E ℤ
  fit_i64 checks z = if is_i64 z then ok z else if checks then panic else ok (wrap_i64 z)

  -- `from_parts`, with its assertion.
  abbrev pub from_parts : ℤ → ℕ → Outcome E Decimal
  from_parts z f =
      if ltb f fractional_part_denominator
      then ok (record { integer = z; fractional = f })
      else panic

  -- The match of `add` on the wrapped sum of the fractional parts and on the overflow: the fractional
  -- part and the carry.
  abbrev pub add_carry : Bool → Bool → ℕ → Outcome E (ℕ × ℕ)
  add_carry checks false frac =
      if ltb frac fractional_part_denominator
      then ok (frac, 0)
      else ok (frac - fractional_part_denominator, 1)
  add_carry checks true frac =
      if ltb frac fractional_part_denominator
      then (fit checks u64_mod (frac + (u64_mod - fractional_part_denominator)) >>= λ f. ok (f, 1))
      else panic

  pub add : Bool → Decimal → Decimal → Outcome E Decimal
  add checks a b =
      add_carry checks (leb u64_mod (a.fractional + b.fractional))
        ((a.fractional + b.fractional) % u64_mod)
      >>= λ sum. fit_i64 checks (a.integer +ℤ b.integer) >>= λ z.
          fit_i64 checks (z +ℤ pos (sum.1)) >>= λ z. from_parts z (sum.0)

  pub sub : Bool → Decimal → Decimal → Outcome E Decimal
  sub checks a b = fit_i64 checks (a.integer -ℤ b.integer) >>= λ z.
      fit_i64 checks (z -ℤ pos ((sub_carry a.fractional b.fractional).1)) >>= λ z.
      from_parts z ((sub_carry a.fractional b.fractional).0)

  pub neg : Bool → Decimal → Outcome E Decimal
  unfolding sub
  neg checks d = sub checks default d
