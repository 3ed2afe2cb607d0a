-- ===== src/Decimal/Exact.antt =====
-- The arithmetic of decimals is exact where it does not overflow (rust/src/concept/value.rs).
use typedb_driver.Common.{
  ℕ, ◌+◌, ◌-◌, ◌*◌, ◌%◌, ◌≤◌, ◌<◌, ◌≡◌, refl, inl, inr, Bool, true, arith, ltb, leb, if◌then◌else◌,
  Bool-cases, ok, lt→ltb,
}
use typedb_driver.Common.Int.{
  ℤ, pos, pos_part, neg_part, sub_ℕ, ◌+ℤ◌, ◌-ℤ◌, +ℤ_parts, -ℤ_parts, eq_of_parts,
}
use typedb_driver.Decimal.{
  Decimal, fractional_part_denominator, u64_mod, is_i64, fit_i64, from_parts, add_carry, add,
  sub_carry, sub, default, neg,
}

-- The number of multiples of the smallest decimal.
abbrev pub scaled : Decimal → ℤ
scaled d =
    sub_ℕ (pos_part d.integer * fractional_part_denominator + d.fractional)
      (neg_part d.integer * fractional_part_denominator)

abbrev pub IsDecimal : Decimal → Type 0
IsDecimal d = d.fractional < fractional_part_denominator

sub_ℕ_parts : (m n : ℕ) → pos_part (sub_ℕ m n) + n ≡ neg_part (sub_ℕ m n) + m
sub_ℕ_parts m n = ground arith

scaled_parts :
    (d : Decimal)
    → pos_part (scaled d) + neg_part d.integer * fractional_part_denominator
      ≡ neg_part (scaled d) + pos_part d.integer * fractional_part_denominator + d.fractional
scaled_parts d =
    (let parts =
        sub_ℕ_parts (pos_part d.integer * fractional_part_denominator + d.fractional)
          (neg_part d.integer * fractional_part_denominator) in
      omega arith)

-- The carry of two fractional parts.
abbrev pub carry : ℕ → ℕ → ℕ
carry f g = if ltb (f + g) fractional_part_denominator then 0 else 1

added-scaled :
    (a b : Decimal) (n : ℕ)
    → n * fractional_part_denominator ≤ a.fractional + b.fractional
    → scaled (record {
      integer = a.integer +ℤ b.integer +ℤ pos n;
      fractional = a.fractional + b.fractional - n * fractional_part_denominator;
    })
      ≡ scaled a +ℤ scaled b
added-scaled a b n h =
    (let c : Decimal = record {
      integer = a.integer +ℤ b.integer +ℤ pos n;
      fractional = a.fractional + b.fractional - n * fractional_part_denominator;
    } in
      let whole = +ℤ_parts a.integer b.integer in
      let carried = +ℤ_parts (a.integer +ℤ b.integer) (pos n) in
      let sum = +ℤ_parts (scaled a) (scaled b) in
      let of_a = scaled_parts a in
      let of_b = scaled_parts b in
      let of_c = scaled_parts c in eq_of_parts (scaled c) (scaled a +ℤ scaled b) (omega arith))

module _ {E : Type 0} (checks : Bool) where
  add_carry-eq :
      (f g : ℕ)
      → f < fractional_part_denominator
      → g < fractional_part_denominator
      → add_carry {E = E} checks (leb u64_mod (f + g)) ((f + g) % u64_mod)
        ≡ ok (f + g - carry f g * fractional_part_denominator, carry f g)
  add_carry-eq f g hf hg = elim (Bool-cases (leb u64_mod (f + g))) [
    | inl over ↦
        (let wrapped : (f + g) % u64_mod ≡ f + g - u64_mod = ground arith in
          rw (over, wrapped) (ground arith))
    | inr within ↦
        (let whole : (f + g) % u64_mod ≡ f + g = ground arith in rw (within, whole) (ground arith))
  ]

  from_parts-eq :
      (z : ℤ) (f : ℕ)
      → f < fractional_part_denominator
      → from_parts {E = E} z f ≡ ok (record { integer = z; fractional = f })
  from_parts-eq z f h = rw (lt→ltb f fractional_part_denominator h) refl

  fit_i64-eq : (z : ℤ) → is_i64 z ≡ true → fit_i64 {E = E} checks z ≡ ok z
  fit_i64-eq z h = rw h refl

  add-eq :
      (a b : Decimal)
      → IsDecimal a
      → IsDecimal b
      → is_i64 (a.integer +ℤ b.integer) ≡ true
      → is_i64 (a.integer +ℤ b.integer +ℤ pos (carry a.fractional b.fractional)) ≡ true
      → add {E = E} checks a b
        ≡ ok (record {
          integer = a.integer +ℤ b.integer +ℤ pos (carry a.fractional b.fractional);
          fractional =
              a.fractional
              + b.fractional
              - carry a.fractional b.fractional * fractional_part_denominator;
        })
  unfolding add
  add-eq a b ha hb h h' =
      rw (add, add_carry-eq a.fractional b.fractional ha hb, fit_i64-eq _ h, fit_i64-eq _ h')
        (from_parts-eq _ _ (ground arith))

  -- If the sum of the integer parts fits 64 bits, with the carry of the fractional parts and without it,
  -- the sum of two decimals is a decimal, and it is exact.
  pub add-scaled :
      (a b : Decimal)
      → IsDecimal a
      → IsDecimal b
      → is_i64 (a.integer +ℤ b.integer) ≡ true
      → is_i64 (a.integer +ℤ b.integer +ℤ pos (carry a.fractional b.fractional)) ≡ true
      → (c : Decimal) × (add {E = E} checks a b ≡ ok c)
        × (IsDecimal c × (scaled c ≡ scaled a +ℤ scaled b))
  add-scaled a b ha hb h h' = (
    _,
    add-eq a b ha hb h h',
    (ground arith, added-scaled a b (carry a.fractional b.fractional) (ground arith)),
  )

-- What the difference of two fractional parts borrows.
abbrev pub borrow : ℕ → ℕ → ℕ
borrow f g = if leb g f then 0 else 1

sub_carry-eq :
    (f g : ℕ)
    → f < fractional_part_denominator
    → g < fractional_part_denominator
    → sub_carry f g ≡ (f + borrow f g * fractional_part_denominator - g, borrow f g)
sub_carry-eq f g hf hg = elim (Bool-cases (leb g f)) [
  | inl above ↦ rw above (ground arith)
  | inr below ↦
      (let wrapped : (u64_mod + f - g + fractional_part_denominator) % u64_mod
            ≡ f + fractional_part_denominator - g =
          ground arith in
        rw (below, wrapped) (ground arith))
]

subtracted-scaled :
    (a b : Decimal) (n : ℕ)
    → b.fractional ≤ a.fractional + n * fractional_part_denominator
    → scaled (record {
      integer = a.integer -ℤ b.integer -ℤ pos n;
      fractional = a.fractional + n * fractional_part_denominator - b.fractional;
    })
      ≡ scaled a -ℤ scaled b
subtracted-scaled a b n h =
    (let c : Decimal = record {
      integer = a.integer -ℤ b.integer -ℤ pos n;
      fractional = a.fractional + n * fractional_part_denominator - b.fractional;
    } in
      let whole = -ℤ_parts a.integer b.integer in
      let borrowed = -ℤ_parts (a.integer -ℤ b.integer) (pos n) in
      let difference = -ℤ_parts (scaled a) (scaled b) in
      let of_a = scaled_parts a in
      let of_b = scaled_parts b in
      let of_c = scaled_parts c in eq_of_parts (scaled c) (scaled a -ℤ scaled b) (omega arith))

module _ {E : Type 0} (checks : Bool) where
  -- If the difference of the integer parts fits 64 bits, with the borrow of the fractional parts and
  -- without it, the difference of two decimals is a decimal, and it is exact.
  pub sub-scaled :
      (a b : Decimal)
      → IsDecimal a
      → IsDecimal b
      → is_i64 (a.integer -ℤ b.integer) ≡ true
      → is_i64 (a.integer -ℤ b.integer -ℤ pos (borrow a.fractional b.fractional)) ≡ true
      → (c : Decimal) × (sub {E = E} checks a b ≡ ok c)
        × (IsDecimal c × (scaled c ≡ scaled a -ℤ scaled b))
  unfolding sub
  sub-scaled a b ha hb h h' = (
    record {
      integer = a.integer -ℤ b.integer -ℤ pos (borrow a.fractional b.fractional);
      fractional =
          a.fractional
          + borrow a.fractional b.fractional * fractional_part_denominator
          - b.fractional;
    },
    rw
        (
          sub,
          sub_carry-eq a.fractional b.fractional ha hb,
          fit_i64-eq checks _ h,
          fit_i64-eq checks _ h',
        )
        (from_parts-eq checks _ _ (ground arith)),
    (ground arith, subtracted-scaled a b (borrow a.fractional b.fractional) (ground arith)),
  )

  -- If the negated integer part fits 64 bits, with the borrow and without it, the negation of a decimal
  -- is a decimal, and it is exact.
  pub neg-scaled :
      (d : Decimal)
      → IsDecimal d
      → is_i64 (pos 0 -ℤ d.integer) ≡ true
      → is_i64 (pos 0 -ℤ d.integer -ℤ pos (borrow 0 d.fractional)) ≡ true
      → (c : Decimal) × (neg {E = E} checks d ≡ ok c)
        × (IsDecimal c × (scaled c ≡ pos 0 -ℤ scaled d))
  unfolding neg
  neg-scaled d hd h h' = sub-scaled default d (omega arith) hd h h'
