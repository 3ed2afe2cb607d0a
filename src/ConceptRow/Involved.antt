-- ===== src/ConceptRow/Involved.antt =====
-- The involved conjunctions are those that an encoding as a bit set holds
-- (rust/src/answer/concept_row.rs).
use typedb_driver.Common.{
  ℕ, zero, suc, ◌+◌, ◌*◌, ◌/◌, ◌%◌, ◌≤◌, ◌<◌, ◌≡◌, refl, sym, ap, ◌∙◌, inl, inr, Bool, List, [],
  ◌∷◌, arith, ◌==◌, if◌then◌else◌, Bool-cases, length, nat_eq, All,
}
use typedb_driver.Common.Maps.{filter}
use typedb_driver.ConceptRow.{range, bit, byte_at, conjunctions}

abbrev number : Bool → ℕ
number b = if b then 1 else 0

-- The byte of a bit set that holds the members from `8 * i` on, the lowest in the lowest bit.
abbrev pub packed_byte : (ℕ → Bool) → ℕ → ℕ
packed_byte p i =
    number (p (8 * i))
    + 2 * number (p (8 * i + 1))
    + 4 * number (p (8 * i + 2))
    + 8 * number (p (8 * i + 3))
    + 16 * number (p (8 * i + 4))
    + 32 * number (p (8 * i + 5))
    + 64 * number (p (8 * i + 6))
    + 128 * number (p (8 * i + 7))

-- The `n` bytes from the `i`-th on.
abbrev pub packed : (ℕ → Bool) → ℕ → ℕ → List ℕ
packed p i zero = []
packed p i (suc n) = packed_byte p i ∷ packed p (suc i) n

length-packed : (p : ℕ → Bool) (i n : ℕ) → length (packed p i n) ≡ n
length-packed p i zero = refl
length-packed p i (suc n) = (let rest = length-packed p (suc i) n in omega arith)

byte_at-packed :
    (p : ℕ → Bool) (i n j : ℕ) → j < n → byte_at (packed p i n) j ≡ packed_byte p (i + j)
byte_at-packed p i zero j h = absurd (omega arith)
byte_at-packed p i (suc n) zero h = ap (packed_byte p) (omega arith)
byte_at-packed p i (suc n) (suc j) h =
    byte_at-packed p (suc i) n j (omega arith) ∙ ap (packed_byte p) (omega arith)

number_le : (b : Bool) → number b ≤ 1
number_le b = ground arith

-- The bits of a number written with eight of them.
bits :
    (a b c d x f g h : ℕ)
    → a ≤ 1
    → b ≤ 1
    → c ≤ 1
    → d ≤ 1
    → x ≤ 1
    → f ≤ 1
    → g ≤ 1
    → h ≤ 1
    → let n = a + 2 * b + 4 * c + 8 * d + 16 * x + 32 * f + 64 * g + 128 * h in
      ((n % 2 ≡ a) × ((n / 2) % 2 ≡ b) × ((n / 4) % 2 ≡ c) × ((n / 8) % 2 ≡ d))
      × (((n / 16) % 2 ≡ x) × ((n / 32) % 2 ≡ f) × ((n / 64) % 2 ≡ g) × ((n / 128) % 2 ≡ h))
bits a b c d x f g h ha hb hc hd hx hf hg hh = (
  (omega arith, omega arith, omega arith, omega arith),
  (omega arith, omega arith, omega arith, omega arith),
)

number_test : (b : Bool) (n : ℕ) → n ≡ number b → (n == 1) ≡ b
number_test b n h = ground arith

All-range : (P : ℕ → Type 0) (from n i : ℕ) → All P (range from n) → from ≤ i → i < from + n → P i
All-range P from zero i l h h' = absurd (omega arith)
All-range P from (suc n) i l h h' = elim (Bool-cases (i == from)) [
  | inl first ↦ (let same : from ≡ i = ground arith in rw (sym same) l.0)
  | inr later ↦ All-range P (suc from) n i l.1 (ground arith) (omega arith)
]

bits-packed :
    (p : ℕ → Bool) (i : ℕ) → All (λ k. bit (packed_byte p i) k ≡ p (8 * i + k)) (range 0 8)
bits-packed p i =
    let (low, high) =
      bits (number (p (8 * i))) (number (p (8 * i + 1))) (number (p (8 * i + 2)))
        (number (p (8 * i + 3))) (number (p (8 * i + 4))) (number (p (8 * i + 5)))
        (number (p (8 * i + 6))) (number (p (8 * i + 7))) (number_le _) (number_le _) (number_le _)
        (number_le _) (number_le _) (number_le _) (number_le _) (number_le _) in
    let first : p (8 * i + 0) ≡ p (8 * i) = ap p (omega arith) in
    (
      number_test (p (8 * i)) _ (omega (arith, low.0)) ∙ sym first,
      (
        number_test _ _ (low.1),
        (
          number_test _ _ (low.2),
          (
            number_test _ _ (low.3),
            (
              number_test _ _ (high.0),
              (
                number_test _ _ (high.1),
                (number_test _ _ (high.2), (number_test _ _ (high.3), tt)),
              ),
            ),
          ),
        ),
      ),
    )

filter-range :
    (f p : ℕ → Bool) (from n : ℕ)
    → ((c : ℕ) → from ≤ c → c < from + n → f c ≡ p c)
    → filter f (range from n) ≡ filter p (range from n)
filter-range f p from zero h = refl
filter-range f p from (suc n) h =
    rw
      (
        h from (omega arith) (omega arith),
        filter-range f p (suc from) n (λ c a b. h c (omega arith) (omega arith)),
      )
      refl

-- The conjunctions of a bit set of `n` bytes are its members below `8 * n`, in ascending order.
pub conjunctions-packed :
    (p : ℕ → Bool) (n : ℕ) → conjunctions (packed p 0 n) ≡ filter p (range 0 (n * 8))
unfolding conjunctions
conjunctions-packed p n =
    rw (length-packed p 0 n)
      (filter-range (λ c. bit (byte_at (packed p 0 n) (c / 8)) (c % 8)) p 0 (n * 8) member)
  where
    member : (c : ℕ) → 0 ≤ c → c < 0 + n * 8 → bit (byte_at (packed p 0 n) (c / 8)) (c % 8) ≡ p c
    member c a b = rw (byte_at-packed p 0 n (c / 8) (omega arith)) (
        All-range (λ k. bit (packed_byte p (0 + c / 8)) k ≡ p (8 * (0 + c / 8) + k)) 0 8 (c % 8)
          (bits-packed p (0 + c / 8)) (omega arith) (omega arith)
        ∙ ap p (omega arith))
