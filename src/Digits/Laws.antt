-- ===== src/Digits/Laws.antt =====
-- What is printed is read back: the value, the length and the characters of printed integers.
use native.Mathlib.Nat.{pow-suc}
use typedb_driver.Common.{
  ℕ, zero, suc, ◌+◌, ◌-◌, ◌*◌, ◌/◌, ◌%◌, ◌^◌, ◌≤◌, ◌<◌, ◌≡◌, refl, ◌∙◌, inl, inr, true, [], ◌∷◌,
  ◌++◌, arith, ltb, ltb→lt, lt→ltb, Bool-cases, Bytes, length, replicate, length-append,
  length-replicate, All, All-append, nat_eq, ok, err,
}
use typedb_driver.Digits.{
  u64_max, is_digit, digits, format, format_width, IntErrorKind, pos_overflow, scan, parse_u64,
}

-- The number that digits spell behind `acc`, with no bound.
abbrev pub value : ℕ → Bytes → ℕ
value acc [] = acc
value acc (c ∷ s) = value (acc * 10 + (c - b'0')) s

abbrev pub AllDigits : Bytes → Type 0
AllDigits = All (λ c. is_digit c ≡ true)

pub value-append : (acc : ℕ) (s t : Bytes) → value acc (s ++ t) ≡ value (value acc s) t
value-append acc [] t = refl
value-append acc (c ∷ s) t = value-append (acc * 10 + (c - b'0')) s t

pub le-value : (acc : ℕ) (s : Bytes) → acc ≤ value acc s
le-value acc [] = omega arith
le-value acc (c ∷ s) = omega (arith, le-value (acc * 10 + (c - b'0')) s)

digits-value : (f n : ℕ) → n < f → value 0 (digits f n) ≡ n
unfolding digits
digits-value zero n h = absurd (omega arith)
digits-value (suc f) n h = elim (Bool-cases (ltb n 10)) [
  | inl small ↦ rw small (omega arith)
  | inr large ↦
      rw
        (
          large,
          value-append 0 (digits f (n / 10)) ((b'0' + n % 10) ∷ []),
          digits-value f (n / 10) (ground arith),
        )
        (omega arith)
]

digit_code : (d : ℕ) → d < 10 → is_digit (b'0' + d) ≡ true
unfolding is_digit
digit_code d h = ground arith

digits-AllDigits : (f n : ℕ) → AllDigits (digits f n)
unfolding digits
digits-AllDigits zero n = tt
digits-AllDigits (suc f) n = elim (Bool-cases (ltb n 10)) [
  | inl small ↦ rw small (digit_code n (ltb→lt n 10 small), tt)
  | inr large ↦ rw large (
      All-append _ (digits f (n / 10)) ((b'0' + n % 10) ∷ []) (digits-AllDigits f (n / 10))
        (digit_code (n % 10) (omega arith), tt))
]

digits-pos : (f n : ℕ) → 0 < length (digits (suc f) n)
unfolding digits
digits-pos f n = elim (Bool-cases (ltb n 10)) [
  | inl small ↦ rw small (omega arith)
  | inr large ↦ rw (large, length-append (digits f (n / 10)) ((b'0' + n % 10) ∷ [])) (omega arith)
]

digits-length : (f n k : ℕ) → n < 10 ^ suc k → length (digits f n) ≤ suc k
unfolding digits
digits-length zero n k h = omega arith
digits-length (suc f) n zero h = rw (lt→ltb n 10 h) (omega arith)
digits-length (suc f) n (suc k) h = elim (Bool-cases (ltb n 10)) [
  | inl small ↦ rw small (omega arith)
  | inr large ↦
      rw (large, length-append (digits f (n / 10)) ((b'0' + n % 10) ∷ []))
        (omega (arith, digits-length f (n / 10) k (omega (arith, pow-suc 10 (suc k)))))
]

pub format-value : (n : ℕ) → value 0 (format n) ≡ n
unfolding format
format-value n = digits-value (suc n) n (omega arith)

pub format-AllDigits : (n : ℕ) → AllDigits (format n)
unfolding format
format-AllDigits n = digits-AllDigits (suc n) n

pub format-pos : (n : ℕ) → 0 < length (format n)
unfolding format
format-pos n = digits-pos n n

pub format-length : (n k : ℕ) → n < 10 ^ suc k → length (format n) ≤ suc k
unfolding format
format-length n k h = digits-length (suc n) n k h

zeros-value : (k : ℕ) (s : Bytes) → value 0 (replicate k b'0' ++ s) ≡ value 0 s
zeros-value zero s = refl
zeros-value (suc k) s = zeros-value k s

zeros-AllDigits : (k : ℕ) → AllDigits (replicate k b'0')
unfolding is_digit
zeros-AllDigits zero = tt
zeros-AllDigits (suc k) = (refl, zeros-AllDigits k)

pub format_width-value : (w n : ℕ) → value 0 (format_width w n) ≡ n
unfolding format_width
format_width-value w n = zeros-value (w - length (format n)) (format n) ∙ format-value n

pub format_width-AllDigits : (w n : ℕ) → AllDigits (format_width w n)
unfolding format_width
format_width-AllDigits w n =
    All-append _ (replicate (w - length (format n)) b'0') (format n) (zeros-AllDigits _)
      (format-AllDigits n)

-- A number of at most `w` digits is padded to exactly `w`.
pub format_width-length : (w n : ℕ) → n < 10 ^ suc w → length (format_width (suc w) n) ≡ suc w
unfolding format_width
format_width-length w n h =
    rw
      (
        length-append (replicate (suc w - length (format n)) b'0') (format n),
        length-replicate {A = ℕ} (suc w - length (format n)) b'0',
      )
      (omega (arith, format-length n w h))

-- The loop accepts digits whose value is within the limit, and returns the value.
pub scan_complete :
    (limit : ℕ) (e : IntErrorKind) (acc : ℕ) (s : Bytes)
    → AllDigits s
    → value acc s ≤ limit
    → scan limit e acc s ≡ ok (value acc s)
unfolding scan
scan_complete limit e acc [] h fits = refl
scan_complete limit e acc (c ∷ s) h fits = ground (
  arith,
  scan_complete limit e (acc * 10 + (c - b'0')) s h.1 fits,
  le-value (acc * 10 + (c - b'0')) s,
)

scan_above :
    (limit : ℕ) (e : IntErrorKind) (acc : ℕ) (s : Bytes)
    → AllDigits s
    → acc ≤ limit
    → limit < value acc s
    → scan limit e acc s ≡ err e
unfolding scan
scan_above limit e acc [] h low over = absurd (omega arith)
scan_above limit e acc (c ∷ s) h low over =
    ground (arith, scan_above limit e (acc * 10 + (c - b'0')) s h.1)

-- A non-empty text of digits is read as its value where that fits in 64 bits.
pub parse_u64_digits :
    (s : Bytes) → 0 < length s → AllDigits s → value 0 s ≤ u64_max → parse_u64 s ≡ ok (value 0 s)
unfolding parse_u64 is_digit
parse_u64_digits [] pos h fits = absurd (omega arith)
parse_u64_digits (c ∷ []) pos h fits =
    ground (arith, scan_complete u64_max pos_overflow 0 (c ∷ []) h fits)
parse_u64_digits (c ∷ d ∷ s) pos h fits =
    ground (arith, scan_complete u64_max pos_overflow 0 (c ∷ d ∷ s) h fits)
