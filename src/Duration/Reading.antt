-- ===== src/Duration/Reading.antt =====
-- The parser of durations on printed segments (rust/src/concept/value.rs).
use mathlib.Core.Option
use typedb_driver.Common.{
  ℕ, zero, suc, ◌+◌, ◌≤◌, ◌<◌, ◌≡◌, refl, inl, inr, Bool, true, false, not, ◌&&◌, Option, some, [],
  ◌∷◌, ◌++◌, append_assoc, arith, ltb, ◌==◌, Bool-cases, Bytes, length, length-append, take-append,
  get_elem?-append, nat_eq, Outcome, ok, ◌>>=◌,
}
use typedb_driver.Digits.{u64_max, is_digit, format}
use typedb_driver.Digits.Laws.{
  value, AllDigits, format-value, format-AllDigits, format-pos, parse_u64_digits,
}
use typedb_driver.Duration.{
  Duration, part, DurationParseError, slice_from, count_digits, read_u32, Parse, was_point, apply,
  enter_time, round, loop, finish,
}

abbrev pub state : ℕ → ℕ → ℕ → Bool → Option ℕ → Parse
state m d n t prev = record {
  months = m;
  days = d;
  nanos = n;
  parsing_time = t;
  previous_symbol = prev;
}

-- The text that follows a symbol does not begin inside a character.
abbrev pub StartsAscii : Bytes → Type 0
StartsAscii [] = Unit
StartsAscii (c ∷ s) = c < 0x80

pub digits-StartsAscii : (s rest : Bytes) → AllDigits s → StartsAscii rest → StartsAscii (s ++ rest)
unfolding is_digit
digits-StartsAscii [] rest all h = h
digits-StartsAscii (c ∷ s) rest all h = ground arith

count_digits-append :
    (i : ℕ) (ds : Bytes) (c : ℕ) (rest : Bytes)
    → AllDigits ds
    → is_digit c ≡ false
    → count_digits i (ds ++ c ∷ rest) ≡ i + length ds
unfolding count_digits
count_digits-append i [] c [] h stop = omega arith
count_digits-append i [] c (d ∷ rest) h stop = rw stop (omega arith)
count_digits-append i (x ∷ []) c rest h stop =
    rw h.0 (omega (arith, count_digits-append (suc i) [] c rest tt stop))
count_digits-append i (x ∷ y ∷ ds) c rest h stop =
    rw h.0 (omega (arith, count_digits-append (suc i) (y ∷ ds) c rest h.1 stop))

slice_from-append :
    {E : Type 0} (ds : Bytes) (c : ℕ) (rest : Bytes)
    → StartsAscii rest
    → slice_from {E = E} (suc (length ds)) (ds ++ c ∷ rest) ≡ ok rest
unfolding slice_from
slice_from-append [] c [] h = refl
slice_from-append [] c (d ∷ rest) h = ground arith
slice_from-append (x ∷ ds) c rest h = slice_from-append ds c rest h

-- A segment is read up to its symbol.
read_u32_digits :
    (ds : Bytes) (c : ℕ) (rest : Bytes)
    → 0 < length ds
    → AllDigits ds
    → value 0 ds ≤ u64_max
    → is_digit c ≡ false
    → StartsAscii rest
    → read_u32 (ds ++ c ∷ rest)
      ≡ ok (record { number = value 0 ds; symbol = c; number_len = length ds }, rest)
unfolding read_u32
read_u32_digits ds c rest pos all fits stop ascii = ground (
  arith,
  count_digits-append 0 ds c rest all stop,
  take-append ds (c ∷ rest),
  get_elem?-append ds rest c,
  slice_from-append {E = DurationParseError} ds c rest ascii,
  parse_u64_digits ds pos all fits,
)

module _ (checks : Bool) where
  -- With enough fuel the loop takes the text `s` from `p` to the outcome `v`.
  abbrev pub Runs : Parse → Bytes → Outcome DurationParseError Duration → Type 0
  Runs p s v =
      (fuel : ℕ)
      → length s ≤ fuel
      → Option.map (λ r. r >>= λ q. ok (finish q)) (loop checks fuel p s) ≡ some v

  -- From any state with these fields in which no point stands before.
  abbrev pub Reads : ℕ → ℕ → ℕ → Bool → Bytes → Outcome DurationParseError Duration → Type 0
  Reads m d n t s v = (prev : Option ℕ) → was_point prev ≡ false → Runs (state m d n t prev) s v

  round_digits :
      (p p' : Parse) (ds : Bytes) (c : ℕ) (rest : Bytes)
      → 0 < length ds
      → AllDigits ds
      → value 0 ds ≤ u64_max
      → is_digit c ≡ false
      → StartsAscii rest
      → (was_point p.previous_symbol && not (c == b'S')) ≡ false
      → apply checks p (record { number = value 0 ds; symbol = c; number_len = length ds }) ≡ ok p'
      → round checks p (ds ++ c ∷ rest) ≡ ok (record p' { previous_symbol = some c }, rest)
  unfolding round enter_time is_digit
  round_digits p p' [] c rest pos all fits stop ascii quiet done = absurd (omega arith)
  round_digits p p' (x ∷ ds) c rest pos all fits stop ascii quiet done =
      ground (arith, read_u32_digits (x ∷ ds) c rest pos all fits stop ascii)

  pub Runs-digits :
      (p p' : Parse) (ds : Bytes) (c : ℕ) (rest : Bytes) (v : Outcome DurationParseError Duration)
      → 0 < length ds
      → AllDigits ds
      → value 0 ds ≤ u64_max
      → is_digit c ≡ false
      → StartsAscii rest
      → (was_point p.previous_symbol && not (c == b'S')) ≡ false
      → apply checks p (record { number = value 0 ds; symbol = c; number_len = length ds }) ≡ ok p'
      → Runs (record p' { previous_symbol = some c }) rest v
      → Runs p (ds ++ c ∷ rest) v
  unfolding loop
  Runs-digits p p' [] c rest v pos all fits stop ascii quiet done next fuel h = absurd (omega arith)
  Runs-digits p p' (x ∷ ds) c rest v pos all fits stop ascii quiet done next zero h =
      absurd (omega arith)
  Runs-digits p p' (x ∷ ds) c rest v pos all fits stop ascii quiet done next (suc fuel) h =
      rw (round_digits p p' (x ∷ ds) c rest pos all fits stop ascii quiet done, loop)
        (next fuel (omega (arith, length-append ds (c ∷ rest))))

  round-time :
      (p : Parse) (c : ℕ) (s : Bytes)
      → is_digit c ≡ true
      → round checks p (b'T' ∷ c ∷ s) ≡ round checks (record p { parsing_time = true }) (c ∷ s)
  unfolding round read_u32 enter_time is_digit
  round-time p c s digit = ground arith

  pub Runs-time :
      (p : Parse) (c : ℕ) (s : Bytes) (v : Outcome DurationParseError Duration)
      → is_digit c ≡ true
      → Runs (record p { parsing_time = true }) (c ∷ s) v
      → Runs p (b'T' ∷ c ∷ s) v
  unfolding loop
  Runs-time p c s v digit next zero h = absurd (omega arith)
  Runs-time p c s v digit next (suc fuel) h =
      rw (round-time p c s digit, loop) (next (suc fuel) (omega arith))

  pub Reads-end :
      (m d n : ℕ) (t : Bool) → Reads m d n t [] (ok (record { months = m; days = d; nanos = n }))
  unfolding loop finish
  Reads-end m d n t prev quiet zero h = refl
  Reads-end m d n t prev quiet (suc fuel) h = refl

  -- A printed part takes the fields to `m'`, `d'` and `n'`, whatever stood before.
  pub Reads-part :
      (m d n m' d' n' : ℕ) (t : Bool) (k symbol : ℕ) (rest : Bytes)
      (v : Outcome DurationParseError Duration)
      → k ≤ u64_max
      → is_digit symbol ≡ false
      → (symbol == b'.') ≡ false
      → StartsAscii rest
      → ((prev : Option ℕ) (len : ℕ)
          → was_point prev ≡ false
          → apply checks
              (state m d n t prev)
              (record { number = k; symbol = symbol; number_len = len })
            ≡ ok (state m' d' n' t prev))
      → (k ≡ 0 → (m' ≡ m) × (d' ≡ d) × (n' ≡ n))
      → Reads m' d' n' t rest v
      → Reads m d n t (part k symbol ++ rest) v
  unfolding part
  Reads-part m d n m' d' n' t k symbol rest v fits stop plain ascii effect idle next prev quiet =
      elim (Bool-cases (ltb 0 k)) [
        | inl positive ↦
            rw (positive, append_assoc (format k) (symbol ∷ []) rest)
              (Runs-digits (state m d n t prev) (state m' d' n' t prev) (format k) symbol rest v
                (format-pos k) (format-AllDigits k) (omega (arith, format-value k)) stop ascii
                (rw quiet) (rw (format-value k) (effect prev (length (format k)) quiet))
                (next (some symbol) plain))
        | inr absent ↦
            let same = idle (ground arith) in
            rw (absent, ← same.0, ← same.1, ← same.2) (next prev quiet)
      ]
