-- ===== src/Duration/RoundTrip.antt =====
-- `Duration` printed and read back (rust/src/concept/value.rs).
use Prim.Native.Nat.add
use typedb_driver.Common.{
  ℕ, ◌+◌, ◌*◌, ◌/◌, ◌%◌, ◌<◌, ◌≡◌, refl, inl, inr, Bool, true, false, ◌&&◌, ◌||◌, none, some, [],
  ◌∷◌, ◌++◌, append_assoc, arith, ltb, leb, ◌==◌, ltb→lt, Bool-cases, Bytes, codes, length, nat_eq,
  Outcome, ok,
}
use typedb_driver.Digits.{is_digit, format}
use typedb_driver.Digits.Laws.{AllDigits, format-AllDigits, format-pos}
use typedb_driver.Duration.{
  Duration, IsWord, nanos_per_sec, nanos_per_minute, nanos_per_hour, months_per_year, u32_mod,
  u64_mod, is_empty, part, display_date, display_seconds, display_time, display, DurationParseError,
  Parse, from_str,
}
use typedb_driver.Duration.Effects.{
  Reads-years, Reads-months, Reads-days, Reads-hours, Reads-minutes, Reads-seconds, apply-seconds,
}
use typedb_driver.Duration.Reading.{
  StartsAscii, digits-StartsAscii, state, Runs, Reads, Runs-digits, Runs-time, Reads-end,
}

part-StartsAscii :
    (k symbol : ℕ) (rest : Bytes) → StartsAscii rest → StartsAscii (part k symbol ++ rest)
unfolding part
part-StartsAscii k symbol rest h = elim (Bool-cases (ltb 0 k)) [
  | inl positive ↦
      rw (positive, append_assoc (format k) (symbol ∷ []) rest)
        (first (format k) (format-pos k) (format-AllDigits k))
  | inr absent ↦ rw absent h
]
  where
    first : (s : Bytes) → 0 < length s → AllDigits s → StartsAscii (s ++ symbol ∷ rest)
    first [] pos all = absurd (omega arith)
    first (c ∷ s) pos all = unfold is_digit in ground arith

HeadDigit : Bytes → Type 0
HeadDigit [] = ⊥
HeadDigit (c ∷ s) = is_digit c ≡ true

digits-HeadDigit : (s rest : Bytes) → 0 < length s → AllDigits s → HeadDigit (s ++ rest)
unfolding HeadDigit
digits-HeadDigit [] rest pos all = absurd (omega arith)
digits-HeadDigit (c ∷ s) rest pos all = all.0

part-HeadDigit :
    (k symbol : ℕ) (rest : Bytes) → (k ≡ 0 → HeadDigit rest) → HeadDigit (part k symbol ++ rest)
unfolding part
part-HeadDigit k symbol rest h = elim (Bool-cases (ltb 0 k)) [
  | inl positive ↦
      rw (positive, append_assoc (format k) (symbol ∷ []) rest)
        (digits-HeadDigit (format k) (symbol ∷ rest) (format-pos k) (format-AllDigits k))
  | inr absent ↦ rw absent (h (ground arith))
]

seconds-HeadDigit :
    (seconds nanos : ℕ) → (nanos ≡ 0 → 0 < seconds) → HeadDigit (display_seconds seconds nanos)
unfolding display_seconds
seconds-HeadDigit seconds nanos h = elim (Bool-cases (ltb 0 seconds && nanos == 0)) [
  | inl whole ↦ rw whole (
      digits-HeadDigit (format seconds) (b'S' ∷ []) (format-pos seconds) (format-AllDigits seconds))
  | inr not_whole ↦
      let fraction : ltb 0 nanos ≡ true = ground arith in
      rw (not_whole, fraction)
        (digits-HeadDigit (format seconds) _ (format-pos seconds) (format-AllDigits seconds))
]

seconds-StartsAscii : (seconds nanos : ℕ) → StartsAscii (display_seconds seconds nanos)
unfolding display_seconds
seconds-StartsAscii seconds nanos = elim (Bool-cases (ltb 0 seconds && nanos == 0)) [
  | inl whole ↦
      rw whole
        (digits-StartsAscii (format seconds) (b'S' ∷ []) (format-AllDigits seconds) (omega arith))
  | inr not_whole ↦ elim (Bool-cases (ltb 0 nanos)) [
    | inl fraction ↦
        rw (not_whole, fraction)
          (digits-StartsAscii (format seconds) (b'.' ∷ _) (format-AllDigits seconds) (omega arith))
    | inr nothing ↦ rw (not_whole, nothing) tt
  ]
]

time-StartsAscii : (d : Duration) → StartsAscii (display_time d)
unfolding display_time
time-StartsAscii d = elim (Bool-cases (ltb 0 d.nanos)) [
  | inl some_time ↦ rw some_time (omega arith)
  | inr no_time ↦ rw no_time tt
]

date-StartsAscii :
    (d : Duration) (rest : Bytes) → StartsAscii rest → StartsAscii (display_date d ++ rest)
unfolding display_date
date-StartsAscii d rest h = elim (Bool-cases (ltb 0 d.months || ltb 0 d.days)) [
  | inl some_date ↦
      rw
        (
          some_date,
          append_assoc (part (d.months / months_per_year) b'Y')
              (part (d.months % months_per_year) b'M' ++ part d.days b'D') rest,
          append_assoc (part (d.months % months_per_year) b'M') (part d.days b'D') rest,
        )
        (part-StartsAscii (d.months / months_per_year) b'Y'
          (part (d.months % months_per_year) b'M' ++ (part d.days b'D' ++ rest))
          (part-StartsAscii (d.months % months_per_year) b'M' (part d.days b'D' ++ rest)
            (part-StartsAscii d.days b'D' rest h)))
  | inr no_date ↦ rw no_date h
]

-- The four printed parts of the nanoseconds add up.
nanos_sum :
    (n : ℕ)
    → 0
        + n / nanos_per_hour * nanos_per_hour
        + n % nanos_per_hour / nanos_per_minute * nanos_per_minute
        + n % nanos_per_minute / nanos_per_sec * nanos_per_sec
        + n % nanos_per_sec
      ≡ n
nanos_sum n = omega arith

module _ (checks : Bool) where
  Reads-date :
      (m d : ℕ) (rest : Bytes) (v : Outcome DurationParseError Duration)
      → m < u32_mod
      → d < u32_mod
      → StartsAscii rest
      → Reads checks m d 0 false rest v
      → Reads checks 0 0 0 false
          (display_date (record { months = m; days = d; nanos = 0 }) ++ rest)
          v
  unfolding display_date is_digit
  Reads-date m d rest v hm hd ascii next = elim (Bool-cases (ltb 0 m || ltb 0 d)) [
    | inl some_date ↦
        rw
          (
            some_date,
            append_assoc (part (m / months_per_year) b'Y')
                (part (m % months_per_year) b'M' ++ part d b'D') rest,
            append_assoc (part (m % months_per_year) b'M') (part d b'D') rest,
          )
          (Reads-years checks 0 0 0 (m / 12) false _ v (omega arith)
            (part-StartsAscii (m % 12) b'M' _ (part-StartsAscii d b'D' rest ascii))
            (Reads-months checks _ 0 0 (m % 12) _ v (omega arith)
              (part-StartsAscii d b'D' rest ascii)
              (Reads-days checks _ 0 0 d false rest v (omega arith) ascii
                (rw (months_sum, add.zero) next))))
    | inr no_date ↦
        let em : m ≡ 0 = ground arith in
        let ed : d ≡ 0 = ground arith in rw no_date (rw (em, ed) at next)
  ]
    where
      months_sum : 0 + m / 12 * 12 + m % 12 ≡ m
      months_sum = omega arith

  Runs-time' :
      (p : Parse) (s : Bytes) (v : Outcome DurationParseError Duration)
      → HeadDigit s
      → Runs checks (record p { parsing_time = true }) s v
      → Runs checks p (b'T' ∷ s) v
  unfolding HeadDigit
  Runs-time' p [] v h next = absurd h
  Runs-time' p (c ∷ s) v h next = Runs-time checks p c s v h next

  Reads-time :
      (m d n : ℕ) (v : Outcome DurationParseError Duration)
      → n < u64_mod
      → Reads checks m d n true [] v
      → Reads checks m d n false [] v
      → Reads checks m d 0 false (display_time (record { months = m; days = d; nanos = n })) v
  unfolding display_time is_digit
  Reads-time m d n v hn next idle = elim (Bool-cases (ltb 0 n)) [
    | inl some_time ↦ rw some_time λ prev quiet.
        Runs-time' (state m d 0 false prev) _ v
          (part-HeadDigit hours b'H' _ λ e. part-HeadDigit minutes b'M' _ λ e'.
            seconds-HeadDigit seconds nanos λ e''. omega (arith, nanos_sum n, ltb→lt 0 n some_time))
          (Reads-hours checks m d 0 hours true _ v (omega arith)
            (part-StartsAscii minutes b'M' _ ascii)
            (Reads-minutes checks m d _ minutes _ v (omega (arith, nanos_sum n)) ascii (
              Reads-seconds checks m d _ seconds nanos v (omega (arith, nanos_sum n)) (omega arith)
                (rw (nanos_sum n) next)))
            prev quiet)
    | inr no_time ↦ let e : n ≡ 0 = ground arith in rw no_time (rw e at idle)
  ]
    where
      hours : ℕ
      hours = n / nanos_per_hour

      minutes : ℕ
      minutes = n % nanos_per_hour / nanos_per_minute

      seconds : ℕ
      seconds = n % nanos_per_minute / nanos_per_sec

      nanos : ℕ
      nanos = n % nanos_per_sec

      ascii : StartsAscii (display_seconds seconds nanos)
      ascii = seconds-StartsAscii seconds nanos

  zero_fields : (d : Duration) → is_empty d ≡ true → d ≡ record { months = 0; days = 0; nanos = 0 }
  unfolding is_empty
  zero_fields d h = ground arith

  from_str-Reads :
      (s : Bytes) (v : Outcome DurationParseError Duration)
      → StartsAscii s
      → Reads checks 0 0 0 false s v
      → from_str checks (b'P' ∷ s) ≡ some v
  unfolding from_str
  from_str-Reads [] v ascii next = next none refl 0 (omega arith)
  from_str-Reads (c ∷ s) v ascii next =
      let inside : (leb 0x80 c && ltb c 0xc0) ≡ false = ground arith in
      rw inside (next none refl (length (c ∷ s)) (omega arith))

  Reads-zero :
      Reads checks 0 0 0 false (codes "T0S") (ok (record { months = 0; days = 0; nanos = 0 }))
  unfolding is_digit HeadDigit
  Reads-zero prev quiet = Runs-time' (state 0 0 0 false prev) _ _ refl (
      Runs-digits checks (state 0 0 0 true prev) (state 0 0 0 true prev) (codes "0") b'S' [] _
        (omega arith) (refl, tt) (omega arith) refl tt (rw quiet)
        (apply-seconds checks 0 0 0 0 1 true prev quiet (omega arith))
        (Reads-end checks 0 0 0 true (some b'S') refl))

  -- Every duration whose fields are machine words is read back from its print, in a build with
  -- overflow checks and in one without.
  pub from_str-display : (d : Duration) → IsWord d → from_str checks (display d) ≡ some (ok d)
  unfolding display
  from_str-display d w = elim (Bool-cases (is_empty d)) [
    | inl nothing ↦
        rw (nothing, zero_fields d nothing)
          (from_str-Reads (codes "T0S") _ (omega arith) Reads-zero)
    | inr something ↦ rw something (
        from_str-Reads (display_date d ++ display_time d) (ok d)
          (date-StartsAscii d (display_time d) (time-StartsAscii d))
          (Reads-date d.months d.days (display_time d) (ok d) w.months_word w.days_word
            (time-StartsAscii d)
            (Reads-time d.months d.days d.nanos (ok d) w.nanos_word
              (Reads-end checks d.months d.days d.nanos true)
              (Reads-end checks d.months d.days d.nanos false))))
  ]
