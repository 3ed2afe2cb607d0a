-- ===== src/Duration/Effects.antt =====
-- What one segment adds to the fields of a duration (rust/src/concept/value.rs).
use typedb_driver.Common.{
  ℕ, ◌+◌, ◌*◌, ◌<◌, ◌≡◌, refl, ap, ◌∙◌, inl, inr, Bool, true, false, ◌&&◌, Option, some, [], ◌∷◌,
  ◌++◌, arith, ltb, ◌==◌, Bool-cases, Bytes, length, nat_eq, Outcome, ok,
}
use typedb_driver.Digits.{is_digit, format, format_width}
use typedb_driver.Digits.Laws.{
  format-value, format-AllDigits, format-pos, format_width-value, format_width-AllDigits,
  format_width-length,
}
use typedb_driver.Duration.{
  Duration, nanos_per_sec, nanos_per_minute, nanos_per_hour, u32_mod, u64_mod, part,
  display_seconds, DurationParseError, was_point, apply,
}
use typedb_driver.Duration.Reading.{
  StartsAscii, digits-StartsAscii, state, Reads, Runs-digits, Reads-part,
}

module _ (checks : Bool) where
  pub apply-years :
      (m d n k len : ℕ) (t : Bool) (prev : Option ℕ)
      → m + k * 12 < u32_mod
      → apply checks (state m d n t prev) (record { number = k; symbol = b'Y'; number_len = len })
        ≡ ok (state (m + k * 12) d n t prev)
  unfolding apply
  apply-years m d n k len t prev h = ground arith

  pub apply-months :
      (m d n k len : ℕ) (prev : Option ℕ)
      → m + k < u32_mod
      → apply checks
          (state m d n false prev)
          (record { number = k; symbol = b'M'; number_len = len })
        ≡ ok (state (m + k) d n false prev)
  unfolding apply
  apply-months m d n k len prev h = ground arith

  pub apply-days :
      (m d n k len : ℕ) (t : Bool) (prev : Option ℕ)
      → d + k < u32_mod
      → apply checks (state m d n t prev) (record { number = k; symbol = b'D'; number_len = len })
        ≡ ok (state m (d + k) n t prev)
  unfolding apply
  apply-days m d n k len t prev h = ground arith

  pub apply-hours :
      (m d n k len : ℕ) (t : Bool) (prev : Option ℕ)
      → n + k * nanos_per_hour < u64_mod
      → apply checks (state m d n t prev) (record { number = k; symbol = b'H'; number_len = len })
        ≡ ok (state m d (n + k * nanos_per_hour) t prev)
  unfolding apply
  apply-hours m d n k len t prev h = ground arith

  pub apply-minutes :
      (m d n k len : ℕ) (prev : Option ℕ)
      → n + k * nanos_per_minute < u64_mod
      → apply checks
          (state m d n true prev)
          (record { number = k; symbol = b'M'; number_len = len })
        ≡ ok (state m d (n + k * nanos_per_minute) true prev)
  unfolding apply
  apply-minutes m d n k len prev h = ground arith

  pub apply-seconds :
      (m d n k len : ℕ) (t : Bool) (prev : Option ℕ)
      → was_point prev ≡ false
      → n + k * nanos_per_sec < u64_mod
      → apply checks (state m d n t prev) (record { number = k; symbol = b'S'; number_len = len })
        ≡ ok (state m d (n + k * nanos_per_sec) t prev)
  unfolding apply
  apply-seconds m d n k len t prev quiet h = ground arith

  pub apply-point :
      (m d n k len : ℕ) (t : Bool) (prev : Option ℕ)
      → n + k * nanos_per_sec < u64_mod
      → apply checks (state m d n t prev) (record { number = k; symbol = b'.'; number_len = len })
        ≡ ok (state m d (n + k * nanos_per_sec) t prev)
  unfolding apply
  apply-point m d n k len t prev h = ground arith

  -- Nine digits behind a point are nanoseconds.
  pub apply-fraction :
      (m d n k : ℕ) (t : Bool)
      → n + k < u64_mod
      → apply checks
          (state m d n t (some b'.'))
          (record { number = k; symbol = b'S'; number_len = 9 })
        ≡ ok (state m d (n + k) t (some b'.'))
  unfolding apply
  apply-fraction m d n k t h = ground arith

  pub Reads-years :
      (m d n k : ℕ) (t : Bool) (rest : Bytes) (v : Outcome DurationParseError Duration)
      → m + k * 12 < u32_mod
      → StartsAscii rest
      → Reads checks (m + k * 12) d n t rest v
      → Reads checks m d n t (part k b'Y' ++ rest) v
  unfolding is_digit
  Reads-years m d n k t rest v h ascii next =
      Reads-part checks m d n (m + k * 12) d n t k b'Y' rest v (omega arith) refl refl ascii
        (λ prev len _. apply-years m d n k len t prev h) (λ e. omega arith) next

  pub Reads-months :
      (m d n k : ℕ) (rest : Bytes) (v : Outcome DurationParseError Duration)
      → m + k < u32_mod
      → StartsAscii rest
      → Reads checks (m + k) d n false rest v
      → Reads checks m d n false (part k b'M' ++ rest) v
  unfolding is_digit
  Reads-months m d n k rest v h ascii next =
      Reads-part checks m d n (m + k) d n false k b'M' rest v (omega arith) refl refl ascii
        (λ prev len _. apply-months m d n k len prev h) (λ e. omega arith) next

  pub Reads-days :
      (m d n k : ℕ) (t : Bool) (rest : Bytes) (v : Outcome DurationParseError Duration)
      → d + k < u32_mod
      → StartsAscii rest
      → Reads checks m (d + k) n t rest v
      → Reads checks m d n t (part k b'D' ++ rest) v
  unfolding is_digit
  Reads-days m d n k t rest v h ascii next =
      Reads-part checks m d n m (d + k) n t k b'D' rest v (omega arith) refl refl ascii
        (λ prev len _. apply-days m d n k len t prev h) (λ e. omega arith) next

  pub Reads-hours :
      (m d n k : ℕ) (t : Bool) (rest : Bytes) (v : Outcome DurationParseError Duration)
      → n + k * nanos_per_hour < u64_mod
      → StartsAscii rest
      → Reads checks m d (n + k * nanos_per_hour) t rest v
      → Reads checks m d n t (part k b'H' ++ rest) v
  unfolding is_digit
  Reads-hours m d n k t rest v h ascii next =
      Reads-part checks m d n m d (n + k * nanos_per_hour) t k b'H' rest v (omega arith) refl refl
        ascii (λ prev len _. apply-hours m d n k len t prev h) (λ e. omega arith) next

  pub Reads-minutes :
      (m d n k : ℕ) (rest : Bytes) (v : Outcome DurationParseError Duration)
      → n + k * nanos_per_minute < u64_mod
      → StartsAscii rest
      → Reads checks m d (n + k * nanos_per_minute) true rest v
      → Reads checks m d n true (part k b'M' ++ rest) v
  unfolding is_digit
  Reads-minutes m d n k rest v h ascii next =
      Reads-part checks m d n m d (n + k * nanos_per_minute) true k b'M' rest v (omega arith) refl
        refl ascii (λ prev len _. apply-minutes m d n k len prev h) (λ e. omega arith) next

  pub Reads-seconds :
      (m d n seconds nanos : ℕ) (v : Outcome DurationParseError Duration)
      → n + seconds * nanos_per_sec + nanos < u64_mod
      → nanos < nanos_per_sec
      → Reads checks m d (n + seconds * nanos_per_sec + nanos) true [] v
      → Reads checks m d n true (display_seconds seconds nanos) v
  unfolding display_seconds is_digit
  Reads-seconds m d n seconds nanos v fits small next prev quiet =
      elim (Bool-cases (ltb 0 seconds && nanos == 0)) [
        | inl whole ↦
            let e : n + seconds * nanos_per_sec ≡ n + seconds * nanos_per_sec + nanos =
              ground arith in
            rw whole (
              Runs-digits checks (state m d n true prev) (state m d _ true prev) (format seconds)
                b'S' [] v (format-pos seconds) (format-AllDigits seconds)
                (omega (arith, format-value seconds)) refl tt (rw quiet)
                (rw (format-value seconds) (
                  apply-seconds m d n seconds (length (format seconds)) true prev quiet
                    (omega arith)
                  ∙ ap (λ (x : ℕ). ok (state m d x true prev)) e))
                (next (some b'S') refl))
        | inr not_whole ↦ elim (Bool-cases (ltb 0 nanos)) [
          | inl fraction ↦
              rw (not_whole, fraction)
                (Runs-digits checks (state m d n true prev)
                  (state m d (n + seconds * nanos_per_sec) true prev) (format seconds) b'.'
                  (format_width 9 nanos ++ b'S' ∷ []) v (format-pos seconds)
                  (format-AllDigits seconds) (omega (arith, format-value seconds)) refl
                  (digits-StartsAscii (format_width 9 nanos) (b'S' ∷ [])
                    (format_width-AllDigits 9 nanos) (omega arith))
                  (rw quiet)
                  (rw (format-value seconds)
                    (apply-point m d n seconds (length (format seconds)) true prev (omega arith)))
                  (Runs-digits checks (state m d (n + seconds * nanos_per_sec) true (some b'.'))
                    (state m d (n + seconds * nanos_per_sec + nanos) true (some b'.'))
                    (format_width 9 nanos) b'S' [] v
                    (omega (arith, format_width-length 8 nanos small))
                    (format_width-AllDigits 9 nanos) (omega (arith, format_width-value 9 nanos))
                    refl tt refl
                    (rw (format_width-value 9 nanos, format_width-length 8 nanos small)
                      (apply-fraction m d (n + seconds * nanos_per_sec) nanos true fits))
                    (next (some b'S') refl)))
          | inr nothing ↦
              let e : n + seconds * nanos_per_sec + nanos ≡ n = ground arith in
              rw (not_whole, nothing) ((rw e at next) prev quiet)
        ]
      ]
