-- ===== src/Duration/Totality.antt =====
-- The parser of durations ends on every text, and where it cannot panic (rust/src/concept/value.rs).
use typedb_driver.Common.{
  ℕ, zero, suc, ◌+◌, ◌≤◌, ◌<◌, ◌≡◌, ap, ◌≢◌, inl, inr, Bool, none, [], ◌∷◌, arith, Bytes, length,
  nat_eq, ok, Outcome-cases, >>=-eq-ok,
}
use typedb_driver.Duration.{
  DurationParseError, Segment, slice_from, count_digits, read_u32, Parse, initial, enter_time,
  accept, round, loop, from_str,
}

slice_from-length :
    {E : Type 0} (i : ℕ) (s t : Bytes) → slice_from {E = E} i s ≡ ok t → length t + i ≡ length s
unfolding slice_from
slice_from-length zero s t h = ground arith
slice_from-length (suc zero) [] t h = cc
slice_from-length (suc zero) (c ∷ []) t h = ground arith
slice_from-length (suc zero) (c ∷ d ∷ s) t h = ground arith
slice_from-length (suc (suc i)) [] t h = cc
slice_from-length (suc (suc i)) (c ∷ s) t h = omega (arith, slice_from-length (suc i) s t h)

read_u32-shorter : (s : Bytes) (r : Segment × Bytes) → read_u32 s ≡ ok r → length r.1 < length s
unfolding read_u32
read_u32-shorter s r h =
    ground (arith, slice_from-length {E = DurationParseError} (suc (count_digits 0 s)) s r.1)

enter_time-le : (p : Parse) (s : Bytes) → length (enter_time p s).1 ≤ length s
unfolding enter_time
enter_time-le p [] = omega arith
enter_time-le p (c ∷ s) = ground arith

module _ (checks : Bool) where
  -- A round that succeeds leaves the tail that was read.
  accept-tail :
      (p : Parse) (g : Segment) (tail : Bytes) (r : Parse × Bytes)
      → accept checks p g tail ≡ ok r
      → r.1 ≡ tail
  unfolding accept
  accept-tail p g tail r h = ground arith

  round-shorter :
      (p : Parse) (s : Bytes) (r : Parse × Bytes) → round checks p s ≡ ok r → length r.1 < length s
  unfolding round
  round-shorter p s r h =
      let (read, e, h') =
        >>=-eq-ok (read_u32 (enter_time p s).1)
          (λ (x : Segment × Bytes). accept checks (enter_time p s).0 x.0 x.1) h in
      omega (
        arith,
        read_u32-shorter (enter_time p s).1 read e,
        enter_time-le p s,
        ap length (accept-tail (enter_time p s).0 read.0 read.1 r h'),
      )

  loop-total : (fuel : ℕ) (p : Parse) (s : Bytes) → length s ≤ fuel → loop checks fuel p s ≢ none
  unfolding loop
  loop-total fuel p [] h = cc
  loop-total zero p (c ∷ s) h = absurd (omega arith)
  loop-total (suc fuel) p (c ∷ s) h = elim (Outcome-cases (round checks p (c ∷ s))) [
    | inl (r, e) ↦
        rw (e, loop) (loop-total fuel r.0 r.1 (omega (arith, round-shorter p (c ∷ s) r e)))
    | inr (inl (x, e)) ↦ rw (e, loop) (λ q. cc)
    | inr (inr e) ↦ rw (e, loop) (λ q. cc)
  ]

  -- The parser ends on every text: the length of the text bounds the rounds of the loop.
  pub from_str-total : (s : Bytes) → from_str checks s ≢ none
  unfolding from_str
  from_str-total [] = λ q. cc
  from_str-total (c ∷ s) = ground (
    arith,
    loop-total (length s) initial s (omega arith),
    slice_from-length {E = DurationParseError} 1 (c ∷ s),
  )
