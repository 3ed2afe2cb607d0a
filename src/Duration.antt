-- ===== src/Duration.antt =====
-- rust/src/concept/value.rs, `Duration`: its ISO-8601 print and the parser. `checks` is the build's
-- `overflow-checks`.
pub mod Reading
pub mod Effects
pub mod RoundTrip
pub mod Totality
pub mod Tests
use mathlib.Core.Option
use typedb_driver.Common.{
  ℕ, zero, suc, ◌+◌, ◌-◌, ◌*◌, ◌/◌, ◌%◌, ◌^◌, ◌≤◌, ◌<◌, ◌≡◌, refl, sym, ap, ◌∙◌, ◌≢◌, ◌↔◌, ◌⊎◌, inl,
  inr, Bool, true, false, not, ◌&&◌, ◌||◌, Option, none, some, List, [], ◌∷◌, ◌++◌, map, append-nil,
  append_assoc, arith, ltb, leb, ◌==◌, if◌then◌else◌, ltb→lt, lt→ltb, leb→le, ==_iff, Bool-cases,
  Option-cases, Bytes, codes, length, get_elem?, take, drop, replicate, length-append,
  length-replicate, take-append, get_elem?-append, drop-append, drop-append_suc, All, All-append,
  Any, Eq, ◌=?◌, nat_eq, Outcome, ok, err, panic, ◌>>=◌, ◌>>◌, unwrap, ok_or, map_err, fit, fit_ok,
}
use typedb_driver.Digits.{is_digit, format, format_width, parse_u64}

pub record Duration : Type 0 where
  pub months : ℕ
  pub days : ℕ
  pub nanos : ℕ

abbrev pub nanos_per_sec : ℕ
nanos_per_sec = 1_000_000_000

abbrev pub nanos_per_minute : ℕ
nanos_per_minute = 60 * nanos_per_sec

abbrev pub nanos_per_hour : ℕ
nanos_per_hour = 60 * 60 * nanos_per_sec

abbrev pub days_per_week : ℕ
days_per_week = 7

abbrev pub months_per_year : ℕ
months_per_year = 12

abbrev pub u32_mod : ℕ
u32_mod = 2 ^ 32

abbrev pub u64_mod : ℕ
u64_mod = 2 ^ 64

-- The fields are machine words.
pub record IsWord (d : Duration) : Type 0 where
  pub months_word : d.months < u32_mod
  pub days_word : d.days < u32_mod
  pub nanos_word : d.nanos < u64_mod

pub is_empty : Duration → Bool
is_empty d = d.months == 0 && d.days == 0 && d.nanos == 0

-- `write!(f, "{n}Y")` and the like, made only where the number is positive.
pub part : ℕ → ℕ → Bytes
part n symbol = if ltb 0 n then format n ++ symbol ∷ [] else []

pub display_date : Duration → Bytes
unfolding part
display_date d =
    if ltb 0 d.months || ltb 0 d.days
    then part (d.months / months_per_year) b'Y'
      ++ (part (d.months % months_per_year) b'M' ++ part d.days b'D')
    else []

pub display_seconds : ℕ → ℕ → Bytes
display_seconds seconds nanos =
    if ltb 0 seconds && nanos == 0
    then format seconds ++ b'S' ∷ []
    else if ltb 0 nanos
    then format seconds ++ b'.' ∷ (format_width 9 nanos ++ b'S' ∷ [])
    else []

pub display_time : Duration → Bytes
unfolding part display_seconds
display_time d =
    if ltb 0 d.nanos
    then b'T'
      ∷ (part (d.nanos / nanos_per_hour) b'H'
          ++ (part (d.nanos % nanos_per_hour / nanos_per_minute) b'M'
              ++ display_seconds (d.nanos % nanos_per_minute / nanos_per_sec)
                  (d.nanos % nanos_per_sec)))
    else []

-- `impl Display for Duration`.
pub display : Duration → Bytes
unfolding is_empty display_date display_time
display d = if is_empty d then codes "PT0S" else b'P' ∷ display_date d ++ display_time d

pub data DurationParseError : Type 0 where
  duration_parse_error : DurationParseError

pub record Segment : Type 0 where
  pub number : ℕ
  pub symbol : ℕ
  pub number_len : ℕ

-- A slice `&s[i..]` panics past the end and inside a character, whose later bytes are 0x80 to 0xbf.
pub slice_from : {E : Type 0} → ℕ → Bytes → Outcome E Bytes
slice_from zero s = ok s
slice_from (suc zero) [] = panic
slice_from (suc zero) (c ∷ []) = ok []
slice_from (suc zero) (c ∷ d ∷ s) = if leb 0x80 d && ltb d 0xc0 then panic else ok (d ∷ s)
slice_from (suc (suc i)) [] = panic
slice_from (suc (suc i)) (c ∷ s) = slice_from (suc i) s

-- `while i + 1 < str.len() && str.as_bytes()[i].is_ascii_digit() { i += 1; }`, on the bytes from `i`.
pub count_digits : ℕ → Bytes → ℕ
unfolding is_digit
count_digits i [] = i
count_digits i (c ∷ []) = i
count_digits i (c ∷ d ∷ s) =
    let more = count_digits (suc i) (d ∷ s) in if is_digit c then more else i

-- `read_u32`, which reads a `u64`.
pub read_u32 : Bytes → Outcome DurationParseError (Segment × Bytes)
unfolding count_digits slice_from
read_u32 s =
    let i = count_digits 0 s in
    if i == 0 then err duration_parse_error else do
      value ← map_err (λ _. duration_parse_error) (parse_u64 (take i s))
      symbol ← unwrap (get_elem? s i)
      tail ← slice_from (suc i) s
      ok (record { number = value; symbol = symbol; number_len = i }, tail)

-- The variables of the loop of `from_str`.
pub record Parse : Type 0 where
  pub months : ℕ
  pub days : ℕ
  pub nanos : ℕ
  pub parsing_time : Bool
  pub previous_symbol : Option ℕ

abbrev pub initial : Parse
initial = record { months = 0; days = 0; nanos = 0; parsing_time = false; previous_symbol = none }

abbrev pub was_point : Option ℕ → Bool
was_point none = false
was_point (some c) = c == b'.'

-- `10u64.pow(e)`: the result fits up to 19, and is 0 modulo 2^64 from 64 on.
pub pow10 : {E : Type 0} → Bool → ℕ → Outcome E ℕ
pow10 checks e =
    if leb e 19
    then ok (10 ^ e)
    else if checks
    then panic
    else if leb 64 e
    then ok 0
    else ok (10 ^ e % u64_mod)

-- A leading `T` switches to the time part.
pub enter_time : Parse → Bytes → Parse × Bytes
enter_time p [] = (p, [])
enter_time p (c ∷ s) = if c == b'T' then (record p { parsing_time = true }, s) else (p, c ∷ s)

pub finish : Parse → Duration
finish p = record { months = p.months; days = p.days; nanos = p.nanos }

module _ (checks : Bool) where
  pub mul_add : ℕ → ℕ → ℕ → ℕ → Outcome DurationParseError ℕ
  mul_add m field number factor = do
    product ← fit checks m (number * factor)
    fit checks m (field + product)

  pub add_months : Parse → ℕ → Outcome DurationParseError Parse
  unfolding mul_add
  add_months p n = do months ← mul_add u32_mod p.months n 1; ok (record p { months = months })

  pub add_years : Parse → ℕ → Outcome DurationParseError Parse
  unfolding mul_add
  add_years p n = do
    months ← mul_add u32_mod p.months n months_per_year
    ok (record p { months = months })

  pub add_days : Parse → ℕ → ℕ → Outcome DurationParseError Parse
  unfolding mul_add
  add_days p n factor = do days ← mul_add u32_mod p.days n factor; ok (record p { days = days })

  pub add_nanos : Parse → ℕ → ℕ → Outcome DurationParseError Parse
  unfolding mul_add
  add_nanos p n factor = do
    nanos ← mul_add u64_mod p.nanos n factor
    ok (record p { nanos = nanos })

  -- The digits behind the point: `number * 10u64.pow(9 - number_len as u32)`.
  pub add_fraction : Parse → ℕ → ℕ → Outcome DurationParseError Parse
  unfolding add_nanos pow10
  add_fraction p n number_len = do
    exponent ←
        (if leb (number_len % u32_mod) 9
          then ok (9 - number_len % u32_mod)
          else if checks
          then panic
          else ok (9 + u32_mod - number_len % u32_mod))
    factor ← pow10 checks exponent
    add_nanos p n factor

  -- The `match symbol` of the loop, in the order of its arms.
  pub apply : Parse → Segment → Outcome DurationParseError Parse
  unfolding add_months add_years add_days add_nanos add_fraction
  apply p s =
      if s.symbol == b'Y'
      then add_years p (s.number % u32_mod)
      else if s.symbol == b'M' && not p.parsing_time
      then add_months p (s.number % u32_mod)
      else if s.symbol == b'W'
      then add_days p (s.number % u32_mod) days_per_week
      else if s.symbol == b'D'
      then add_days p (s.number % u32_mod) 1
      else if s.symbol == b'H'
      then add_nanos p s.number nanos_per_hour
      else if s.symbol == b'M' && p.parsing_time
      then add_nanos p s.number nanos_per_minute
      else if s.symbol == b'.'
      then add_nanos p s.number nanos_per_sec
      else if s.symbol == b'S' && not (was_point p.previous_symbol)
      then add_nanos p s.number nanos_per_sec
      else if s.symbol == b'S' && was_point p.previous_symbol
      then add_fraction p s.number s.number_len
      else err duration_parse_error

  -- What a round does with a segment that it has read.
  pub accept : Parse → Segment → Bytes → Outcome DurationParseError (Parse × Bytes)
  accept p segment tail = do
    p' ←
        (if was_point p.previous_symbol && not (segment.symbol == b'S')
          then err duration_parse_error
          else apply p segment)
    ok (record p' { previous_symbol = some segment.symbol }, tail)

  -- One round of the loop.
  pub round : Parse → Bytes → Outcome DurationParseError (Parse × Bytes)
  unfolding accept
  round p str = do
    let (p', str') = enter_time p str
    (segment, tail) ← read_u32 str'
    accept p' segment tail

  -- The `while` loop; `none` means that the fuel ran out.
  pub loop : ℕ → Parse → Bytes → Option (Outcome DurationParseError Parse)
  loop fuel p [] = some (ok p)
  loop zero p (c ∷ s) = none
  loop (suc fuel) p (c ∷ s) = elim (round p (c ∷ s)) [
    | ok r ↦ loop fuel r.0 r.1
    | err e ↦ some (err e)
    | panic ↦ some panic
  ]

  -- `impl FromStr for Duration`.
  pub from_str : Bytes → Option (Outcome DurationParseError Duration)
  unfolding loop round read_u32 apply enter_time finish slice_from
  from_str [] = some panic
  from_str (c ∷ s) =
      if c == b'P'
      then elim (slice_from {E = DurationParseError} 1 (c ∷ s)) [
        | ok rest ↦ Option.map (λ r. r >>= λ p. ok (finish p)) (loop (length rest) initial rest)
        | err e ↦ some (err e)
        | panic ↦ some panic
      ]
      else some (err duration_parse_error)
