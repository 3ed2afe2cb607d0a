-- ===== src/Digits.antt =====
-- Integers in decimal, as `Display` and `FromStr` of Rust's integer types print and read them.
pub mod Laws
use typedb_driver.Common.{
  ℕ, zero, suc, ◌+◌, ◌-◌, ◌*◌, ◌/◌, ◌%◌, ◌^◌, ◌≤◌, ◌<◌, ◌≡◌, refl, sym, ap, ◌∙◌, ◌≢◌, ◌↔◌, ◌⊎◌, inl,
  inr, Bool, true, false, not, ◌&&◌, ◌||◌, Option, none, some, List, [], ◌∷◌, ◌++◌, map, append-nil,
  append_assoc, arith, ltb, leb, ◌==◌, if◌then◌else◌, ltb→lt, lt→ltb, leb→le, ==_iff, Bool-cases,
  Option-cases, Bytes, codes, length, get_elem?, take, drop, replicate, length-append,
  length-replicate, take-append, get_elem?-append, drop-append, drop-append_suc, All, All-append,
  Any, Eq, ◌=?◌, nat_eq, Outcome, ok, err, panic, ◌>>=◌, ◌>>◌, unwrap, ok_or, map_err, fit, fit_ok,
}

abbrev pub u64_max : ℕ
u64_max = 2 ^ 64 - 1

unfoldable pub is_digit : ℕ → Bool
is_digit c = leb b'0' c && leb c b'9'

-- The digits of `n`, most significant first; `fuel` bounds their number.
pub digits : ℕ → ℕ → Bytes
digits zero n = []
digits (suc fuel) n =
    let rest = digits fuel (n / 10) in
    if ltb n 10 then (b'0' + n) ∷ [] else rest ++ (b'0' + n % 10) ∷ []

-- `{n}` of an unsigned integer.
unfoldable pub format : ℕ → Bytes
unfolding digits
format n = digits (suc n) n

-- `{n:0width$}`.
unfoldable pub format_width : ℕ → ℕ → Bytes
format_width width n = replicate (width - length (format n)) b'0' ++ format n

pub data IntErrorKind : Type 0 where
  empty invalid_digit pos_overflow neg_overflow : IntErrorKind

-- The loop of `from_str_radix` for radix 10, with the largest magnitude that fits.
pub scan : ℕ → IntErrorKind → ℕ → Bytes → Outcome IntErrorKind ℕ
unfolding is_digit
scan limit overflow acc [] = ok acc
scan limit overflow acc (c ∷ s) =
    if is_digit c
    then (if leb (acc * 10 + (c - b'0')) limit
        then scan limit overflow (acc * 10 + (c - b'0')) s
        else err overflow)
    else err invalid_digit

-- `str::parse::<u64>`: a leading `+` is accepted before at least one digit.
unfoldable pub parse_u64 : Bytes → Outcome IntErrorKind ℕ
unfolding scan
parse_u64 [] = err empty
parse_u64 (c ∷ []) = if c == b'+' then err invalid_digit else scan u64_max pos_overflow 0 (c ∷ [])
parse_u64 (c ∷ d ∷ s) =
    if c == b'+'
    then scan u64_max pos_overflow 0 (d ∷ s)
    else scan u64_max pos_overflow 0 (c ∷ d ∷ s)

max_is_read : parse_u64 (codes "18446744073709551615") ≡ ok u64_max
unfolding parse_u64
max_is_read = refl

max_and_one : parse_u64 (codes "18446744073709551616") ≡ err pos_overflow
unfolding parse_u64
max_and_one = refl

padded : format_width 9 120 ≡ codes "000000120"
unfolding format_width format
padded = refl
