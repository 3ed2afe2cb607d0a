-- ===== src/Json/Reader.antt =====
-- A reader of JSON strings, written from the grammar of JSON (RFC 8259, section 7): it reads every
-- escape of a character below 128.
use typedb_driver.Common.{
  ℕ, zero, suc, ◌+◌, ◌-◌, ◌*◌, ◌&&◌, ◌||◌, Option, none, some, [], ◌∷◌, ltb, leb, ◌==◌,
  if◌then◌else◌, Bytes, nat_eq,
}

pub data Mode : Type 0 where
  plain escaped : Mode
  -- Digits of a code point to come, and its value so far.
  code_point : ℕ → ℕ → Mode

abbrev pub hex_value : ℕ → Option ℕ
hex_value c =
    if leb b'0' c && leb c b'9'
    then some (c - b'0')
    else if leb b'a' c && leb c b'f'
    then some (c - b'a' + 10)
    else if leb b'A' c && leb c b'F'
    then some (c - b'A' + 10)
    else none

abbrev pub short_escape : ℕ → Option ℕ
short_escape c =
    if c == b'"' || c == b'\\' || c == b'/'
    then some c
    else if c == b'b'
    then some 8
    else if c == b't'
    then some 9
    else if c == b'n'
    then some 10
    else if c == b'f'
    then some 12
    else if c == b'r'
    then some 13
    else none

abbrev pub cons : ℕ → Option Bytes → Option Bytes
cons c none = none
cons c (some s) = some (c ∷ s)

-- With the value of an escape, the rest.
abbrev pub cons_value : Option ℕ → Option Bytes → Option Bytes
cons_value none rest = none
cons_value (some c) rest = cons c rest

abbrev pub below_128 : ℕ → Option ℕ
below_128 n = if ltb n 128 then some n else none

-- The text inside the quotes. A quote or a control character cannot stand there by itself.
unfoldable pub read : Mode → Bytes → Option Bytes
read plain [] = some []
read escaped [] = none
read (code_point k n) [] = none
read plain (c ∷ s) =
    if c == b'\\'
    then read escaped s
    else if c == b'"' || ltb c 32
    then none
    else cons c (read plain s)
read escaped (c ∷ s) =
    if c == b'u' then read (code_point 4 0) s else cons_value (short_escape c) (read plain s)
read (code_point zero n) (c ∷ s) = none
read (code_point (suc k) n) (c ∷ s) = elim (hex_value c) [
  | none ↦ none
  | some d ↦
      if k == 0
      then cons_value (below_128 (16 * n + d)) (read plain s)
      else read (code_point k (16 * n + d)) s
]
