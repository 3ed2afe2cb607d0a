-- ===== src/Json/RoundTrip.antt =====
-- The escapes of a string are read back (rust/src/answer/json.rs).
use typedb_driver.Common.{
  ℕ, zero, suc, ◌<◌, ◌≡◌, refl, sym, ap, ◌∙◌, inl, inr, false, ◌||◌, some, List, [], ◌∷◌, ◌++◌,
  arith, ltb, ◌==◌, Bool-cases, Bytes, All, nat_eq, ltb→lt,
}
use typedb_driver.Json.{escape_byte, escape}
use typedb_driver.Json.Reader.{plain, cons, read}

abbrev below : ℕ → List ℕ
below zero = []
below (suc n) = n ∷ below n

All-below : (P : ℕ → Type 0) (n i : ℕ) → i < n → All P (below n) → P i
All-below P zero i h l = absurd (omega arith)
All-below P (suc n) i h l = elim (Bool-cases (i == n)) [
  | inl last ↦ (let same : n ≡ i = ground arith in rw (sym same) l.0)
  | inr other ↦ All-below P n i (ground arith) l.1
]

abbrev IsRead : Bytes → ℕ → Type 0
IsRead s byte = read plain (escape_byte byte ++ s) ≡ cons byte (read plain s)

infixr 4 ◌⊳◌
abbrev ◌⊳◌ : {A B : Type 0} → A → B → A × B
a ⊳ b = (a, b)

control-IsRead : (s : Bytes) → All (IsRead s) (below 32)
unfolding read escape_byte
control-IsRead s =
    refl ⊳ refl ⊳ refl ⊳ refl ⊳ refl ⊳ refl ⊳ refl ⊳ refl ⊳ refl ⊳ refl ⊳ refl ⊳ refl ⊳ refl ⊳ refl
    ⊳ refl ⊳ refl ⊳ refl ⊳ refl ⊳ refl ⊳ refl ⊳ refl ⊳ refl ⊳ refl ⊳ refl ⊳ refl ⊳ refl ⊳ refl
    ⊳ refl ⊳ refl ⊳ refl ⊳ refl ⊳ refl ⊳ tt

printable-IsRead : (byte : ℕ) (s : Bytes) → ltb byte 32 ≡ false → IsRead s byte
unfolding read escape_byte
printable-IsRead byte s h = elim (Bool-cases (byte == b'"' || byte == b'\\')) [
  | inl special ↦ rw (escape_byte, h, special) (ground arith)
  | inr plain_byte ↦ rw (escape_byte, h, plain_byte) (ground arith)
]

escape_byte-IsRead : (byte : ℕ) (s : Bytes) → IsRead s byte
escape_byte-IsRead byte s = elim (Bool-cases (ltb byte 32)) [
  | inl control ↦ All-below (IsRead s) 32 byte (ltb→lt byte 32 control) (control-IsRead s)
  | inr printable ↦ printable-IsRead byte s printable
]

-- The escaped text between the quotes of a printed string reads as the string.
pub read-escape : (s : Bytes) → read plain (escape s) ≡ some s
unfolding escape read
read-escape [] = refl
read-escape (byte ∷ s) = escape_byte-IsRead byte (escape s) ∙ ap (cons byte) (read-escape s)
