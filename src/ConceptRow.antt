-- ===== src/ConceptRow.antt =====
-- rust/src/answer/concept_row.rs: the lookups of a row by name and by index, and the conjunctions that
-- are involved in it. `B` stands for the concepts.
pub mod Involved
pub mod Lookup
pub mod Tests
use typedb_driver.Common.{
  ℕ, zero, suc, ◌+◌, ◌-◌, ◌*◌, ◌/◌, ◌%◌, ◌^◌, ◌≤◌, ◌<◌, ◌≡◌, refl, sym, ap, ◌∙◌, ◌≢◌, inl, inr,
  Bool, true, false, not, ◌&&◌, ◌||◌, Option, none, some, List, [], ◌∷◌, ◌++◌, map, arith, ltb, leb,
  ◌==◌, if◌then◌else◌, Bool-cases, Option-cases, Bytes, length, get_elem?, Eq, ◌=?◌, nat_eq,
  bytes_eq, Outcome, ok, err, panic, ◌>>=◌, ok_or, All,
}
use typedb_driver.Common.Maps.{filter}
use typedb_driver.Errors.{ConceptError, unavailable_row_variable, unavailable_row_index}

-- The header's names of columns, and the row.
pub record ConceptRow (B : Type 0) : Type 0 where
  pub column_names : List Bytes
  pub row : List (Option B)
  pub involved_conjunctions : Option (List ℕ)

-- `find_position`, from the position `i`.
pub find_position : ℕ → List Bytes → Bytes → Option ℕ
find_position i [] name = none
find_position i (x ∷ l) name = if x =? name then some i else find_position (suc i) l name

module _ {B : Type 0} where
  pub get_index : ℕ → ConceptRow B → Outcome (ConceptError) (Option B)
  get_index i r = ok_or (unavailable_row_index i) (get_elem? r.row i)

  pub get : Bytes → ConceptRow B → Outcome (ConceptError) (Option B)
  unfolding find_position get_index
  get name r = ok_or (unavailable_row_variable name) (find_position 0 r.column_names name) >>= λ i.
      get_index i r

module _ {B : Type 0} where
  pub concepts : List (Option B) → List B
  concepts [] = []
  concepts (none ∷ l) = concepts l
  concepts (some x ∷ l) = x ∷ concepts l

module _ {B : Type 0} where
  pub get_concepts : ConceptRow B → List B
  unfolding concepts
  get_concepts r = concepts r.row

-- `from .. from + n`
abbrev pub range : ℕ → ℕ → List ℕ
range from zero = []
range from (suc n) = from ∷ range (suc from) n

-- `byte & (1 << k) != 0`, for `k < 8`.
abbrev pub bit : ℕ → ℕ → Bool
bit byte k = (byte / 2 ^ k) % 2 == 1

-- `involved[i]`, for an index in range.
abbrev pub byte_at : List ℕ → ℕ → ℕ
byte_at [] i = 0
byte_at (byte ∷ l) zero = byte
byte_at (byte ∷ l) (suc i) = byte_at l i

-- The conjunctions whose bit is set.
pub conjunctions : List ℕ → List ℕ
conjunctions l = filter (λ c. bit (byte_at l (c / 8)) (c % 8)) (range 0 (length l * 8))

module _ {B : Type 0} where
  pub get_involved_conjunctions : ConceptRow B → Option (List ℕ)
  unfolding conjunctions
  get_involved_conjunctions r = elim r.involved_conjunctions [
    | none ↦ none
    | some l ↦ some (conjunctions l)
  ]
