-- ===== src/ConceptRow/Lookup.antt =====
-- A lookup by name is a lookup by the index of the first column with that name
-- (rust/src/answer/concept_row.rs).
use typedb_driver.Common.{
  ℕ, zero, suc, ◌+◌, ◌<◌, ◌≡◌, refl, ap, ◌≢◌, inl, inr, ◌⊎◌, false, none, some, List, [], ◌∷◌,
  arith, Bool-cases, Bytes, get_elem?, ◌=?◌, nat_eq, bytes_eq, err,
}
use typedb_driver.Common.Maps.{filter}
use typedb_driver.Common.Maps
use typedb_driver.Errors.{unavailable_row_variable}
use typedb_driver.ConceptRow.{ConceptRow, find_position, get_index, get}

-- The first column with the name is the `i`-th.
abbrev pub IsFirst : Bytes → List Bytes → ℕ → Type 0
IsFirst name l i = (get_elem? l i ≡ some name) × ((j : ℕ) → j < i → get_elem? l j ≢ some name)

find_position-IsFirst :
    (from : ℕ) (l : List Bytes) (name : Bytes)
    → ((Maps.contains l name ≡ false) × (find_position from l name ≡ none))
      ⊎ ((i : ℕ) × (find_position from l name ≡ some (from + i)) × IsFirst name l i)
unfolding find_position
find_position-IsFirst from [] name = inl (refl, refl)
find_position-IsFirst from (x ∷ l) name = elim (Bool-cases (x =? name)) [
  | inl here ↦ inr (
    0,
    rw (here, find_position) (ap some (omega arith)),
    (ap some ((bytes_eq.beq_iff x name).0 here), λ j below. absurd (omega arith)),
  )
  | inr other ↦ elim (find_position-IsFirst (suc from) l name) [
    | inl (missing, nowhere) ↦
        inl (rw (other, missing) refl, rw (other, find_position, nowhere) refl)
    | inr (i, found, (at_i, before)) ↦ inr (
      suc i,
      rw (other, find_position, found) (ap some (omega arith)),
      (at_i, earlier i other before),
    )
  ]
]
  where
    earlier :
        (i : ℕ)
        → (x =? name) ≡ false
        → ((j : ℕ) → j < i → get_elem? l j ≢ some name)
        → (j : ℕ) → j < suc i
        → get_elem? (x ∷ l) j ≢ some name
    earlier i other before zero below = λ same. ground (arith, bytes_eq.beq_iff x name)
    earlier i other before (suc j) below = before j (omega arith)

module _ {B : Type 0} where
  -- A lookup by name gives an error if no column has the name, and else what the lookup by the index of
  -- the first such column gives.
  pub get-IsFirst :
      (name : Bytes) (r : ConceptRow B)
      → ((Maps.contains r.column_names name ≡ false)
          × (get name r ≡ err (unavailable_row_variable name)))
        ⊎ ((i : ℕ) × IsFirst name r.column_names i × (get name r ≡ get_index i r))
  unfolding get
  get-IsFirst name r = elim (find_position-IsFirst 0 r.column_names name) [
    | inl (missing, nowhere) ↦ inl (missing, rw (get, nowhere) refl)
    | inr (i, found, first) ↦
        inr (i, first, rw (get, found) (ap (λ k. get_index k r) (omega arith)))
  ]
