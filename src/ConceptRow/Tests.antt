-- ===== src/ConceptRow/Tests.antt =====
-- Concrete rows.
use typedb_driver.Common.{
  ℕ, ◌≡◌, refl, ◌⊎◌, false, ◌||◌, none, some, [], ◌∷◌, ◌==◌, nat_eq, bytes_eq, codes, ok, err,
}
use typedb_driver.Common.Maps
use typedb_driver.Errors.{unavailable_row_variable, unavailable_row_index}
use typedb_driver.ConceptRow.{
  ConceptRow, get_index, get, get_concepts, conjunctions, get_involved_conjunctions,
}
use typedb_driver.ConceptRow.Involved.{packed, conjunctions-packed}
use typedb_driver.ConceptRow.Lookup.{IsFirst, get-IsFirst}

abbrev sample : ConceptRow ℕ
sample = record {
  column_names = codes "a" ∷ codes "b" ∷ codes "c" ∷ [];
  row = some 70 ∷ none ∷ [];
  involved_conjunctions = some (5 ∷ 1 ∷ []);
}

involved : get_involved_conjunctions sample ≡ some (0 ∷ 2 ∷ 8 ∷ [])
unfolding get_involved_conjunctions
involved = refl

by_name : get (codes "a") sample ≡ ok (some 70)
unfolding get
by_name = refl

-- A name without an entry in the row.
short_row : get (codes "c") sample ≡ err (unavailable_row_index 2)
unfolding get
short_row = refl

only_concepts : get_concepts sample ≡ 70 ∷ []
unfolding get_concepts
only_concepts = refl

conjunctions-packed_example : conjunctions (packed (λ c. c == 3 || c == 9) 0 2) ≡ 3 ∷ 9 ∷ []
conjunctions-packed_example = conjunctions-packed (λ c. c == 3 || c == 9) 2

get-IsFirst_example :
    ((Maps.contains sample.column_names (codes "b") ≡ false)
      × (get (codes "b") sample ≡ err (unavailable_row_variable (codes "b"))))
    ⊎ ((i : ℕ) × IsFirst (codes "b") sample.column_names i
        × (get (codes "b") sample ≡ get_index i sample))
get-IsFirst_example = get-IsFirst (codes "b") sample
