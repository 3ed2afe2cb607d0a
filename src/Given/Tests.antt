-- ===== src/Given/Tests.antt =====
-- Concrete tables of given rows.
use typedb_driver.Common.{
  ℕ, ◌≡◌, ◌⊎◌, refl, some, List, [], ◌∷◌, ◌++◌, Bytes, codes, length, get_elem?, ok, err, bytes_eq,
}
use typedb_driver.Common.Maps
use typedb_driver.Errors.{query, given_row_unknown_variable}
use typedb_driver.Concept.{Value}
use typedb_driver.Concept.Tests.{machine}
use typedb_driver.Given.{
  GivenRowEntry, GivenRows, new_rows, new_header, index_from, push_row, push_map, set_all, set,
  set_at, push, new_row, width,
}
use typedb_driver.Given.Filled.{
  IsIndexed, new_header-IsIndexed, assigned, AreKnown, IsFirstUnknown, push_map-cases,
}
use typedb_driver.Given.Built.{fresh, map, IsRectangular, Built-IsRectangular}

abbrev name : Bytes
name = codes "n"

abbrev alice : GivenRowEntry machine
alice = GivenRowEntry.value (Value.string (codes "Alice"))

abbrev values : List (Bytes × GivenRowEntry machine)
values = (name, alice) ∷ []

abbrev people : GivenRows machine
unfolding new_rows
people = new_rows (codes "a" ∷ name ∷ [])

abbrev filled : GivenRows machine
unfolding new_rows
filled = record { header = people.header; rows = (GivenRowEntry.empty ∷ alice ∷ []) ∷ [] }

push_map-test : push_map {A = ℕ} values people ≡ ok filled
unfolding push_map set_all set set_at push push_row new_row new_rows new_header index_from
push_map-test = refl

unknown-test :
    push_map {A = ℕ} ((codes "b", alice) ∷ []) people
    ≡ err (query (given_row_unknown_variable (codes "b")))
unfolding push_map set_all set set_at push push_row new_row new_rows new_header index_from
unknown-test = refl

people-IsIndexed : IsIndexed people.header
unfolding new_rows
people-IsIndexed = new_header-IsIndexed (codes "a" ∷ name ∷ [])

push_map-cases_example :
    ((row : List (GivenRowEntry machine)) × (push_map {A = ℕ} values people
        ≡ ok (record people { rows = people.rows ++ row ∷ [] }))
      × AreKnown people.header values
      × (length row ≡ width people.header)
      × ((v : Bytes) (i : ℕ)
          → Maps.lookup v people.header.index ≡ some i
          → get_elem? row i ≡ assigned v values (some GivenRowEntry.empty)))
    ⊎ ((v : Bytes) × (push_map {A = ℕ} values people ≡ err (query (given_row_unknown_variable v)))
        × IsFirstUnknown people.header v values)
push_map-cases_example = push_map-cases {A = ℕ} values people people-IsIndexed

Built-IsRectangular_example : IsRectangular filled
unfolding new_rows people filled
Built-IsRectangular_example =
    Built-IsRectangular {A = ℕ} filled (map values (fresh (codes "a" ∷ name ∷ [])) push_map-test)
