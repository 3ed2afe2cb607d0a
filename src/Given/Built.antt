-- ===== src/Given/Built.antt =====
-- The tables of given rows that a program can build (rust/src/given.rs).
use typedb_driver.Common.{
  ◌≡◌, inl, inr, List, [], ◌∷◌, ◌++◌, Bytes, length, ◌==◌, ==_iff, Bool-cases, All, All-append, ok,
  bytes_eq,
}
use mathlib.Core.Path.{subst}
use typedb_driver.Concept.{External}
use typedb_driver.Given.{GivenRowEntry, GivenRows, new_rows, width, push_row, push_map}
use typedb_driver.Given.Filled.{IsIndexed, new_header-IsIndexed, push_map-cases}

-- The tables that are reached from a new one by adding rows.
pub data Built (A : Type 0) {X : External} : GivenRows X → Type 0 where
  fresh : (variables : List Bytes) → Built A (new_rows variables)
  row :
      {g g' : GivenRows X} (r : List (GivenRowEntry X))
      → Built A g
      → push_row {A = A} r g ≡ ok g'
      → Built A g'
  map :
      {g g' : GivenRows X} (values : List (Bytes × GivenRowEntry X))
      → Built A g
      → push_map {A = A} values g ≡ ok g'
      → Built A g'

module _ {X : External} where
  -- Every row is as wide as the header, and the index has the positions of the variables.
  pub record IsRectangular (g : GivenRows X) : Type 0 where
    pub indexed : IsIndexed g.header
    pub wide : All (λ row. length row ≡ width g.header) g.rows

  added-IsRectangular :
      (r : List (GivenRowEntry X)) (g : GivenRows X)
      → IsRectangular g
      → length r ≡ width g.header
      → IsRectangular (record g { rows = g.rows ++ r ∷ [] })
  added-IsRectangular r g h same = record {
    indexed = h.indexed;
    wide = All-append (λ row. length row ≡ width g.header) g.rows (r ∷ []) h.wide (same, tt);
  }

module _ {A : Type 0} {X : External} where
  push_row-IsRectangular :
      (r : List (GivenRowEntry X)) (g g' : GivenRows X)
      → IsRectangular g
      → push_row {A = A} r g ≡ ok g'
      → IsRectangular g'
  unfolding push_row
  push_row-IsRectangular r g g' h went = elim (Bool-cases (length r == width g.header)) [
    | inr other ↦ (let stuck = rw (other, push_row) at went in cc)
    | inl same ↦
        (let added : record g { rows = g.rows ++ r ∷ [] } ≡ g' =
            (let done = rw (same, push_row) at went in cc) in
          subst IsRectangular added
            (added-IsRectangular r g h ((==_iff (length r) (width g.header)).0 same)))
  ]

  push_map-IsRectangular :
      (values : List (Bytes × GivenRowEntry X)) (g g' : GivenRows X)
      → IsRectangular g
      → push_map {A = A} values g ≡ ok g'
      → IsRectangular g'
  push_map-IsRectangular values g g' h went = elim (push_map-cases {A = A} values g h.indexed) [
    | inr (v, refused, unknown) ↦ cc
    | inl (r, added, known, same, entries) ↦
        (let equal : record g { rows = g.rows ++ r ∷ [] } ≡ g' = cc in
          subst IsRectangular equal (added-IsRectangular r g h same))
  ]

  -- In every table that a program builds, each row is as wide as the header.
  pub Built-IsRectangular : (g : GivenRows X) → Built A g → IsRectangular g
  unfolding new_rows
  Built-IsRectangular g (fresh variables) = record {
    indexed = new_header-IsIndexed variables;
    wide = tt;
  }
  Built-IsRectangular g' (row {g} r b went) =
      push_row-IsRectangular r g g' (Built-IsRectangular g b) went
  Built-IsRectangular g' (map {g} values b went) =
      push_map-IsRectangular values g g' (Built-IsRectangular g b) went
