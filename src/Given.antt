-- ===== src/Given.antt =====
-- rust/src/given.rs: the rows of data that a query takes as its input. `A` stands for the addresses of
-- errors.
pub mod Filled
pub mod Built
pub mod Tests
use typedb_driver.Common.{
  ℕ, zero, suc, ◌+◌, ◌≡◌, Bool, true, false, Option, none, some, List, [], ◌∷◌, ◌++◌, Bytes, length,
  replicate, ltb, ◌==◌, if◌then◌else◌, Outcome, ok, err, panic, ◌>>=◌, ok_or, bytes_eq,
}
use typedb_driver.Common.Maps
use typedb_driver.Errors.{
  Error, query, given_row_unknown_variable, given_row_index_out_of_bounds, given_rows_size_mismatch,
  invalid_type_to_given_row,
}
use typedb_driver.Concept.{External, Value, Concept, Entity, Relation, Attribute}

pub data GivenRowEntry (X : External) : Type 0 where
  empty : GivenRowEntry X
  entity : Entity → GivenRowEntry X
  relation : Relation → GivenRowEntry X
  attribute : Attribute X → GivenRowEntry X
  value : Value X → GivenRowEntry X

-- `TryFrom<Concept>`: a type cannot be given.
pub try_from_concept : {A : Type 0} {X : External} → Concept X → Outcome (Error A) (GivenRowEntry X)
try_from_concept (Concept.entity e) = ok (GivenRowEntry.entity e)
try_from_concept (Concept.relation r) = ok (GivenRowEntry.relation r)
try_from_concept (Concept.attribute a) = ok (GivenRowEntry.attribute a)
try_from_concept (Concept.value v) = ok (GivenRowEntry.value v)
try_from_concept _ = err (query invalid_type_to_given_row)

pub record GivenRowsHeader : Type 0 where
  pub variables : List Bytes
  pub index : List (Bytes × ℕ)

-- The positions of the variables from `i` on, collected: a later one replaces an earlier one.
pub index_from : ℕ → List Bytes → List (Bytes × ℕ) → List (Bytes × ℕ)
index_from i [] m = m
index_from i (v ∷ l) m = index_from (suc i) l (Maps.insert v i m)

-- `GivenRowsHeader::new`
pub new_header : List Bytes → GivenRowsHeader
unfolding index_from
new_header variables = record { variables = variables; index = index_from 0 variables [] }

abbrev pub width : GivenRowsHeader → ℕ
width h = length h.variables

pub record GivenRows (X : External) : Type 0 where
  pub header : GivenRowsHeader
  pub rows : List (List (GivenRowEntry X))

pub record GivenRow (X : External) : Type 0 where
  pub header : GivenRowsHeader
  pub row : List (GivenRowEntry X)

-- `l[i] = x`
abbrev pub replace : {B : Type 0} → ℕ → B → List B → List B
replace i x [] = []
replace zero x (y ∷ l) = x ∷ l
replace (suc i) x (y ∷ l) = y ∷ replace i x l

module _ {X : External} where
  -- `GivenRows::new`
  pub new_rows : List Bytes → GivenRows X
  unfolding new_header
  new_rows variables = record { header = new_header variables; rows = [] }

  -- `GivenRow::new`
  pub new_row : GivenRowsHeader → GivenRow X
  new_row h = record { header = h; row = replicate (width h) GivenRowEntry.empty }

module _ {A : Type 0} {X : External} where
  pub set_at : ℕ → GivenRowEntry X → GivenRow X → Outcome (Error A) (GivenRow X)
  set_at index x r =
      if ltb index (length r.row)
      then ok (record r { row = replace index x r.row })
      else err (query (given_row_index_out_of_bounds index (width r.header)))

  pub set : Bytes → GivenRowEntry X → GivenRow X → Outcome (Error A) (GivenRow X)
  unfolding set_at
  set variable x r =
      ok_or (query (given_row_unknown_variable variable)) (Maps.lookup variable r.header.index)
      >>= λ i. set_at i x r

  -- `try_for_each` of `push_map`
  pub set_all : List (Bytes × GivenRowEntry X) → GivenRow X → Outcome (Error A) (GivenRow X)
  unfolding set
  set_all [] r = ok r
  set_all ((variable, x) ∷ l) r = set variable x r >>= set_all l

  pub push_row : List (GivenRowEntry X) → GivenRows X → Outcome (Error A) (GivenRows X)
  push_row row g =
      if length row == width g.header
      then ok (record g { rows = g.rows ++ row ∷ [] })
      else err (query (given_rows_size_mismatch (length row) (width g.header)))

  -- `GivenRows::push`
  pub push : GivenRow X → GivenRows X → Outcome (Error A) (GivenRows X)
  unfolding push_row
  push r g = push_row r.row g

  pub push_map : List (Bytes × GivenRowEntry X) → GivenRows X → Outcome (Error A) (GivenRows X)
  unfolding set_all push new_row
  push_map values g = set_all values (new_row g.header) >>= λ r. push r g
