-- ===== src/Given/Filled.antt =====
-- What a row holds that is built from a map (rust/src/given.rs).
use typedb_driver.Common.{
  ℕ, zero, suc, ◌+◌, ◌<◌, ◌≡◌, refl, sym, ap, ◌∙◌, ◌⊎◌, inl, inr, Option, none, some, List, [], ◌∷◌,
  ◌++◌, Bytes, length, length-replicate, get_elem?, replicate, lt→ltb, ◌==◌, ==_iff, Bool-cases,
  Option-cases, if◌then◌else◌, ok, err, ◌=?◌, bytes_eq, arith,
}
use typedb_driver.Common.Maps
use typedb_driver.Common.Maps.Laws.{lookup-insert}
use typedb_driver.Errors.{query, given_row_unknown_variable}
use typedb_driver.Concept.{External}
use typedb_driver.Given.{
  GivenRowEntry, GivenRowsHeader, GivenRows, GivenRow, index_from, new_header, new_row, width,
  replace, set_at, set, set_all, push, push_row, push_map,
}

length-replace : {B : Type 0} (i : ℕ) (x : B) (l : List B) → length (replace i x l) ≡ length l
length-replace i x [] = refl
length-replace zero x (y ∷ l) = refl
length-replace (suc i) x (y ∷ l) = ap suc (length-replace i x l)

get_elem?-replace :
    {B : Type 0} (i j : ℕ) (x : B) (l : List B)
    → i < length l
    → get_elem? (replace i x l) j ≡ (if i == j then some x else get_elem? l j)
get_elem?-replace i j x [] h = absurd (omega arith)
get_elem?-replace zero zero x (y ∷ l) h = refl
get_elem?-replace zero (suc j) x (y ∷ l) h = ground arith
get_elem?-replace (suc i) zero x (y ∷ l) h = ground arith
get_elem?-replace (suc i) (suc j) x (y ∷ l) h =
    get_elem?-replace i j x l (omega arith) ∙ ground arith

-- The index holds positions of the variables.
abbrev pub IsIndexed : GivenRowsHeader → Type 0
IsIndexed h =
    (v : Bytes) (i : ℕ) → Maps.lookup v h.index ≡ some i → get_elem? h.variables i ≡ some v

index_from-position :
    (k : ℕ) (l : List Bytes) (m : List (Bytes × ℕ)) (v : Bytes) (i : ℕ)
    → Maps.lookup v (index_from k l m) ≡ some i
    → (Maps.lookup v m ≡ some i) ⊎ ((j : ℕ) × (i ≡ k + j) × (get_elem? l j ≡ some v))
unfolding index_from
index_from-position k [] m v i h = inl h
index_from-position k (w ∷ l) m v i h =
    elim (index_from-position (suc k) l (Maps.insert w k m) v i h) [
      | inr (j, at, there) ↦ inr (suc j, omega arith, there)
      | inl found ↦ elim (Bool-cases (w =? v)) [
        | inl same ↦
            inr
              (zero, ground (arith, lookup-insert w v k m), ap some ((bytes_eq.beq_iff w v).0 same))
        | inr other ↦ inl (rw (lookup-insert w v k m, other) at found)
      ]
    ]

pub new_header-IsIndexed : (variables : List Bytes) → IsIndexed (new_header variables)
unfolding new_header
new_header-IsIndexed variables v i h = elim (index_from-position 0 variables [] v i h) [
  | inl found ↦ cc
  | inr (j, at, there) ↦ (let same : i ≡ j = omega arith in rw same there)
]

in_range : {B : Type 0} (l : List B) (i : ℕ) (x : B) → get_elem? l i ≡ some x → i < length l
in_range [] i x h = cc
in_range (y ∷ l) zero x h = omega arith
in_range (y ∷ l) (suc i) x h = omega (arith, in_range l i x h)

get_elem?-replicate : {B : Type 0} (n i : ℕ) (x : B) → i < n → get_elem? (replicate n x) i ≡ some x
get_elem?-replicate zero i x h = absurd (omega arith)
get_elem?-replicate (suc n) zero x h = refl
get_elem?-replicate (suc n) (suc i) x h = get_elem?-replicate n i x (omega arith)

module _ {X : External} where
  -- The last entry for a variable, or what it had before.
  abbrev pub assigned :
      Bytes → List (Bytes × GivenRowEntry X) → Option (GivenRowEntry X) → Option (GivenRowEntry X)
  assigned v [] x = x
  assigned v ((w, y) ∷ l) x = assigned v l (if w =? v then some y else x)

  -- From `r` to `r'`, a row whose variables have the entries of `l`.
  pub record IsFilled (l : List (Bytes × GivenRowEntry X)) (r r' : GivenRow X) : Type 0 where
    pub same_header : r'.header ≡ r.header
    pub same_length : length r'.row ≡ length r.row
    pub entries :
        (v : Bytes) (i : ℕ)
        → Maps.lookup v r.header.index ≡ some i
        → get_elem? r'.row i ≡ assigned v l (get_elem? r.row i)

-- Two variables have the same position exactly if they are the same.
same_position :
    (h : GivenRowsHeader) (w v : Bytes) (i j : ℕ)
    → IsIndexed h
    → Maps.lookup w h.index ≡ some i
    → Maps.lookup v h.index ≡ some j
    → (i == j) ≡ (w =? v)
same_position h w v i j indexed found at = elim (Bool-cases (w =? v)) [
  | inl same ↦
      (let equal : w ≡ v = (bytes_eq.beq_iff w v).0 same in
        let both : some i ≡ some j = sym found ∙ (rw equal at) in rw same ((==_iff i j).1 (cc)))
  | inr other ↦ elim (Bool-cases (i == j)) [
    | inr differ ↦ rw (other, differ) refl
    | inl match ↦
        (let equal : i ≡ j = (==_iff i j).0 match in
          let both : some w ≡ some v = sym (indexed w i found) ∙ (rw equal (indexed v j at)) in
          let names : w ≡ v = cc in let stuck = (bytes_eq.beq_iff w v).1 names in cc)
  ]
]

module _ {X : External} where
  -- After the entry for `w` at `i`, the others.
  after-IsFilled :
      (w : Bytes) (x : GivenRowEntry X) (l : List (Bytes × GivenRowEntry X)) (r r' : GivenRow X)
      (i : ℕ)
      → IsIndexed r.header
      → Maps.lookup w r.header.index ≡ some i
      → i < length r.row
      → IsFilled l (record r { row = replace i x r.row }) r'
      → IsFilled ((w, x) ∷ l) r r'
  after-IsFilled w x l r r' i indexed found h filled = record {
    same_header = filled.same_header;
    same_length = filled.same_length ∙ length-replace i x r.row;
    entries = λ v j at.
        filled.entries v j at
        ∙ ap (assigned v l) (
            get_elem?-replace i j x r.row h
            ∙ rw (same_position r.header w v i j indexed found at) refl);
  }

module _ {X : External} where
  -- Every name of `l` is one that the header has.
  abbrev pub AreKnown : GivenRowsHeader → List (Bytes × GivenRowEntry X) → Type 0
  AreKnown h [] = Unit
  AreKnown h ((w, x) ∷ l) = ((i : ℕ) × (Maps.lookup w h.index ≡ some i)) × AreKnown h l

  -- `v` is the first name of `l` that the header does not have.
  abbrev pub IsFirstUnknown : GivenRowsHeader → Bytes → List (Bytes × GivenRowEntry X) → Type 0
  IsFirstUnknown h v [] = ⊥
  IsFirstUnknown h v ((w, x) ∷ l) =
      ((w ≡ v) × (Maps.lookup v h.index ≡ none))
      ⊎ (((i : ℕ) × (Maps.lookup w h.index ≡ some i)) × IsFirstUnknown h v l)

module _ {A : Type 0} {X : External} where
  set-unknown :
      (v : Bytes) (x : GivenRowEntry X) (r : GivenRow X)
      → Maps.lookup v r.header.index ≡ none
      → set {A = A} v x r ≡ err (query (given_row_unknown_variable v))
  unfolding set
  set-unknown v x r unknown = rw (unknown, set) refl

  set-replace :
      (v : Bytes) (x : GivenRowEntry X) (r : GivenRow X) (i : ℕ)
      → Maps.lookup v r.header.index ≡ some i
      → i < length r.row
      → set {A = A} v x r ≡ ok (record r { row = replace i x r.row })
  unfolding set set_at
  set-replace v x r i found h = rw (found, set, lt→ltb i (length r.row) h, set_at) refl

  -- Either every variable is known, or one is refused.
  set_all-cases :
      (l : List (Bytes × GivenRowEntry X)) (r : GivenRow X)
      → IsIndexed r.header
      → length r.row ≡ width r.header
      → ((r' : GivenRow X) × (set_all {A = A} l r ≡ ok r') × AreKnown r.header l × IsFilled l r r')
        ⊎ ((v : Bytes) × (set_all {A = A} l r ≡ err (query (given_row_unknown_variable v)))
            × IsFirstUnknown r.header v l)
  unfolding set_all
  set_all-cases [] r indexed full =
      inl (r, refl, tt, record { same_header = refl; same_length = refl; entries = λ v i at. refl })
  set_all-cases ((w, x) ∷ l) r indexed full = elim (Option-cases (Maps.lookup w r.header.index)) [
    | inl unknown ↦ inr (w, rw (set-unknown w x r unknown) refl, inl (refl, unknown))
    | inr (i, found) ↦
        (let inside : i < length r.row =
            omega (arith, in_range r.header.variables i w (indexed w i found)) in
          let went = set-replace w x r i found inside in
          let r1 = record r { row = replace i x r.row } in
          elim (set_all-cases l r1 indexed (length-replace i x r.row ∙ full)) [
            | inl (r', rest, known, filled) ↦ inl (
              r',
              rw (went, set_all) rest,
              ((i, found), known),
              after-IsFilled w x l r r' i indexed found inside filled,
            )
            | inr (v, refused, unknown) ↦
                inr (v, rw (went, set_all) refused, inr ((i, found), unknown))
          ])
  ]

  -- Where the index of a table has only positions of its variables, a row that is built from a map
  -- whose names are all variables is added: it is as wide as the header, and each variable has the
  -- last entry that the map has for it, or the empty one. Where a name of the map is no variable,
  -- the error names the first such name in the order in which the map is gone through.
  pub push_map-cases :
      (values : List (Bytes × GivenRowEntry X)) (g : GivenRows X)
      → IsIndexed g.header
      → ((row : List (GivenRowEntry X)) × (push_map {A = A} values g
            ≡ ok (record g { rows = g.rows ++ row ∷ [] }))
          × AreKnown g.header values
          × (length row ≡ width g.header)
          × ((v : Bytes) (i : ℕ)
              → Maps.lookup v g.header.index ≡ some i
              → get_elem? row i ≡ assigned v values (some GivenRowEntry.empty)))
        ⊎ ((v : Bytes) × (push_map {A = A} values g ≡ err (query (given_row_unknown_variable v)))
            × IsFirstUnknown g.header v values)
  unfolding push_map new_row push push_row
  push_map-cases values g indexed =
      (let no_entry : GivenRowEntry X = GivenRowEntry.empty in
        let full = length-replicate (width g.header) no_entry in
        elim (set_all-cases values (new_row g.header) indexed full) [
          | inr (v, refused, unknown) ↦ inr (v, rw (refused, push_map) refl, unknown)
          | inl (r, went, known, filled) ↦
              (let wide : length r.row ≡ width g.header = filled.same_length ∙ full in
                inl (
                  r.row,
                  rw
                      (
                        went,
                        push_map,
                        (==_iff (length r.row) (width g.header)).1 wide,
                        push,
                        push_row,
                      )
                      refl,
                  known,
                  wide,
                  λ v i at.
                      filled.entries v i at
                      ∙ ap (assigned v values) (
                          get_elem?-replicate (width g.header) i GivenRowEntry.empty
                            (in_range g.header.variables i v (indexed v i at))),
                ))
        ])
