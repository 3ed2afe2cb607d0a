-- ===== src/ServerManager/Primary.antt =====
-- The primary replica of a list of servers (rust/src/connection/server/server_manager.rs).
use typedb_driver.Common.{
  ◌≤◌, ◌≡◌, refl, ◌⊎◌, inl, inr, Bool, true, false, none, some, List, [], ◌∷◌, arith, ltb,
  if◌then◌else◌, Bool-cases, List-cases, All, Any, nat_eq,
}
use typedb_driver.Common.Maps.{filter}
use typedb_driver.Server
use typedb_driver.Server.{AvailableServer}
use typedb_driver.ServerManager.{term_or_default, max_from, max_by_term, find_primary}
use mathlib.Core.Path.{subst}

module _ {A : Type 0} where
  -- `r` is one of the servers.
  abbrev pub IsIn : AvailableServer A → List (AvailableServer A) → Type 0
  IsIn r = Any (λ x. x ≡ r)

  -- No server of the list has a greater term than `r`.
  abbrev pub IsLatest : AvailableServer A → List (AvailableServer A) → Type 0
  IsLatest r = All (λ x. term_or_default x ≤ term_or_default r)

  max_from-ge :
      (best : AvailableServer A) (l : List (AvailableServer A))
      → (term_or_default best ≤ term_or_default (max_from best l)) × IsLatest (max_from best l) l
  unfolding max_from
  max_from-ge best [] = (omega arith, tt)
  max_from-ge best (r ∷ l) =
      let (above, rest) =
        max_from-ge (if ltb (term_or_default r) (term_or_default best) then best else r) l in
      (ground arith, (ground arith, rest))

  one_of :
      (b : Bool) (best r m : AvailableServer A) (l : List (AvailableServer A))
      → ((if b then best else r) ≡ m) ⊎ IsIn m l
      → (best ≡ m) ⊎ ((r ≡ m) ⊎ IsIn m l)
  one_of true best r m l (inl e) = inl e
  one_of true best r m l (inr h) = inr (inr h)
  one_of false best r m l h = inr h

  max_from-IsIn :
      (best : AvailableServer A) (l : List (AvailableServer A))
      → (best ≡ max_from best l) ⊎ IsIn (max_from best l) l
  unfolding max_from
  max_from-IsIn best [] = inl refl
  max_from-IsIn best (r ∷ l) =
      one_of (ltb (term_or_default r) (term_or_default best)) best r _ l
        (max_from-IsIn (if ltb (term_or_default r) (term_or_default best) then best else r) l)

  filter-IsIn :
      (l : List (AvailableServer A)) (r : AvailableServer A)
      → IsIn r (filter Server.is_primary l)
      → IsIn r l × (Server.is_primary r ≡ true)
  filter-IsIn [] r h = absurd h
  filter-IsIn (x ∷ l) r h = ground (arith, filter-IsIn l r)

  filter-IsLatest :
      (m : AvailableServer A) (l : List (AvailableServer A))
      → IsLatest m (filter Server.is_primary l)
      → All (λ x. Server.is_primary x ≡ true → term_or_default x ≤ term_or_default m) l
  filter-IsLatest m [] h = tt
  filter-IsLatest m (x ∷ l) h = elim (Bool-cases (Server.is_primary x)) [
    | inl yes_primary ↦ let h' = rw yes_primary at h in ((λ _. h'.0), filter-IsLatest m l h'.1)
    | inr not_primary ↦ let h' = rw not_primary at h in ((λ e. cc), filter-IsLatest m l h')
  ]

  filter-none :
      (l : List (AvailableServer A))
      → filter Server.is_primary l ≡ []
      → All (λ x. Server.is_primary x ≡ false) l
  filter-none [] h = tt
  filter-none (x ∷ l) h = elim (Bool-cases (Server.is_primary x)) [
    | inl yes_primary ↦ cc
    | inr not_primary ↦ (not_primary, filter-none l (rw not_primary at h))
  ]

  -- A primary of the list, with the greatest term among the primaries of the list.
  pub record IsLatestPrimary (r : AvailableServer A) (l : List (AvailableServer A)) : Type 0 where
    pub listed : IsIn r l
    pub is_primary : Server.is_primary r ≡ true
    pub latest : All (λ x. Server.is_primary x ≡ true → term_or_default x ≤ term_or_default r) l

  latest_of_max :
      (l : List (AvailableServer A)) (x : AvailableServer A) (xs : List (AvailableServer A))
      → filter Server.is_primary l ≡ x ∷ xs
      → IsLatestPrimary (max_from x xs) l
  latest_of_max l x xs e =
      let (above, rest) = max_from-ge x xs in
      let found = filter-IsIn l (max_from x xs) (rw e (max_from-IsIn x xs)) in
      record {
        listed = found.0;
        is_primary = found.1;
        latest = filter-IsLatest (max_from x xs) l (rw e (above, rest));
      }

  -- The primary that is chosen among the servers is one of them, has the primary role, and has the
  -- greatest term of those with that role.
  pub find_primary-some :
      (l : List (AvailableServer A)) (r : AvailableServer A)
      → find_primary l ≡ some r
      → IsLatestPrimary r l
  unfolding find_primary max_by_term
  find_primary-some l r h = elim (List-cases (filter Server.is_primary l)) [
    | inl e ↦ cc e
    | inr (x, xs, e) ↦
        let same : max_from x xs ≡ r = ground arith in
        subst (λ m. IsLatestPrimary m l) same (latest_of_max l x xs e)
  ]

  pub find_primary-none :
      (l : List (AvailableServer A))
      → find_primary l ≡ none
      → All (λ x. Server.is_primary x ≡ false) l
  unfolding find_primary max_by_term
  find_primary-none l h = elim (List-cases (filter Server.is_primary l)) [
    | inl e ↦ filter-none l e
    | inr (x, xs, e) ↦ cc e
  ]
