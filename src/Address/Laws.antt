-- ===== src/Address/Laws.antt =====
-- Laws of address translation and of the collections of addresses.
use typedb_driver.Common.{
  ◌≡◌, refl, ◌≢◌, ◌&&◌, none, some, List, [], ◌∷◌, map, arith, if◌then◌else◌, All, Eq, nat_eq,
}
use typedb_driver.Common.Maps
use typedb_driver.Common.Maps.{filter}
use typedb_driver.Common.Maps.Laws.{lookup-insert, contains-filter, contains-keys-retain}
use typedb_driver.Address.{
  Addresses, direct, translated, AddressTranslation, mapping, contains, address_translation,
  exclude_addresses, to_private, find_public, to_public,
}

module _ {A : Type 0} ⦃e : Eq A⦄ where
  lookup-extend :
      (l : List A) (m : List (A × A)) (a : A)
      → Maps.lookup a (Maps.extend (map (λ x. (x, x)) l) m)
        ≡ (if Maps.contains l a then some a else Maps.lookup a m)
  lookup-extend [] m a = refl
  lookup-extend (x ∷ l) m a =
      ground (arith, lookup-extend l (Maps.insert x x m) a, lookup-insert x a x m, e.beq_iff x a)

  -- Direct addresses translate to themselves, and no other address translates.
  pub to_private-direct :
      (l : List A) (a : A)
      → to_private (address_translation (direct l)) a
        ≡ (if contains (direct l) a then some a else none)
  unfolding to_private address_translation contains
  to_private-direct l a = lookup-extend l [] a

  abbrev pub LacksPrivate : A → List (A × A) → Type 0
  LacksPrivate p = All (λ x. x.1 ≢ p)

  -- No two pairs have the same private address.
  abbrev pub DistinctPrivate : List (A × A) → Type 0
  DistinctPrivate [] = Unit
  DistinctPrivate (x ∷ m) = LacksPrivate x.1 m × DistinctPrivate m

  lookup-LacksPrivate : (m : List (A × A)) (a p : A) → LacksPrivate p m → Maps.lookup a m ≢ some p
  lookup-LacksPrivate [] a p h = cc
  lookup-LacksPrivate ((j, w) ∷ m) a p h = ground (arith, lookup-LacksPrivate m a p h.1)

  find_public-lookup :
      (m : List (A × A)) (a p : A)
      → DistinctPrivate m
      → Maps.lookup a m ≡ some p
      → find_public m p ≡ some a
  unfolding find_public
  find_public-lookup [] a p d h = cc
  find_public-lookup ((j, w) ∷ m) a p d h = ground (
    arith,
    e.beq_iff w p,
    e.beq_iff j a,
    find_public-lookup m a p d.1,
    lookup-LacksPrivate m a w d.0,
  )

  -- With distinct private addresses, the public address of a translated address is the address.
  pub to_public-to_private :
      (m : List (A × A)) (a p : A)
      → DistinctPrivate m
      → to_private (mapping m) a ≡ some p
      → to_public (mapping m) p ≡ some a
  unfolding to_private to_public
  to_public-to_private m a p d h = find_public-lookup m a p d h

  abbrev pub LacksKey : A → List (A × A) → Type 0
  LacksKey k = All (λ x. x.0 ≢ k)

  -- No two pairs have the same public address, as in a map.
  abbrev pub DistinctKeys : List (A × A) → Type 0
  DistinctKeys [] = Unit
  DistinctKeys (x ∷ m) = LacksKey x.0 m × DistinctKeys m

  abbrev pub pairs : AddressTranslation A → List (A × A)
  pairs (mapping m) = m

  find_public-LacksKey : (m : List (A × A)) (a p : A) → LacksKey a m → find_public m p ≢ some a
  unfolding find_public
  find_public-LacksKey [] a p h = λ q. cc
  find_public-LacksKey ((j, w) ∷ m) a p h = ground (arith, find_public-LacksKey m a p h.1)

  lookup-find_public :
      (m : List (A × A)) (a p : A)
      → DistinctKeys m
      → find_public m p ≡ some a
      → Maps.lookup a m ≡ some p
  unfolding find_public
  lookup-find_public [] a p d h = cc
  lookup-find_public ((j, w) ∷ m) a p d h = ground (
    arith,
    e.beq_iff w p,
    e.beq_iff j a,
    lookup-find_public m a p d.1,
    find_public-LacksKey m j p d.0,
  )

  -- With distinct public addresses, an address that a private address translates to is translated back
  -- to that private address.
  pub to_private-to_public :
      (t : AddressTranslation A) (a p : A)
      → DistinctKeys (pairs t)
      → to_public t p ≡ some a
      → to_private t a ≡ some p
  unfolding to_private to_public
  to_private-to_public (mapping m) a p d h = lookup-find_public m a p d h

  -- `exclude_addresses` keeps an address exactly if it is one of the excluded addresses.
  pub contains-exclude_addresses :
      (s excluded : Addresses A) (a : A)
      → contains (exclude_addresses s excluded) a ≡ (contains s a && contains excluded a)
  unfolding exclude_addresses
  contains-exclude_addresses (direct l) excluded a = contains-filter (λ x. contains excluded x) l a
  contains-exclude_addresses (translated m) excluded a =
      contains-keys-retain (λ x. contains excluded x) m a
