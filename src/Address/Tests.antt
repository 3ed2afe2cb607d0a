-- ===== src/Address/Tests.antt =====
-- Concrete addresses and translations.
use typedb_driver.Common.{ℕ, ◌≡◌, refl, false, some, List, [], ◌∷◌, arith, nat_eq}
use typedb_driver.Address.{
  Addresses, direct, mapping, contains, address_translation, exclude_addresses, to_private,
  to_public,
}
use typedb_driver.Address.Laws.{
  DistinctKeys, pairs, DistinctPrivate, to_private-to_public, to_public-to_private,
  to_private-direct, contains-exclude_addresses,
}

abbrev two_pairs : List (ℕ × ℕ)
two_pairs = (1, 11) ∷ (2, 12) ∷ []

two_pairs-DistinctKeys : DistinctKeys (pairs (mapping two_pairs))
two_pairs-DistinctKeys = ground arith

two_pairs-DistinctPrivate : DistinctPrivate two_pairs
two_pairs-DistinctPrivate = ground arith

to_private-to_public_example : to_private (mapping two_pairs) 2 ≡ some 12
unfolding to_public
to_private-to_public_example =
    to_private-to_public (mapping two_pairs) 2 12 two_pairs-DistinctKeys refl

to_public_again : to_public (mapping two_pairs) 11 ≡ some 1
unfolding to_private
to_public_again = to_public-to_private two_pairs 1 11 two_pairs-DistinctPrivate refl

abbrev two : Addresses ℕ
two = direct (1 ∷ 2 ∷ [])

abbrev second : Addresses ℕ
second = direct (2 ∷ [])

to_private_of_direct : to_private (address_translation two) 2 ≡ some 2
unfolding contains
to_private_of_direct = to_private-direct (1 ∷ 2 ∷ []) 2

contains-exclude_addresses_example : contains (exclude_addresses two second) 1 ≡ false
unfolding contains
contains-exclude_addresses_example = contains-exclude_addresses two second 1
