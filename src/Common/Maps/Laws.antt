-- ===== src/Common/Maps/Laws.antt =====
-- Laws of the association lists and of the lists that stand for sets.
use typedb_driver.Common.Tests.{if◌then◌else◌, Bool-cases}
use typedb_driver.Common.Equality.{Eq, ◌=?◌}
use typedb_driver.Common.Maps.{filter, contains, insert_set, lookup, insert, keys, retain, remove}
use mathlib.Core.Path.{◌≡◌, refl}
use mathlib.Core.Bool.{Bool, true, ◌||◌, ◌&&◌}
use mathlib.Core.Option.{none, some}
use mathlib.Core.List.{List, [], ◌∷◌}
use mathlib.Core.Logic.{inl, inr}
use native.Mathlib.Omega.{arith}

module _ {A : Type 0} ⦃e : Eq A⦄ where
  pub beq_refl : (a : A) → (a =? a) ≡ true
  beq_refl a = (e.beq_iff a a).1 refl

  pub contains-filter :
      (p : A → Bool) (xs : List A) (a : A) → contains (filter p xs) a ≡ (contains xs a && p a)
  contains-filter p [] a = refl
  contains-filter p (x ∷ xs) a = ground (arith, e.beq_iff x a, contains-filter p xs a)

  pub contains-insert_set :
      (x a : A) (xs : List A) → contains (insert_set x xs) a ≡ ((x =? a) || contains xs a)
  contains-insert_set x a xs = elim (Bool-cases (contains xs x)) [
    | inl old ↦ rw old (ground (arith, e.beq_iff x a))
    | inr new ↦ rw new
  ]

module _ {K V : Type 0} ⦃e : Eq K⦄ where
  pub lookup-insert :
      (k j : K) (v : V) (m : List (K × V))
      → lookup j (insert k v m) ≡ (if k =? j then some v else lookup j m)
  lookup-insert k j v [] = refl
  lookup-insert k j v ((i, w) ∷ m) =
      ground (arith, e.beq_iff k j, e.beq_iff i k, e.beq_iff i j, lookup-insert k j v m)

  pub contains-keys-insert :
      (k j : K) (v : V) (m : List (K × V))
      → contains (keys (insert k v m)) j ≡ ((k =? j) || contains (keys m) j)
  contains-keys-insert k j v [] = ground arith
  contains-keys-insert k j v ((i, w) ∷ m) =
      ground (arith, e.beq_iff k j, e.beq_iff i k, e.beq_iff i j, contains-keys-insert k j v m)

  pub contains-keys-retain :
      (p : K → Bool) (m : List (K × V)) (j : K)
      → contains (keys (retain (λ k _. p k) m)) j ≡ (contains (keys m) j && p j)
  contains-keys-retain p [] j = refl
  contains-keys-retain p ((i, w) ∷ m) j = ground (arith, e.beq_iff i j, contains-keys-retain p m j)

  pub lookup-retain :
      (p : K → Bool) (m : List (K × V)) (j : K)
      → lookup j (retain (λ k _. p k) m) ≡ (if p j then lookup j m else none)
  lookup-retain p [] j = ground arith
  lookup-retain p ((i, w) ∷ m) j = ground (arith, e.beq_iff i j, lookup-retain p m j)

  pub lookup-remove :
      (k j : K) (m : List (K × V)) → lookup j (remove k m) ≡ (if k =? j then none else lookup j m)
  lookup-remove k j [] = ground arith
  lookup-remove k j ((i, w) ∷ m) =
      ground (arith, e.beq_iff k j, e.beq_iff i k, e.beq_iff i j, lookup-remove k j m)
