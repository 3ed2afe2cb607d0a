-- ===== src/Common/Maps.antt =====
-- `HashMap` as an association list and `HashSet` as a list. The order of a list is the order of
-- iteration, which the source leaves open; theorems range over every list.
pub mod Laws
use typedb_driver.Common.Tests.{if◌then◌else◌}
use typedb_driver.Common.Equality.{Eq, ◌=?◌}
use mathlib.Core.Bool.{Bool, false, ◌||◌}
use mathlib.Core.Option.{Option, none, some}
use mathlib.Core.List.{List, [], ◌∷◌}

module _ {ℓ} {A : Type ℓ} where
  abbrev pub filter : (A → Bool) → List A → List A
  filter p [] = []
  filter p (x ∷ xs) = if p x then x ∷ filter p xs else filter p xs

  -- `iter().find(..)`.
  abbrev pub find : (A → Bool) → List A → Option A
  find p [] = none
  find p (x ∷ xs) = if p x then some x else find p xs

  abbrev pub any : (A → Bool) → List A → Bool
  any p [] = false
  any p (x ∷ xs) = p x || any p xs

module _ {ℓ} {A : Type ℓ} ⦃e : Eq A⦄ where
  abbrev pub contains : List A → A → Bool
  contains xs a = any (λ x. x =? a) xs

  -- `HashSet::insert`; `collect` into a set inserts the elements in their order.
  abbrev pub insert_set : A → List A → List A
  insert_set a xs = if any (λ x. x =? a) xs then xs else a ∷ xs

  abbrev pub collect_set : List A → List A
  collect_set [] = []
  collect_set (x ∷ xs) = insert_set x (collect_set xs)

module _ {K V : Type 0} ⦃e : Eq K⦄ where
  abbrev pub lookup : K → List (K × V) → Option V
  lookup k [] = none
  lookup k ((j, v) ∷ m) = if j =? k then some v else lookup k m

  abbrev pub insert : K → V → List (K × V) → List (K × V)
  insert k v [] = (k, v) ∷ []
  insert k v ((j, w) ∷ m) = if j =? k then (k, v) ∷ m else (j, w) ∷ insert k v m

  abbrev pub remove : K → List (K × V) → List (K × V)
  remove k [] = []
  remove k ((j, w) ∷ m) = if j =? k then remove k m else (j, w) ∷ remove k m

  abbrev pub keys : List (K × V) → List K
  keys [] = []
  keys ((j, w) ∷ m) = j ∷ keys m

  abbrev pub retain : (K → V → Bool) → List (K × V) → List (K × V)
  retain p [] = []
  retain p ((j, w) ∷ m) = if p j w then (j, w) ∷ retain p m else retain p m

  -- `extend` with the entries of another map.
  abbrev pub extend : List (K × V) → List (K × V) → List (K × V)
  extend [] m = m
  extend ((k, v) ∷ n) m = extend n (insert k v m)
