-- ===== src/Common/Equality.antt =====
-- Equality of keys, as an instance argument (`Eq` and `Hash` of the collections' keys).
use Prim.Native.Nat.{ℕ}
use mathlib.Core.Path.{◌≡◌}
use mathlib.Core.Logic.{◌↔◌}
use mathlib.Core.Bool.{Bool, true, false, ◌&&◌}
use mathlib.Core.List.{List, [], ◌∷◌}
use native.Mathlib.Omega.{arith}
use typedb_driver.Common.Tests.{◌==◌, ==_iff}

pub record Eq {ℓ} (A : Type ℓ) : Type ℓ where
  pub beq : A → A → Bool
  pub beq_iff : (x y : A) → (beq x y ≡ true) ↔ (x ≡ y)

infix 50 ◌=?◌
abbrev pub ◌=?◌ {ℓ} : {A : Type ℓ} ⦃e : Eq A⦄ → A → A → Bool
◌=?◌ ⦃e⦄ = e.beq

instance abbrev pub nat_eq : Eq ℕ
nat_eq = record { beq = ◌==◌; beq_iff = ==_iff }

module _ {A : Type 0} ⦃e : Eq A⦄ where
  abbrev pub list_beq : List A → List A → Bool
  list_beq [] [] = true
  list_beq [] (y ∷ l) = false
  list_beq (x ∷ k) [] = false
  list_beq (x ∷ k) (y ∷ l) = (x =? y) && list_beq k l

  pub list_beq_iff : (k l : List A) → (list_beq k l ≡ true) ↔ (k ≡ l)
  list_beq_iff [] [] = ground arith
  list_beq_iff [] (y ∷ l) = ground arith
  list_beq_iff (x ∷ k) [] = ground arith
  list_beq_iff (x ∷ k) (y ∷ l) = ground (arith, e.beq_iff x y, list_beq_iff k l)

-- Texts as keys.
instance abbrev pub bytes_eq : Eq (List ℕ)
bytes_eq = record { beq = list_beq; beq_iff = list_beq_iff }
