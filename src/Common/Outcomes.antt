-- ===== src/Common/Outcomes.antt =====
-- What a Rust call gives: a value, an error, or a panic; and machine words under either setting of
-- `overflow-checks` (on in debug builds, off in release builds).
use Prim.Native.Nat.{ℕ, ◌%◌, ◌<◌}
use mathlib.Core.Path.{◌≡◌, refl}
use mathlib.Core.Logic.{◌⊎◌, inl, inr}
use mathlib.Core.Bool.{Bool}
use mathlib.Core.Option.{Option, none, some}
use native.Mathlib.Omega.{arith}
use typedb_driver.Common.Tests.{ltb, if◌then◌else◌}

pub data Outcome {ℓ} (E : Type 0) (A : Type ℓ) : Type ℓ where
  ok : A → Outcome E A
  err : E → Outcome E A
  panic : Outcome E A

module _ {ℓ κ} {E : Type 0} {A : Type ℓ} {B : Type κ} where
  -- The operator `?`: what follows runs on the value of a success.
  infixl 5 ◌>>=◌
  abbrev pub ◌>>=◌ : Outcome E A → (A → Outcome E B) → Outcome E B
  ◌>>=◌ (ok x) next = next x
  ◌>>=◌ (err y) next = err y
  ◌>>=◌ panic next = panic

  -- Inversion of a successful bind.
  pub >>=-eq-ok :
      (first : Outcome E A) (next : A → Outcome E B) {y : B}
      → (first >>= next) ≡ ok y
      → (x : A) × (first ≡ ok x) × (next x ≡ ok y)
  >>=-eq-ok (ok x) next ran = (x, refl, ran)
  >>=-eq-ok (err y) next ran = cc
  >>=-eq-ok panic next ran = cc

module _ {ℓ} {E : Type 0} {B : Type ℓ} where
  infixl 5 ◌>>◌
  abbrev pub ◌>>◌ : Outcome E (Unit {0}) → Outcome E B → Outcome E B
  ◌>>◌ first next = first >>= λ _. next

-- `unwrap` on an option.
abbrev pub unwrap {ℓ} : {E : Type 0} {A : Type ℓ} → Option A → Outcome E A
unwrap none = panic
unwrap (some a) = ok a

-- `ok_or` on an option.
abbrev pub ok_or {ℓ} : {E : Type 0} {A : Type ℓ} → E → Option A → Outcome E A
ok_or e none = err e
ok_or e (some a) = ok a

-- `map_err`.
abbrev pub map_err {ℓ} : {E F : Type 0} {A : Type ℓ} → (E → F) → Outcome E A → Outcome F A
map_err f (ok a) = ok a
map_err f (err e) = err (f e)
map_err f panic = panic

-- An exact result `n` put into a word of modulus `m`: where it does not fit, a build with checks
-- panics and one without wraps round.
abbrev pub fit : {E : Type 0} → Bool → ℕ → ℕ → Outcome E ℕ
fit checks m n = if ltb n m then ok n else if checks then panic else ok (n % m)

pub fit_ok : {E : Type 0} (checks : Bool) (m n : ℕ) → n < m → fit {E = E} checks m n ≡ ok n
fit_ok checks m n h = ground arith

pub Outcome-cases {ℓ} :
    {E : Type 0} {A : Type ℓ} (m : Outcome E A)
    → ((a : A) × (m ≡ ok a)) ⊎ (((e : E) × (m ≡ err e)) ⊎ (m ≡ panic))
Outcome-cases (ok a) = inl (a, refl)
Outcome-cases (err e) = inr (inl (e, refl))
Outcome-cases panic = inr (inr refl)
