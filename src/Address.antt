-- ===== src/Address.antt =====
-- rust/src/common/address/addresses.rs and address_translation.rs, over any type of addresses with
-- an equality (`Address` wraps `http::Uri`, which is not of this repository).
pub mod Laws
pub mod Tests
use typedb_driver.Common.{
  ℕ, zero, suc, ◌+◌, ◌-◌, ◌*◌, ◌/◌, ◌%◌, ◌^◌, ◌≤◌, ◌<◌, ◌≡◌, refl, sym, ap, ◌∙◌, ◌≢◌, ◌↔◌, ◌⊎◌, inl,
  inr, Bool, true, false, not, ◌&&◌, ◌||◌, Option, none, some, List, [], ◌∷◌, ◌++◌, map, append-nil,
  append_assoc, arith, ltb, leb, ◌==◌, if◌then◌else◌, ltb→lt, lt→ltb, leb→le, ==_iff, Bool-cases,
  Option-cases, Bytes, codes, length, get_elem?, take, drop, replicate, length-append,
  length-replicate, take-append, get_elem?-append, drop-append, drop-append_suc, All, All-append,
  Any, Eq, ◌=?◌, nat_eq, Outcome, ok, err, panic, ◌>>=◌, ◌>>◌, unwrap, ok_or, map_err, fit, fit_ok,
  Outcome-cases, >>=-eq-ok,
}
use typedb_driver.Common.Maps
use typedb_driver.Common.Maps.{filter}

pub data Addresses (A : Type 0) : Type 0 where
  direct : List A → Addresses A
  translated : List (A × A) → Addresses A

-- public : private
pub data AddressTranslation (A : Type 0) : Type 0 where
  mapping : List (A × A) → AddressTranslation A

pub from_address : {A : Type 0} → A → Addresses A
from_address a = direct (a ∷ [])

pub from_addresses : {A : Type 0} → List A → Addresses A
from_addresses l = direct l

pub from_translation : {A : Type 0} → List (A × A) → Addresses A
from_translation m = translated m

pub default : {A : Type 0} → Addresses A
default = direct []

pub len : {A : Type 0} → Addresses A → ℕ
len (direct l) = length l
len (translated m) = length m

-- `addresses()`, the public addresses in their order.
pub addresses : {A : Type 0} → Addresses A → List A
addresses (direct l) = l
addresses (translated m) = map (λ e. e.0) m

-- `impl Display for Addresses`, with the print of an address.
module _ {A : Type 0} (display_address : A → Bytes) where
  pub display_list : ℕ → List A → Bytes
  display_list i [] = []
  display_list i (a ∷ l) =
      (if ltb 0 i then codes ", " else []) ++ (display_address a ++ display_list (suc i) l)

  pub display_pairs : ℕ → List (A × A) → Bytes
  display_pairs i [] = []
  display_pairs i ((public, private) ∷ m) =
      (if ltb 0 i then codes ", " else [])
      ++ (display_address public
          ++ (codes ": " ++ (display_address private ++ display_pairs (suc i) m)))

  pub display : Addresses A → Bytes
  unfolding display_list display_pairs
  display (direct l) = b'[' ∷ display_list 0 l ++ b']' ∷ []
  display (translated m) = b'{' ∷ display_pairs 0 m ++ b'}' ∷ []

module _ {A : Type 0} ⦃e : Eq A⦄ where
  pub contains : Addresses A → A → Bool
  contains (direct l) a = Maps.contains l a
  contains (translated m) a = Maps.contains (Maps.keys m) a

  -- `collect` into a map: a later pair replaces an earlier one with its key.
  pub address_translation : Addresses A → AddressTranslation A
  address_translation (direct l) = mapping (Maps.extend (map (λ a. (a, a)) l) [])
  address_translation (translated m) = mapping m

  pub exclude_addresses : Addresses A → Addresses A → Addresses A
  unfolding contains
  exclude_addresses (direct l) excluded = direct (filter (λ a. contains excluded a) l)
  exclude_addresses (translated m) excluded =
      translated (Maps.retain (λ a _. contains excluded a) m)

  unfoldable pub to_private : AddressTranslation A → A → Option A
  to_private (mapping m) a = Maps.lookup a m

  -- The public address of the first pair with this private address.
  unfoldable pub find_public : List (A × A) → A → Option A
  find_public [] a = none
  find_public ((public, private) ∷ m) a = if private =? a then some public else find_public m a

  unfoldable pub to_public : AddressTranslation A → A → Option A
  unfolding find_public
  to_public (mapping m) a = find_public m a
