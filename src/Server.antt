-- ===== src/Server.antt =====
-- rust/src/connection/server/mod.rs and server_routing.rs: the servers of a connection, their
-- replication status, and the routing of an operation.
use typedb_driver.Common.{
  ℕ, ◌≡◌, ◌↔◌, Bool, true, false, ◌&&◌, Option, none, some, arith, ◌==◌, ==_iff, Eq, ◌=?◌, nat_eq,
}
use typedb_driver.Address.{AddressTranslation, to_public}

abbrev pub default_server_id : ℕ
default_server_id = 0

pub data ReplicationRole : Type 0 where
  primary candidate secondary : ReplicationRole

pub record ReplicationStatus : Type 0 where
  pub id : ℕ
  pub role : Option ReplicationRole
  pub term : Option ℕ

abbrev pub default_status : ReplicationStatus
default_status = record { id = default_server_id; role = none; term = none }

pub record AvailableServer (A : Type 0) : Type 0 where
  pub private_address : A
  pub public_address : Option A
  pub replication_status : Option ReplicationStatus

pub data Server (A : Type 0) : Type 0 where
  available : AvailableServer A → Server A
  unavailable : Option ReplicationStatus → Server A

pub data ServerRouting (A : Type 0) : Type 0 where
  auto : ServerRouting A
  direct : A → ServerRouting A

abbrev pub get_or {ℓ} : {B : Type ℓ} → B → Option B → B
get_or b none = b
get_or b (some x) = x

abbrev pub bind_option {ℓ κ} : {B : Type ℓ} {C : Type κ} → Option B → (B → Option C) → Option C
bind_option none f = none
bind_option (some b) f = f b

abbrev pub is_primary_role : Option ReplicationRole → Bool
is_primary_role none = false
is_primary_role (some primary) = true
is_primary_role (some candidate) = false
is_primary_role (some secondary) = false

module _ {A : Type 0} where
  -- `impl Replica for AvailableServer`, and its other methods.
  pub id : AvailableServer A → ℕ
  id r = get_or default_server_id (bind_option r.replication_status (λ x. some x.id))

  unfoldable pub role : AvailableServer A → Option ReplicationRole
  role r = bind_option r.replication_status (λ x. x.role)

  unfoldable pub is_primary : AvailableServer A → Bool
  unfolding role
  is_primary r = is_primary_role (role r)

  unfoldable pub term : AvailableServer A → Option ℕ
  term r = bind_option r.replication_status (λ x. x.term)

  pub from_private : A → Option ReplicationStatus → AvailableServer A
  from_private a status = record {
    private_address = a;
    public_address = none;
    replication_status = status;
  }

  unfoldable pub address : AvailableServer A → A
  address r = get_or r.private_address r.public_address

  -- `impl Replica for Server`, and its other methods.
  pub server_status : Server A → Option ReplicationStatus
  server_status (available r) = r.replication_status
  server_status (unavailable s) = s

  pub server_id : Server A → ℕ
  unfolding server_status
  server_id s = get_or default_server_id (bind_option (server_status s) (λ x. some x.id))

  pub server_role : Server A → Option ReplicationRole
  unfolding server_status
  server_role s = bind_option (server_status s) (λ x. x.role)

  pub server_is_primary : Server A → Bool
  unfolding server_role
  server_is_primary s = is_primary_role (server_role s)

  pub server_term : Server A → Option ℕ
  unfolding server_status
  server_term s = bind_option (server_status s) (λ x. x.term)

  pub server_address : Server A → Option A
  unfolding address
  server_address (available r) = some (address r)
  server_address (unavailable _) = none

  pub available_from_private : A → Option ReplicationStatus → Server A
  unfolding from_private
  available_from_private a status = available (from_private a status)

module _ {A : Type 0} ⦃e : Eq A⦄ where
  unfoldable pub translate_address : AddressTranslation A → AvailableServer A → AvailableServer A
  translate_address t r = elim (to_public t r.private_address) [
    | none ↦ r
    | some public ↦ record r { public_address = some public }
  ]

  unfoldable pub server_translated : AddressTranslation A → Server A → Server A
  unfolding translate_address
  server_translated t (available r) = available (translate_address t r)
  server_translated t (unavailable s) = unavailable s

-- The derived equalities.
abbrev option_beq : {B : Type 0} → (B → B → Bool) → Option B → Option B → Bool
option_beq f none none = true
option_beq f none (some b) = false
option_beq f (some a) none = false
option_beq f (some a) (some b) = f a b

option_beq_iff :
    {B : Type 0} (f : B → B → Bool) (spec : (a b : B) → (f a b ≡ true) ↔ (a ≡ b)) (x y : Option B)
    → (option_beq f x y ≡ true) ↔ (x ≡ y)
option_beq_iff f spec none none = ground arith
option_beq_iff f spec none (some b) = ground arith
option_beq_iff f spec (some a) none = ground arith
option_beq_iff f spec (some a) (some b) = ground (arith, spec a b)

abbrev role_beq : ReplicationRole → ReplicationRole → Bool
role_beq primary primary = true
role_beq candidate candidate = true
role_beq secondary secondary = true
role_beq _ _ = false

role_beq_iff : (a b : ReplicationRole) → (role_beq a b ≡ true) ↔ (a ≡ b)
role_beq_iff primary primary = ground arith
role_beq_iff _ _ = ground arith

abbrev status_beq : ReplicationStatus → ReplicationStatus → Bool
status_beq a b = a.id == b.id && option_beq role_beq a.role b.role && option_beq ◌==◌ a.term b.term

status_beq_iff : (a b : ReplicationStatus) → (status_beq a b ≡ true) ↔ (a ≡ b)
status_beq_iff a b = ground (
  arith,
  option_beq_iff role_beq role_beq_iff a.role b.role,
  option_beq_iff ◌==◌ ==_iff a.term b.term,
)

module _ {A : Type 0} ⦃e : Eq A⦄ where
  abbrev available_beq : AvailableServer A → AvailableServer A → Bool
  available_beq a b =
      (a.private_address =? b.private_address)
      && option_beq e.beq a.public_address b.public_address
      && option_beq status_beq a.replication_status b.replication_status

  pub available_beq_iff : (a b : AvailableServer A) → (available_beq a b ≡ true) ↔ (a ≡ b)
  available_beq_iff a b = ground (
    arith,
    e.beq_iff a.private_address b.private_address,
    option_beq_iff e.beq e.beq_iff a.public_address b.public_address,
    option_beq_iff status_beq status_beq_iff a.replication_status b.replication_status,
  )

  abbrev server_beq : Server A → Server A → Bool
  server_beq (available a) (available b) = available_beq a b
  server_beq (available a) (unavailable t) = false
  server_beq (unavailable s) (available b) = false
  server_beq (unavailable s) (unavailable t) = option_beq status_beq s t

  pub server_beq_iff : (a b : Server A) → (server_beq a b ≡ true) ↔ (a ≡ b)
  server_beq_iff (available a) (available b) = ground (arith, available_beq_iff a b)
  server_beq_iff (available a) (unavailable t) = ground arith
  server_beq_iff (unavailable s) (available b) = ground arith
  server_beq_iff (unavailable s) (unavailable t) =
      ground (arith, option_beq_iff status_beq status_beq_iff s t)

instance abbrev pub available_eq : {A : Type 0} ⦃e : Eq A⦄ → Eq (AvailableServer A)
available_eq ⦃e⦄ = record { beq = available_beq; beq_iff = available_beq_iff }

instance abbrev pub server_eq : {A : Type 0} ⦃e : Eq A⦄ → Eq (Server A)
server_eq ⦃e⦄ = record { beq = server_beq; beq_iff = server_beq_iff }
