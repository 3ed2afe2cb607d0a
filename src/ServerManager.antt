-- ===== src/ServerManager.antt =====
-- rust/src/connection/server/server_manager.rs: the state of `ServerManager`, the effects of its
-- methods, and the helpers that the methods share. A method is a function of the manager and of the
-- outside world; `Env` is what it calls: `ServerConnection` (server_connection.rs) and printing.
pub mod Connections
pub mod Seek
pub mod Execute
pub mod Refresh
pub mod Primary
pub mod Failover
pub mod Safety
pub mod Attempts
pub mod Routing
pub mod Listed
pub mod Reported
pub mod Direct
pub mod Tests
use typedb_driver.Common.{
  ℕ, zero, suc, ◌+◌, ◌-◌, ◌*◌, ◌/◌, ◌%◌, ◌^◌, ◌≤◌, ◌<◌, ◌≡◌, refl, sym, ap, ◌∙◌, ◌≢◌, ◌↔◌, ◌⊎◌, inl,
  inr, Bool, true, false, not, ◌&&◌, ◌||◌, Option, none, some, List, [], ◌∷◌, ◌++◌, map, append-nil,
  append_assoc, arith, ltb, leb, ◌==◌, if◌then◌else◌, ltb→lt, lt→ltb, leb→le, ==_iff, Bool-cases,
  Option-cases, Bytes, codes, length, get_elem?, take, drop, replicate, length-append,
  length-replicate, take-append, get_elem?-append, drop-append, drop-append_suc, All, All-append,
  Any, Eq, ◌=?◌, nat_eq, Outcome, ok, err, panic, unwrap, ok_or, map_err, fit, fit_ok,
  Outcome-cases, >>=-eq-ok,
}
use typedb_driver.Common.Maps
use typedb_driver.Common.Maps.{filter}
use typedb_driver.Address.{Addresses, AddressTranslation, from_addresses}
use typedb_driver.Errors.{Error, connection, ConnectionError, server_connection_failed}
use typedb_driver.Server
use typedb_driver.Server.{AvailableServer, available, unavailable, get_or}

-- What the manager calls. `shuffle` is the order in which a new `HashSet` happens to be iterated.
pub record Env (A Conn W : Type 0) : Type 0 where
  -- `ServerConnection::new`, with the servers that the server reports.
  pub connect : A → W → Outcome (Error A) (Conn × List (Server.Server A)) × W
  -- `ServerConnection::servers_all`
  pub servers_all : Conn → W → Outcome (Error A) (List (Server.Server A)) × W
  -- `ServerConnection::address`
  pub connection_address : Conn → A
  -- `wait_for_primary_replica_selection`
  pub wait : W → W
  pub shuffle : List (AvailableServer A) → List (AvailableServer A)
  pub display_address : A → Bytes
  pub display_error : Error A → Bytes
  pub display_errors : List (ConnectionError A) → Bytes

-- `driver_options.primary_failover_retries` is `retries`.
pub record Manager (A Conn : Type 0) : Type 0 where
  pub configured_addresses : Addresses A
  pub replicas : List (AvailableServer A)
  pub replica_connections : List (A × Conn)
  pub address_translation : AddressTranslation A
  pub retries : ℕ

pub record State (A Conn W : Type 0) : Type 0 where
  pub manager : Manager A Conn
  pub open manager use *
  pub world : W

abbrev pub M : Type 0 → Type 0 → Type 0 → Type 0 → Type 0
M A Conn W X = State A Conn W → Outcome (Error A) X × State A Conn W

module _ {A Conn W X Y : Type 0} where
  abbrev pub bind :
      Outcome (Error A) X × State A Conn W
      → (X → M A Conn W Y)
      → Outcome (Error A) Y × State A Conn W
  bind (ok x, s) f = f x s
  bind (err e, s) f = (err e, s)
  bind (panic, s) f = (panic, s)

module _ {A Conn W X Y : Type 0} where
  -- A call that succeeds goes on in the state that it leaves.
  pub bind-ok :
      (p : Outcome (Error A) X × State A Conn W) (f : X → M A Conn W Y) (x : X)
      → p.0 ≡ ok x
      → bind p f ≡ f x p.1
  bind-ok (o, s) f x h = rw h

  -- A sequence that succeeds succeeds in both parts.
  pub bind-eq-ok :
      (p : Outcome (Error A) X × State A Conn W) (f : X → M A Conn W Y) (y : Y)
      → (bind p f).0 ≡ ok y
      → (x : X) × (p.0 ≡ ok x) × ((f x p.1).0 ≡ ok y)
  bind-eq-ok (ok x, s) f y h = (x, refl, h)
  bind-eq-ok (err e, s) f y h = cc
  bind-eq-ok (panic, s) f y h = cc

module _ {A Conn W X Y : Type 0} where
  infixl 5 ◌>>=◌
  abbrev pub ◌>>=◌ : M A Conn W X → (X → M A Conn W Y) → M A Conn W Y
  ◌>>=◌ m f s = bind (m s) f

module _ {A Conn W Y : Type 0} where
  infixl 5 ◌>>◌
  abbrev pub ◌>>◌ : M A Conn W (Unit {0}) → M A Conn W Y → M A Conn W Y
  ◌>>◌ m k s = bind (m s) (λ _. k)

module _ {A Conn W : Type 0} where
  abbrev pub pure : {X : Type 0} → X → M A Conn W X
  pure x s = (ok x, s)

  abbrev pub fail : {X : Type 0} → Error A → M A Conn W X
  fail e s = (err e, s)

  abbrev pub get_state : M A Conn W (Manager A Conn)
  get_state s = (ok s.manager, s)

  abbrev pub put_replicas : List (AvailableServer A) → M A Conn W (Unit {0})
  put_replicas l s = (ok tt, record s { manager = record (s.manager) { replicas = l } })

  abbrev pub put_connections : List (A × Conn) → M A Conn W (Unit {0})
  put_connections l s =
      (ok tt, record s { manager = record (s.manager) { replica_connections = l } })

  -- A call that changes the world alone.
  abbrev pub call : {X : Type 0} → (W → Outcome (Error A) X × W) → M A Conn W X
  call f s = ((f s.world).0, record s { world = (f s.world).1 })

  -- The result of a call as a value, for a `match` on it; a panic unwinds.
  abbrev pub attempt : {X : Type 0} → M A Conn W X → M A Conn W (X ⊎ Error A)
  attempt m s = elim (m s).0 [
    | ok x ↦ (ok (inl x), (m s).1)
    | err e ↦ (ok (inr e), (m s).1)
    | panic ↦ (panic, (m s).1)
  ]

module _ {A : Type 0} where
  -- The pattern `Error::Connection(error)`.
  abbrev pub as_connection : Error A → Option (ConnectionError A)
  as_connection (Error.connection x) = some x
  as_connection _ = none

module _ {A Conn W R : Type 0} where
  -- `match result { Err(Error::Connection(error)) => .., result => return result }`
  abbrev pub on_connection_error :
      Outcome (Error A) R × State A Conn W
      → (ConnectionError A → M A Conn W R)
      → Outcome (Error A) R × State A Conn W
  on_connection_error (ok x, s) f = (ok x, s)
  on_connection_error (err error, s) f = elim (as_connection error) [
    | some x ↦ f x s
    | none ↦ (err error, s)
  ]
  on_connection_error (panic, s) f = (panic, s)

  -- The outcome is the first one, or that of the handler.
  pub on_connection_error-cases :
      (p : Outcome (Error A) R × State A Conn W) (f : ConnectionError A → M A Conn W R)
      → ((on_connection_error p f ≡ p) × ((x : ConnectionError A) → p.0 ≢ err (connection x)))
        ⊎ ((x : ConnectionError A) × (p.0 ≡ err (connection x))
            × (on_connection_error p f ≡ f x p.1))
  on_connection_error-cases (ok x, s) f = inl (refl, λ y h. cc)
  on_connection_error-cases (err (Error.connection x), s) f = inr (x, refl, refl)
  on_connection_error-cases (err (Error.analyze x), s) f = inl (refl, λ y h. ground arith)
  on_connection_error-cases (err _, s) f = inl (refl, λ y h. ground arith)
  on_connection_error-cases (panic, s) f = inl (refl, λ y h. cc)

module _ {A : Type 0} where
  -- `filter_available_replicas!`
  pub filter_available : List (Server.Server A) → List (AvailableServer A)
  filter_available [] = []
  filter_available (available r ∷ l) = r ∷ filter_available l
  filter_available (unavailable _ ∷ l) = filter_available l

  abbrev pub term_or_default : AvailableServer A → ℕ
  term_or_default r = get_or 0 (Server.term r)

  -- `max_by_key` returns the last of the greatest elements.
  pub max_from : AvailableServer A → List (AvailableServer A) → AvailableServer A
  max_from best [] = best
  max_from best (r ∷ l) =
      max_from (if ltb (term_or_default r) (term_or_default best) then best else r) l

  pub max_by_term : List (AvailableServer A) → Option (AvailableServer A)
  unfolding max_from
  max_by_term [] = none
  max_by_term (r ∷ l) = some (max_from r l)

  -- `find_primary_replica!`
  pub find_primary : List (AvailableServer A) → Option (AvailableServer A)
  unfolding max_by_term
  find_primary l = max_by_term (filter Server.is_primary l)

module _ {A Conn W : Type 0} (env : Env A Conn W) where
  pub error_details : List (A × Error A) → Bytes
  error_details [] = []
  error_details ((a, e) ∷ []) =
      b'\'' ∷ (env.display_address a ++ (codes "': '" ++ (env.display_error e ++ b'\'' ∷ [])))
  error_details ((a, e) ∷ x ∷ l) =
      b'\''
      ∷ (env.display_address a
          ++ (codes "': '" ++ (env.display_error e ++ (codes "';\n" ++ error_details (x ∷ l)))))

  -- `server_connection_failed_err`
  pub failed_err : List (A × Error A) → Manager A Conn → Error A
  unfolding error_details
  failed_err errors m = connection (
      server_connection_failed m.configured_addresses
        (from_addresses (map Server.address m.replicas))
        (elim errors [ [] ↦ codes "none" | x ∷ l ↦ error_details (x ∷ l) ]))
