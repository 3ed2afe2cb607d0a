-- ===== src/ServerManager/Connections.antt =====
-- rust/src/connection/server/server_manager.rs: opening connections, keeping the table of
-- connections up to date, and running a task on a server.
use typedb_driver.Common.{inl, inr, true, false, Option, none, some, List, [], ◌∷◌, map, Eq, nat_eq}
use typedb_driver.Common.Maps
use typedb_driver.Errors.{Error, connection}
use typedb_driver.Server
use typedb_driver.Server.{AvailableServer}
use typedb_driver.ServerManager.{
  Env, Manager, M, bind, ◌>>=◌, ◌>>◌, pure, fail, get_state, put_connections, call, attempt,
  on_connection_error, failed_err,
}

module _ {A Conn W : Type 0} ⦃e : Eq A⦄ (env : Env A Conn W) where
  unfoldable pub new_replica_connection : A → M A Conn W Conn
  new_replica_connection a = do r ← call (env.connect a); pure r.0

  unfoldable pub record_new_replica_connection : A → A → M A Conn W Conn
  unfolding new_replica_connection
  record_new_replica_connection public_address private_address = do
    c ← new_replica_connection public_address
    m ← get_state
    put_connections (Maps.insert private_address c m.replica_connections)
    pure c

  -- The loop of `refresh_replica_connections`: the new connections and the errors.
  unfoldable pub open_missing :
      List A
      → List (AvailableServer A)
      → List (A × Conn)
      → List (A × Error A)
      → M A Conn W (List (A × Conn) × List (A × Error A))
  open_missing known [] new errors s = pure (new, errors) s
  open_missing known (r ∷ l) new errors s = elim (Maps.contains known r.private_address) [
    | true ↦ open_missing known l new errors s
    | false ↦ bind (attempt (new_replica_connection (Server.address r)) s) λ opened. elim opened [
      | inl c ↦ open_missing known l (Maps.insert r.private_address c new) errors
      | inr error ↦ open_missing known l new (Maps.insert (Server.address r) error errors)
    ]
  ]

  -- No connection at all is an error, with those met while connecting.
  unfoldable pub require_connected :
      List (A × Conn) → List (A × Error A) → Manager A Conn → M A Conn W (Unit {0})
  require_connected [] errors m = fail (failed_err env errors m)
  require_connected (x ∷ l) errors m = pure tt

  -- The end of `refresh_replica_connections`: the table keeps the known replicas, and takes the new
  -- connections.
  unfoldable pub install :
      List (AvailableServer A) → List (A × Conn) × List (A × Error A) → M A Conn W (Unit {0})
  unfolding require_connected
  install replicas opened = do
    m ← get_state
    let replica_addresses = map (λ (r : AvailableServer A). r.private_address) replicas
    let kept = Maps.retain (λ a _. Maps.contains replica_addresses a) m.replica_connections
    put_connections (Maps.extend opened.0 kept)
    m' ← get_state
    require_connected m'.replica_connections opened.1 m'

  unfoldable pub refresh_replica_connections : M A Conn W (Unit {0})
  refresh_replica_connections = do
    before ← get_state
    opened ← open_missing (Maps.keys before.replica_connections) before.replicas [] []
    install before.replicas opened

  abbrev pub held_or_new : A → A → Option Conn → M A Conn W Conn
  held_or_new public_address private_address (some c) s = pure c s
  held_or_new public_address private_address none s =
      record_new_replica_connection public_address private_address s

  -- The connection to a server: the one in the table, or a new one, which is recorded.
  unfoldable pub connection_for : A → A → M A Conn W Conn
  connection_for public_address private_address s =
      held_or_new public_address private_address (Maps.lookup private_address s.replica_connections)
        s

  module _ {R : Type 0} (task : Conn → M A Conn W R) where
    unfoldable pub execute_on : A → A → M A Conn W R
    execute_on public_address private_address =
        connection_for public_address private_address >>= task

    -- The loop of `execute_on_any`, with the connection errors so far.
    unfoldable pub execute_on_any : List (AvailableServer A) → List (A × Error A) → M A Conn W R
    execute_on_any [] errors s = fail (failed_err env errors s.manager) s
    execute_on_any (r ∷ l) errors s =
        on_connection_error (execute_on (Server.address r) r.private_address s)
          λ x. execute_on_any l (Maps.insert (Server.address r) (connection x) errors)
