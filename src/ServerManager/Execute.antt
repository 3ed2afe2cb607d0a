-- ===== src/ServerManager/Execute.antt =====
-- rust/src/connection/server/server_manager.rs: routed execution with failover, fetching the
-- servers, and the construction of a manager.
use typedb_driver.Common.{
  ℕ, zero, suc, Bool, Option, none, some, List, [], ◌∷◌, ◌++◌, map, if◌then◌else◌, Bytes, Eq, ◌=?◌,
  nat_eq, Outcome, ok, err, panic,
}
use typedb_driver.Common.Maps
use typedb_driver.Common.Maps.{filter, find, any, collect_set}
use typedb_driver.Address
use typedb_driver.Address.{Addresses, AddressTranslation, from_addresses, to_private}
use typedb_driver.Errors.{
  Error, connection, ConnectionError, cluster_server_not_primary, unknown_direct_server_routing,
  server_connection_failed, server_connection_is_closed,
}
use typedb_driver.Server
use typedb_driver.Server.{AvailableServer, ServerRouting, auto, direct, get_or}
use typedb_driver.ServerManager.{
  Env, Manager, State, M, bind, ◌>>=◌, ◌>>◌, pure, fail, get_state, put_replicas, call,
  as_connection, on_connection_error, filter_available, find_primary, failed_err,
}
use typedb_driver.ServerManager.Connections.{refresh_replica_connections, execute_on}
use typedb_driver.ServerManager.Seek.{
  translate_replicas, fetch_servers_from_connection, collect_available, seek_primary_replica_in,
  get_or_seek_primary_replica, failover_candidates, find_replica_by_private_address,
}

module _ {A Conn : Type 0} ⦃e : Eq A⦄ where
  -- The hinted primary, if the error names one that is known.
  unfoldable pub hinted : ConnectionError A → Manager A Conn → Option (AvailableServer A)
  hinted (cluster_server_not_primary (some hint)) m = find_replica_by_private_address hint m
  hinted _ m = none

  abbrev pub is_known : A → Manager A Conn → Bool
  is_known a m = any (λ r. Server.address r =? a) m.replicas

module _ {A Conn W : Type 0} ⦃e : Eq A⦄ (env : Env A Conn W) where
  module _ {R : Type 0} (task : Conn → M A Conn W R) where
    -- With the outcome of the search for another primary: go on, or give up with the errors so far.
    abbrev pub after_search :
        List (A × Error A)
        → (AvailableServer A → M A Conn W R)
        → Outcome (Error A) (AvailableServer A) × State A Conn W
        → Outcome (Error A) R × State A Conn W
    after_search errors next (ok r, s) = next r s
    after_search errors next (err _, s) = fail (failed_err env errors s.manager) s
    after_search errors next (panic, s) = (panic, s)

    -- After the connection error `x` on `primary`: go on with the hinted primary, or search for it.
    abbrev pub fail_over_to :
        ℕ
        → ConnectionError A
        → AvailableServer A
        → List (A × Error A)
        → (AvailableServer A → M A Conn W R)
        → Option (AvailableServer A)
        → M A Conn W R
    fail_over_to retries x primary errors next (some r) s = next r s
    fail_over_to retries x primary errors next none s = after_search errors next (
        seek_primary_replica_in env (failover_candidates env primary.private_address x s.manager)
          retries (some primary.private_address) s)

    unfoldable pub fail_over :
        ℕ
        → ConnectionError A
        → AvailableServer A
        → List (A × Error A)
        → (AvailableServer A → M A Conn W R)
        → M A Conn W R
    unfolding hinted
    fail_over retries x primary errors next s =
        fail_over_to retries x primary errors next (hinted x s.manager) s

    -- The loop of `execute_strongly_consistent` with `left` attempts left.
    unfoldable pub execute_loop : ℕ → ℕ → AvailableServer A → List (A × Error A) → M A Conn W R
    execute_loop retries zero primary errors s = fail (failed_err env errors s.manager) s
    execute_loop retries (suc left) primary errors s =
        on_connection_error (execute_on env task (Server.address primary) primary.private_address s)
          λ x.
            fail_over retries x primary (Maps.insert (Server.address primary) (connection x) errors)
              (λ next.
                execute_loop retries left next
                  (Maps.insert (Server.address primary) (connection x) errors))

    unfoldable pub execute_strongly_consistent : M A Conn W R
    execute_strongly_consistent = do
      m ← get_state
      primary ← get_or_seek_primary_replica env m.retries
      execute_loop m.retries (suc m.retries) primary []

    unfoldable pub execute : ServerRouting A → M A Conn W R
    execute auto = execute_strongly_consistent
    execute (direct a) = do
      m ← get_state
      if is_known a m
          then execute_on env task a (get_or a (to_private m.address_translation a))
          else fail (
              connection
                (unknown_direct_server_routing a (from_addresses (map Server.address m.replicas))))

  unfoldable pub fetch_task : Conn → M A Conn W (List (Server.Server A))
  fetch_task c = do m ← get_state; fetch_servers_from_connection env c m.address_translation

  -- Automatic routing refreshes the cached replicas.
  unfoldable pub fetch_servers : ServerRouting A → M A Conn W (List (Server.Server A))
  unfolding fetch_task
  fetch_servers auto = do
    l ← execute fetch_task auto
    put_replicas (collect_available env l)
    pure l
  fetch_servers (direct a) = execute fetch_task (direct a)

  unfoldable pub refresh_replicas : M A Conn W (Unit {0})
  unfolding fetch_servers
  refresh_replicas = fetch_servers auto >>= λ _. pure tt

  unfoldable pub fetch_primary_server : ServerRouting A → M A Conn W (Option (AvailableServer A))
  unfolding fetch_servers
  fetch_primary_server routing = do
    l ← fetch_servers routing
    pure (find_primary (filter_available l))

  -- The loop of `fetch_servers_from_addresses` over the configured addresses.
  unfoldable pub fetch_loop :
      Addresses A
      → List A
      → List (ConnectionError A)
      → W
      → Outcome (Error A) (List (A × Conn) × List (Server.Server A)) × W
  fetch_loop configured [] errors w = (
    err (connection (server_connection_failed configured configured (env.display_errors errors))),
    w,
  )
  fetch_loop configured (a ∷ l) errors w = elim (env.connect a w).0 [
    | ok opened ↦ (
      ok (
        (a, opened.0) ∷ [],
        translate_replicas env opened.1 (Address.address_translation configured) opened.0,
      ),
      (env.connect a w).1,
    )
    | err error ↦ elim (as_connection error) [
      | some x ↦ fetch_loop configured l (errors ++ x ∷ []) (env.connect a w).1
      | none ↦ (err error, (env.connect a w).1)
    ]
    | panic ↦ (panic, (env.connect a w).1)
  ]

  unfoldable pub initial_manager :
      Addresses A → ℕ → List (A × Conn) → List (Server.Server A) → Manager A Conn
  initial_manager configured retries connections servers = record {
    configured_addresses = configured;
    replicas = collect_available env servers;
    replica_connections = connections;
    address_translation = Address.address_translation configured;
    retries = retries;
  }

  -- `ServerManager::new`
  unfoldable pub new : Addresses A → ℕ → W → Outcome (Error A) (State A Conn W)
  unfolding fetch_loop initial_manager
  new configured retries w = elim (fetch_loop configured (Address.addresses configured) [] w).0 [
    | ok fetched ↦
        let start : State A Conn W = record {
          manager = initial_manager configured retries fetched.0 fetched.1;
          world = (fetch_loop configured (Address.addresses configured) [] w).1;
        } in
        elim (refresh_replica_connections env start).0 [
          | ok _ ↦ ok (refresh_replica_connections env start).1
          | err x ↦ err x
          | panic ↦ panic
        ]
    | err x ↦ err x
    | panic ↦ panic
  ]

  -- `ServerManager::force_close`: `try_collect` closes until the first error.
  unfoldable pub close_all :
      (Conn → W → Outcome (Error A) (Unit {0}) × W) → List (A × Conn) → M A Conn W (Unit {0})
  close_all close [] s = pure tt s
  close_all close (x ∷ l) s = bind (call (close x.1) s) λ _. close_all close l

  unfoldable pub force_close : (Conn → W → Outcome (Error A) (Unit {0}) × W) → M A Conn W (Unit {0})
  unfolding close_all
  force_close close s = close_all close s.replica_connections s

module _ {A Conn : Type 0} where
  -- `ServerManager::username`, of some connection.
  unfoldable pub username : (Conn → Bytes) → Manager A Conn → Outcome (Error A) Bytes
  username name m = elim m.replica_connections [
    | [] ↦ err (connection server_connection_is_closed)
    | x ∷ l ↦ ok (name x.1)
  ]
