-- ===== src/ServerManager/Tests.antt =====
-- Concrete runs of the server manager: two servers, of which the first is the primary until the first
-- wait, and the second one after it (rust/src/connection/server/server_manager.rs).
use typedb_driver.Common.{
  ℕ, zero, suc, ◌*◌, ◌≡◌, refl, ◌≢◌, true, none, some, List, [], ◌∷◌, arith, ◌==◌, if◌then◌else◌,
  nat_eq, Outcome, ok, err, panic,
}
use typedb_driver.Common.Maps
use typedb_driver.Errors.{Error, connection, cluster_server_not_primary}
use typedb_driver.Server
use typedb_driver.Server.{
  AvailableServer, ReplicationStatus, ServerRouting, auto, direct, get_or, available_eq, primary,
  secondary, available, unavailable,
}
use typedb_driver.Address
use typedb_driver.Address.{
  Addresses, AddressTranslation, mapping, from_addresses, to_private, to_public, find_public,
}
use typedb_driver.ServerManager.{
  Env, Manager, State, M, max_from, max_by_term, find_primary, filter_available, failed_err,
}
use typedb_driver.ServerManager.Connections.{
  new_replica_connection, open_missing, require_connected, install, refresh_replica_connections,
  connection_for, execute_on, execute_on_any,
}
use typedb_driver.ServerManager.Seek.{
  is_not_primary_error, advertise, translate_replicas, fetch_servers_from_connection,
  collect_available, choose_primary, adopt, seek_primary_replica, try_seek_primary_replica_in, wait,
  after_attempt, seek_loop, seek_primary_replica_in, cached_or_seek, get_or_seek_primary_replica,
  failover_candidates,
}
use typedb_driver.ServerManager.Safety.{IsSafe}
use typedb_driver.ServerManager.Attempts.{
  AtMost, IsQuietEnv, IsCountedTask, execute_strongly_consistent-IsSafe,
}
use typedb_driver.ServerManager.Failover.{Ran, IsFound, seek_primary_replica_in-IsFound}
use typedb_driver.ServerManager.Routing.{execute-Ran}
use typedb_driver.ServerManager.Reported.{Reported, execute_strongly_consistent-Reported}
use typedb_driver.ServerManager.Direct.{execute-direct, IsShuffle, contains-failover_candidates}
use typedb_driver.ServerManager.Refresh.{Refreshed, refresh-Refreshed}
use typedb_driver.ServerManager.Primary.{IsLatestPrimary, find_primary-some}
use typedb_driver.Address.Laws.{DistinctKeys, pairs}
use typedb_driver.ServerManager.Execute.{
  hinted, fail_over, execute_loop, execute_strongly_consistent, execute,
}

-- The runs of the task, and the waits.
abbrev pub World : Type 0
World = ℕ × ℕ

abbrev runs : World → ℕ
runs w = w.0

abbrev server_at : ℕ → Server.ReplicationRole → AvailableServer ℕ
server_at a r = record {
  private_address = a;
  public_address = none;
  replication_status = some (record { id = a; role = some r; term = some 1 });
}

-- The server with the public address that the translation gives it.
abbrev published : ℕ → Server.ReplicationRole → AvailableServer ℕ
published a r = record (server_at a r) { public_address = some a }

abbrev reported : World → List (Server.Server ℕ)
reported (_, zero) = available (server_at 1 primary) ∷ available (server_at 2 secondary) ∷ []
reported (_, suc _) = available (server_at 1 secondary) ∷ available (server_at 2 primary) ∷ []

abbrev pub env : Env ℕ ℕ World
env = record {
  connect = λ a w. (ok (a, reported w), w);
  servers_all = λ c w. (ok (reported w), w);
  connection_address = λ c. c;
  wait = λ w. (w.0, suc w.1);
  shuffle = λ l. l;
  display_address = λ a. [];
  display_error = λ x. [];
  display_errors = λ l. [];
}

-- Only the primary of the moment takes the task.
abbrev answer : ℕ → World → Outcome (Error ℕ) ℕ
answer c w =
    if c == (if w.1 == 0 then 1 else 2)
    then ok (10 * c)
    else err (connection (cluster_server_not_primary none))

answer-cases : (c : ℕ) (w : World) → answer c w ≢ panic
answer-cases c w = ground arith

abbrev task : ℕ → M ℕ ℕ World ℕ
task c s = (answer c s.world, record s { world = (suc (s.world.0), s.world.1) })

abbrev manager : Manager ℕ ℕ
manager = record {
  configured_addresses = Address.direct (1 ∷ 2 ∷ []);
  replicas = server_at 1 primary ∷ server_at 2 secondary ∷ [];
  replica_connections = (1, 1) ∷ [];
  address_translation = mapping ((1, 1) ∷ (2, 2) ∷ []);
  retries = 1;
}

-- The first server has just lost its role.
abbrev pub start : State ℕ ℕ World
start = record { manager = manager; world = (0, 1) }

failed_over : (execute env task auto start).0 ≡ ok 20
unfolding execute execute_strongly_consistent get_or_seek_primary_replica cached_or_seek
    find_primary max_by_term max_from Server.is_primary Server.role execute_loop execute_on
    connection_for fail_over hinted seek_primary_replica_in seek_loop try_seek_primary_replica_in
    execute_on_any seek_primary_replica fetch_servers_from_connection translate_replicas advertise
    Server.server_translated Server.translate_address to_public find_public adopt collect_available
    filter_available choose_primary refresh_replica_connections open_missing install
    require_connected new_replica_connection Server.address Server.term after_attempt wait
    failover_candidates is_not_primary_error
failed_over = refl

env-IsQuietEnv : IsQuietEnv env runs
env-IsQuietEnv k = record {
  connect = λ a w h. ((λ q. cc), h);
  servers_all = λ c w h. ((λ q. cc), h);
  wait = λ w h. h;
}

task-IsCountedTask : IsCountedTask runs task
task-IsCountedTask c s = (answer-cases c s.world, omega arith)

translation-DistinctKeys : DistinctKeys (pairs manager.address_translation)
translation-DistinctKeys = ground arith

execute_strongly_consistent-IsSafe_example :
    IsSafe (AtMost runs 2) (execute_strongly_consistent env task start)
execute_strongly_consistent-IsSafe_example =
    execute_strongly_consistent-IsSafe env runs task env-IsQuietEnv task-IsCountedTask start

execute-Ran_example : Ran env task 20 (execute env task auto start).1
execute-Ran_example = execute-Ran env task auto start 20 failed_over

shuffle-IsShuffle : IsShuffle env.shuffle
shuffle-IsShuffle l r = refl

candidates_of_failover :
    Maps.contains
      (failover_candidates env 1 (cluster_server_not_primary none) manager)
      (server_at 1 primary)
    ≡ true
unfolding is_not_primary_error
candidates_of_failover =
    contains-failover_candidates env shuffle-IsShuffle 1 (cluster_server_not_primary none) manager
      (server_at 1 primary)

execute-direct_example : execute env task (direct 1) start ≡ task 1 start
unfolding to_public find_public Server.address
execute-direct_example =
    execute-direct env task (server_at 1 primary) start 1 refl translation-DistinctKeys refl refl

refreshed : (refresh_replica_connections env start).0 ≡ ok tt
unfolding refresh_replica_connections open_missing install require_connected new_replica_connection
    Server.address
refreshed = refl

refresh-Refreshed_example : Refreshed env start (refresh_replica_connections env start).1
refresh-Refreshed_example = refresh-Refreshed env start refreshed

primary_found :
    (seek_primary_replica_in env manager.replicas 1 (some 1) start).0 ≡ ok (published 2 primary)
unfolding seek_primary_replica_in seek_loop try_seek_primary_replica_in execute_on_any
    seek_primary_replica fetch_servers_from_connection translate_replicas advertise
    Server.server_translated Server.translate_address to_public find_public adopt collect_available
    filter_available choose_primary refresh_replica_connections open_missing install
    require_connected new_replica_connection Server.address Server.term after_attempt wait
    find_primary max_by_term max_from Server.is_primary Server.role execute_on connection_for
primary_found = refl

seek_primary_replica_in-IsFound_example :
    IsFound env
      (published 2 primary)
      (seek_primary_replica_in env manager.replicas 1 (some 1) start).1
seek_primary_replica_in-IsFound_example =
    seek_primary_replica_in-IsFound env manager.replicas 1 (some 1) start (published 2 primary)
      primary_found

-- Without a retry, the failover has no attempt left.
abbrev hasty : State ℕ ℕ World
hasty = record { manager = record manager { retries = 0 }; world = (0, 1) }

abbrev afterwards : Manager ℕ ℕ
afterwards = record manager {
  replicas = published 1 secondary ∷ published 2 primary ∷ [];
  replica_connections = (1, 1) ∷ (2, 2) ∷ [];
  retries = 0;
}

abbrev failure : Error ℕ
failure = failed_err env ((1, connection (cluster_server_not_primary none)) ∷ []) afterwards

gave_up : (execute_strongly_consistent env task hasty).0 ≡ err failure
unfolding execute_strongly_consistent get_or_seek_primary_replica cached_or_seek find_primary
    max_by_term max_from Server.is_primary Server.role execute_loop execute_on connection_for
    fail_over hinted seek_primary_replica_in seek_loop try_seek_primary_replica_in execute_on_any
    seek_primary_replica fetch_servers_from_connection translate_replicas advertise
    Server.server_translated Server.translate_address to_public find_public adopt collect_available
    filter_available choose_primary refresh_replica_connections open_missing install
    require_connected new_replica_connection Server.address Server.term after_attempt wait
    failover_candidates is_not_primary_error failed_err
gave_up = refl

execute_strongly_consistent-Reported_example :
    Reported env task hasty failure (execute_strongly_consistent env task hasty).1
execute_strongly_consistent-Reported_example =
    execute_strongly_consistent-Reported env task hasty failure gave_up

find_primary-some_example : IsLatestPrimary (server_at 1 primary) manager.replicas
unfolding find_primary max_by_term max_from Server.is_primary Server.role
find_primary-some_example = find_primary-some manager.replicas (server_at 1 primary) refl
