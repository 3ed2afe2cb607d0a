-- ===== src/Driver.antt =====
-- rust/src/driver.rs, with the runtime that it closes (rust/src/connection/runtime.rs): the operations hand
-- the server manager a task, which makes a call of a server connection. `Calls` has the methods of the
-- connections, in each state of the world, and the state that a call leaves.
pub mod Databases
pub mod Options
pub mod Channel
pub mod Users
pub mod Calling
pub mod Answers
pub mod Closing
pub mod Tests
use typedb_driver.Common.{
  ℕ, suc, ◌+◌, Bool, true, false, Option, none, some, List, Bytes, if◌then◌else◌, Eq, Outcome, ok,
  err, panic,
}
use typedb_driver.Errors.{Error, internal, send_error}
use typedb_driver.Server
use typedb_driver.Server.{AvailableServer, ServerRouting, auto}
use typedb_driver.Rpc.{ServerVersion}
use typedb_driver.Connection.Answers.{Service}
use typedb_driver.Proto.Transactions.{TransactionType, TransactionOptions}
use typedb_driver.ServerManager.{Env, State, M}
use typedb_driver.ServerManager.Execute.{execute, fetch_servers, fetch_primary_server}
use typedb_driver.ServerManager.Execute

-- A call of a method, with its arguments.
pub data Call : Type 0 where
  version all_databases all_users : Call
  contains_database get_database create_database delete_database database_schema
        database_type_schema get_user contains_user delete_user :
      (name : Bytes) → Call
  create_user update_password : (name password : Bytes) → Call

-- `S` stands for the streams of transactions and of imports.
pub record Calls (A Conn W S : Type 0) : Type 0 where
  pub methods : Conn → W → Service A
  pub after : Conn → Call → W → W
  pub open_transaction :
      Conn → Bytes → TransactionType → TransactionOptions → W → Outcome (Error A) S × W
  pub import_database : Conn → (name schema : Bytes) → W → Outcome (Error A) S × W

module _ {A Conn W S : Type 0} (calls : Calls A Conn W S) where
  -- The method `result` of a connection, called by `call`.
  abbrev pub ask : {R : Type 0} → Call → (Service A → Outcome (Error A) R) → Conn → M A Conn W R
  ask call result c s =
      (result (calls.methods c s.world), record s { world = calls.after c call s.world })

-- `BackgroundRuntime`: the signals that it was sent, and whether the worker that takes them has ended.
pub record BackgroundRuntime : Type 0 where
  pub is_open : Bool
  pub shutdowns : ℕ
  pub worker_ended : Bool

-- `BackgroundRuntime::force_close`
pub close_runtime :
    {A : Type 0} → BackgroundRuntime → Outcome (Error A) (Unit {0}) × BackgroundRuntime
close_runtime runtime =
    if runtime.worker_ended
    then (err (internal send_error), record runtime { is_open = false })
    else (ok tt, record runtime { is_open = false; shutdowns = suc runtime.shutdowns })

-- `Result::and`, of two results that are there; a panic unwinds.
abbrev pub both :
    {A : Type 0}
    → Outcome (Error A) (Unit {0})
    → Outcome (Error A) (Unit {0})
    → Outcome (Error A) (Unit {0})
both (ok _) second = second
both (err x) second = err x
both panic second = panic

module _ {A Conn W S : Type 0} ⦃e : Eq A⦄ (env : Env A Conn W) (calls : Calls A Conn W S) where
  -- The tasks of the driver.
  abbrev pub version_task : Conn → M A Conn W ServerVersion
  version_task = ask calls Call.version (λ v. v.version)

  abbrev pub transaction_task : Bytes → TransactionType → TransactionOptions → Conn → M A Conn W S
  transaction_task name type options c s = (
    (calls.open_transaction c name type options s.world).0,
    record s { world = (calls.open_transaction c name type options s.world).1 },
  )

  unfoldable pub server_version_with_routing : ServerRouting A → M A Conn W ServerVersion
  server_version_with_routing routing = execute env version_task routing

  unfoldable pub server_version : M A Conn W ServerVersion
  unfolding server_version_with_routing
  server_version = server_version_with_routing auto

  unfoldable pub servers_with_routing : ServerRouting A → M A Conn W (List (Server.Server A))
  servers_with_routing routing = fetch_servers env routing

  unfoldable pub servers : M A Conn W (List (Server.Server A))
  unfolding servers_with_routing
  servers = servers_with_routing auto

  unfoldable pub primary_server_with_routing :
      ServerRouting A → M A Conn W (Option (AvailableServer A))
  primary_server_with_routing routing = fetch_primary_server env routing

  unfoldable pub primary_server : M A Conn W (Option (AvailableServer A))
  unfolding primary_server_with_routing
  primary_server = primary_server_with_routing auto

  unfoldable pub transaction_with_options :
      Bytes → TransactionType → TransactionOptions → M A Conn W S
  transaction_with_options name type options = execute env (transaction_task name type options) auto

  unfoldable pub transaction : Bytes → TransactionType → M A Conn W S
  unfolding transaction_with_options
  transaction name type =
      transaction_with_options name type
        (record { transaction_timeout = none; schema_lock_acquire_timeout = none })

module _ {A Conn W : Type 0} ⦃e : Eq A⦄ (env : Env A Conn W)
    (close : Conn → W → Outcome (Error A) (Unit {0}) × W) where
  -- With the outcome of closing the manager: the runtime is closed, unless that panics.
  unfoldable pub close_after :
      Outcome (Error A) (Unit {0}) × State A Conn W
      → BackgroundRuntime
      → Outcome (Error A) (Unit {0}) × (State A Conn W × BackgroundRuntime)
  unfolding close_runtime
  close_after (panic, s) runtime = (panic, (s, runtime))
  close_after (closed, s) runtime =
      (both closed (close_runtime runtime).0, (s, (close_runtime {A = A} runtime).1))

  -- `TypeDBDriver::force_close`
  unfoldable pub force_close :
      State A Conn W
      → BackgroundRuntime
      → Outcome (Error A) (Unit {0}) × (State A Conn W × BackgroundRuntime)
  unfolding close_after
  force_close s runtime =
      if runtime.is_open
      then close_after (Execute.force_close env close s) runtime
      else (ok tt, (s, runtime))
