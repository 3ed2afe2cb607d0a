-- ===== src/Connection.antt =====
-- rust/src/connection/server/server_connection.rs: a connection to a server. `transmit` is the request of the
-- transmitter, `debug` prints a response, and `checks` is the build's `overflow-checks`.
pub mod Latency
pub mod Answers
pub mod Tests
use typedb_driver.Common.{
  ℕ, ◌+◌, ◌-◌, ◌*◌, ◌/◌, ◌%◌, ◌^◌, Bool, true, false, Option, none, some, List, [], ◌∷◌, ◌++◌,
  Bytes, if◌then◌else◌, Outcome, ok, err, panic, ◌>>=◌, fit,
}
use typedb_driver.Errors.{
  Error, connection, internal, unexpected_response, unexpected_response_type,
  server_connection_is_closed,
}
use typedb_driver.Server.{Server}
use typedb_driver.Import.{DatabaseImportRequest, initial}
use typedb_driver.Rpc.{Request, Response, Credentials, DatabaseInfo, UserInfo, ServerVersion}

-- What a connection changes, and whether the runtime is open. A shutdown sender stands for its channel.
pub record ServerConnection : Type 0 where
  pub runtime_open : Bool
  pub shutdown_senders : List ℕ
  pub latency_millis : ℕ

abbrev pub u64_mod : ℕ
u64_mod = 2 ^ 64

abbrev pub nanos_per_milli : ℕ
nanos_per_milli = 1_000_000

-- `saturating_sub` of the server's time, and `as_millis`, cut to a word. Times are in nanoseconds.
pub network_millis : (elapsed server_duration_millis : ℕ) → ℕ
network_millis elapsed server_duration_millis =
    ((elapsed - server_duration_millis * nanos_per_milli) / nanos_per_milli) % u64_mod

-- `LatencyTracker::update_latency`, from the latency before.
pub update_latency : {E : Type 0} → Bool → (latency_millis previous : ℕ) → Outcome E ℕ
update_latency checks latency_millis previous =
    fit checks u64_mod (latency_millis + previous) >>= λ sum. ok (sum / 2)

-- The channels of the shutdown signals that are sent; the senders are drained.
pub force_close : ServerConnection → List ℕ × ServerConnection
force_close c = (c.shutdown_senders, record c { shutdown_senders = [] })

-- The shutdown sender `sender` is kept.
abbrev pub kept : ℕ → ServerConnection → ServerConnection
kept sender c = record c { shutdown_senders = c.shutdown_senders ++ sender ∷ [] }

module _ {A M T Uuid RequestId S : Type 0} (debug : Response A Uuid RequestId S → Bytes)
    (transmit : Request M T → Outcome (Error A) (Response A Uuid RequestId S)) where
  unfoldable pub request : Bool → Request M T → Outcome (Error A) (Response A Uuid RequestId S)
  request runtime_open r =
      if runtime_open then transmit r else err (connection server_connection_is_closed)

  abbrev pub unexpected : {B : Type 0} → Response A Uuid RequestId S → Outcome (Error A) B
  unexpected other = err (internal (unexpected_response_type (debug other)))

  -- The connection's id and latency, and the servers. This request does not ask the runtime.
  unfoldable pub open_connection :
      (driver_lang driver_version : Bytes)
      → Credentials
      → (elapsed : ℕ) → Outcome (Error A) (Uuid × ℕ × List (Server A))
  unfolding network_millis
  open_connection driver_lang driver_version credentials elapsed =
      transmit (Request.connection_open driver_lang driver_version credentials) >>= λ r. elim r [
        | Response.connection_open id millis servers ↦
            ok (id, network_millis elapsed millis, servers)
        | other ↦ err (connection (unexpected_response (debug other)))
      ]

  unfoldable pub servers_all : (runtime_open : Bool) → Outcome (Error A) (List (Server A))
  unfolding request
  servers_all runtime_open = request runtime_open Request.servers_all >>= λ r. elim r [
    | Response.servers_all x ↦ ok x
    | other ↦ unexpected other
  ]

  unfoldable pub servers_get : (runtime_open : Bool) → Outcome (Error A) (Server A)
  unfolding request
  servers_get runtime_open = request runtime_open Request.servers_get >>= λ r. elim r [
    | Response.servers_get x ↦ ok x
    | other ↦ unexpected other
  ]

  unfoldable pub version : (runtime_open : Bool) → Outcome (Error A) ServerVersion
  unfolding request
  version runtime_open = request runtime_open Request.server_version >>= λ r. elim r [
    | Response.server_version x ↦ ok x
    | other ↦ unexpected other
  ]

  unfoldable pub all_databases : (runtime_open : Bool) → Outcome (Error A) (List DatabaseInfo)
  unfolding request
  all_databases runtime_open = request runtime_open Request.databases_all >>= λ r. elim r [
    | Response.databases_all x ↦ ok x
    | other ↦ unexpected other
  ]

  unfoldable pub contains_database : (runtime_open : Bool) → (name : Bytes) → Outcome (Error A) Bool
  unfolding request
  contains_database runtime_open name =
      request runtime_open (Request.databases_contains name) >>= λ r. elim r [
        | Response.databases_contains x ↦ ok x
        | other ↦ unexpected other
      ]

  unfoldable pub get_database :
      (runtime_open : Bool) → (name : Bytes) → Outcome (Error A) DatabaseInfo
  unfolding request
  get_database runtime_open name = request runtime_open (Request.database_get name) >>= λ r.
      elim r [ Response.database_get x ↦ ok x | other ↦ unexpected other ]

  unfoldable pub create_database :
      (runtime_open : Bool) → (name : Bytes) → Outcome (Error A) (Unit {0})
  unfolding request
  create_database runtime_open name = request runtime_open (Request.database_create name) >>= λ r.
      elim r [ Response.database_create x ↦ ok tt | other ↦ unexpected other ]

  unfoldable pub delete_database :
      (runtime_open : Bool) → (name : Bytes) → Outcome (Error A) (Unit {0})
  unfolding request
  delete_database runtime_open name =
      request runtime_open (Request.database_delete name) >>= λ _. ok tt

  unfoldable pub database_schema : (runtime_open : Bool) → (name : Bytes) → Outcome (Error A) Bytes
  unfolding request
  database_schema runtime_open name = request runtime_open (Request.database_schema name) >>= λ r.
      elim r [ Response.database_schema x ↦ ok x | other ↦ unexpected other ]

  unfoldable pub database_type_schema :
      (runtime_open : Bool) → (name : Bytes) → Outcome (Error A) Bytes
  unfolding request
  database_type_schema runtime_open name =
      request runtime_open (Request.database_type_schema name) >>= λ r. elim r [
        | Response.database_type_schema x ↦ ok x
        | other ↦ unexpected other
      ]

  unfoldable pub all_users : (runtime_open : Bool) → Outcome (Error A) (List UserInfo)
  unfolding request
  all_users runtime_open = request runtime_open Request.users_all >>= λ r. elim r [
    | Response.users_all x ↦ ok x
    | other ↦ unexpected other
  ]

  unfoldable pub get_user :
      (runtime_open : Bool) → (name : Bytes) → Outcome (Error A) (Option UserInfo)
  unfolding request
  get_user runtime_open name = request runtime_open (Request.users_get name) >>= λ r. elim r [
    | Response.users_get x ↦ ok x
    | other ↦ unexpected other
  ]

  unfoldable pub contains_user : (runtime_open : Bool) → (name : Bytes) → Outcome (Error A) Bool
  unfolding request
  contains_user runtime_open name = request runtime_open (Request.users_contains name) >>= λ r.
      elim r [ Response.users_contain x ↦ ok x | other ↦ unexpected other ]

  unfoldable pub create_user :
      (runtime_open : Bool) → (name password : Bytes) → Outcome (Error A) (Unit {0})
  unfolding request
  create_user runtime_open name password =
      request runtime_open (Request.users_create (record { name = name; password = some password }))
      >>= λ r. elim r [ Response.users_create ↦ ok tt | other ↦ unexpected other ]

  unfoldable pub update_password :
      (runtime_open : Bool) → (name password : Bytes) → Outcome (Error A) (Unit {0})
  unfolding request
  update_password runtime_open name password =
      request runtime_open
        (Request.users_update name (record { name = []; password = some password }))
      >>= λ r. elim r [ Response.users_update ↦ ok tt | other ↦ unexpected other ]

  unfoldable pub delete_user : (runtime_open : Bool) → (name : Bytes) → Outcome (Error A) (Unit {0})
  unfolding request
  delete_user runtime_open name = request runtime_open (Request.users_delete name) >>= λ r. elim r [
    | Response.users_delete ↦ ok tt
    | other ↦ unexpected other
  ]

  unfoldable pub import_database :
      (name schema : Bytes)
      → (sender : ℕ) → ServerConnection
      → Outcome (Error A) (S × ServerConnection)
  unfolding request
  import_database name schema sender c =
      request c.runtime_open (Request.database_import (initial name schema)) >>= λ r. elim r [
        | Response.database_import s ↦ ok (s, kept sender c)
        | other ↦ unexpected other
      ]

  unfoldable pub database_export :
      (name : Bytes) → (sender : ℕ) → ServerConnection → Outcome (Error A) (S × ServerConnection)
  unfolding request
  database_export name sender c = request c.runtime_open (Request.database_export name) >>= λ r.
      elim r [
        | Response.database_export_stream s ↦ ok (s, kept sender c)
        | other ↦ unexpected other
      ]

  -- `open_request` makes the request from the current latency.
  unfoldable pub open_transaction :
      (checks : Bool) (open_request : ℕ → T) (elapsed sender : ℕ)
      → ServerConnection
      → Outcome (Error A) (S × ServerConnection)
  unfolding request network_millis update_latency
  open_transaction checks open_request elapsed sender c =
      request c.runtime_open (Request.transaction (open_request c.latency_millis)) >>= λ r. elim r [
        | Response.transaction_stream id s millis ↦
            update_latency checks (network_millis elapsed millis) c.latency_millis >>= λ latency.
            ok (s, kept sender (record c { latency_millis = latency }))
        | other ↦ unexpected other
      ]
