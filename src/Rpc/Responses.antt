-- ===== src/Rpc/Responses.antt =====
-- Messages of the server to responses (rust/src/connection/network/proto/message.rs, server.rs, user.rs and
-- database.rs). `parse_address` and `parse_uuid` stand for the parsers of addresses and of `uuid`.
use typedb_driver.Common.{
  ℕ, ◌==◌, if◌then◌else◌, Option, none, some, List, [], ◌∷◌, map, Bytes, codes, Outcome, ok, err,
  ◌>>=◌, unwrap, ok_or,
}
use typedb_driver.Common.Int.{ℤ, pos, negsuc}
use typedb_driver.Errors.{
  Error, connection, missing_response_field, unexpected_server_replication_role,
}
use typedb_driver.Server.{
  Server, unavailable, available_from_private, ReplicationStatus, ReplicationRole, primary,
  candidate, secondary,
}
use typedb_driver.Rpc.{Response, DatabaseInfo, UserInfo}

pub record ReplicationStatusProto : Type 0 where
  pub id : ℕ
  pub role : Option ℤ
  pub term : Option ℕ

pub record ServerProto : Type 0 where
  pub address : Option Bytes
  pub replication_status : Option ReplicationStatusProto

-- The fields may be missing.
pub record ConnectionOpenRes : Type 0 where
  pub servers_all : Option (List ServerProto)
  pub connection_id : Option Bytes
  pub server_duration_millis : ℕ

module _ {A : Type 0} where
  abbrev pub missing : Bytes → Error A
  missing field = connection (missing_response_field field)

  unfoldable pub role_try_from_proto : Option ℤ → Outcome (Error A) (Option ReplicationRole)
  role_try_from_proto none = ok none
  role_try_from_proto (some (negsuc n)) =
      err (connection (unexpected_server_replication_role (negsuc n)))
  role_try_from_proto (some (pos n)) =
      if n == 0
      then ok (some primary)
      else if n == 1
      then ok (some candidate)
      else if n == 2
      then ok (some secondary)
      else err (connection (unexpected_server_replication_role (pos n)))

  unfoldable pub status_try_from_proto :
      ReplicationStatusProto → Outcome (Error A) ReplicationStatus
  unfolding role_try_from_proto
  status_try_from_proto proto = role_try_from_proto proto.role >>= λ role.
      ok (record { id = proto.id; role = role; term = proto.term })

  -- `map` and `transpose`
  abbrev pub statuses_try_from_proto :
      Option ReplicationStatusProto → Outcome (Error A) (Option ReplicationStatus)
  statuses_try_from_proto none = ok none
  statuses_try_from_proto (some proto) = status_try_from_proto proto >>= λ status. ok (some status)

module _ {A : Type 0} (parse_address : Bytes → Outcome (Error A) A) where
  unfoldable pub server_try_from_proto : ServerProto → Outcome (Error A) (Server A)
  unfolding status_try_from_proto
  server_try_from_proto proto = statuses_try_from_proto proto.replication_status >>= λ status.
      elim proto.address [
        | some address ↦
            parse_address address >>= λ address. ok (available_from_private address status)
        | none ↦ ok (unavailable status)
      ]

  -- `try_collect`
  unfoldable pub servers_try_from_proto : List ServerProto → Outcome (Error A) (List (Server A))
  unfolding server_try_from_proto
  servers_try_from_proto [] = ok []
  servers_try_from_proto (x ∷ l) =
      (let rest = servers_try_from_proto l in
        server_try_from_proto x >>= λ server. rest >>= λ servers. ok (server ∷ servers))

module _ {A Uuid RequestId S : Type 0} (parse_address : Bytes → Outcome (Error A) A)
    (parse_uuid : Bytes → Option Uuid) where
  unfoldable pub connection_open_res :
      ConnectionOpenRes → Outcome (Error A) (Response A Uuid RequestId S)
  unfolding servers_try_from_proto
  connection_open_res proto = ok_or (missing (codes "servers_all")) proto.servers_all >>= λ servers.
      servers_try_from_proto parse_address servers >>= λ servers.
      ok_or (missing (codes "connection_id")) proto.connection_id >>= λ id.
      unwrap (parse_uuid id) >>= λ uuid.
      ok (Response.connection_open uuid proto.server_duration_millis servers)

module _ {A Uuid RequestId S : Type 0} (parse_address : Bytes → Outcome (Error A) A) where
  unfoldable pub servers_all_res :
      List ServerProto → Outcome (Error A) (Response A Uuid RequestId S)
  unfolding servers_try_from_proto
  servers_all_res proto =
      servers_try_from_proto parse_address proto >>= λ servers. ok (Response.servers_all servers)

  unfoldable pub servers_get_res :
      Option ServerProto → Outcome (Error A) (Response A Uuid RequestId S)
  unfolding server_try_from_proto
  servers_get_res proto = ok_or (missing (codes "server")) proto >>= λ server.
      server_try_from_proto parse_address server >>= λ server. ok (Response.servers_get server)

-- A database in a message is its name.
abbrev pub database_from_proto : Bytes → DatabaseInfo
database_from_proto name = record { name = name }

module _ {A Uuid RequestId S : Type 0} where
  unfoldable pub server_version_res :
      (distribution version : Bytes) → Outcome (Error A) (Response A Uuid RequestId S)
  server_version_res distribution version =
      ok (Response.server_version (record { distribution = distribution; version = version }))

  unfoldable pub databases_all_res : List Bytes → Outcome (Error A) (Response A Uuid RequestId S)
  databases_all_res names = ok (Response.databases_all (map database_from_proto names))

  unfoldable pub database_get_res : Option Bytes → Outcome (Error A) (Response A Uuid RequestId S)
  database_get_res name = ok_or (missing (codes "database")) name >>= λ name.
      ok (Response.database_get (database_from_proto name))

  unfoldable pub database_create_res :
      Option Bytes → Outcome (Error A) (Response A Uuid RequestId S)
  database_create_res name = ok_or (missing (codes "database")) name >>= λ name.
      ok (Response.database_create (database_from_proto name))

  abbrev pub users_all_res : List UserInfo → Response A Uuid RequestId S
  users_all_res users = Response.users_all users

  abbrev pub users_get_res : Option UserInfo → Response A Uuid RequestId S
  users_get_res user = Response.users_get user
