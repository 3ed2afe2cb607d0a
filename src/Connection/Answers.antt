-- ===== src/Connection/Answers.antt =====
-- A connection answers each operation as the server does (rust/src/connection/server/server_connection.rs,
-- rust/src/connection/network/transmitter/rpc.rs).
use typedb_driver.Common.{
  ◌≡◌, refl, arith, Bool, true, false, Option, some, List, [], map, Bytes, codes, Outcome, ok, err,
  ◌>>=◌, ok_or,
}
use typedb_driver.Errors.{Error, connection, server_connection_is_closed}
use typedb_driver.Server.{Server}
use typedb_driver.Rpc.{Request, Response, DatabaseInfo, UserInfo, ServerVersion}
use typedb_driver.Rpc.Requests
use typedb_driver.Rpc.Responses.{
  server_try_from_proto, servers_try_from_proto, database_from_proto, missing, servers_all_res,
  servers_get_res, server_version_res, databases_all_res, database_get_res, database_create_res,
}
use typedb_driver.Rpc.Send.{Stub, send_request}
use typedb_driver.Connection

-- The operations of a server, each with what it gives.
pub record Service (A : Type 0) : Type 0 where
  pub servers_all : Outcome (Error A) (List (Server A))
  pub servers_get : Outcome (Error A) (Server A)
  pub version : Outcome (Error A) ServerVersion
  pub all_databases : Outcome (Error A) (List DatabaseInfo)
  pub contains_database : Bytes → Outcome (Error A) Bool
  pub get_database : Bytes → Outcome (Error A) DatabaseInfo
  pub create_database : Bytes → Outcome (Error A) (Unit {0})
  pub delete_database : Bytes → Outcome (Error A) (Unit {0})
  pub database_schema : Bytes → Outcome (Error A) Bytes
  pub database_type_schema : Bytes → Outcome (Error A) Bytes
  pub all_users : Outcome (Error A) (List UserInfo)
  pub get_user : Bytes → Outcome (Error A) (Option UserInfo)
  pub contains_user : Bytes → Outcome (Error A) Bool
  pub create_user : Bytes → Bytes → Outcome (Error A) (Unit {0})
  pub update_password : Bytes → Bytes → Outcome (Error A) (Unit {0})
  pub delete_user : Bytes → Outcome (Error A) (Unit {0})

module _ {A M T Uuid RequestId S : Type 0} (debug_request : Request M T → Bytes)
    (debug : Response A Uuid RequestId S → Bytes) (parse_address : Bytes → Outcome (Error A) A)
    (parse_uuid : Bytes → Option Uuid) (request_id : T → RequestId) (in_time : Bool)
    (timeout : Bytes) where
  -- The connection over the calls of a stub.
  abbrev pub connection_service : Bool → Stub A M T S → Service A
  connection_service runtime_open rpc =
      (let transmit =
          send_request debug_request parse_address parse_uuid request_id in_time timeout rpc in
        record {
          servers_all = Connection.servers_all debug transmit runtime_open;
          servers_get = Connection.servers_get debug transmit runtime_open;
          version = Connection.version debug transmit runtime_open;
          all_databases = Connection.all_databases debug transmit runtime_open;
          contains_database = Connection.contains_database debug transmit runtime_open;
          get_database = Connection.get_database debug transmit runtime_open;
          create_database = Connection.create_database debug transmit runtime_open;
          delete_database = Connection.delete_database debug transmit runtime_open;
          database_schema = Connection.database_schema debug transmit runtime_open;
          database_type_schema = Connection.database_type_schema debug transmit runtime_open;
          all_users = Connection.all_users debug transmit runtime_open;
          get_user = Connection.get_user debug transmit runtime_open;
          contains_user = Connection.contains_user debug transmit runtime_open;
          create_user = Connection.create_user debug transmit runtime_open;
          update_password = Connection.update_password debug transmit runtime_open;
          delete_user = Connection.delete_user debug transmit runtime_open;
        })

module _ {A M T S : Type 0} (parse_address : Bytes → Outcome (Error A) A) where
  -- What the server gives: the answer of its call, read. A database or a server that is missing in it is an
  -- error.
  abbrev pub stub_service : Stub A M T S → Service A
  stub_service rpc = record {
    servers_all = rpc.servers_all tt >>= servers_try_from_proto parse_address;
    servers_get = rpc.servers_get tt >>= λ server.
        ok_or (missing (codes "server")) server >>= server_try_from_proto parse_address;
    version = rpc.server_version tt >>= λ v. ok (record { distribution = v.0; version = v.1 });
    all_databases = rpc.databases_all tt >>= λ names. ok (map database_from_proto names);
    contains_database = λ name. rpc.databases_contains name;
    get_database = λ name. rpc.databases_get name >>= λ found.
        ok_or (missing (codes "database")) found >>= λ n. ok (database_from_proto n);
    create_database = λ name. rpc.databases_create name >>= λ made.
        ok_or (missing (codes "database")) made >>= λ _. ok tt;
    delete_database = λ name. rpc.database_delete name;
    database_schema = λ name. rpc.database_schema name;
    database_type_schema = λ name. rpc.database_type_schema name;
    all_users = rpc.users_all tt;
    get_user = λ name. rpc.users_get name;
    contains_user = λ name. rpc.users_contains name;
    create_user =
        λ name. λ password. rpc.users_create (record { name = name; password = some password });
    update_password =
        λ name. λ password. rpc.users_update (name, record { name = []; password = some password });
    delete_user = λ name. rpc.users_delete name;
  }

-- Where the runtime is closed, every operation is refused.
abbrev pub closed_service : {A : Type 0} → Service A
closed_service = record {
  servers_all = err (connection server_connection_is_closed);
  servers_get = err (connection server_connection_is_closed);
  version = err (connection server_connection_is_closed);
  all_databases = err (connection server_connection_is_closed);
  contains_database = λ _. err (connection server_connection_is_closed);
  get_database = λ _. err (connection server_connection_is_closed);
  create_database = λ _. err (connection server_connection_is_closed);
  delete_database = λ _. err (connection server_connection_is_closed);
  database_schema = λ _. err (connection server_connection_is_closed);
  database_type_schema = λ _. err (connection server_connection_is_closed);
  all_users = err (connection server_connection_is_closed);
  get_user = λ _. err (connection server_connection_is_closed);
  contains_user = λ _. err (connection server_connection_is_closed);
  create_user = λ _. λ _. err (connection server_connection_is_closed);
  update_password = λ _. λ _. err (connection server_connection_is_closed);
  delete_user = λ _. err (connection server_connection_is_closed);
}

-- Two services give the same for every operation.
pub record Agree {A : Type 0} (s t : Service A) : Type 0 where
  pub on_servers_all : s.servers_all ≡ t.servers_all
  pub on_servers_get : s.servers_get ≡ t.servers_get
  pub on_version : s.version ≡ t.version
  pub on_all_databases : s.all_databases ≡ t.all_databases
  pub on_contains_database : (name : Bytes) → s.contains_database name ≡ t.contains_database name
  pub on_get_database : (name : Bytes) → s.get_database name ≡ t.get_database name
  pub on_create_database : (name : Bytes) → s.create_database name ≡ t.create_database name
  pub on_delete_database : (name : Bytes) → s.delete_database name ≡ t.delete_database name
  pub on_database_schema : (name : Bytes) → s.database_schema name ≡ t.database_schema name
  pub on_database_type_schema :
      (name : Bytes) → s.database_type_schema name ≡ t.database_type_schema name
  pub on_all_users : s.all_users ≡ t.all_users
  pub on_get_user : (name : Bytes) → s.get_user name ≡ t.get_user name
  pub on_contains_user : (name : Bytes) → s.contains_user name ≡ t.contains_user name
  pub on_create_user :
      (name password : Bytes) → s.create_user name password ≡ t.create_user name password
  pub on_update_password :
      (name password : Bytes) → s.update_password name password ≡ t.update_password name password
  pub on_delete_user : (name : Bytes) → s.delete_user name ≡ t.delete_user name

module _ {A M T Uuid RequestId S : Type 0} (debug_request : Request M T → Bytes)
    (debug : Response A Uuid RequestId S → Bytes) (parse_address : Bytes → Outcome (Error A) A)
    (parse_uuid : Bytes → Option Uuid) (request_id : T → RequestId) (in_time : Bool)
    (timeout : Bytes) where
  -- A connection in an open runtime gives what the server gives: no request and no response is of a kind that
  -- was not expected.
  pub connection_service-open :
      (rpc : Stub A M T S)
      → Agree
          (connection_service debug_request debug parse_address parse_uuid request_id in_time
            timeout true rpc)
          (stub_service parse_address rpc)
  unfolding send_request Requests.servers_all_req Requests.servers_get_req
      Requests.server_version_req Requests.databases_all_req Requests.database_get_req
      Requests.databases_contains_req Requests.database_create_req Requests.database_delete_req
      Requests.database_schema_req Requests.database_type_schema_req Requests.users_all_req
      Requests.users_get_req Requests.users_contains_req Requests.users_create_req
      Requests.users_update_req Requests.users_delete_req servers_all_res servers_get_res
      server_version_res databases_all_res database_get_res database_create_res Connection.request
      Connection.servers_all Connection.servers_get Connection.version Connection.all_databases
      Connection.contains_database Connection.get_database Connection.create_database
      Connection.delete_database Connection.database_schema Connection.database_type_schema
      Connection.all_users Connection.get_user Connection.contains_user Connection.create_user
      Connection.update_password Connection.delete_user
  connection_service-open rpc = record {
    on_servers_all = ground arith;
    on_servers_get = ground arith;
    on_version = ground arith;
    on_all_databases = ground arith;
    on_contains_database = λ name. ground arith;
    on_get_database = λ name. ground arith;
    on_create_database = λ name. ground arith;
    on_delete_database = λ name. ground arith;
    on_database_schema = λ name. ground arith;
    on_database_type_schema = λ name. ground arith;
    on_all_users = ground arith;
    on_get_user = λ name. ground arith;
    on_contains_user = λ name. ground arith;
    on_create_user = λ name password. ground arith;
    on_update_password = λ name password. ground arith;
    on_delete_user = λ name. ground arith;
  }

  -- A connection in a closed runtime refuses every operation.
  pub connection_service-closed :
      (rpc : Stub A M T S)
      → Agree
          (connection_service debug_request debug parse_address parse_uuid request_id in_time
            timeout false rpc)
          closed_service
  unfolding Connection.request Connection.servers_all Connection.servers_get Connection.version
      Connection.all_databases Connection.contains_database Connection.get_database
      Connection.create_database Connection.delete_database Connection.database_schema
      Connection.database_type_schema Connection.all_users Connection.get_user
      Connection.contains_user Connection.create_user Connection.update_password
      Connection.delete_user
  connection_service-closed rpc = record {
    on_servers_all = refl;
    on_servers_get = refl;
    on_version = refl;
    on_all_databases = refl;
    on_contains_database = λ name. refl;
    on_get_database = λ name. refl;
    on_create_database = λ name. refl;
    on_delete_database = λ name. refl;
    on_database_schema = λ name. refl;
    on_database_type_schema = λ name. refl;
    on_all_users = refl;
    on_get_user = λ name. refl;
    on_contains_user = λ name. refl;
    on_create_user = λ name password. refl;
    on_update_password = λ name password. refl;
    on_delete_user = λ name. refl;
  }
