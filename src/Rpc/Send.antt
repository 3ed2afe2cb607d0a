-- ===== src/Rpc/Send.antt =====
-- How a request is sent, and what becomes of the answer
-- (rust/src/connection/network/transmitter/rpc.rs). `debug` prints a request.
use typedb_driver.Common.{
  ℕ, Bool, Option, none, some, List, Bytes, if◌then◌else◌, Outcome, ok, err, panic, ◌>>=◌,
}
use typedb_driver.Errors.{
  Error, connection, unexpected_response, unexpected_connection_close, request_timeout,
}
use typedb_driver.Import.{DatabaseImportRequest}
use typedb_driver.Rpc.{Request, Response, UserInfo}
use typedb_driver.Rpc.Requests
use typedb_driver.Rpc.Responses.{
  ServerProto, ConnectionOpenRes, connection_open_res, servers_all_res, servers_get_res,
  server_version_res, databases_all_res, database_get_res, database_create_res, users_all_res,
  users_get_res,
}

-- The first item of the stream of a transaction: an answer to the opening with the server's time for it, one
-- that cannot be read, or another message with its print.
pub data FirstMessage (A : Type 0) : Type 0 where
  opened : (server_duration_millis : ℕ) → FirstMessage A
  unreadable : Error A → FirstMessage A
  another : Bytes → FirstMessage A

-- The calls of `RPCStub`, each with what it gives for a message. A transaction gives the ends of its
-- streams and the first item.
pub record Stub (A M T S : Type 0) : Type 0 where
  pub connection_open : Requests.ConnectionOpenReq → Outcome (Error A) ConnectionOpenRes
  pub servers_all : Unit {0} → Outcome (Error A) (List ServerProto)
  pub servers_get : Unit {0} → Outcome (Error A) (Option ServerProto)
  pub server_version : Unit {0} → Outcome (Error A) (Bytes × Bytes)
  pub databases_all : Unit {0} → Outcome (Error A) (List Bytes)
  pub databases_get : Bytes → Outcome (Error A) (Option Bytes)
  pub databases_contains : Bytes → Outcome (Error A) Bool
  pub databases_create : Bytes → Outcome (Error A) (Option Bytes)
  pub databases_import : DatabaseImportRequest M → Outcome (Error A) S
  pub database_delete : Bytes → Outcome (Error A) (Unit {0})
  pub database_schema : Bytes → Outcome (Error A) Bytes
  pub database_type_schema : Bytes → Outcome (Error A) Bytes
  pub database_export : Bytes → Outcome (Error A) S
  pub transaction : T → Outcome (Error A) (S × Option (Outcome (Error A) (FirstMessage A)))
  pub users_all : Unit {0} → Outcome (Error A) (List UserInfo)
  pub users_get : Bytes → Outcome (Error A) (Option UserInfo)
  pub users_contains : Bytes → Outcome (Error A) Bool
  pub users_create : UserInfo → Outcome (Error A) (Unit {0})
  pub users_update : Bytes × UserInfo → Outcome (Error A) (Unit {0})
  pub users_delete : Bytes → Outcome (Error A) (Unit {0})

module _ {A Uuid RequestId S : Type 0} where
  abbrev pub first_response :
      RequestId
      → S
      → Option (Outcome (Error A) (FirstMessage A))
      → Outcome (Error A) (Response A Uuid RequestId S)
  first_response id s none = err (connection unexpected_connection_close)
  first_response id s (some (err status)) = err status
  first_response id s (some panic) = panic
  first_response id s (some (ok (opened millis))) = ok (Response.transaction_stream id s millis)
  first_response id s (some (ok (unreadable x))) = err x
  first_response id s (some (ok (another text))) = err (connection (unexpected_response text))

-- `request_id` is that of the message, and `in_time` says whether the answer comes before the timeout, whose
-- length `timeout` prints.
module _ {A M T Uuid RequestId S : Type 0} (request_id : T → RequestId) where
  unfoldable pub open_transaction :
      Stub A M T S → T → Outcome (Error A) (Response A Uuid RequestId S)
  open_transaction rpc t = rpc.transaction t >>= λ x. first_response (request_id t) x.0 x.1

module _ {A M T Uuid RequestId S : Type 0} (debug : Request M T → Bytes)
    (parse_address : Bytes → Outcome (Error A) A) (parse_uuid : Bytes → Option Uuid)
    (request_id : T → RequestId) (in_time : Bool) (timeout : Bytes) where
  unfoldable pub send_request :
      Stub A M T S → Request M T → Outcome (Error A) (Response A Uuid RequestId S)
  unfolding open_transaction Requests.connection_open_req Requests.servers_all_req
      Requests.servers_get_req Requests.server_version_req Requests.databases_all_req
      Requests.database_get_req Requests.databases_contains_req Requests.database_create_req
      Requests.database_delete_req Requests.database_schema_req Requests.database_type_schema_req
      Requests.database_export_req Requests.users_all_req Requests.users_contains_req
      Requests.users_create_req Requests.users_update_req Requests.users_delete_req
      Requests.users_get_req connection_open_res servers_all_res servers_get_res server_version_res
      databases_all_res database_get_res database_create_res
  send_request rpc (Request.connection_open lang version c) =
      Requests.connection_open_req debug (Request.connection_open lang version c) >>= λ req.
      rpc.connection_open req >>= connection_open_res parse_address parse_uuid
  send_request rpc Request.servers_all =
      Requests.servers_all_req debug Request.servers_all >>= λ req.
      rpc.servers_all req >>= servers_all_res parse_address
  send_request rpc Request.servers_get =
      Requests.servers_get_req debug Request.servers_get >>= λ req.
      rpc.servers_get req >>= servers_get_res parse_address
  send_request rpc Request.server_version =
      Requests.server_version_req debug Request.server_version >>= λ req.
      rpc.server_version req >>= λ v. server_version_res v.0 v.1
  send_request rpc Request.databases_all =
      Requests.databases_all_req debug Request.databases_all >>= λ req.
      rpc.databases_all req >>= databases_all_res
  send_request rpc (Request.database_get name) =
      Requests.database_get_req debug (Request.database_get name) >>= λ req.
      rpc.databases_get req >>= database_get_res
  send_request rpc (Request.databases_contains name) =
      Requests.databases_contains_req debug (Request.databases_contains name) >>= λ req.
      rpc.databases_contains req >>= λ found. ok (Response.databases_contains found)
  send_request rpc (Request.database_create name) =
      Requests.database_create_req debug (Request.database_create name) >>= λ req.
      rpc.databases_create req >>= database_create_res
  send_request rpc (Request.database_import r) =
      rpc.databases_import r >>= λ s. ok (Response.database_import s)
  send_request rpc (Request.database_delete name) =
      Requests.database_delete_req debug (Request.database_delete name) >>= λ req.
      rpc.database_delete req >>= λ _. ok Response.database_delete
  send_request rpc (Request.database_schema name) =
      Requests.database_schema_req debug (Request.database_schema name) >>= λ req.
      rpc.database_schema req >>= λ schema. ok (Response.database_schema schema)
  send_request rpc (Request.database_type_schema name) =
      Requests.database_type_schema_req debug (Request.database_type_schema name) >>= λ req.
      rpc.database_type_schema req >>= λ schema. ok (Response.database_type_schema schema)
  send_request rpc (Request.database_export name) =
      Requests.database_export_req debug (Request.database_export name) >>= λ req.
      rpc.database_export req >>= λ s. ok (Response.database_export_stream s)
  send_request rpc (Request.transaction t) =
      if in_time
      then open_transaction request_id rpc t
      else err (connection (request_timeout timeout))
  send_request rpc Request.users_all = Requests.users_all_req debug Request.users_all >>= λ req.
      rpc.users_all req >>= λ users. ok (users_all_res users)
  send_request rpc (Request.users_contains name) =
      Requests.users_contains_req debug (Request.users_contains name) >>= λ req.
      rpc.users_contains req >>= λ found. ok (Response.users_contain found)
  send_request rpc (Request.users_create u) =
      Requests.users_create_req debug (Request.users_create u) >>= λ req.
      rpc.users_create req >>= λ _. ok Response.users_create
  send_request rpc (Request.users_update name u) =
      Requests.users_update_req debug (Request.users_update name u) >>= λ req.
      rpc.users_update req >>= λ _. ok Response.users_update
  send_request rpc (Request.users_delete name) =
      Requests.users_delete_req debug (Request.users_delete name) >>= λ req.
      rpc.users_delete req >>= λ _. ok Response.users_delete
  send_request rpc (Request.users_get name) =
      Requests.users_get_req debug (Request.users_get name) >>= λ req.
      rpc.users_get req >>= λ user. ok (users_get_res user)
