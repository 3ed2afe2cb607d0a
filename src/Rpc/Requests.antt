-- ===== src/Rpc/Requests.antt =====
-- Requests to messages (rust/src/connection/network/proto/message.rs). A message with one field is that
-- field; the versions of the protocol are those of the generated code. `debug` prints a request.
use typedb_driver.Common.{Bytes, List, [], ◌∷◌, Outcome, ok, err}
use typedb_driver.Errors.{Error, internal, unexpected_request_type}
use typedb_driver.Import.{DatabaseImportRequest}
use typedb_driver.Rpc.{Request, Credentials, UserInfo}

pub record ConnectionOpenReq : Type 0 where
  pub driver_lang : Bytes
  pub driver_version : Bytes
  pub authentication : Credentials

module _ {A M T : Type 0} (debug : Request M T → Bytes) where
  abbrev pub unexpected : {B : Type 0} → Request M T → Outcome (Error A) B
  unexpected other = err (internal (unexpected_request_type (debug other)))

  unfoldable pub connection_open_req : Request M T → Outcome (Error A) ConnectionOpenReq
  connection_open_req (Request.connection_open lang version c) =
      ok (record { driver_lang = lang; driver_version = version; authentication = c })
  connection_open_req other = unexpected other

  unfoldable pub servers_all_req : Request M T → Outcome (Error A) (Unit {0})
  servers_all_req Request.servers_all = ok tt
  servers_all_req other = unexpected other

  unfoldable pub servers_get_req : Request M T → Outcome (Error A) (Unit {0})
  servers_get_req Request.servers_get = ok tt
  servers_get_req other = unexpected other

  unfoldable pub server_version_req : Request M T → Outcome (Error A) (Unit {0})
  server_version_req Request.server_version = ok tt
  server_version_req other = unexpected other

  unfoldable pub databases_all_req : Request M T → Outcome (Error A) (Unit {0})
  databases_all_req Request.databases_all = ok tt
  databases_all_req other = unexpected other

  unfoldable pub database_get_req : Request M T → Outcome (Error A) Bytes
  database_get_req (Request.database_get name) = ok name
  database_get_req other = unexpected other

  unfoldable pub databases_contains_req : Request M T → Outcome (Error A) Bytes
  databases_contains_req (Request.databases_contains name) = ok name
  databases_contains_req other = unexpected other

  unfoldable pub database_create_req : Request M T → Outcome (Error A) Bytes
  database_create_req (Request.database_create name) = ok name
  database_create_req other = unexpected other

  unfoldable pub database_import_req : Request M T → Outcome (Error A) (DatabaseImportRequest M)
  database_import_req (Request.database_import r) = ok r
  database_import_req other = unexpected other

  unfoldable pub database_delete_req : Request M T → Outcome (Error A) Bytes
  database_delete_req (Request.database_delete name) = ok name
  database_delete_req other = unexpected other

  unfoldable pub database_schema_req : Request M T → Outcome (Error A) Bytes
  database_schema_req (Request.database_schema name) = ok name
  database_schema_req other = unexpected other

  unfoldable pub database_type_schema_req : Request M T → Outcome (Error A) Bytes
  database_type_schema_req (Request.database_type_schema name) = ok name
  database_type_schema_req other = unexpected other

  unfoldable pub database_export_req : Request M T → Outcome (Error A) Bytes
  database_export_req (Request.database_export name) = ok name
  database_export_req other = unexpected other

  unfoldable pub transaction_req : Request M T → Outcome (Error A) (List T)
  transaction_req (Request.transaction t) = ok (t ∷ [])
  transaction_req other = unexpected other

  unfoldable pub users_all_req : Request M T → Outcome (Error A) (Unit {0})
  users_all_req Request.users_all = ok tt
  users_all_req other = unexpected other

  unfoldable pub users_get_req : Request M T → Outcome (Error A) Bytes
  users_get_req (Request.users_get name) = ok name
  users_get_req other = unexpected other

  unfoldable pub users_contains_req : Request M T → Outcome (Error A) Bytes
  users_contains_req (Request.users_contains name) = ok name
  users_contains_req other = unexpected other

  unfoldable pub users_create_req : Request M T → Outcome (Error A) UserInfo
  users_create_req (Request.users_create u) = ok u
  users_create_req other = unexpected other

  unfoldable pub users_update_req : Request M T → Outcome (Error A) (Bytes × UserInfo)
  users_update_req (Request.users_update name u) = ok (name, u)
  users_update_req other = unexpected other

  unfoldable pub users_delete_req : Request M T → Outcome (Error A) Bytes
  users_delete_req (Request.users_delete name) = ok name
  users_delete_req other = unexpected other
