-- ===== src/Rpc.antt =====
-- rust/src/connection/message.rs: the requests to a server and its responses.
pub mod Requests
pub mod Responses
pub mod Send
pub mod Renewal
use typedb_driver.Common.{ℕ, Option, List, Bool, Bytes}
use typedb_driver.Server.{Server}
use typedb_driver.Import.{DatabaseImportRequest}

pub record Credentials : Type 0 where
  pub username : Bytes
  pub password : Bytes

-- `DatabaseInfo` is the name of the database.
pub record DatabaseInfo : Type 0 where
  pub name : Bytes

pub record UserInfo : Type 0 where
  pub name : Bytes
  pub password : Option Bytes

pub record ServerVersion : Type 0 where
  pub distribution : Bytes
  pub version : Bytes

-- `M` stands for the items of an import, `T` for the requests of a transaction.
pub data Request (M T : Type 0) : Type 0 where
  connection_open : (driver_lang driver_version : Bytes) → Credentials → Request M T
  servers_all servers_get server_version databases_all users_all : Request M T
  database_get databases_contains database_create : (database_name : Bytes) → Request M T
  database_import : DatabaseImportRequest M → Request M T
  database_delete database_schema database_type_schema database_export :
      (database_name : Bytes) → Request M T
  transaction : T → Request M T
  users_get users_contains : (name : Bytes) → Request M T
  users_create : UserInfo → Request M T
  users_update : (username : Bytes) → UserInfo → Request M T
  users_delete : (name : Bytes) → Request M T

-- `S` stands for the ends of the channels and streams of an import, an export and a transaction.
pub data Response (A Uuid RequestId S : Type 0) : Type 0 where
  connection_open :
      Uuid → (server_duration_millis : ℕ) → List (Server A) → Response A Uuid RequestId S
  servers_all : List (Server A) → Response A Uuid RequestId S
  servers_get : Server A → Response A Uuid RequestId S
  server_version : ServerVersion → Response A Uuid RequestId S
  databases_contains : Bool → Response A Uuid RequestId S
  database_create database_get : DatabaseInfo → Response A Uuid RequestId S
  database_import database_export_stream : S → Response A Uuid RequestId S
  databases_all : List DatabaseInfo → Response A Uuid RequestId S
  database_delete users_create users_update users_delete : Response A Uuid RequestId S
  database_schema database_type_schema : Bytes → Response A Uuid RequestId S
  transaction_stream : RequestId → S → (server_duration_millis : ℕ) → Response A Uuid RequestId S
  users_all : List UserInfo → Response A Uuid RequestId S
  users_contain : Bool → Response A Uuid RequestId S
  users_get : Option UserInfo → Response A Uuid RequestId S
