-- ===== src/Driver/Databases.antt =====
-- rust/src/database/database_manager.rs and database.rs: the operations on databases that make one call. A
-- database is its name, with the manager that its operations run on.
use typedb_driver.Common.{Bool, List, Bytes, map, Eq}
use typedb_driver.Server.{auto}
use typedb_driver.Rpc.{DatabaseInfo}
use typedb_driver.Driver.{Call, Calls, ask}
use typedb_driver.ServerManager.{Env, M, bind, pure}
use typedb_driver.ServerManager.Execute.{execute}

pub record Database : Type 0 where
  pub name : Bytes

-- `Database::new`
abbrev pub build_database : DatabaseInfo → Database
build_database info = record { name = info.name }

module _ {A Conn W S : Type 0} ⦃e : Eq A⦄ (env : Env A Conn W) (calls : Calls A Conn W S) where
  abbrev pub all_task : Conn → M A Conn W (List Database)
  all_task c s =
      bind (ask calls Call.all_databases (λ v. v.all_databases) c s)
        λ infos. pure (map build_database infos)

  unfoldable pub all : M A Conn W (List Database)
  all = execute env all_task auto

  abbrev pub get_task : Bytes → Conn → M A Conn W DatabaseInfo
  get_task name = ask calls (Call.get_database name) (λ v. v.get_database name)

  unfoldable pub get : Bytes → M A Conn W Database
  get name s = bind (execute env (get_task name) auto s) λ info. pure (build_database info)

  unfoldable pub contains : Bytes → M A Conn W Bool
  contains name =
      execute env (ask calls (Call.contains_database name) (λ v. v.contains_database name)) auto

  unfoldable pub create : Bytes → M A Conn W (Unit {0})
  create name =
      execute env (ask calls (Call.create_database name) (λ v. v.create_database name)) auto

  unfoldable pub delete : Database → M A Conn W (Unit {0})
  delete d =
      execute env (ask calls (Call.delete_database d.name) (λ v. v.delete_database d.name)) auto

  unfoldable pub schema : Database → M A Conn W Bytes
  schema d =
      execute env (ask calls (Call.database_schema d.name) (λ v. v.database_schema d.name)) auto

  unfoldable pub type_schema : Database → M A Conn W Bytes
  type_schema d =
      execute env
        (ask calls (Call.database_type_schema d.name) (λ v. v.database_type_schema d.name)) auto

  abbrev pub import_task : (name schema : Bytes) → Conn → M A Conn W S
  import_task name schema c s = (
    (calls.import_database c name schema s.world).0,
    record s { world = (calls.import_database c name schema s.world).1 },
  )

  unfoldable pub import_stream : (name schema : Bytes) → M A Conn W S
  import_stream name schema = execute env (import_task name schema) auto
