-- ===== src/Driver/Answers.antt =====
-- The operations of the driver, of databases and of users against the methods of the server connections
-- (rust/src/driver.rs, rust/src/database/, rust/src/user/).
use mathlib.Core.Option
use typedb_driver.Common.{refl, none, List, [], ◌∷◌, Bytes, map, Eq, ok, err, ◌>>=◌}
use typedb_driver.Errors.{connection, server_connection_is_closed}
use typedb_driver.Proto.Transactions.{TransactionType, TransactionOptions}
use typedb_driver.Server.{ServerRouting, auto}
use typedb_driver.ServerManager.{Env, State, bind}
use typedb_driver.ServerManager.Execute.{execute, username}
use typedb_driver.Driver.{
  Call, Calls, server_version_with_routing, transaction, transaction_with_options,
}
use typedb_driver.Driver.Databases
use typedb_driver.Driver.Databases.{Database, build_database}
use typedb_driver.Driver.Users
use typedb_driver.Driver.Users.{User, from_info}
use typedb_driver.Driver.Calling.{
  execute-IsAnswer, ask-IsAnswer, bind-pure, bind-IsAnswer, execute-IsStream, IsAnswer, IsStream,
  IsCurrent,
}

-- Each operation, from the state `s`.
pub record AreAnswers {A Conn W S : Type 0} ⦃e : Eq A⦄ (env : Env A Conn W)
    (calls : Calls A Conn W S) (s : State A Conn W) : Type 0 where
  pub version :
      (routing : ServerRouting A)
      → IsAnswer calls Call.version
          (λ v. v.version)
          (server_version_with_routing env calls routing s)
  pub all_databases :
      IsAnswer calls Call.all_databases
        (λ v. v.all_databases >>= λ l. ok (map build_database l))
        (Databases.all env calls s)
  pub get_database :
      (name : Bytes)
      → IsAnswer calls
          (Call.get_database name)
          (λ v. v.get_database name >>= λ d. ok (build_database d))
          (Databases.get env calls name s)
  pub contains_database :
      (name : Bytes)
      → IsAnswer calls
          (Call.contains_database name)
          (λ v. v.contains_database name)
          (Databases.contains env calls name s)
  pub create_database :
      (name : Bytes)
      → IsAnswer calls
          (Call.create_database name)
          (λ v. v.create_database name)
          (Databases.create env calls name s)
  pub delete_database :
      (d : Database)
      → IsAnswer calls
          (Call.delete_database d.name)
          (λ v. v.delete_database d.name)
          (Databases.delete env calls d s)
  pub database_schema :
      (d : Database)
      → IsAnswer calls
          (Call.database_schema d.name)
          (λ v. v.database_schema d.name)
          (Databases.schema env calls d s)
  pub database_type_schema :
      (d : Database)
      → IsAnswer calls
          (Call.database_type_schema d.name)
          (λ v. v.database_type_schema d.name)
          (Databases.type_schema env calls d s)
  pub all_users :
      IsAnswer calls Call.all_users
        (λ v. v.all_users >>= λ l. ok (map from_info l))
        (Users.all env calls s)
  pub get_user :
      (name : Bytes)
      → IsAnswer calls
          (Call.get_user name)
          (λ v. v.get_user name >>= λ i. ok (Option.map from_info i))
          (Users.get env calls name s)
  pub contains_user :
      (name : Bytes)
      → IsAnswer calls
          (Call.contains_user name)
          (λ v. v.contains_user name)
          (Users.contains env calls name s)
  pub create_user :
      (name password : Bytes)
      → IsAnswer calls
          (Call.create_user name password)
          (λ v. v.create_user name password)
          (Users.create env calls name password s)
  pub update_password :
      (user : User) (password : Bytes)
      → IsAnswer calls
          (Call.update_password user.name password)
          (λ v. v.update_password user.name password)
          (Users.update_password env calls user password s)
  pub delete_user :
      (user : User)
      → IsAnswer calls
          (Call.delete_user user.name)
          (λ v. v.delete_user user.name)
          (Users.delete env calls user s)
  pub transaction_with_options :
      (name : Bytes) (type : TransactionType) (options : TransactionOptions)
      → IsStream
          (λ c. calls.open_transaction c name type options)
          (transaction_with_options env calls name type options s)
  pub transaction :
      (name : Bytes) (type : TransactionType)
      → IsStream
          (λ c.
            calls.open_transaction c name type
              (record { transaction_timeout = none; schema_lock_acquire_timeout = none }))
          (transaction env calls name type s)
  pub import_stream :
      (name schema : Bytes)
      → IsStream
          (λ c. calls.import_database c name schema)
          (Databases.import_stream env calls name schema s)
  pub get_current :
      (name_of : Conn → Bytes)
      → IsCurrent calls name_of s s.manager.replica_connections
          (Users.get_current env calls name_of s)

module _ {A Conn W S : Type 0} ⦃e : Eq A⦄ (env : Env A Conn W) (calls : Calls A Conn W S) where
  get-IsAnswer :
      (name : Bytes) (s : State A Conn W)
      → IsAnswer calls
          (Call.get_user name)
          (λ v. v.get_user name >>= λ i. ok (Option.map from_info i))
          (Users.get env calls name s)
  unfolding Users.get
  get-IsAnswer name s =
      execute-IsAnswer env calls (Call.get_user name)
        (λ v. v.get_user name >>= λ i. ok (Option.map from_info i)) (Users.get_task env calls name)
        auto s λ c u. bind-pure _ _ _

  current-IsCurrent :
      {K : Type 0} (name_of : Conn → Bytes) (s : State A Conn W) (l : List (K × Conn))
      → IsCurrent calls name_of s l (
          bind
            (
              elim l [
                | [] ↦ err (connection server_connection_is_closed)
                | (k, c) ∷ rest ↦ ok (name_of c)
              ],
              s,
            )
            (Users.get env calls))
  current-IsCurrent name_of s [] = refl
  current-IsCurrent name_of s ((k, c) ∷ l) = get-IsAnswer (name_of c) s

module _ {A Conn W S : Type 0} ⦃e : Eq A⦄ (env : Env A Conn W) (calls : Calls A Conn W S) where
  -- If an operation of the driver, of its databases or of its users that makes one call has a
  -- result, then the result is what the method of the same name gives on some connection in some
  -- state, with a database or a user made of it where the operation returns one, and the operation
  -- ends in the state that this call leaves. The operations are the version of the server, opening
  -- a transaction with and without options, the stream of an import; of databases all, get,
  -- contains, create, delete and both schemas; of users all, get, contains, create, delete, the
  -- update of a password, and the current user, which is the one with the name that the first
  -- connection held has.
  pub operations-AreAnswers : (s : State A Conn W) → AreAnswers env calls s
  unfolding server_version_with_routing Databases.all Databases.get Databases.contains
      Databases.create Databases.delete Databases.schema Databases.type_schema Users.all Users.get
      Users.contains Users.create Users.update_password Users.delete transaction_with_options
      transaction Databases.import_stream Users.get_current username
  operations-AreAnswers s = record {
    version = λ routing. ask-IsAnswer env calls Call.version (λ v. v.version) routing s;
    all_databases =
        execute-IsAnswer env calls Call.all_databases
          (λ v. v.all_databases >>= λ l. ok (map build_database l)) (Databases.all_task env calls)
          auto s λ c u. bind-pure _ _ _;
    get_database = λ name.
        bind-IsAnswer calls (Call.get_database name) (λ v. v.get_database name) build_database
          (execute env (Databases.get_task env calls name) auto s)
          (ask-IsAnswer env calls (Call.get_database name) (λ v. v.get_database name) auto s);
    contains_database = λ name.
        ask-IsAnswer env calls (Call.contains_database name) (λ v. v.contains_database name) auto s;
    create_database = λ name.
        ask-IsAnswer env calls (Call.create_database name) (λ v. v.create_database name) auto s;
    delete_database = λ d.
        ask-IsAnswer env calls (Call.delete_database d.name) (λ v. v.delete_database d.name) auto s;
    database_schema = λ d.
        ask-IsAnswer env calls (Call.database_schema d.name) (λ v. v.database_schema d.name) auto s;
    database_type_schema = λ d.
        ask-IsAnswer env calls (Call.database_type_schema d.name)
          (λ v. v.database_type_schema d.name) auto s;
    all_users =
        execute-IsAnswer env calls Call.all_users (λ v. v.all_users >>= λ l. ok (map from_info l))
          (Users.all_task env calls) auto s λ c u. bind-pure _ _ _;
    get_user = λ name. get-IsAnswer env calls name s;
    contains_user =
        λ name. ask-IsAnswer env calls (Call.contains_user name) (λ v. v.contains_user name) auto s;
    create_user = λ name. λ password.
        ask-IsAnswer env calls (Call.create_user name password) (λ v. v.create_user name password)
          auto s;
    update_password = λ user. λ password.
        ask-IsAnswer env calls (Call.update_password user.name password)
          (λ v. v.update_password user.name password) auto s;
    delete_user = λ user.
        ask-IsAnswer env calls (Call.delete_user user.name) (λ v. v.delete_user user.name) auto s;
    transaction_with_options = λ name. λ type.
        λ options. execute-IsStream env calls (λ c. calls.open_transaction c name type options) s;
    transaction = λ name. λ type.
        execute-IsStream env calls
          (λ c.
            calls.open_transaction c name type
              (record { transaction_timeout = none; schema_lock_acquire_timeout = none }))
          s;
    import_stream =
        λ name. λ schema. execute-IsStream env calls (λ c. calls.import_database c name schema) s;
    get_current = λ name_of. current-IsCurrent env calls name_of s s.manager.replica_connections;
  }
