-- ===== src/Driver/Users.antt =====
-- rust/src/user/user_manager.rs and user.rs. A user is its name and password, with the manager that its
-- operations run on; `name_of` is the user name of a connection.
use mathlib.Core.Option
use typedb_driver.Common.{Bool, Option, List, Bytes, map, Eq}
use typedb_driver.Server.{auto}
use typedb_driver.Rpc.{UserInfo}
use typedb_driver.Driver.{Call, Calls, ask}
use typedb_driver.ServerManager.{Env, M, bind, pure}
use typedb_driver.ServerManager.Execute.{execute, username}

pub record User : Type 0 where
  pub name : Bytes
  pub password : Option Bytes

abbrev pub from_info : UserInfo → User
from_info info = record { name = info.name; password = info.password }

module _ {A Conn W S : Type 0} ⦃e : Eq A⦄ (env : Env A Conn W) (calls : Calls A Conn W S) where
  unfoldable pub contains : Bytes → M A Conn W Bool
  contains name = execute env (ask calls (Call.contains_user name) (λ v. v.contains_user name)) auto

  abbrev pub get_task : Bytes → Conn → M A Conn W (Option User)
  get_task name c s =
      bind (ask calls (Call.get_user name) (λ v. v.get_user name) c s)
        λ info. pure (Option.map from_info info)

  unfoldable pub get : Bytes → M A Conn W (Option User)
  get name = execute env (get_task name) auto

  unfoldable pub get_current : (name_of : Conn → Bytes) → M A Conn W (Option User)
  unfolding get username
  get_current name_of s = bind (username name_of s.manager, s) get

  abbrev pub all_task : Conn → M A Conn W (List User)
  all_task c s =
      bind (ask calls Call.all_users (λ v. v.all_users) c s) λ infos. pure (map from_info infos)

  unfoldable pub all : M A Conn W (List User)
  all = execute env all_task auto

  unfoldable pub create : (name password : Bytes) → M A Conn W (Unit {0})
  create name password =
      execute env (ask calls (Call.create_user name password) (λ v. v.create_user name password))
        auto

  unfoldable pub update_password : User → (password : Bytes) → M A Conn W (Unit {0})
  update_password user password =
      execute env
        (ask calls (Call.update_password user.name password)
          (λ v. v.update_password user.name password))
        auto

  unfoldable pub delete : User → M A Conn W (Unit {0})
  delete user =
      execute env (ask calls (Call.delete_user user.name) (λ v. v.delete_user user.name)) auto
