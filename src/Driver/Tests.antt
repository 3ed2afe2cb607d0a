-- ===== src/Driver/Tests.antt =====
-- A driver of the two servers of the manager's tests, which have one database and one user.
use typedb_driver.Common.{
  Bytes, ℕ, suc, ◌≢◌, true, false, none, some, [], ◌∷◌, codes, nat_eq, Outcome, ok, panic, Option,
  ◌≡◌, refl, err,
}
use typedb_driver.Errors.{Error, connection, scheme_tls_settings_mismatch}
use typedb_driver.Connection.Answers.{Service}
use typedb_driver.ServerManager.Tests.{World, env, start}
use typedb_driver.ServerManager.Execute
use typedb_driver.Driver.{Calls, BackgroundRuntime, force_close}
use typedb_driver.Driver.Answers.{AreAnswers, operations-AreAnswers}
use typedb_driver.Driver.Options.{DriverOptions}
use typedb_driver.Driver.Channel.{Uri, open_callcred_channel}
use typedb_driver.Driver.Channel.Schemes.{UriLaws, IsOpening, open_callcred_channel-IsOpening}
use typedb_driver.Driver.Closing.{IsClosed, force_close-IsClosed}

abbrev service : Service ℕ
service = record {
  servers_all = ok [];
  servers_get = panic;
  version = ok (record { distribution = codes "TypeDB"; version = codes "3" });
  all_databases = ok (record { name = codes "social" } ∷ []);
  contains_database = λ name. ok true;
  get_database = λ name. ok (record { name = name });
  create_database = λ name. ok tt;
  delete_database = λ name. ok tt;
  database_schema = λ name. ok [];
  database_type_schema = λ name. ok [];
  all_users = ok (record { name = codes "admin"; password = none } ∷ []);
  get_user = λ name. ok (some (record { name = name; password = none }));
  contains_user = λ name. ok true;
  create_user = λ name. λ password. ok tt;
  update_password = λ name. λ password. ok tt;
  delete_user = λ name. ok tt;
}

abbrev calls : Calls ℕ ℕ World ℕ
calls = record {
  methods = λ c w. service;
  after = λ c call w. (suc w.0, w.1);
  open_transaction = λ c name type options w. (ok c, w);
  import_database = λ c name schema w. (ok c, w);
}

operations-AreAnswers_example : AreAnswers env calls start
operations-AreAnswers_example = operations-AreAnswers env calls start

-- A connection that closes.
abbrev closing : ℕ → World → Outcome (Error ℕ) (Unit {0}) × World
closing c w = (ok tt, w)

abbrev runtime : BackgroundRuntime
runtime = record { is_open = true; shutdowns = 0; worker_ended = false }

no_panic : (Execute.force_close env closing start).0 ≢ panic
unfolding Execute.force_close Execute.close_all
no_panic h = cc

force_close-IsClosed_example : IsClosed env closing (force_close env closing start runtime)
force_close-IsClosed_example = force_close-IsClosed env closing start runtime no_panic

-- A URI with a scheme and an authority.
abbrev uri : Uri ℕ
uri = record {
  Value = Option Bytes × Bytes;
  Rest = Bytes;
  parse = λ b. ok (none, b);
  port = λ u. some (codes "1729");
  scheme = λ u. u.0;
  authority = λ u. some u.1;
  into_parts = λ u. record { scheme = u.0; path_and_query = none; rest = u.1 };
  from_parts = λ p. some (p.scheme, p.rest);
}

uri-laws : UriLaws uri
uri-laws = record { scheme_of_parts = λ p u made. cc }

abbrev options : DriverOptions ℕ
options = record {
  tls_config = record { network_config = some 7; root_ca_path = none };
  request_timeout = 10;
  primary_failover_retries = 1;
}

opened :
    open_callcred_channel uri (λ n. ok tt) (none, codes "server:1729") options
    ≡ ok ((some (codes "https"), codes "server:1729"), some 7)
unfolding open_callcred_channel
opened = refl

open_callcred_channel-IsOpening_example :
    IsOpening uri
      (some 7)
      (some (codes "http"), codes "server:1729")
      (open_callcred_channel uri (λ n. ok tt) (some (codes "http"), codes "server:1729") options)
open_callcred_channel-IsOpening_example =
    open_callcred_channel-IsOpening uri-laws (λ n. ok tt) (some (codes "http"), codes "server:1729")
      options

-- An address with the other scheme is refused.
mismatch :
    open_callcred_channel uri (λ n. ok tt) (some (codes "http"), codes "server:1729") options
    ≡ err (connection (scheme_tls_settings_mismatch (codes "http") true))
unfolding open_callcred_channel
mismatch = refl
