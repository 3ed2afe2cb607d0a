-- ===== src/Connection/Tests.antt =====
-- A concrete server, and a connection to it.
use typedb_driver.Common.{
  ℕ, ◌≡◌, refl, true, false, none, some, [], ◌∷◌, Bytes, codes, Outcome, ok, err,
}
use typedb_driver.Errors.{
  Error, connection, unexpected_connection_close, database_import_channel_is_closed,
}
use typedb_driver.Rpc.Send.{Stub, opened}
use typedb_driver.Connection
use typedb_driver.Connection.Answers.{
  Agree, connection_service, stub_service, connection_service-open,
}

abbrev parse : Bytes → Outcome (Error Bytes) Bytes
parse a = ok a

-- A server with the database "db" and no users.
abbrev server : Stub Bytes ℕ ℕ ℕ
server = record {
  connection_open = λ r. ok (record {
    servers_all = some [];
    connection_id = some (codes "id");
    server_duration_millis = 1;
  });
  servers_all = λ u. ok [];
  servers_get = λ u. ok none;
  server_version = λ u. ok (codes "TypeDB", codes "3");
  databases_all = λ u. ok (codes "db" ∷ []);
  databases_get = λ n. ok (some n);
  databases_contains = λ n. ok true;
  databases_create = λ n. err (connection unexpected_connection_close);
  databases_import = λ r. err (connection database_import_channel_is_closed);
  database_delete = λ n. ok tt;
  database_schema = λ n. ok (codes "define");
  database_type_schema = λ n. ok (codes "define");
  database_export = λ n. ok 4;
  transaction = λ t. ok (5, some (ok (opened 3)));
  users_all = λ u. ok [];
  users_get = λ n. ok none;
  users_contains = λ n. ok false;
  users_create = λ u. ok tt;
  users_update = λ u. ok tt;
  users_delete = λ n. ok tt;
}

connection_service-open_example :
    Agree
      (connection_service {Uuid = Bytes} {RequestId = ℕ}
        (λ r. codes "request")
        (λ r. codes "response")
        parse
        (λ b. some b)
        (λ t. t)
        true
        (codes "1s")
        true
        server)
      (stub_service parse server)
connection_service-open_example =
    connection_service-open {Uuid = Bytes} {RequestId = ℕ} (λ r. codes "request")
      (λ r. codes "response") parse (λ b. some b) (λ t. t) true (codes "1s") server

network_millis-test : Connection.network_millis 5_500_000 3 ≡ 2
unfolding Connection.network_millis
network_millis-test = refl
