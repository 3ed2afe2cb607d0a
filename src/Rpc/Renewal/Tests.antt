-- ===== src/Rpc/Renewal/Tests.antt =====
-- A server whose first token is old.
use typedb_driver.Common.{
  ℕ, suc, ◌≡◌, refl, Option, some, Bytes, codes, List, ◌∷◌, [], length, nat_eq, ◌==◌, if◌then◌else◌,
  Outcome, ok, err,
}
use typedb_driver.Errors.{Error, connection, token_credential_invalid}
use typedb_driver.Rpc.{Credentials}
use typedb_driver.Rpc.Renewal.{RpcStub, renew_token, call_with_auto_renew_token}
use typedb_driver.Rpc.Renewal.Once
use typedb_driver.Rpc.Renewal.Once.{
  Event, Server, IsExchange, call_with_auto_renew_token-IsExchange,
}

-- The world counts the calls.
abbrev create_token : Credentials → Option Bytes → ℕ → Outcome (Error ℕ) Bytes × ℕ
create_token c header w = (ok (codes "new"), suc w)

abbrev refused : Option Bytes → Outcome (Error ℕ) ℕ
refused (some (x ∷ l)) = if x == b'n' then ok 1 else err (connection token_credential_invalid)
refused _ = err (connection token_credential_invalid)

abbrev call : RpcStub ℕ → Outcome (Error ℕ) ℕ × RpcStub ℕ
call s = (refused s.token, record s { world = suc s.world })

abbrev stub : RpcStub ℕ
stub = record {
  call_credentials = some (record { username = codes "admin"; password = codes "password" });
  token = some (codes "old");
  world = 0;
}

call_with_auto_renew_token-test :
    call_with_auto_renew_token create_token call stub
    ≡ (ok 1, record stub { token = some (codes "new"); world = 3 })
unfolding call_with_auto_renew_token renew_token
call_with_auto_renew_token-test = refl

-- A server that grants a new token, and refuses a call without one.
abbrev server : Server ℕ ℕ
server = record {
  respond =
      λ log. if nat_eq.beq (length log) 3 then ok 1 else err (connection token_credential_invalid);
  grant = λ log. ok (codes "new");
}

abbrev fresh : RpcStub (List Event)
fresh = record { call_credentials = stub.call_credentials; token = stub.token; world = [] }

call_with_auto_renew_token-IsExchange_example :
    IsExchange server fresh
      (call_with_auto_renew_token (Once.create_token server) (Once.call server) fresh)
call_with_auto_renew_token-IsExchange_example = call_with_auto_renew_token-IsExchange server fresh
