-- ===== src/Rpc/Renewal.antt =====
-- The token of the calls (rust/src/connection/network/channel.rs) and its renewal
-- (rust/src/connection/network/stub.rs). `W` stands for the server and the channel to it.
pub mod Once
pub mod Tests
use typedb_driver.Common.{
  ◌≡◌, ◌++◌, Bool, true, false, Option, none, some, Bytes, codes, if◌then◌else◌, Outcome, ok, err,
  panic,
}
use typedb_driver.Errors.{Error, connection, token_credential_invalid, request_timeout}
use typedb_driver.Rpc.{Credentials}

-- A stub with its credentials, if it has some, and their token.
pub record RpcStub (W : Type 0) : Type 0 where
  pub call_credentials : Option Credentials
  pub token : Option Bytes
  pub world : W

module _ {W : Type 0} where
  abbrev pub set_token : Bytes → RpcStub W → RpcStub W
  set_token token s = record s { token = some token }

  abbrev pub reset_token : RpcStub W → RpcStub W
  reset_token s = record s { token = none }

  -- `inject`: the header `authorization` of a request.
  abbrev pub authorization : RpcStub W → Option Bytes
  authorization s = elim s.token [ none ↦ none | some token ↦ some (codes "Bearer " ++ token) ]

-- `create_token` is the call `authentication_token_create`, on the world, with the header of the stub.
module _ {A W : Type 0}
    (create_token : Credentials → Option Bytes → W → Outcome (Error A) Bytes × W) where
  abbrev pub renewed :
      Outcome (Error A) Bytes × W → RpcStub W → Outcome (Error A) (Unit {0}) × RpcStub W
  renewed (ok token, w) s = (ok tt, set_token token (record s { world = w }))
  renewed (err x, w) s = (err x, record s { world = w })
  renewed (panic, w) s = (panic, record s { world = w })

  pub renew_token : RpcStub W → Outcome (Error A) (Unit {0}) × RpcStub W
  renew_token s = elim s.call_credentials [
    | none ↦ (ok tt, s)
    | some credentials ↦
        renewed (create_token credentials (authorization (reset_token s)) s.world) (reset_token s)
  ]

  module _ {B : Type 0} (call : RpcStub W → Outcome (Error A) B × RpcStub W) where
    abbrev pub call_again :
        Outcome (Error A) (Unit {0}) × RpcStub W → Outcome (Error A) B × RpcStub W
    call_again (ok u, s) = call s
    call_again (err x, s) = (err x, s)
    call_again (panic, s) = (panic, s)

    abbrev pub is_invalid_token : Outcome (Error A) B → Bool
    is_invalid_token (err (connection token_credential_invalid)) = true
    is_invalid_token _ = false

    pub call_with_auto_renew_token : RpcStub W → Outcome (Error A) B × RpcStub W
    unfolding renew_token
    call_with_auto_renew_token s =
        (let (first, s') = call s in
          if is_invalid_token first then call_again (renew_token s') else (first, s'))

    -- `single`: `in_time` says whether the calls end before the timeout, whose length `timeout` prints.
    pub single : (in_time : Bool) (timeout : Bytes) → RpcStub W → Outcome (Error A) B × RpcStub W
    unfolding call_with_auto_renew_token
    single in_time timeout s =
        (let (result, s') = call_with_auto_renew_token s in
          if in_time then (result, s') else (err (connection (request_timeout timeout)), s'))

  -- The token of a response that opens a connection, where there are credentials; a response without one
  -- is a panic. `B` is the response, and `authentication` its token.
  abbrev pub with_token :
      {B : Type 0}
      → (B → Option Bytes)
      → Outcome (Error A) B × RpcStub W
      → Outcome (Error A) B × RpcStub W
  with_token authentication (err x, s) = (err x, s)
  with_token authentication (panic, s) = (panic, s)
  with_token authentication (ok response, s) = elim s.call_credentials [
    | none ↦ (ok response, s)
    | some credentials ↦ elim (authentication response) [
      | none ↦ (panic, s)
      | some token ↦ (ok response, set_token token s)
    ]
  ]

  pub connection_open :
      {B : Type 0}
      → (B → Option Bytes)
      → (RpcStub W → Outcome (Error A) B × RpcStub W)
      → (in_time : Bool) (timeout : Bytes) → RpcStub W
      → Outcome (Error A) B × RpcStub W
  unfolding single
  connection_open authentication call in_time timeout s =
      with_token authentication (single call in_time timeout s)
