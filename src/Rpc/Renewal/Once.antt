-- ===== src/Rpc/Renewal/Once.antt =====
-- What the server is asked, and with which token, for a call and its renewal
-- (rust/src/connection/network/stub.rs).
use typedb_driver.Common.{
  ◌≡◌, ◌≢◌, refl, ap, ◌∙◌, ◌⊎◌, inl, inr, false, List, [], ◌∷◌, ◌++◌, Option, none, some, Bytes,
  codes, Outcome, ok, err, panic, Option-cases, arith,
}
use typedb_driver.Errors.{Error, connection, token_credential_invalid}
use typedb_driver.Rpc.{Credentials}
use typedb_driver.Rpc.Renewal.{
  RpcStub, reset_token, authorization, renewed, renew_token, is_invalid_token, call_again,
  call_with_auto_renew_token,
}

-- What reaches the server, with the header `authorization`.
pub data Event : Type 0 where
  called : (header : Option Bytes) → Event
  asked : Credentials → (header : Option Bytes) → Event

-- A server answers a call, and a request for a token, by what has reached it, this last.
pub record Server (A B : Type 0) : Type 0 where
  pub respond : List Event → Outcome (Error A) B
  pub grant : List Event → Outcome (Error A) Bytes

module _ {A B : Type 0} (server : Server A B) where
  abbrev pub create_token :
      Credentials → Option Bytes → List Event → Outcome (Error A) Bytes × List Event
  create_token c header log =
      (server.grant (log ++ asked c header ∷ []), log ++ asked c header ∷ [])

  abbrev pub call : RpcStub (List Event) → Outcome (Error A) B × RpcStub (List Event)
  call s = (
    server.respond (s.world ++ called (authorization s) ∷ []),
    record s { world = s.world ++ called (authorization s) ∷ [] },
  )

  -- The header that a token makes.
  abbrev pub bearer : Bytes → Option Bytes
  bearer token = some (codes "Bearer " ++ token)

  -- After the first call, which leaves `log`, has been refused: the token is asked for without a header, and
  -- the call is made again with the header of the token that is granted.
  abbrev pub Renews :
      Credentials
      → RpcStub (List Event)
      → List Event
      → Outcome (Error A) B × RpcStub (List Event)
      → Outcome (Error A) Bytes
      → Type 0
  Renews c s log result (ok token) = result ≡ (
    server.respond ((log ++ asked c none ∷ []) ++ called (bearer token) ∷ []),
    record s {
      token = some token;
      world = (log ++ asked c none ∷ []) ++ called (bearer token) ∷ [];
    },
  )
  Renews c s log result (err x) =
      result ≡ (err x, record s { token = none; world = log ++ asked c none ∷ [] })
  Renews c s log result panic =
      result ≡ (panic, record s { token = none; world = log ++ asked c none ∷ [] })

  -- What a stub makes of a call. Where it has no credentials there is no token to renew.
  pub IsExchange : RpcStub (List Event) → Outcome (Error A) B × RpcStub (List Event) → Type 0
  IsExchange s result =
      let log = s.world ++ called (authorization s) ∷ [] in
      let again = log ++ called (authorization s) ∷ [] in
      ((server.respond log ≢ err (connection token_credential_invalid))
        × (result ≡ (server.respond log, record s { world = log })))
      ⊎ ((server.respond log ≡ err (connection token_credential_invalid))
          × (((s.call_credentials ≡ none)
                × (result ≡ (server.respond again, record s { world = again })))
              ⊎ ((c : Credentials) × (s.call_credentials ≡ some c)
                  × Renews c s log result (server.grant (log ++ asked c none ∷ [])))))

  invalid-cases :
      (o : Outcome (Error A) B)
      → (o ≡ err (connection token_credential_invalid))
        ⊎ ((o ≢ err (connection token_credential_invalid))
            × (is_invalid_token create_token call o ≡ false))
  invalid-cases o = ground arith

  renewal-Renews :
      (c : Credentials) (s : RpcStub (List Event)) (log : List Event) (o : Outcome (Error A) Bytes)
      → Renews c s log
          (call_again create_token call (
            renewed create_token
              (o, log ++ asked c none ∷ [])
              (reset_token (record s { world = log }))))
          o
  renewal-Renews c s log (ok token) = refl
  renewal-Renews c s log (err x) = refl
  renewal-Renews c s log panic = refl

  renew_token-bare :
      (s : RpcStub (List Event))
      → s.call_credentials ≡ none
      → renew_token create_token s ≡ (ok tt, s)
  unfolding renew_token
  renew_token-bare s h =
      ap
        (λ o. elim o [
          | none ↦ (ok tt, s)
          | some c ↦ renewed create_token (create_token c none s.world) (reset_token s)
        ])
        h

  renew_token-renewed :
      (c : Credentials) (s : RpcStub (List Event))
      → s.call_credentials ≡ some c
      → renew_token create_token s
        ≡ renewed create_token (create_token c none s.world) (reset_token s)
  unfolding renew_token
  renew_token-renewed c s h =
      ap
        (λ o. elim o [
          | none ↦ (ok tt, s)
          | some c ↦ renewed create_token (create_token c none s.world) (reset_token s)
        ])
        h

  call_again-refused :
      (s : RpcStub (List Event))
      → server.respond (s.world ++ called (authorization s) ∷ [])
        ≡ err (connection token_credential_invalid)
      → call_with_auto_renew_token create_token call s
        ≡ call_again create_token call (renew_token create_token (call s).1)
  unfolding call_with_auto_renew_token
  call_again-refused s refused = rw refused refl

  -- Let a server answer calls, and requests for a token, by what it has received so far. A call is
  -- made once, with the token that is held, and its result is the result, unless it is refused for
  -- its token. Then, if the stub has credentials, their token is asked for without a header; if one
  -- is granted it is held, and the call is made once more, with that token, and the second result
  -- is the result; else the result is the failure of the request, and no token is held. Without
  -- credentials the call is made once more as it was.
  pub call_with_auto_renew_token-IsExchange :
      (s : RpcStub (List Event)) → IsExchange s (call_with_auto_renew_token create_token call s)
  unfolding call_with_auto_renew_token renew_token IsExchange
  call_with_auto_renew_token-IsExchange s =
      let log = s.world ++ called (authorization s) ∷ [] in
      elim (invalid-cases (server.respond log)) [
        | inr (valid, first) ↦ inl (valid, rw first refl)
        | inl refused ↦ elim (Option-cases s.call_credentials) [
          | inl bare ↦ inr (
            refused,
            inl (
              bare,
              call_again-refused s refused
                  ∙ ap (call_again create_token call) (renew_token-bare (call s).1 bare),
            ),
          )
          | inr (c, has) ↦ inr (
            refused,
            inr (
              c,
              has,
              rw
                  (call_again-refused s refused
                    ∙ ap (call_again create_token call) (renew_token-renewed c (call s).1 has))
                  (renewal-Renews c s log (server.grant (log ++ asked c none ∷ []))),
            ),
          )
        ]
      ]
