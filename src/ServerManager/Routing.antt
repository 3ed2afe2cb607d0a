-- ===== src/ServerManager/Routing.antt =====
-- Routed execution: the steps of its loop, and where its result comes from
-- (rust/src/connection/server/server_manager.rs).
use typedb_driver.Common.{
  ℕ, zero, suc, ◌≡◌, refl, ◌∙◌, ◌≢◌, ◌⊎◌, inl, inr, Option, none, some, List, [], Bool-cases, Eq,
  nat_eq, Outcome, ok, err, panic,
}
use typedb_driver.Common.Maps
use typedb_driver.Errors.{Error, connection, ConnectionError}
use typedb_driver.Server
use typedb_driver.Server.{AvailableServer, ServerRouting, auto, direct, get_or, available_eq}
use typedb_driver.ServerManager.{
  Env, State, M, on_connection_error-cases, failed_err, bind-ok, bind-eq-ok,
}
use typedb_driver.ServerManager.Connections.{execute_on}
use typedb_driver.ServerManager.Seek.{get_or_seek_primary_replica}
use typedb_driver.ServerManager.Execute.{
  hinted, is_known, after_search, fail_over_to, fail_over, execute_loop,
  execute_strongly_consistent, execute,
}
use typedb_driver.ServerManager.Failover.{Ran, execute_on-Ran}

module _ {A Conn W R : Type 0} ⦃e : Eq A⦄ (env : Env A Conn W) (task : Conn → M A Conn W R) where
  after_search-cases :
      (errors : List (A × Error A)) (next : AvailableServer A → M A Conn W R)
      (p : Outcome (Error A) (AvailableServer A) × State A Conn W)
      → ((r : AvailableServer A) × (u : State A Conn W) × (after_search env task errors next p
            ≡ next r u))
        ⊎ (((u : State A Conn W) × (after_search env task errors next p
                ≡ (err (failed_err env errors u.manager), u)))
            ⊎ ((u : State A Conn W) × (after_search env task errors next p ≡ (panic, u))))
  after_search-cases errors next (ok r, u) = inl (r, u, refl)
  after_search-cases errors next (err _, u) = inr (inl (u, refl))
  after_search-cases errors next (panic, u) = inr (inr (u, refl))

  -- A failover goes on with some server, or gives up, or unwinds.
  fail_over_to-cases :
      (retries : ℕ) (y : ConnectionError A) (primary : AvailableServer A)
      (errors : List (A × Error A)) (next : AvailableServer A → M A Conn W R)
      (o : Option (AvailableServer A)) (s : State A Conn W)
      → ((r : AvailableServer A) × (u : State A Conn W) × (fail_over_to env task retries y primary
              errors next o s
            ≡ next r u))
        ⊎ (((u : State A Conn W) × (fail_over_to env task retries y primary errors next o s
                ≡ (err (failed_err env errors u.manager), u)))
            ⊎ ((u : State A Conn W) × (fail_over_to env task retries y primary errors next o s
                  ≡ (panic, u))))
  fail_over_to-cases retries y primary errors next (some r) s = inl (r, s, refl)
  fail_over_to-cases retries y primary errors next none s = after_search-cases errors next _

  -- An attempt is the last one, or the next one follows, or the loop gives up, or unwinds.
  pub execute_loop-cases :
      (retries left : ℕ) (primary : AvailableServer A) (errors : List (A × Error A))
      (s : State A Conn W)
      → let first = execute_on env task (Server.address primary) primary.private_address s in
        let whole = execute_loop env task retries (suc left) primary errors s in
        ((whole ≡ first) × ((y : ConnectionError A) → first.0 ≢ err (connection y)))
        ⊎ (((r : AvailableServer A) × (l : List (A × Error A)) × (u : State A Conn W) × (whole
                ≡ execute_loop env task retries left r l u))
            ⊎ (((l : List (A × Error A)) × (u : State A Conn W) × (whole
                    ≡ (err (failed_err env l u.manager), u)))
                ⊎ ((u : State A Conn W) × (whole ≡ (panic, u)))))
  unfolding execute_loop fail_over
  execute_loop-cases retries left primary errors s =
      let first = execute_on env task (Server.address primary) primary.private_address s in
      let met : ConnectionError A → List (A × Error A) =
        λ y. Maps.insert (Server.address primary) (connection y) errors in
      let loop : ConnectionError A → AvailableServer A → M A Conn W R =
        λ y next. execute_loop env task retries left next (met y) in
      elim (on_connection_error-cases first
        λ y. fail_over env task retries y primary (met y) (loop y)) [
          | inl final ↦ inl final
          | inr (y, _, same) ↦
              elim (fail_over_to-cases retries y primary (met y) (loop y) (hinted y first.1.manager)
                first.1) [
                  | inl (r, u, went) ↦ inr (inl (r, met y, u, same ∙ went))
                  | inr (inl (u, gave_up)) ↦ inr (inr (inl (met y, u, same ∙ gave_up)))
                  | inr (inr (u, unwound)) ↦ inr (inr (inr (u, same ∙ unwound)))
                ]
        ]

  execute_loop-Ran :
      (retries left : ℕ) (primary : AvailableServer A) (errors : List (A × Error A))
      (s : State A Conn W) (x : R)
      → (execute_loop env task retries left primary errors s).0 ≡ ok x
      → Ran env task x (execute_loop env task retries left primary errors s).1
  unfolding execute_loop
  execute_loop-Ran retries zero primary errors s x h = cc
  execute_loop-Ran retries (suc left) primary errors s x h =
      elim (execute_loop-cases retries left primary errors s) [
        | inl (same, _) ↦ rw same (
            execute_on-Ran env task (Server.address primary) primary.private_address s x
              (rw same at h))
        | inr (inl (r, l, u, same)) ↦ rw same (execute_loop-Ran retries left r l u x (rw same at h))
        | inr (inr (inl (l, u, same))) ↦ (let failed = rw same at h in cc)
        | inr (inr (inr (u, same))) ↦ (let failed = rw same at h in cc)
      ]

  execute_strongly_consistent-Ran :
      (s : State A Conn W) (x : R)
      → (execute_strongly_consistent env task s).0 ≡ ok x
      → Ran env task x (execute_strongly_consistent env task s).1
  unfolding execute_strongly_consistent
  execute_strongly_consistent-Ran s x h =
      let found = get_or_seek_primary_replica env s.retries s in
      let loop : AvailableServer A → M A Conn W R =
        λ r. execute_loop env task s.retries (suc s.retries) r [] in
      let (r, got, ran) = bind-eq-ok found loop x h in
      rw (bind-ok found loop r got) (execute_loop-Ran s.retries (suc s.retries) r [] found.1 x ran)

  -- A result of a routed operation is the result of a run of its task on some connection, and the
  -- operation ends in the state in which that run ended.
  pub execute-Ran :
      (routing : ServerRouting A) (s : State A Conn W) (x : R)
      → (execute env task routing s).0 ≡ ok x
      → Ran env task x (execute env task routing s).1
  unfolding execute
  execute-Ran auto s x h = execute_strongly_consistent-Ran s x h
  execute-Ran (direct a) s x h = elim (Bool-cases (is_known a s.manager)) [
    | inl known ↦ rw (known, execute) (execute_on-Ran env task a _ s x (rw (known, execute) at h))
    | inr unknown ↦ (let refused = rw (unknown, execute) at h in cc)
  ]
