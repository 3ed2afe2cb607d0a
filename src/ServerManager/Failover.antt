-- ===== src/ServerManager/Failover.antt =====
-- Where the result of a failover comes from, and what a search for the primary establishes
-- (rust/src/connection/server/server_manager.rs).
use typedb_driver.Common.{
  ℕ, zero, suc, ◌≡◌, refl, ap, ◌≢◌, inl, inr, true, ◌&&◌, Option, none, some, List, [], ◌∷◌, arith,
  ltb, Bool-cases, Eq, nat_eq, Outcome, ok, err, panic,
}
use typedb_driver.Common.Maps
use typedb_driver.Errors.{Error, connection}
use typedb_driver.Server
use typedb_driver.Server.{AvailableServer}
use mathlib.Core.Path.{subst}
use typedb_driver.ServerManager.{
  Env, State, M, pure, on_connection_error-cases, find_primary, bind-ok, bind-eq-ok,
}
use typedb_driver.ServerManager.Connections.{
  connection_for, execute_on, execute_on_any, refresh_replica_connections,
}
use typedb_driver.ServerManager.Seek.{
  fetch_servers_from_connection, choose_primary, adopt, seek_primary_replica,
  try_seek_primary_replica_in, is_stale, after_attempt, seek_loop, seek_primary_replica_in,
}
use typedb_driver.ServerManager.Primary.{IsLatestPrimary, find_primary-some}
use typedb_driver.ServerManager.Refresh.{privates, Refreshed, refresh-Refreshed}

module _ {A Conn W : Type 0} ⦃e : Eq A⦄ (env : Env A Conn W) where
  -- A run of the task returned `x` and ended in the state `t`.
  abbrev pub Ran : {R : Type 0} → (Conn → M A Conn W R) → R → State A Conn W → Type 0
  Ran task x t = (c : Conn) × (u : State A Conn W) × (task c u ≡ (ok x, t))

  pair_eq :
      {R : Type 0} (p : Outcome (Error A) R × State A Conn W) (x : R) → p.0 ≡ ok x → p ≡ (ok x, p.1)
  pair_eq (o, s) x h = rw h

  module _ {R : Type 0} (task : Conn → M A Conn W R) where
    pub execute_on-Ran :
        (public_address private_address : A) (s : State A Conn W) (x : R)
        → (execute_on env task public_address private_address s).0 ≡ ok x
        → Ran task x (execute_on env task public_address private_address s).1
    unfolding execute_on
    execute_on-Ran public_address private_address s x h =
        let found = connection_for env public_address private_address s in
        let (c, got, ran) = bind-eq-ok found task x h in
        (c, found.1, rw (bind-ok found task c got) (pair_eq (task c found.1) x ran))

    pub execute_on_any-Ran :
        (l : List (AvailableServer A)) (errors : List (A × Error A)) (s : State A Conn W) (x : R)
        → (execute_on_any env task l errors s).0 ≡ ok x
        → Ran task x (execute_on_any env task l errors s).1
    unfolding execute_on_any
    execute_on_any-Ran [] errors s x h = cc
    execute_on_any-Ran (r ∷ l) errors s x h =
        let first = execute_on env task (Server.address r) r.private_address s in
        elim (on_connection_error-cases first
          λ y. execute_on_any env task l (Maps.insert (Server.address r) (connection y) errors)) [
            | inl (same, _) ↦
                rw same (execute_on-Ran (Server.address r) r.private_address s x (rw same at h))
            | inr (y, _, same) ↦ rw same (execute_on_any-Ran l _ first.1 x (rw same at h))
          ]

  -- The server `r` that a search found is the primary with the greatest term in the refreshed
  -- state `t`, whose connections, at least one, are those of its replicas.
  pub record IsFound (r : AvailableServer A) (t : State A Conn W) : Type 0 where
    pub latest : IsLatestPrimary r t.replicas
    pub known :
        (a : A)
        → Maps.contains (Maps.keys t.replica_connections) a ≡ true
        → Maps.contains (privates t.replicas) a ≡ true
    pub connected : t.replica_connections ≢ []

  Refreshed-IsFound :
      (r : AvailableServer A) (s t : State A Conn W)
      → find_primary s.replicas ≡ some r
      → Refreshed env s t
      → IsFound r t
  Refreshed-IsFound r s t found h = record {
    latest = rw (h.same_replicas) (find_primary-some s.replicas r found);
    known = λ a k. rw (h.same_replicas) (h.known a k);
    connected = h.connected;
  }

  choose-IsFound :
      (o : Option (AvailableServer A)) (r : AvailableServer A) (s : State A Conn W)
      → find_primary s.replicas ≡ o
      → (choose_primary env o s).0 ≡ ok r
      → IsFound r (choose_primary env o s).1
  unfolding choose_primary
  choose-IsFound none r s found h = cc
  choose-IsFound (some q) r s found h =
      let (u, refreshed, same) = bind-eq-ok (refresh_replica_connections env s) (λ _. pure q) r h in
      let one : q ≡ r = ground arith in
      rw (bind-ok (refresh_replica_connections env s) (λ _. pure q) u refreshed) (
        subst (λ y. IsFound y (refresh_replica_connections env s).1) one
          (Refreshed-IsFound q s _ found (refresh-Refreshed env s refreshed)))

  seek_primary_replica-IsFound :
      (c : Conn) (s : State A Conn W) (r : AvailableServer A)
      → (seek_primary_replica env c s).0 ≡ ok r
      → IsFound r (seek_primary_replica env c s).1
  unfolding seek_primary_replica
  seek_primary_replica-IsFound c s r h =
      let fetched = fetch_servers_from_connection env c s.address_translation s in
      let (l, got, rest) = bind-eq-ok fetched (λ l. adopt env l) r h in
      rw (bind-ok fetched (λ l. adopt env l) l got) (choose-IsFound _ r _ refl rest)

  try_seek-IsFound :
      (sources : List (AvailableServer A)) (s : State A Conn W) (r : AvailableServer A)
      → (try_seek_primary_replica_in env sources s).0 ≡ ok r
      → IsFound r (try_seek_primary_replica_in env sources s).1
  unfolding try_seek_primary_replica_in
  try_seek-IsFound sources s r h =
      let (c, u, ran) = execute_on_any-Ran (seek_primary_replica env) sources [] s r h in
      subst (IsFound r) (ap (λ p. p.1) ran) (seek_primary_replica-IsFound c u r (ap (λ p. p.0) ran))

  after_attempt-IsFound :
      (different : Option A) (left : ℕ) (last : Option (Error A))
      (next : Option (Error A) → M A Conn W (AvailableServer A))
      (p : Outcome (Error A) (AvailableServer A) × State A Conn W) (r : AvailableServer A)
      → ((q : AvailableServer A) → p.0 ≡ ok q → IsFound q p.1)
      → ((x : Option (Error A)) (u : State A Conn W) → (next x u).0 ≡ ok r → IsFound r (next x u).1)
      → (after_attempt env different left last next p).0 ≡ ok r
      → IsFound r (after_attempt env different left last next p).1
  unfolding after_attempt
  after_attempt-IsFound different left last next (ok q, s) r now later h =
      elim (Bool-cases (is_stale different q && ltb 0 left)) [
        | inl again ↦ rw (again, after_attempt) (later last _ (rw (again, after_attempt) at h))
        | inr done ↦ rw (done, after_attempt) (now r (rw (done, after_attempt) at h))
      ]
  after_attempt-IsFound different left last next (err x, s) r now later h =
      elim (Bool-cases (ltb 0 left)) [
        | inl again ↦ rw (again, after_attempt) (later (some x) _ (rw (again, after_attempt) at h))
        | inr final ↦ rw (final, after_attempt) (later (some x) _ (rw (final, after_attempt) at h))
      ]
  after_attempt-IsFound different left last next (panic, s) r now later h = cc

  seek_loop-IsFound :
      (sources : List (AvailableServer A)) (different : Option A) (left : ℕ)
      (last : Option (Error A)) (s : State A Conn W) (r : AvailableServer A)
      → (seek_loop env sources different left last s).0 ≡ ok r
      → IsFound r (seek_loop env sources different left last s).1
  unfolding seek_loop
  seek_loop-IsFound sources different zero none s r h = cc
  seek_loop-IsFound sources different zero (some x) s r h = cc
  seek_loop-IsFound sources different (suc left) last s r h =
      after_attempt-IsFound different left last _ (try_seek_primary_replica_in env sources s) r
        (λ q. try_seek-IsFound sources s q) (λ x u. seek_loop-IsFound sources different left x u r)
        h

  -- A server that the search for the primary returns is the primary with the greatest term among the
  -- replicas then known, and every connection then held, at least one, is to a known replica.
  pub seek_primary_replica_in-IsFound :
      (sources : List (AvailableServer A)) (retries : ℕ) (different : Option A) (s : State A Conn W)
      (r : AvailableServer A)
      → (seek_primary_replica_in env sources retries different s).0 ≡ ok r
      → IsFound r (seek_primary_replica_in env sources retries different s).1
  unfolding seek_primary_replica_in
  seek_primary_replica_in-IsFound sources retries different s r h =
      seek_loop-IsFound sources different (suc retries) none s r h
