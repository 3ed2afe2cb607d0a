-- ===== src/ServerManager/Attempts.antt =====
-- The loops of routed execution: no panic, a bound on the runs of the task, and where the outcome
-- comes from (rust/src/connection/server/server_manager.rs).
use typedb_driver.Common.{
  ℕ, zero, suc, ◌+◌, ◌≤◌, refl, ◌≢◌, inl, inr, Option, none, some, List, [], arith, Eq, nat_eq,
  Outcome, ok, err, panic,
}
use typedb_driver.Common.Maps
use typedb_driver.Errors.{Error, connection, ConnectionError}
use typedb_driver.Server
use typedb_driver.Server.{AvailableServer, ServerRouting, auto, direct, get_or}
use typedb_driver.ServerManager.{Env, State, M, on_connection_error-cases}
use typedb_driver.ServerManager.Connections.{execute_on}
use typedb_driver.ServerManager.Seek.{get_or_seek_primary_replica}
use typedb_driver.ServerManager.Execute.{
  hinted, after_search, fail_over_to, fail_over, execute_loop, execute_strongly_consistent,
}
use typedb_driver.ServerManager.Safety.{
  IsSafe, bind-IsSafe, IsSafeEnv, execute_on-IsSafe, seek_primary_replica_in-IsSafe,
  get_or_seek-IsSafe,
}

-- At most `k` runs of the task, of those that `calls` counts.
abbrev pub AtMost : {W : Type 0} → (W → ℕ) → ℕ → W → Type 0
AtMost calls k w = calls w ≤ k

-- The calls of the environment neither panic nor run the task.
abbrev pub IsQuietEnv : {A Conn W : Type 0} → Env A Conn W → (W → ℕ) → Type 0
IsQuietEnv env calls = (k : ℕ) → IsSafeEnv env (AtMost calls k)

-- The task does not panic, and one run of it counts as one at most.
abbrev pub IsCountedTask : {A Conn W R : Type 0} → (W → ℕ) → (Conn → M A Conn W R) → Type 0
IsCountedTask {A} {Conn} {W} calls task =
    (c : Conn) (s : State A Conn W)
    → ((task c s).0 ≢ panic) × (calls (task c s).1.world ≤ suc (calls s.world))

module _ {A Conn W R : Type 0} ⦃e : Eq A⦄ (env : Env A Conn W) (calls : W → ℕ)
    (task : Conn → M A Conn W R) (quiet : IsQuietEnv env calls)
    (counted : IsCountedTask calls task) where
  run-IsSafe :
      (a b : A) (k : ℕ) (s : State A Conn W)
      → calls s.world ≤ k
      → IsSafe (AtMost calls (suc k)) (execute_on env task a b s)
  run-IsSafe a b k s h =
      execute_on-IsSafe env (AtMost calls k) (quiet k) (AtMost calls (suc k)) task
        (λ w i. omega arith)
        (λ c u i. ((counted c u).0, (let one = (counted c u).1 in omega arith))) a b s h

  after_search-IsSafe :
      (errors : List (A × Error A)) (next : AvailableServer A → M A Conn W R) (k n : ℕ)
      (p : Outcome (Error A) (AvailableServer A) × State A Conn W)
      → IsSafe (AtMost calls k) p
      → ((r : AvailableServer A) (u : State A Conn W)
          → calls u.world ≤ k
          → IsSafe (AtMost calls (k + n)) (next r u))
      → IsSafe (AtMost calls (k + n)) (after_search env task errors next p)
  after_search-IsSafe errors next k n (ok r, s) now later = later r s now.1
  after_search-IsSafe errors next k n (err x, s) now later =
      ((λ q. cc), (let before = now.1 in omega arith))
  after_search-IsSafe errors next k n (panic, s) now later = absurd (now.0 refl)

  fail_over_to-IsSafe :
      (retries : ℕ) (x : ConnectionError A) (primary : AvailableServer A)
      (errors : List (A × Error A)) (next : AvailableServer A → M A Conn W R)
      (o : Option (AvailableServer A)) (k n : ℕ) (s : State A Conn W)
      → calls s.world ≤ k
      → ((r : AvailableServer A) (u : State A Conn W)
          → calls u.world ≤ k
          → IsSafe (AtMost calls (k + n)) (next r u))
      → IsSafe (AtMost calls (k + n)) (fail_over_to env task retries x primary errors next o s)
  fail_over_to-IsSafe retries x primary errors next (some r) k n s h later = later r s h
  fail_over_to-IsSafe retries x primary errors next none k n s h later =
      after_search-IsSafe errors next k n _
        (seek_primary_replica_in-IsSafe env (AtMost calls k) (quiet k) _ retries
          (some primary.private_address) s h)
        later

  execute_loop-IsSafe :
      (retries left : ℕ) (primary : AvailableServer A) (errors : List (A × Error A)) (k : ℕ)
      (s : State A Conn W)
      → calls s.world ≤ k
      → IsSafe (AtMost calls (k + left)) (execute_loop env task retries left primary errors s)
  unfolding execute_loop fail_over
  execute_loop-IsSafe retries zero primary errors k s h = ((λ q. cc), (omega arith))
  execute_loop-IsSafe retries (suc left) primary errors k s h =
      let first = execute_on env task (Server.address primary) primary.private_address s in
      let now = run-IsSafe (Server.address primary) primary.private_address k s h in
      elim (on_connection_error-cases first λ y.
        fail_over env task retries y primary
          (Maps.insert (Server.address primary) (connection y) errors)
          (λ next.
            execute_loop env task retries left next
              (Maps.insert (Server.address primary) (connection y) errors))) [
                | inl (same, _) ↦ rw same (now.0, (let ran = now.1 in omega arith))
                | inr (y, _, same) ↦
                    let (fine, bound) =
                      fail_over_to-IsSafe retries y primary _ _ (hinted y first.1.manager) (suc k)
                        left first.1 now.1
                        (λ r u. execute_loop-IsSafe retries left r _ (suc k) u) in
                    rw (same, fail_over) (fine, omega arith)
              ]

  -- Routed execution does not panic, in particular it never unwraps a missing last error, and it runs
  -- the task at most once more than the configured retries.
  pub execute_strongly_consistent-IsSafe :
      (s : State A Conn W)
      → IsSafe
          (AtMost calls (calls s.world + suc s.retries))
          (execute_strongly_consistent env task s)
  unfolding execute_strongly_consistent
  execute_strongly_consistent-IsSafe s =
      bind-IsSafe (AtMost calls (calls s.world)) (AtMost calls (calls s.world + suc s.retries))
        (get_or_seek_primary_replica env s.retries s) _ (λ w i. omega arith)
        (get_or_seek-IsSafe env (AtMost calls (calls s.world)) (quiet (calls s.world)) s.retries s
          (omega arith))
        λ primary u i. execute_loop-IsSafe s.retries (suc s.retries) primary [] (calls s.world) u i
