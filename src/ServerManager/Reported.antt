-- ===== src/ServerManager/Reported.antt =====
-- Which errors an operation with automatic routing reports
-- (rust/src/connection/server/server_manager.rs).
use typedb_driver.Common.{
  ℕ, zero, suc, ◌+◌, ◌≡◌, refl, ap, ◌≢◌, inl, inr, Option, none, some, List, [], arith, Eq, nat_eq,
  Outcome, ok, err, panic,
}
use mathlib.Core.Path.{subst}
use typedb_driver.Common.Maps
use typedb_driver.Errors.{Error, connection, ConnectionError}
use typedb_driver.Server
use typedb_driver.Server.{AvailableServer}
use typedb_driver.ServerManager.{
  Env, State, M, bind, as_connection, on_connection_error-cases, failed_err,
}
use typedb_driver.ServerManager.Connections.{execute_on}
use typedb_driver.ServerManager.Seek.{
  seek_primary_replica_in, get_or_seek_primary_replica, failover_candidates,
}
use typedb_driver.ServerManager.Listed.{
  not_connection, IsFailure, failed_err-IsFailure, IsListed, get_or_seek_primary_replica-IsListed,
}
use typedb_driver.ServerManager.Execute.{
  after_search, fail_over_to, hinted, fail_over, execute_loop, execute_strongly_consistent,
}

module _ {A Conn W R : Type 0} ⦃e : Eq A⦄ (env : Env A Conn W) (task : Conn → M A Conn W R) where
  -- The attempt on a server.
  abbrev pub attempt : AvailableServer A → M A Conn W R
  attempt r s = execute_on env task (Server.address r) r.private_address s

  -- Another primary is searched for after the connection error `y` on `r`.
  abbrev pub search : ℕ → ConnectionError A → AvailableServer A → M A Conn W (AvailableServer A)
  search retries y r s =
      seek_primary_replica_in env (failover_candidates env r.private_address y s.manager) retries
        (some r.private_address) s

  -- `Tried s n r errors u`: from `s`, `n` attempts met the connection errors `errors`, by the addresses of
  -- the servers, and the next one is to be on `r`, in the state `u`.
  pub data Tried (s : State A Conn W)
      : ℕ → AvailableServer A → List (A × Error A) → State A Conn W → Type 0 where
    first :
        {r : AvailableServer A} {u : State A Conn W}
        → get_or_seek_primary_replica env s.retries s ≡ (ok r, u)
        → Tried s 0 r [] u
    on_hint :
        {n : ℕ} {r next : AvailableServer A} {errors : List (A × Error A)} {u v : State A Conn W}
        → Tried s n r errors u
        → (y : ConnectionError A) → attempt r u ≡ (err (connection y), v)
        → hinted y v.manager ≡ some next
        → Tried s (suc n) next (Maps.insert (Server.address r) (connection y) errors) v
    on_search :
        {n : ℕ} {r next : AvailableServer A} {errors : List (A × Error A)} {u v w : State A Conn W}
        → Tried s n r errors u
        → (y : ConnectionError A) → attempt r u ≡ (err (connection y), v)
        → hinted y v.manager ≡ none
        → search s.retries y r v ≡ (ok next, w)
        → Tried s (suc n) next (Maps.insert (Server.address r) (connection y) errors) w

  -- `z` is reported from `s`, in the state `t`.
  pub data Reported (s : State A Conn W) (z : Error A) (t : State A Conn W) : Type 0 where
    unfound :
        get_or_seek_primary_replica env s.retries s ≡ (err z, t) → IsListed env z → Reported s z t
    answered :
        {n : ℕ} {r : AvailableServer A} {errors : List (A × Error A)} {u : State A Conn W}
        → Tried s n r errors u
        → attempt r u ≡ (err z, t)
        → as_connection z ≡ none
        → Reported s z t
    exhausted :
        {r : AvailableServer A} {errors : List (A × Error A)}
        → Tried s (suc s.retries) r errors t
        → IsFailure env errors t.manager z
        → Reported s z t
    unsearched :
        {n : ℕ} {r : AvailableServer A} {errors : List (A × Error A)} {u v : State A Conn W}
        → Tried s n r errors u
        → (y : ConnectionError A) (x : Error A) → attempt r u ≡ (err (connection y), v)
        → hinted y v.manager ≡ none
        → search s.retries y r v ≡ (err x, t)
        → IsFailure env (Maps.insert (Server.address r) (connection y) errors) t.manager z
        → Reported s z t

  abbrev IsReportedBy : State A Conn W → Outcome (Error A) R × State A Conn W → Type 0
  IsReportedBy s (ok x, t) = Unit
  IsReportedBy s (err z, t) = Reported s z t
  IsReportedBy s (panic, t) = Unit

  final-IsReportedBy :
      (s : State A Conn W) {n : ℕ} {r : AvailableServer A} {errors : List (A × Error A)}
      {u : State A Conn W} (p : Outcome (Error A) R × State A Conn W)
      → Tried s n r errors u
      → attempt r u ≡ p
      → ((y : ConnectionError A) → p.0 ≢ err (connection y))
      → IsReportedBy s p
  final-IsReportedBy s (ok x, t) tried made other = tt
  final-IsReportedBy s (err z, t) tried made other =
      answered tried made (not_connection z λ y q. other y (ap (λ x. err x) q))
  final-IsReportedBy s (panic, t) tried made other = tt

  -- What follows the search, if it succeeds, is to be as `IsReportedBy` says.
  searched-IsReportedBy :
      (s : State A Conn W) (errors : List (A × Error A)) (next : AvailableServer A → M A Conn W R)
      (p : Outcome (Error A) (AvailableServer A) × State A Conn W)
      → ((r : AvailableServer A) (w : State A Conn W) → p ≡ (ok r, w) → IsReportedBy s (next r w))
      → ((x : Error A) (w : State A Conn W)
          → p ≡ (err x, w)
          → Reported s (failed_err env errors w.manager) w)
      → IsReportedBy s (after_search env task errors next p)
  searched-IsReportedBy s errors next (ok r, w) more stop = more r w refl
  searched-IsReportedBy s errors next (err x, w) more stop = stop x w refl
  searched-IsReportedBy s errors next (panic, w) more stop = tt

  hinted-IsReportedBy :
      (s : State A Conn W) (y : ConnectionError A) (r : AvailableServer A)
      (errors : List (A × Error A)) (next : AvailableServer A → M A Conn W R)
      (o : Option (AvailableServer A)) (v : State A Conn W)
      → ((r' : AvailableServer A) → o ≡ some r' → IsReportedBy s (next r' v))
      → (o ≡ none → IsReportedBy s (after_search env task errors next (search s.retries y r v)))
      → IsReportedBy s (fail_over_to env task s.retries y r errors next o v)
  hinted-IsReportedBy s y r errors next (some r') v known unknown = known r' refl
  hinted-IsReportedBy s y r errors next none v known unknown = unknown refl

  pair : {X Y : Type 0} (p : X × Y) (x : X) → p.0 ≡ x → p ≡ (x, p.1)
  pair (x', y) x h = ap (λ c. (c, y)) h

  loop-IsReportedBy :
      (s : State A Conn W) (n left : ℕ) (r : AvailableServer A) (errors : List (A × Error A))
      (u : State A Conn W)
      → n + left ≡ suc s.retries
      → Tried s n r errors u
      → IsReportedBy s (execute_loop env task s.retries left r errors u)
  unfolding execute_loop fail_over
  loop-IsReportedBy s n zero r errors u bound tried =
      (let all : n ≡ suc s.retries = omega arith in
        exhausted (subst (λ k. Tried s k r errors u) all tried)
          (failed_err-IsFailure env errors u.manager))
  loop-IsReportedBy s n (suc left) r errors u bound tried =
      let met : ConnectionError A → List (A × Error A) =
        λ y. Maps.insert (Server.address r) (connection y) errors in
      let next : ConnectionError A → AvailableServer A → M A Conn W R =
        λ y r'. execute_loop env task s.retries left r' (met y) in
      elim (on_connection_error-cases (attempt r u)
        λ y. fail_over env task s.retries y r (met y) (next y)) [
          | inl (same, other) ↦ rw same (final-IsReportedBy s (attempt r u) tried refl other)
          | inr (y, failed, same) ↦
              let made = pair (attempt r u) (err (connection y)) failed in
              let v = (attempt r u).1 in
              rw same (
                hinted-IsReportedBy s y r (met y) (next y) (hinted y v.manager) v
                  (λ r' hint.
                    loop-IsReportedBy s (suc n) left r' (met y) v (omega arith)
                      (on_hint tried y made hint))
                  λ unhinted.
                    searched-IsReportedBy s (met y) (next y) (search s.retries y r v)
                      (λ r' w found.
                        loop-IsReportedBy s (suc n) left r' (met y) w (omega arith)
                          (on_search tried y made unhinted found))
                      λ x w lost.
                        unsearched tried y x made unhinted lost
                          (failed_err-IsFailure env (met y) w.manager))
        ]

  start-IsReportedBy :
      (s : State A Conn W) (p : Outcome (Error A) (AvailableServer A) × State A Conn W)
      → get_or_seek_primary_replica env s.retries s ≡ p
      → IsReportedBy s (bind p λ r. execute_loop env task s.retries (suc s.retries) r [])
  start-IsReportedBy s (ok r, u) found =
      loop-IsReportedBy s 0 (suc s.retries) r [] u (omega arith) (first found)
  start-IsReportedBy s (err z, t) lost =
      unfound lost (get_or_seek_primary_replica-IsListed env s.retries s z (ap (λ p. p.0) lost))
  start-IsReportedBy s (panic, t) unwound = tt

  outcome-Reported :
      (s : State A Conn W) (p : Outcome (Error A) R × State A Conn W) (z : Error A)
      → IsReportedBy s p
      → p.0 ≡ err z
      → Reported s z p.1
  outcome-Reported s (ok x, t) z h same = cc
  outcome-Reported s (err z', t) z h same =
      (let one : z' ≡ z = ground arith in subst (λ x. Reported s x t) one h)
  outcome-Reported s (panic, t) z h same = cc

  -- If an operation with automatic routing fails, then the first search for a primary failed with
  -- this error, which is no connection error or a failure that lists servers; or an attempt failed
  -- with it and it is not a connection error; or it is the failure that lists the configured
  -- servers, the servers known at the end and, by address, the connection errors of the attempts
  -- made: of all the attempts allowed, one more than the retries, or of those before a search for
  -- another primary failed. Each attempt is on the primary that was found first, on the one that
  -- the error before it hints at, or on the one that the search after that error found.
  pub execute_strongly_consistent-Reported :
      (s : State A Conn W) (z : Error A)
      → (execute_strongly_consistent env task s).0 ≡ err z
      → Reported s z (execute_strongly_consistent env task s).1
  unfolding execute_strongly_consistent
  execute_strongly_consistent-Reported s z h =
      outcome-Reported s (execute_strongly_consistent env task s) z
        (start-IsReportedBy s (get_or_seek_primary_replica env s.retries s) refl) h
