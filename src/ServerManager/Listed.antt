-- ===== src/ServerManager/Listed.antt =====
-- Which errors a search for a primary reports (rust/src/connection/server/server_manager.rs).
use typedb_driver.Common.{
  ℕ, zero, suc, ◌≡◌, refl, sym, ◌≢◌, ◌⊎◌, inl, inr, ◌&&◌, Option, none, some, List, [], ◌∷◌, map,
  Bytes, codes, arith, ltb, Bool-cases, Eq, nat_eq, Outcome, ok, err, panic,
}
use mathlib.Core.Path.{subst}
use typedb_driver.Address.{from_addresses}
use typedb_driver.Common.Maps
use typedb_driver.Errors.{Error, connection, ConnectionError, server_connection_failed}
use typedb_driver.Server
use typedb_driver.Server.{AvailableServer, ServerRouting, auto, direct}
use typedb_driver.ServerManager.{
  Env, Manager, State, M, as_connection, on_connection_error-cases, failed_err, error_details,
  find_primary,
}
use typedb_driver.ServerManager.Connections.{execute_on, execute_on_any}
use typedb_driver.ServerManager.Seek.{
  seek_primary_replica, try_seek_primary_replica_in, is_stale, has_no_status, after_attempt,
  seek_loop, seek_primary_replica_in, seek_cached, cached_or_seek, get_or_seek_primary_replica,
}

pub not_connection :
    {A : Type 0} (z : Error A)
    → ((y : ConnectionError A) → z ≢ connection y)
    → as_connection z ≡ none
not_connection (Error.connection y) h = absurd (h y refl)
not_connection (Error.analyze y) h = refl
not_connection _ h = refl

-- A failure that lists the configured servers, the known ones, and `errors`.
abbrev pub IsFailure :
    {A Conn W : Type 0} (env : Env A Conn W)
    → List (A × Error A)
    → Manager A Conn
    → Error A
    → Type 0
IsFailure env errors m z =
    (details : Bytes) × (z
      ≡ connection (
          server_connection_failed m.configured_addresses
            (from_addresses (map Server.address m.replicas)) details))
    × (((errors ≡ []) × (details ≡ codes "none"))
        ⊎ ((errors ≢ []) × (details ≡ error_details env errors)))

pub failed_err-IsFailure :
    {A Conn W : Type 0} (env : Env A Conn W) (errors : List (A × Error A)) (m : Manager A Conn)
    → IsFailure env errors m (failed_err env errors m)
unfolding failed_err
failed_err-IsFailure env [] m = (_, refl, inl (refl, refl))
failed_err-IsFailure env (x ∷ l) m = (_, refl, inr (λ h. cc, refl))

module _ {A Conn W : Type 0} ⦃e : Eq A⦄ (env : Env A Conn W) where
  -- Not a connection error, or a failure that lists servers: what a single server answered, for example
  -- that it is not the primary, is not reported.
  abbrev pub IsListed : Error A → Type 0
  IsListed z =
      (as_connection z ≡ none)
      ⊎ ((errors : List (A × Error A)) × (m : Manager A Conn) × IsFailure env errors m z)

  abbrev IsListedBy : {X : Type 0} → Outcome (Error A) X × State A Conn W → Type 0
  IsListedBy p = (z : Error A) → p.0 ≡ err z → IsListed z

  execute_on_any-IsListed :
      {R : Type 0} (task : Conn → M A Conn W R) (l : List (AvailableServer A))
      (errors : List (A × Error A)) (s : State A Conn W)
      → IsListedBy (execute_on_any env task l errors s)
  unfolding execute_on_any
  execute_on_any-IsListed task [] errors s z h =
      (let same : failed_err env errors s.manager ≡ z = ground arith in
        inr (
          errors,
          s.manager,
          subst (IsFailure env errors s.manager) same (failed_err-IsFailure env errors s.manager),
        ))
  execute_on_any-IsListed task (r ∷ l) errors s z h =
      let first = execute_on env task (Server.address r) r.private_address s in
      elim (on_connection_error-cases first
        λ y. execute_on_any env task l (Maps.insert (Server.address r) (connection y) errors)) [
          | inl (same, other) ↦ inl (not_connection z λ y q. other y (ground arith))
          | inr (y, _, same) ↦ execute_on_any-IsListed task l _ first.1 z (rw same at h)
        ]

  after_attempt-IsListed :
      (different : Option A) (left : ℕ) (last : Option (Error A))
      (next : Option (Error A) → M A Conn W (AvailableServer A))
      (p : Outcome (Error A) (AvailableServer A) × State A Conn W)
      → IsListedBy p
      → ((u : State A Conn W) → IsListedBy (next last u))
      → ((x : Error A) (u : State A Conn W) → IsListed x → IsListedBy (next (some x) u))
      → IsListedBy (after_attempt env different left last next p)
  unfolding after_attempt
  after_attempt-IsListed different left last next (ok r, s) now again later z h =
      elim (Bool-cases (is_stale different r && ltb 0 left)) [
        | inl stale ↦ again _ z (rw (stale, after_attempt) at h)
        | inr done ↦ (let returned = rw (done, after_attempt) at h in cc)
      ]
  after_attempt-IsListed different left last next (err x, s) now again later z h =
      elim (Bool-cases (ltb 0 left)) [
        | inl more ↦ later x _ (now x refl) z (rw (more, after_attempt) at h)
        | inr final ↦ later x _ (now x refl) z (rw (final, after_attempt) at h)
      ]
  after_attempt-IsListed different left last next (panic, s) now again later z h = cc

  abbrev IsListedLast : Option (Error A) → Type 0
  IsListedLast none = Unit
  IsListedLast (some x) = IsListed x

  seek_loop-IsListed :
      (sources : List (AvailableServer A)) (different : Option A) (left : ℕ)
      (last : Option (Error A)) (s : State A Conn W)
      → IsListedLast last
      → IsListedBy (seek_loop env sources different left last s)
  unfolding seek_loop try_seek_primary_replica_in
  seek_loop-IsListed sources different zero none s met z h = cc
  seek_loop-IsListed sources different zero (some x) s met z h =
      (let one : x ≡ z = ground arith in rw (sym one) met)
  seek_loop-IsListed sources different (suc left) last s met z h =
      after_attempt-IsListed different left last _ _
        (execute_on_any-IsListed (seek_primary_replica env) sources [] s)
        (λ u. seek_loop-IsListed sources different left last u met)
        (λ x u. seek_loop-IsListed sources different left (some x) u) z h

  seek_primary_replica_in-IsListed :
      (sources : List (AvailableServer A)) (retries : ℕ) (different : Option A) (s : State A Conn W)
      → IsListedBy (seek_primary_replica_in env sources retries different s)
  unfolding seek_primary_replica_in
  seek_primary_replica_in-IsListed sources retries different s z h =
      seek_loop-IsListed sources different (suc retries) none s tt z h

  seek_cached-IsListed :
      (retries : ℕ) (l : List (AvailableServer A)) (s : State A Conn W)
      → IsListedBy (seek_cached env retries l s)
  unfolding seek_cached
  seek_cached-IsListed retries [] s z h = seek_primary_replica_in-IsListed [] retries none s z h
  seek_cached-IsListed retries (r ∷ []) s z h = elim (Bool-cases (has_no_status r)) [
    | inl alone ↦ (let returned = rw (alone, seek_cached) at h in cc)
    | inr listed ↦
        seek_primary_replica_in-IsListed (r ∷ []) retries none s z (rw (listed, seek_cached) at h)
  ]
  seek_cached-IsListed retries (r ∷ r' ∷ l) s z h =
      seek_primary_replica_in-IsListed (r ∷ r' ∷ l) retries none s z h

  cached_or_seek-IsListed :
      (retries : ℕ) (o : Option (AvailableServer A)) (s : State A Conn W)
      → IsListedBy (cached_or_seek env retries o s)
  unfolding cached_or_seek
  cached_or_seek-IsListed retries (some r) s z h = cc
  cached_or_seek-IsListed retries none s z h = seek_cached-IsListed retries _ s z h

  pub get_or_seek_primary_replica-IsListed :
      (retries : ℕ) (s : State A Conn W) → IsListedBy (get_or_seek_primary_replica env retries s)
  unfolding get_or_seek_primary_replica
  get_or_seek_primary_replica-IsListed retries s =
      cached_or_seek-IsListed retries (find_primary s.replicas) s
