-- ===== src/ServerManager/Safety.antt =====
-- What holds of every method of the server manager whatever the servers answer: no panic of its own,
-- and no effect on the world but that of its calls
-- (rust/src/connection/server/server_manager.rs).
use typedb_driver.Common.{
  ℕ, zero, suc, ◌<◌, refl, ◌≢◌, ◌⊎◌, inl, inr, ◌&&◌, Option, none, some, List, [], ◌∷◌, arith, ltb,
  Bool-cases, Eq, nat_eq, Outcome, ok, err, panic, Outcome-cases,
}
use typedb_driver.Common.Maps
use typedb_driver.Errors.{Error, connection}
use typedb_driver.Server
use typedb_driver.Server.{AvailableServer}
use typedb_driver.ServerManager.{
  Env, Manager, State, M, bind, pure, call, attempt, on_connection_error-cases, find_primary,
}
use typedb_driver.ServerManager.Connections.{
  new_replica_connection, record_new_replica_connection, open_missing, require_connected, install,
  held_or_new, connection_for, execute_on, execute_on_any, refresh_replica_connections,
}
use typedb_driver.ServerManager.Seek.{
  fetch_servers_from_connection, choose_primary, seek_primary_replica, try_seek_primary_replica_in,
  is_stale, has_no_status, after_attempt, seek_loop, seek_primary_replica_in, seek_cached,
  cached_or_seek, get_or_seek_primary_replica,
}

module _ {A Conn W : Type 0} where
  -- A result without a panic, in a world with `J`.
  abbrev pub IsSafe : {X : Type 0} → (W → Type 0) → Outcome (Error A) X × State A Conn W → Type 0
  IsSafe J p = (p.0 ≢ panic) × J p.1.world

module _ {A Conn W X Y : Type 0} (I J : W → Type 0) where
  pub bind-IsSafe :
      (p : Outcome (Error A) X × State A Conn W) (f : X → M A Conn W Y)
      → ((w : W) → I w → J w)
      → IsSafe I p
      → ((x : X) (u : State A Conn W) → I u.world → IsSafe J (f x u))
      → IsSafe J (bind p f)
  bind-IsSafe (ok x, s) f weaker h k = k x s h.1
  bind-IsSafe (err x, s) f weaker h k = ((λ q. cc), weaker s.world h.1)
  bind-IsSafe (panic, s) f weaker h k = absurd (h.0 refl)

-- The calls of the environment do not panic and keep `I`.
pub record IsSafeEnv {A Conn W : Type 0} (env : Env A Conn W) (I : W → Type 0) : Type 0 where
  pub connect : (a : A) (w : W) → I w → ((env.connect a w).0 ≢ panic) × I (env.connect a w).1
  pub servers_all :
      (c : Conn) (w : W) → I w → ((env.servers_all c w).0 ≢ panic) × I (env.servers_all c w).1
  pub wait : (w : W) → I w → I (env.wait w)

module _ {A Conn W : Type 0} ⦃e : Eq A⦄ (env : Env A Conn W) (I : W → Type 0)
    (safe : IsSafeEnv env I) where
  new_replica_connection-IsSafe :
      (a : A) (s : State A Conn W) → I s.world → IsSafe I (new_replica_connection env a s)
  unfolding new_replica_connection
  new_replica_connection-IsSafe a s h =
      bind-IsSafe I I (call (env.connect a) s) (λ r. pure r.0) (λ w i. i) (safe.connect a s.world h)
        λ x u i. ((λ q. cc), i)

  held_or_new-IsSafe :
      (a b : A) (o : Option Conn) (s : State A Conn W)
      → I s.world
      → IsSafe I (held_or_new env a b o s)
  unfolding record_new_replica_connection
  held_or_new-IsSafe a b (some c) s h = ((λ q. cc), h)
  held_or_new-IsSafe a b none s h =
      bind-IsSafe I I (new_replica_connection env a s) _ (λ w i. i)
        (new_replica_connection-IsSafe a s h) λ x u i. ((λ q. cc), i)

  connection_for-IsSafe :
      (a b : A) (s : State A Conn W) → I s.world → IsSafe I (connection_for env a b s)
  unfolding connection_for
  connection_for-IsSafe a b s h = held_or_new-IsSafe a b (Maps.lookup b s.replica_connections) s h

  open_missing-IsSafe :
      (known : List A) (l : List (AvailableServer A)) (new : List (A × Conn))
      (errors : List (A × Error A)) (s : State A Conn W)
      → I s.world
      → IsSafe I (open_missing env known l new errors s)
  unfolding open_missing
  open_missing-IsSafe known [] new errors s h = ((λ q. cc), h)
  open_missing-IsSafe known (r ∷ l) new errors s h =
      elim (Bool-cases (Maps.contains known r.private_address)) [
        | inl old ↦ rw (old, open_missing) (open_missing-IsSafe known l new errors s h)
        | inr missing ↦
            let opened = new_replica_connection-IsSafe (Server.address r) s h in
            elim (Outcome-cases (new_replica_connection env (Server.address r) s).0) [
              | inl (c, x) ↦
                  rw (missing, x, open_missing, attempt, bind)
                    (open_missing-IsSafe known l (Maps.insert r.private_address c new) errors _
                      opened.1)
              | inr (inl (error, x)) ↦
                  rw (missing, x, open_missing, attempt, bind)
                    (open_missing-IsSafe known l new (Maps.insert (Server.address r) error errors) _
                      opened.1)
              | inr (inr x) ↦ absurd (opened.0 x)
            ]
      ]

  require_connected-IsSafe :
      (table : List (A × Conn)) (errors : List (A × Error A)) (m : Manager A Conn)
      (s : State A Conn W)
      → I s.world
      → IsSafe I (require_connected env table errors m s)
  unfolding require_connected
  require_connected-IsSafe [] errors m s h = ((λ q. cc), h)
  require_connected-IsSafe (x ∷ l) errors m s h = ((λ q. cc), h)

  refresh-IsSafe : (s : State A Conn W) → I s.world → IsSafe I (refresh_replica_connections env s)
  unfolding refresh_replica_connections install
  refresh-IsSafe s h =
      bind-IsSafe I I (open_missing env (Maps.keys s.replica_connections) s.replicas [] [] s) _
        (λ w i. i) (open_missing-IsSafe _ s.replicas [] [] s h)
        λ x u i. require_connected-IsSafe _ x.1 _ _ i

  choose_primary-IsSafe :
      (o : Option (AvailableServer A)) (s : State A Conn W)
      → I s.world
      → IsSafe I (choose_primary env o s)
  unfolding choose_primary
  choose_primary-IsSafe none s h = ((λ q. cc), h)
  choose_primary-IsSafe (some r) s h =
      bind-IsSafe I I (refresh_replica_connections env s) _ (λ w i. i) (refresh-IsSafe s h)
        λ x u i. ((λ q. cc), i)

  pub fetch-IsSafe :
      (c : Conn) (s : State A Conn W)
      → I s.world
      → IsSafe I (fetch_servers_from_connection env c s.address_translation s)
  unfolding fetch_servers_from_connection
  fetch-IsSafe c s h =
      bind-IsSafe I I (call (env.servers_all c) s) _ (λ w i. i) (safe.servers_all c s.world h)
        λ x u i. ((λ q. cc), i)

  seek_primary_replica-IsSafe :
      (c : Conn) (s : State A Conn W) → I s.world → IsSafe I (seek_primary_replica env c s)
  unfolding seek_primary_replica
  seek_primary_replica-IsSafe c s h =
      bind-IsSafe I I (fetch_servers_from_connection env c s.address_translation s) _ (λ w i. i)
        (fetch-IsSafe c s h) λ l u i. choose_primary-IsSafe _ _ i

  module _ {R : Type 0} (J : W → Type 0) (task : Conn → M A Conn W R) (weaker : (w : W) → I w → J w)
      (task-IsSafe : (c : Conn) (s : State A Conn W) → I s.world → IsSafe J (task c s)) where
    pub execute_on-IsSafe :
        (a b : A) (s : State A Conn W) → I s.world → IsSafe J (execute_on env task a b s)
    unfolding execute_on
    execute_on-IsSafe a b s h =
        bind-IsSafe I J (connection_for env a b s) task weaker (connection_for-IsSafe a b s h)
          task-IsSafe

  pub execute_on_any-IsSafe :
      {R : Type 0} (task : Conn → M A Conn W R)
      → ((c : Conn) (s : State A Conn W) → I s.world → IsSafe I (task c s))
      → (l : List (AvailableServer A)) (errors : List (A × Error A)) (s : State A Conn W)
      → I s.world
      → IsSafe I (execute_on_any env task l errors s)
  unfolding execute_on_any
  execute_on_any-IsSafe task k [] errors s h = ((λ q. cc), h)
  execute_on_any-IsSafe task k (r ∷ l) errors s h =
      let first = execute_on env task (Server.address r) r.private_address s in
      let now = execute_on-IsSafe I task (λ w i. i) k (Server.address r) r.private_address s h in
      elim (on_connection_error-cases first
        λ y. execute_on_any env task l (Maps.insert (Server.address r) (connection y) errors)) [
          | inl (same, _) ↦ rw same now
          | inr (y, _, same) ↦ rw same (execute_on_any-IsSafe task k l _ first.1 now.1)
        ]

  try_seek-IsSafe :
      (sources : List (AvailableServer A)) (s : State A Conn W)
      → I s.world
      → IsSafe I (try_seek_primary_replica_in env sources s)
  unfolding try_seek_primary_replica_in
  try_seek-IsSafe sources s h =
      execute_on_any-IsSafe (seek_primary_replica env) seek_primary_replica-IsSafe sources [] s h

  -- The search goes on with an error in hand or with attempts left.
  after_attempt-IsSafe :
      (different : Option A) (left : ℕ) (last : Option (Error A))
      (next : Option (Error A) → M A Conn W (AvailableServer A))
      (p : Outcome (Error A) (AvailableServer A) × State A Conn W)
      → IsSafe I p
      → ((x : Option (Error A)) (u : State A Conn W)
          → (x ≢ none) ⊎ (0 < left)
          → I u.world
          → IsSafe I (next x u))
      → IsSafe I (after_attempt env different left last next p)
  unfolding after_attempt
  after_attempt-IsSafe different left last next (ok r, s) now later =
      elim (Bool-cases (is_stale different r && ltb 0 left)) [
        | inl again ↦
            rw (again, after_attempt) (later last _ (inr (ground arith)) (safe.wait s.world now.1))
        | inr done ↦ rw (done, after_attempt) now
      ]
  after_attempt-IsSafe different left last next (err x, s) now later =
      elim (Bool-cases (ltb 0 left)) [
        | inl again ↦
            rw (again, after_attempt) (later (some x) _ (inl (λ q. cc)) (safe.wait s.world now.1))
        | inr final ↦ rw (final, after_attempt) (later (some x) _ (inl (λ q. cc)) now.1)
      ]
  after_attempt-IsSafe different left last next (panic, s) now later = absurd (now.0 refl)

  seek_loop-IsSafe :
      (sources : List (AvailableServer A)) (different : Option A) (left : ℕ)
      (last : Option (Error A)) (s : State A Conn W)
      → (last ≢ none) ⊎ (0 < left)
      → I s.world
      → IsSafe I (seek_loop env sources different left last s)
  unfolding seek_loop
  seek_loop-IsSafe sources different zero none s (inl more) h = absurd (more refl)
  seek_loop-IsSafe sources different zero none s (inr more) h = absurd (omega arith)
  seek_loop-IsSafe sources different zero (some x) s more h = ((λ q. cc), h)
  seek_loop-IsSafe sources different (suc left) last s more h =
      after_attempt-IsSafe different left last _ (try_seek_primary_replica_in env sources s)
        (try_seek-IsSafe sources s h) λ x u. seek_loop-IsSafe sources different left x u

  pub seek_primary_replica_in-IsSafe :
      (sources : List (AvailableServer A)) (retries : ℕ) (different : Option A) (s : State A Conn W)
      → I s.world
      → IsSafe I (seek_primary_replica_in env sources retries different s)
  unfolding seek_primary_replica_in
  seek_primary_replica_in-IsSafe sources retries different s h =
      seek_loop-IsSafe sources different (suc retries) none s (inr (omega arith)) h

  seek_cached-IsSafe :
      (l : List (AvailableServer A)) (retries : ℕ) (s : State A Conn W)
      → I s.world
      → IsSafe I (seek_cached env retries l s)
  unfolding seek_cached
  seek_cached-IsSafe [] retries s h = seek_primary_replica_in-IsSafe [] retries none s h
  seek_cached-IsSafe (r ∷ []) retries s h = elim (Bool-cases (has_no_status r)) [
    | inl alone ↦ rw (alone, seek_cached) ((λ q. cc), h)
    | inr listed ↦
        rw (listed, seek_cached) (seek_primary_replica_in-IsSafe (r ∷ []) retries none s h)
  ]
  seek_cached-IsSafe (r ∷ r' ∷ l) retries s h =
      seek_primary_replica_in-IsSafe (r ∷ r' ∷ l) retries none s h

  cached_or_seek-IsSafe :
      (o : Option (AvailableServer A)) (retries : ℕ) (s : State A Conn W)
      → I s.world
      → IsSafe I (cached_or_seek env retries o s)
  unfolding cached_or_seek
  cached_or_seek-IsSafe (some r) retries s h = ((λ q. cc), h)
  cached_or_seek-IsSafe none retries s h = seek_cached-IsSafe (env.shuffle s.replicas) retries s h

  pub get_or_seek-IsSafe :
      (retries : ℕ) (s : State A Conn W)
      → I s.world
      → IsSafe I (get_or_seek_primary_replica env retries s)
  unfolding get_or_seek_primary_replica
  get_or_seek-IsSafe retries s h = cached_or_seek-IsSafe (find_primary s.replicas) retries s h
