-- ===== src/ServerManager/Seek.antt =====
-- rust/src/connection/server/server_manager.rs: the search for the primary replica.
use typedb_driver.Common.{
  ℕ, zero, suc, Bool, true, false, not, ◌&&◌, Option, none, some, List, [], ◌∷◌, map, ltb,
  if◌then◌else◌, Eq, ◌=?◌, nat_eq, Outcome, ok, err, panic,
}
use typedb_driver.Common.Maps.{filter, find, collect_set}
use typedb_driver.Address.{AddressTranslation}
use typedb_driver.Errors.{
  Error, connection, ConnectionError, cluster_server_not_primary, no_primary_server,
}
use typedb_driver.Server
use typedb_driver.Server.{AvailableServer, unavailable, available_eq, server_eq}
use typedb_driver.ServerManager.{
  Env, Manager, State, M, bind, ◌>>=◌, ◌>>◌, pure, fail, get_state, put_replicas, call,
  filter_available, find_primary,
}
use typedb_driver.ServerManager.Connections.{refresh_replica_connections, execute_on_any}

module _ {A : Type 0} where
  abbrev pub has_no_status : AvailableServer A → Bool
  has_no_status r = elim r.replication_status [ none ↦ true | some _ ↦ false ]

  unfoldable pub is_not_primary_error : ConnectionError A → Bool
  is_not_primary_error (cluster_server_not_primary hint) = true
  is_not_primary_error _ = false

module _ {A : Type 0} ⦃e : Eq A⦄ where
  abbrev pub is_stale : Option A → AvailableServer A → Bool
  is_stale none r = false
  is_stale (some stale) r = r.private_address =? stale

module _ {A Conn : Type 0} ⦃e : Eq A⦄ where
  unfoldable pub find_replica_by_private_address : A → Manager A Conn → Option (AvailableServer A)
  find_replica_by_private_address a m = find (λ r. r.private_address =? a) m.replicas

module _ {A Conn W : Type 0} ⦃e : Eq A⦄ (env : Env A Conn W) where
  -- A standalone server without an advertised address is reached at the connection's address.
  unfoldable pub advertise : Conn → Server.Server A → Server.Server A
  advertise source (Server.Server.available r) = Server.Server.available r
  advertise source (unavailable none) =
      Server.available_from_private (env.connection_address source) none
  advertise source (unavailable (some status)) = unavailable (some status)

  unfoldable pub translate_replicas :
      List (Server.Server A) → AddressTranslation A → Conn → List (Server.Server A)
  unfolding advertise
  translate_replicas l t source =
      collect_set (map (λ r. Server.server_translated t (advertise source r)) l)

  unfoldable pub fetch_servers_from_connection :
      Conn → AddressTranslation A → M A Conn W (List (Server.Server A))
  fetch_servers_from_connection c t = do
    l ← call (env.servers_all c)
    pure (translate_replicas l t c)

  -- `filter_available_replicas!(replicas).collect()` into a `HashSet`.
  unfoldable pub collect_available : List (Server.Server A) → List (AvailableServer A)
  collect_available l = env.shuffle (collect_set (filter_available l))

  unfoldable pub choose_primary : Option (AvailableServer A) → M A Conn W (AvailableServer A)
  choose_primary (some r) = refresh_replica_connections env >> pure r
  choose_primary none = fail (connection no_primary_server)

  -- The fetched servers become the replicas, and the primary among them is chosen.
  unfoldable pub adopt : List (Server.Server A) → M A Conn W (AvailableServer A)
  unfolding collect_available
  adopt l = do
    put_replicas (collect_available l)
    m ← get_state
    choose_primary (find_primary m.replicas)

  unfoldable pub seek_primary_replica : Conn → M A Conn W (AvailableServer A)
  unfolding adopt
  seek_primary_replica c = do
    m ← get_state
    l ← fetch_servers_from_connection c m.address_translation
    adopt l

  unfoldable pub try_seek_primary_replica_in :
      List (AvailableServer A) → M A Conn W (AvailableServer A)
  unfolding seek_primary_replica
  try_seek_primary_replica_in sources = execute_on_any env seek_primary_replica sources []

  unfoldable pub wait : M A Conn W (Unit {0})
  wait = call (λ w. (ok tt, env.wait w))

  -- What an attempt of `seek_primary_replica_in` does with its outcome, `left` attempts before the
  -- last one: return, or go on with the last error, after a wait if it is not the last attempt.
  unfoldable pub after_attempt :
      Option A
      → ℕ
      → Option (Error A)
      → (Option (Error A) → M A Conn W (AvailableServer A))
      → Outcome (Error A) (AvailableServer A) × State A Conn W
      → Outcome (Error A) (AvailableServer A) × State A Conn W
  unfolding wait
  after_attempt different left last next (ok r, s) = elim (is_stale different r && ltb 0 left) [
    | true ↦ bind (wait s) λ _. next last
    | false ↦ (ok r, s)
  ]
  after_attempt different left last next (err x, s) = elim (ltb 0 left) [
    | true ↦ bind (wait s) λ _. next (some x)
    | false ↦ next (some x) s
  ]
  after_attempt different left last next (panic, s) = (panic, s)

  -- The loop of `seek_primary_replica_in` with `left` attempts left; the last error is unwrapped.
  unfoldable pub seek_loop :
      List (AvailableServer A) → Option A → ℕ → Option (Error A) → M A Conn W (AvailableServer A)
  seek_loop sources different zero none s = (panic, s)
  seek_loop sources different zero (some x) s = (err x, s)
  seek_loop sources different (suc left) last s =
      after_attempt different left last (λ last'. seek_loop sources different left last')
        (try_seek_primary_replica_in sources s)

  unfoldable pub seek_primary_replica_in :
      List (AvailableServer A) → ℕ → Option A → M A Conn W (AvailableServer A)
  seek_primary_replica_in sources retries different = seek_loop sources different (suc retries) none

  -- A lone server without a replication status is used as it is.
  unfoldable pub seek_cached : ℕ → List (AvailableServer A) → M A Conn W (AvailableServer A)
  seek_cached retries [] s = seek_primary_replica_in [] retries none s
  seek_cached retries (r ∷ []) s =
      if has_no_status r then pure r s else seek_primary_replica_in (r ∷ []) retries none s
  seek_cached retries (r ∷ r' ∷ l) s = seek_primary_replica_in (r ∷ r' ∷ l) retries none s

  unfoldable pub cached_or_seek : ℕ → Option (AvailableServer A) → M A Conn W (AvailableServer A)
  cached_or_seek retries (some r) s = pure r s
  cached_or_seek retries none s = seek_cached retries (env.shuffle s.replicas) s

  unfoldable pub get_or_seek_primary_replica : ℕ → M A Conn W (AvailableServer A)
  get_or_seek_primary_replica retries s = cached_or_seek retries (find_primary s.replicas) s

  -- A server that answered is a candidate; one that failed is not.
  unfoldable pub failover_candidates :
      A → ConnectionError A → Manager A Conn → List (AvailableServer A)
  unfolding is_not_primary_error
  failover_candidates failed error m =
      if is_not_primary_error error
      then env.shuffle m.replicas
      else env.shuffle (filter (λ r. not (r.private_address =? failed)) (env.shuffle m.replicas))
