-- ===== src/ServerManager/Direct.antt =====
-- Direct routing, and the candidates of a failover
-- (rust/src/connection/server/server_manager.rs).
use typedb_driver.Common.{
  ◌≡◌, refl, ap, ◌∙◌, inl, inr, true, not, ◌&&◌, ◌||◌, some, List, [], ◌∷◌, arith, Bool-cases, Eq,
  ◌=?◌, nat_eq, ok,
}
use typedb_driver.Common.Maps
use typedb_driver.Common.Maps.{any, filter}
use typedb_driver.Common.Maps.Laws.{contains-filter, beq_refl}
use typedb_driver.Errors.{ConnectionError}
use typedb_driver.Server
use typedb_driver.Server.{AvailableServer, ServerRouting, auto, direct, get_or, available_eq}
use typedb_driver.Address.Laws.{DistinctKeys, pairs, to_private-to_public}
use typedb_driver.Address.{to_private, to_public}
use typedb_driver.ServerManager.{Env, Manager, State, M, bind-ok}
use typedb_driver.ServerManager.Connections.{connection_for, execute_on}
use typedb_driver.ServerManager.Seek.{is_not_primary_error, failover_candidates}
use typedb_driver.ServerManager.Execute.{is_known, execute}

module _ {A : Type 0} ⦃e : Eq A⦄ where
  known-contains :
      (l : List (AvailableServer A)) (r : AvailableServer A)
      → Maps.contains l r ≡ true
      → any (λ q. Server.address q =? Server.address r) l ≡ true
  known-contains [] r h = cc
  known-contains (q ∷ l) r h = elim (Bool-cases (q =? r)) [
    | inl same ↦
        (let one : q ≡ r = (available_eq.beq_iff q r).0 same in
          rw (one, beq_refl (Server.address r)) refl)
    | inr other ↦ rw (known-contains l r (rw other at h)) (ground arith)
  ]

module _ {A Conn W R : Type 0} ⦃e : Eq A⦄ (env : Env A Conn W) (task : Conn → M A Conn W R) where
  connection_for-held :
      (a b : A) (s : State A Conn W) (c : Conn)
      → Maps.lookup b s.replica_connections ≡ some c
      → connection_for env a b s ≡ (ok c, s)
  unfolding connection_for
  connection_for-held a b s c held = rw (connection_for, held) refl

  execute_on-held :
      (a b : A) (s : State A Conn W) (c : Conn)
      → Maps.lookup b s.replica_connections ≡ some c
      → execute_on env task a b s ≡ task c s
  unfolding execute_on
  execute_on-held a b s c held =
      (let found = connection_for-held a b s c held in
        bind-ok (connection_for env a b s) task c (ap (λ p. p.0) found)
        ∙ ap (λ p. task c p.1) found)

  execute-known :
      (a : A) (s : State A Conn W)
      → is_known a s.manager ≡ true
      → execute env task (direct a) s
        ≡ execute_on env task a (get_or a (to_private s.address_translation a)) s
  unfolding execute
  execute-known a s known = rw (execute, known) refl

  -- Direct routing to the public address of a known replica, with a connection to it in the table,
  -- runs the task once, on that connection, in the state that the operation starts in.
  pub execute-direct :
      (r : AvailableServer A) (s : State A Conn W) (c : Conn)
      → Maps.contains s.replicas r ≡ true
      → DistinctKeys (pairs s.address_translation)
      → to_public s.address_translation r.private_address ≡ some (Server.address r)
      → Maps.lookup r.private_address s.replica_connections ≡ some c
      → execute env task (direct (Server.address r)) s ≡ task c s
  execute-direct r s c known distinct public held =
      execute-known (Server.address r) s (known-contains s.replicas r known)
      ∙ execute_on-held (Server.address r) _ s c (
          rw
            (to_private-to_public s.address_translation (Server.address r) r.private_address
              distinct public)
            held)

-- `shuffle` keeps the elements.
abbrev pub IsShuffle :
    {A : Type 0} ⦃e : Eq A⦄ → (List (AvailableServer A) → List (AvailableServer A)) → Type 0
IsShuffle {A} f =
    (l : List (AvailableServer A)) (r : AvailableServer A)
    → Maps.contains (f l) r ≡ Maps.contains l r

module _ {A Conn W : Type 0} ⦃e : Eq A⦄ (env : Env A Conn W)
    (shuffles : IsShuffle env.shuffle) where
  -- The candidates are the known replicas, without the failed server unless it answered that it is not
  -- the primary.
  pub contains-failover_candidates :
      (failed : A) (x : ConnectionError A) (m : Manager A Conn) (r : AvailableServer A)
      → Maps.contains (failover_candidates env failed x m) r ≡ (
          Maps.contains m.replicas r
          && (is_not_primary_error x || not (r.private_address =? failed)))
  unfolding failover_candidates
  contains-failover_candidates failed x m r = elim (Bool-cases (is_not_primary_error x)) [
    | inl answered ↦ rw (answered, failover_candidates, shuffles m.replicas r) (ground arith)
    | inr dead ↦
        rw
          (
            dead,
            failover_candidates,
            shuffles (filter (λ q. not (q.private_address =? failed)) (env.shuffle m.replicas)) r,
            contains-filter (λ q. not (q.private_address =? failed)) (env.shuffle m.replicas) r,
            shuffles m.replicas r,
          )
          refl
  ]
