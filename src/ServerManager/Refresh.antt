-- ===== src/ServerManager/Refresh.antt =====
-- What `refresh_replica_connections` does to the table of connections
-- (rust/src/connection/server/server_manager.rs).
use typedb_driver.Common.{
  ◌≡◌, refl, ap, ◌∙◌, ◌≢◌, ◌⊎◌, inl, inr, true, false, ◌||◌, some, List, [], ◌∷◌, map, arith,
  Bool-cases, Eq, nat_eq, ok, Outcome-cases,
}
use typedb_driver.Common.Maps
use typedb_driver.Common.Maps.Laws.{
  lookup-insert, lookup-retain, contains-keys-insert, contains-keys-retain,
}
use typedb_driver.Errors.{Error}
use typedb_driver.Server
use typedb_driver.Server.{AvailableServer}
use typedb_driver.ServerManager.{Env, Manager, State, bind, attempt, bind-ok, bind-eq-ok}
use typedb_driver.ServerManager.Connections.{
  new_replica_connection, open_missing, require_connected, install, refresh_replica_connections,
}

abbrev pub privates : {A : Type 0} → List (AvailableServer A) → List A
privates l = map (λ r. r.private_address) l

module _ {A Conn W : Type 0} ⦃e : Eq A⦄ (env : Env A Conn W) where
  new_replica_connection-manager :
      (a : A) (s : State A Conn W) → (new_replica_connection env a s).1.manager ≡ s.manager
  unfolding new_replica_connection
  new_replica_connection-manager a s = ground arith

  -- Opening connections leaves the manager alone, and never fails: errors are collected.
  open_missing-manager :
      (known : List A) (l : List (AvailableServer A)) (new : List (A × Conn))
      (errors : List (A × Error A)) (s : State A Conn W)
      → (open_missing env known l new errors s).1.manager ≡ s.manager
  unfolding open_missing
  open_missing-manager known [] new errors s = refl
  open_missing-manager known (r ∷ l) new errors s =
      elim (Bool-cases (Maps.contains known r.private_address)) [
        | inl old ↦ rw (old, open_missing) (open_missing-manager known l new errors s)
        | inr missing ↦
            let same = new_replica_connection-manager (Server.address r) s in
            let t = (new_replica_connection env (Server.address r) s).1 in
            elim (Outcome-cases (new_replica_connection env (Server.address r) s).0) [
              | inl (c, x) ↦
                  rw (missing, x, open_missing, attempt, bind)
                    (open_missing-manager known l (Maps.insert r.private_address c new) errors t
                      ∙ same)
              | inr (inl (error, x)) ↦
                  rw (missing, x, open_missing, attempt, bind)
                    (open_missing-manager known l new (Maps.insert (Server.address r) error errors)
                        t
                      ∙ same)
              | inr (inr x) ↦ rw (missing, x, open_missing, attempt, bind) same
            ]
      ]

  -- The new connections stand under private addresses that were missing.
  open_missing-keys :
      (known : List A) (l : List (AvailableServer A)) (new : List (A × Conn))
      (errors : List (A × Error A)) (s : State A Conn W) (r : List (A × Conn) × List (A × Error A))
      (a : A)
      → (open_missing env known l new errors s).0 ≡ ok r
      → Maps.contains (Maps.keys r.0) a ≡ true
      → (Maps.contains (Maps.keys new) a ≡ true)
        ⊎ ((Maps.contains known a ≡ false) × (Maps.contains (privates l) a ≡ true))
  unfolding open_missing
  open_missing-keys known [] new errors s r a h k = inl (rw new_same at k)
    where
      new_same : r.0 ≡ new
      new_same = ground arith
  open_missing-keys known (q ∷ l) new errors s r a h k =
      elim (Bool-cases (Maps.contains known q.private_address)) [
        | inl old ↦
            let h' = rw (old, open_missing) at h in
            ground (arith, open_missing-keys known l new errors s r a h' k)
        | inr missing ↦
            let t = (new_replica_connection env (Server.address q) s).1 in
            elim (Outcome-cases (new_replica_connection env (Server.address q) s).0) [
              | inl (c, x) ↦
                  let h' = rw (missing, x, open_missing, attempt, bind) at h in
                  ground (
                    arith,
                    open_missing-keys known l (Maps.insert q.private_address c new) errors t r a h'
                        k,
                    contains-keys-insert q.private_address a c new,
                    e.beq_iff q.private_address a,
                  )
              | inr (inl (error, x)) ↦
                  let h' = rw (missing, x, open_missing, attempt, bind) at h in
                  ground (
                    arith,
                    open_missing-keys known l new (Maps.insert (Server.address q) error errors) t r
                        a h' k,
                  )
              | inr (inr x) ↦ cc (rw (missing, x, open_missing, attempt, bind) at h)
            ]
      ]

  contains-keys-extend :
      (n m : List (A × Conn)) (a : A)
      → Maps.contains (Maps.keys (Maps.extend n m)) a
        ≡ (Maps.contains (Maps.keys n) a || Maps.contains (Maps.keys m) a)
  contains-keys-extend [] m a = refl
  contains-keys-extend ((k, v) ∷ n) m a =
      ground (arith, contains-keys-extend n (Maps.insert k v m) a, contains-keys-insert k a v m)

  lookup-extend :
      (n m : List (A × Conn)) (a : A)
      → Maps.contains (Maps.keys n) a ≡ false
      → Maps.lookup a (Maps.extend n m) ≡ Maps.lookup a m
  lookup-extend [] m a h = refl
  lookup-extend ((k, v) ∷ n) m a h =
      ground (arith, lookup-extend n (Maps.insert k v m) a, lookup-insert k a v m)

  contains-lookup :
      (m : List (A × Conn)) (a : A) (c : Conn)
      → Maps.lookup a m ≡ some c
      → Maps.contains (Maps.keys m) a ≡ true
  contains-lookup [] a c h = cc
  contains-lookup ((k, v) ∷ m) a c h = ground (arith, contains-lookup m a c)

  -- `t` differs from `s` in its connections alone: they are those of known replicas, at least one,
  -- and each connection of `s` to a known replica is still there.
  pub record Refreshed (s t : State A Conn W) : Type 0 where
    pub same_replicas : t.replicas ≡ s.replicas
    pub same_translation : t.address_translation ≡ s.address_translation
    pub known :
        (a : A)
        → Maps.contains (Maps.keys t.replica_connections) a ≡ true
        → Maps.contains (privates s.replicas) a ≡ true
    pub kept :
        (a : A) (c : Conn)
        → Maps.lookup a s.replica_connections ≡ some c
        → Maps.contains (privates s.replicas) a ≡ true
        → Maps.lookup a t.replica_connections ≡ some c
    pub connected : t.replica_connections ≢ []

  abbrev kept_table : List (AvailableServer A) → State A Conn W → List (A × Conn)
  kept_table l t = Maps.retain (λ a _. Maps.contains (privates l) a) t.replica_connections

  abbrev with_table : State A Conn W → List (A × Conn) → State A Conn W
  with_table t table = record t { manager = record (t.manager) { replica_connections = table } }

  require_connected-state :
      (table : List (A × Conn)) (errors : List (A × Error A)) (m : Manager A Conn)
      (s : State A Conn W)
      → (require_connected env table errors m s).1 ≡ s
  unfolding require_connected
  require_connected-state [] errors m s = refl
  require_connected-state (x ∷ l) errors m s = refl

  require_connected-ok :
      (table : List (A × Conn)) (errors : List (A × Error A)) (m : Manager A Conn)
      (s : State A Conn W)
      → (require_connected env table errors m s).0 ≡ ok tt
      → table ≢ []
  unfolding require_connected
  require_connected-ok [] errors m s h = cc
  require_connected-ok (x ∷ l) errors m s h = λ q. cc

  table-Refreshed :
      (s t : State A Conn W) (r : List (A × Conn) × List (A × Error A))
      → t.manager ≡ s.manager
      → (open_missing env (Maps.keys s.replica_connections) s.replicas [] [] s).0 ≡ ok r
      → Maps.extend r.0 (kept_table s.replicas t) ≢ []
      → Refreshed s (with_table t (Maps.extend r.0 (kept_table s.replicas t)))
  table-Refreshed s t r same x some_left = record {
    same_replicas = ap (λ m. m.replicas) same;
    same_translation = ap (λ m. m.address_translation) same;
    known = λ a k. ground (
      arith,
      contains-keys-extend r.0 (kept_table s.replicas t) a,
      contains-keys-retain (λ b. Maps.contains (privates s.replicas) b) t.replica_connections a,
      open_missing-keys (Maps.keys s.replica_connections) s.replicas [] [] s r a x,
    );
    kept = λ a c l k.
        let same_table : t.replica_connections ≡ s.replica_connections =
          ap (λ m. m.replica_connections) same in
        ground (
          arith,
          same_table,
          contains-lookup s.replica_connections a c l,
          k,
          l,
          open_missing-keys (Maps.keys s.replica_connections) s.replicas [] [] s r a x,
          lookup-extend r.0 (kept_table s.replicas t) a,
          lookup-retain (λ b. Maps.contains (privates s.replicas) b) t.replica_connections a,
        );
    connected = some_left;
  }

  install-Refreshed :
      (s t : State A Conn W) (r : List (A × Conn) × List (A × Error A))
      → t.manager ≡ s.manager
      → (open_missing env (Maps.keys s.replica_connections) s.replicas [] [] s).0 ≡ ok r
      → (install env s.replicas r t).0 ≡ ok tt
      → Refreshed s (install env s.replicas r t).1
  unfolding install
  install-Refreshed s t r same x h =
      rw (require_connected-state (Maps.extend r.0 (kept_table s.replicas t)) r.1) (
        table-Refreshed s t r same x
          (require_connected-ok (Maps.extend r.0 (kept_table s.replicas t)) r.1 _ _ h))

  -- A refresh that succeeds leaves connections to known replicas only, at least one, and keeps each
  -- connection that it had to a known replica.
  pub refresh-Refreshed :
      (s : State A Conn W)
      → (refresh_replica_connections env s).0 ≡ ok tt
      → Refreshed s (refresh_replica_connections env s).1
  unfolding refresh_replica_connections
  refresh-Refreshed s h =
      let opening = open_missing env (Maps.keys s.replica_connections) s.replicas [] [] s in
      let (r, x, h') = bind-eq-ok opening (install env s.replicas) tt h in
      rw (bind-ok opening (install env s.replicas) r x) (
        install-Refreshed s opening.1 r
          (open_missing-manager (Maps.keys s.replica_connections) s.replicas [] [] s) x h')
