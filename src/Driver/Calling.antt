-- ===== src/Driver/Calling.antt =====
-- What it is that an operation of the driver makes one call, and the lemmas on tasks that do
-- (rust/src/driver.rs, rust/src/database/, rust/src/user/).
use mathlib.Core.Option
use typedb_driver.Common.{
  ◌≡◌, refl, sym, ap, ◌∙◌, Option, List, [], ◌∷◌, Bytes, Eq, Outcome, ok, err, panic, ◌>>=◌,
}
use typedb_driver.Errors.{Error, connection, server_connection_is_closed}
use typedb_driver.Server.{ServerRouting, auto}
use typedb_driver.Connection.Answers.{Service}
use typedb_driver.ServerManager.{Env, State, M, bind, pure}
use typedb_driver.ServerManager.Execute.{execute}
use typedb_driver.ServerManager.Routing.{execute-Ran}
use typedb_driver.Driver.{Call, Calls, ask}
use typedb_driver.Driver.Users.{User, from_info}

module _ {A Conn W S : Type 0} (calls : Calls A Conn W S) where
  -- A result, if there is one, is what the method `result` of some connection gives in some state, and the
  -- operation ends in the state that its call leaves.
  abbrev pub IsAnswer :
      {R : Type 0}
      → Call
      → (Service A → Outcome (Error A) R)
      → Outcome (Error A) R × State A Conn W
      → Type 0
  IsAnswer call result (ok x, t) =
      (c : Conn) × (u : State A Conn W) × (result (calls.methods c u.world) ≡ ok x)
      × (t ≡ record u { world = calls.after c call u.world })
  IsAnswer call result _ = Unit

-- As `IsAnswer`, for a stream that a connection opens.
abbrev pub IsStream :
    {A Conn W S : Type 0}
    → (Conn → W → Outcome (Error A) S × W)
    → Outcome (Error A) S × State A Conn W
    → Type 0
IsStream {A} {Conn} {W} {S} opening (ok x, t) =
    (c : Conn) × (u : State A Conn W) × (w : W) × (opening c u.world ≡ (ok x, w))
    × (t ≡ record u { world = w })
IsStream opening _ = Unit

module _ {A Conn W S : Type 0} (calls : Calls A Conn W S) where
  -- The user with the name that the first of the connections `l` has.
  abbrev pub IsCurrent :
      {K : Type 0}
      → (Conn → Bytes)
      → State A Conn W
      → List (K × Conn)
      → Outcome (Error A) (Option User) × State A Conn W
      → Type 0
  IsCurrent name_of s [] p = p ≡ (err (connection server_connection_is_closed), s)
  IsCurrent name_of s ((k, c) ∷ l) p =
      IsAnswer calls (Call.get_user (name_of c))
        (λ v. v.get_user (name_of c) >>= λ i. ok (Option.map from_info i)) p

module _ {A Conn W S : Type 0} ⦃e : Eq A⦄ (env : Env A Conn W) (calls : Calls A Conn W S) where
  IsAnswer-ok :
      {R : Type 0} (call : Call) (result : Service A → Outcome (Error A) R)
      (p : Outcome (Error A) R × State A Conn W)
      → ((x : R) → p.0 ≡ ok x → IsAnswer calls call result (ok x, p.1))
      → IsAnswer calls call result p
  IsAnswer-ok call result (ok x, t) h = h x refl
  IsAnswer-ok call result (err y, t) h = tt
  IsAnswer-ok call result (panic, t) h = tt

  -- A task that makes one call, and an operation that runs it.
  pub execute-IsAnswer :
      {R : Type 0} (call : Call) (result : Service A → Outcome (Error A) R)
      (task : Conn → M A Conn W R) (routing : ServerRouting A) (s : State A Conn W)
      → ((c : Conn) (u : State A Conn W)
          → task c u
            ≡ (result (calls.methods c u.world), record u { world = calls.after c call u.world }))
      → IsAnswer calls call result (execute env task routing s)
  execute-IsAnswer call result task routing s one =
      IsAnswer-ok call result (execute env task routing s) λ x h.
        let (c, u, ran) = execute-Ran env task routing s x h in
        (c, u, ap (λ p. p.0) (sym (one c u) ∙ ran), ap (λ p. p.1) (sym ran ∙ one c u))

  pub ask-IsAnswer :
      {R : Type 0} (call : Call) (result : Service A → Outcome (Error A) R)
      (routing : ServerRouting A) (s : State A Conn W)
      → IsAnswer calls call result (execute env (ask calls call result) routing s)
  ask-IsAnswer call result routing s =
      execute-IsAnswer call result (ask calls call result) routing s λ c u. refl

  IsStream-ok :
      (opening : Conn → W → Outcome (Error A) S × W) (p : Outcome (Error A) S × State A Conn W)
      → ((x : S) → p.0 ≡ ok x → IsStream opening (ok x, p.1))
      → IsStream opening p
  IsStream-ok opening (ok x, t) h = h x refl
  IsStream-ok opening (err y, t) h = tt
  IsStream-ok opening (panic, t) h = tt

  pub execute-IsStream :
      (opening : Conn → W → Outcome (Error A) S × W) (s : State A Conn W)
      → IsStream opening (
          execute env
            (λ c u. ((opening c u.world).0, record u { world = (opening c u.world).1 }))
            auto
            s)
  execute-IsStream opening s = IsStream-ok opening _ λ x h.
      let (c, u, ran) = execute-Ran env _ auto s x h in
      (
        c,
        u,
        (opening c u.world).1,
        ap (λ o. (o, (opening c u.world).1)) (ap (λ p. p.0) ran),
        sym (ap (λ p. p.1) ran),
      )

-- What follows a call on its value is part of the answer.
pub bind-pure :
    {A Conn W R Q : Type 0} (o : Outcome (Error A) R) (t : State A Conn W) (f : R → Q)
    → bind (o, t) (λ x. pure (f x)) ≡ (o >>= (λ x. ok (f x)), t)
bind-pure (ok x) t f = refl
bind-pure (err y) t f = refl
bind-pure panic t f = refl

module _ {A Conn W S R Q : Type 0} (calls : Calls A Conn W S) where
  pub bind-IsAnswer :
      (call : Call) (result : Service A → Outcome (Error A) R) (f : R → Q)
      (p : Outcome (Error A) R × State A Conn W)
      → IsAnswer calls call result p
      → IsAnswer calls call (λ v. result v >>= λ x. ok (f x)) (bind p (λ x. pure (f x)))
  bind-IsAnswer call result f (ok x, t) (c, u, gave, left) = (c, u, rw gave refl, left)
  bind-IsAnswer call result f (err y, t) h = tt
  bind-IsAnswer call result f (panic, t) h = tt
