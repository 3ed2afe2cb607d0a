-- ===== src/Driver/Closing.antt =====
-- Closing the driver (rust/src/driver.rs).
use typedb_driver.Common.{
  arith, ◌≡◌, refl, ◌≢◌, true, false, if◌then◌else◌, Eq, Outcome, ok, err, panic,
}
use typedb_driver.Errors.{Error}
use typedb_driver.ServerManager.{Env, State}
use typedb_driver.ServerManager.Execute
use typedb_driver.Driver.{BackgroundRuntime, close_runtime, close_after, force_close}

module _ {A Conn W : Type 0} ⦃e : Eq A⦄ (env : Env A Conn W)
    (close : Conn → W → Outcome (Error A) (Unit {0}) × W) where
  -- The runtime is closed, and closing again does nothing.
  pub record IsClosed (p : Outcome (Error A) (Unit {0}) × (State A Conn W × BackgroundRuntime))
      : Type 0 where
    pub closed : p.1.1.is_open ≡ false
    pub again : force_close env close p.1.0 p.1.1 ≡ (ok tt, p.1)

  shut_runtime-IsClosed :
      (o : Outcome (Error A) (Unit {0})) (s : State A Conn W) (runtime : BackgroundRuntime)
      → runtime.is_open ≡ false
      → IsClosed (o, (s, runtime))
  unfolding force_close
  shut_runtime-IsClosed o s runtime h = record { closed = h; again = rw h refl }

  close_runtime-closed :
      (runtime : BackgroundRuntime) → (close_runtime {A = A} runtime).1.is_open ≡ false
  unfolding close_runtime
  close_runtime-closed runtime = ground arith

  close_after-IsClosed :
      (p : Outcome (Error A) (Unit {0}) × State A Conn W) (runtime : BackgroundRuntime)
      → p.0 ≢ panic
      → IsClosed (close_after env close p runtime)
  unfolding close_after
  close_after-IsClosed (ok _, s) runtime h =
      shut_runtime-IsClosed _ s _ (close_runtime-closed runtime)
  close_after-IsClosed (err x, s) runtime h =
      shut_runtime-IsClosed _ s _ (close_runtime-closed runtime)
  close_after-IsClosed (panic, s) runtime h = absurd (h refl)

  -- If closing the connections does not panic, the runtime is closed after the driver is closed,
  -- also where closing a connection or the runtime gives an error, and closing the driver again
  -- succeeds and changes nothing.
  pub force_close-IsClosed :
      (s : State A Conn W) (runtime : BackgroundRuntime)
      → (Execute.force_close env close s).0 ≢ panic
      → IsClosed (force_close env close s runtime)
  unfolding force_close
  force_close-IsClosed s runtime h =
      elim runtime.is_open
          as (λ b.
            runtime.is_open ≡ b
            → IsClosed (
                if b
                then close_after env close (Execute.force_close env close s) runtime
                else (ok tt, (s, runtime)))) [
                  | true ↦ λ e. close_after-IsClosed (Execute.force_close env close s) runtime h
                  | false ↦ λ e. shut_runtime-IsClosed (ok tt) s runtime e
                ]
        refl
