-- ===== src/Connection/Latency.antt =====
-- The latency that a connection keeps (rust/src/connection/server/server_connection.rs).
use typedb_driver.Common.{
  ℕ, ◌+◌, ◌/◌, ◌^◌, ◌≤◌, ◌<◌, ◌≡◌, refl, Bool, List, [], ◌∷◌, All, Outcome, ok, ◌>>=◌, fit_ok,
  arith,
}
use typedb_driver.Connection.{update_latency, u64_mod}

-- The updates of a run, in their order.
abbrev pub update_all : {E : Type 0} → Bool → List ℕ → ℕ → Outcome E ℕ
update_all checks [] previous = ok previous
update_all checks (x ∷ l) previous = update_latency checks x previous >>= update_all checks l

-- The middle of two numbers is between them.
half-between :
    (a b : ℕ)
    → ((a ≤ b) → (a ≤ (a + b) / 2) × ((a + b) / 2 ≤ b))
      × ((b ≤ a) → (b ≤ (a + b) / 2) × ((a + b) / 2 ≤ a))
half-between a b = (λ h. (omega arith, omega arith), λ h. (omega arith, omega arith))

module _ {E : Type 0} (checks : Bool) where
  -- Of two latencies below 2^63 milliseconds, the new one is their mean, without overflow, rounded down; so it
  -- lies between them.
  pub update_latency-mean :
      (a b : ℕ)
      → a < 2 ^ 63
      → b < 2 ^ 63
      → (update_latency {E = E} checks a b ≡ ok ((a + b) / 2))
        × ((a ≤ b) → (a ≤ (a + b) / 2) × ((a + b) / 2 ≤ b))
        × ((b ≤ a) → (b ≤ (a + b) / 2) × ((a + b) / 2 ≤ a))
  unfolding update_latency
  update_latency-mean a b ha hb =
      (let (below, above) = half-between a b in
        (
          rw (fit_ok {E = E} checks u64_mod (a + b) (omega arith), update_latency) refl,
          below,
          above,
        ))

  -- If the first latency and every measured one are at most `bound`, which is below 2^63 milliseconds, so is
  -- the latency after any number of updates, and none of them overflows.
  pub update_all-bound :
      (bound : ℕ) (l : List ℕ) (previous : ℕ)
      → bound < 2 ^ 63
      → previous ≤ bound
      → All (λ x. x ≤ bound) l
      → (latency : ℕ) × (update_all {E = E} checks l previous ≡ ok latency) × (latency ≤ bound)
  update_all-bound bound [] previous small h all = (previous, refl, h)
  update_all-bound bound (x ∷ l) previous small h (hx, hl) =
      (let (mean, below, above) = update_latency-mean x previous (omega arith) (omega arith) in
        let (latency, went, bounded) =
          update_all-bound bound l ((x + previous) / 2) small (omega arith) hl in
        (latency, rw mean went, bounded))
