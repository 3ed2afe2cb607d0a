-- ===== src/Transmitter/Client/Listening.antt =====
-- How the listening loop ends (rust/src/connection/network/transmitter/transaction.rs).
use typedb_driver.Common.{
  ℕ, ◌≡◌, inl, inr, true, false, Option, none, some, List, [], ◌∷◌, ◌++◌, map, append-nil,
  append_assoc, arith, Eq, nat_eq, ok, Outcome-cases,
}
use mathlib.Core.Path.{subst}
use typedb_driver.Errors.{Error}
use typedb_driver.Transmitter.Collector.{
  Response, response, failed, TransactionResponse, close, ResponseCollector, collect,
  close_collector, close_with_error,
}
use typedb_driver.Transmitter.Collector.Closing.{
  IsClosed, close_collector-IsClosed, close_with_error-IsClosed,
}
use typedb_driver.Transmitter.Collector.Kept.{IsKept, collect-IsKept}
use typedb_driver.Transmitter.Client.{
  Event, message, status, finished, registration, listen_after, async_listen_loop,
}

-- The callbacks that are registered before the stream ends.
abbrev pub registered : {A RequestId Q N : Type 0} → List (Event A RequestId Q N) → List ℕ
registered [] = []
registered (message m ∷ l) = registered l
registered (status x ∷ l) = []
registered (finished ∷ l) = []
registered (registration k ∷ l) = k ∷ registered l

module _ {A RequestId Q N : Type 0} ⦃e : Eq RequestId⦄ where
  -- From `c` to `d`, the end of a loop: the transaction is closed, nothing waits any longer, and each
  -- of the callbacks was called once, in order, and all with the same error or with none.
  abbrev pub IsEnd : List ℕ → (c d : ResponseCollector A RequestId Q N) → Type 0
  IsEnd callbacks c d =
      (d.is_open ≡ false)
      × (d.callbacks ≡ [])
      × (d.on_close ≡ [])
      × ((x : Option (Error A)) × (d.called
            ≡ c.called ++ map (λ k. (k, x)) (c.on_close ++ callbacks)))

  closed-IsEnd :
      (r : Response A (TransactionResponse Q N)) (x : Option (Error A))
      (c d : ResponseCollector A RequestId Q N)
      → IsClosed r x c d
      → IsEnd [] c d
  closed-IsEnd r x c d h =
      (h.shut, h.no_callbacks, h.no_on_close, (x, rw (append-nil c.on_close) (h.notified)))

  -- A listening loop that ends has closed the transaction: no request waits any longer, and each closing
  -- callback, registered before or during the loop, was called once, in the order of registration, and
  -- all with the same error or with none.
  pub async_listen_loop-IsEnd :
      (l : List (Event A RequestId Q N)) (c d : ResponseCollector A RequestId Q N)
      → async_listen_loop l c ≡ ok (d, true)
      → IsEnd (registered l) c d
  unfolding async_listen_loop
  async_listen_loop-IsEnd [] c d h = cc
  async_listen_loop-IsEnd (status x ∷ l) c d h =
      (let one : close_with_error x c ≡ d = ground arith in
        subst (IsEnd [] c) one (
          closed-IsEnd (failed x) (some x) c (close_with_error x c)
            ((close_with_error-IsClosed x c).0)))
  async_listen_loop-IsEnd (finished ∷ l) c d h =
      (let one : close_collector c ≡ d = ground arith in
        subst (IsEnd [] c) one
          (closed-IsEnd (response close) none c (close_collector c) (close_collector-IsClosed c)))
  async_listen_loop-IsEnd (registration k ∷ l) c d h =
      (let (off, none_waits, no_callback, (x, calls)) = async_listen_loop-IsEnd l _ d h in
        (
          off,
          none_waits,
          no_callback,
          (x, rw (append_assoc c.on_close (k ∷ []) (registered l)) at calls),
        ))
  async_listen_loop-IsEnd (message m ∷ l) c d h = elim (Outcome-cases (collect m c)) [
    | inl (b, went) ↦
        (let (kept_on_close, kept_called, _, _) : IsKept c (ok b) =
            subst (IsKept c) went (collect-IsKept m c) in
          let (off, none_waits, no_callback, (x, calls)) =
            async_listen_loop-IsEnd l b d (rw (went, async_listen_loop, listen_after) at h) in
          (off, none_waits, no_callback, (x, rw (kept_on_close, kept_called) at calls)))
    | inr (inl (x, went)) ↦ (let stuck = rw (went, async_listen_loop, listen_after) at h in cc)
    | inr (inr went) ↦ (let stuck = rw (went, async_listen_loop, listen_after) at h in cc)
  ]
