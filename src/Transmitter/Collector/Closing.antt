-- ===== src/Transmitter/Collector/Closing.antt =====
-- What closing does to the requests that wait for a response
-- (rust/src/connection/network/transmitter/transaction.rs).
use typedb_driver.Common.{
  ℕ, ◌≡◌, refl, ap, ◌∙◌, false, Option, none, some, List, [], ◌∷◌, ◌++◌, map, append-nil,
  append_assoc, nat_eq,
}
use typedb_driver.Errors.{Error}
use typedb_driver.Transmitter.{ResponseSink}
use typedb_driver.Transmitter.Collector.{
  Response, response, failed, StreamResponse, result, TransactionResponse, close, ResponseCollector,
  channel, finish, answer_all, close_collector, close_with_error, closing_error,
}

module _ {A RequestId Q N : Type 0} where
  -- One message with `r` to each sink of the table, in its order.
  abbrev pub answers :
      Response A (TransactionResponse Q N)
      → List (RequestId × ResponseSink)
      → List (ℕ × StreamResponse A RequestId (TransactionResponse Q N))
  answers r l = map (λ x. (channel x.1, result r)) l

  answer_all-eq :
      (r : Response A (TransactionResponse Q N)) (l : List (RequestId × ResponseSink))
      (c : ResponseCollector A RequestId Q N)
      → answer_all r l c ≡ record c { sent = c.sent ++ answers r l }
  unfolding answer_all finish
  answer_all-eq r [] c = rw (append-nil c.sent) refl
  answer_all-eq r (x ∷ l) c =
      answer_all-eq r l (finish x.1 r c)
      ∙ ap (λ t. record c { sent = t })
          (append_assoc c.sent ((channel x.1, result r) ∷ []) (answers r l))

  -- The collector `d` is `c` closed with `x`, after which each request that waited has been sent `r`.
  pub record IsClosed (r : Response A (TransactionResponse Q N)) (x : Option (Error A))
      (c d : ResponseCollector A RequestId Q N) : Type 0 where
    pub shut : d.is_open ≡ false
    pub no_callbacks : d.callbacks ≡ []
    pub no_on_close : d.on_close ≡ []
    pub answered : d.sent ≡ c.sent ++ answers r c.callbacks
    pub notified : d.called ≡ c.called ++ map (λ k. (k, x)) c.on_close

  -- Closing answers every request that waits, once, with `Close`; it calls every closing callback
  -- without an error, and leaves the transaction closed with no callback left.
  pub close_collector-IsClosed :
      (c : ResponseCollector A RequestId Q N) → IsClosed (response close) none c (close_collector c)
  unfolding close_collector
  close_collector-IsClosed c =
      rw
        (
          close_collector,
          answer_all-eq (response close) c.callbacks (record c { is_open = false; callbacks = [] }),
        )
        (record {
          shut = refl;
          no_callbacks = refl;
          no_on_close = refl;
          answered = refl;
          notified = refl;
        })

  -- Closing with an error answers every request that waits, once, with that error; it calls every
  -- closing callback with it, leaves the transaction closed with no callback left, and requests that
  -- come later are refused with it.
  pub close_with_error-IsClosed :
      (x : Error A) (c : ResponseCollector A RequestId Q N)
      → IsClosed (failed x) (some x) c (close_with_error x c)
        × (closing_error (close_with_error x c) ≡ x)
  unfolding close_with_error closing_error
  close_with_error-IsClosed x c =
      rw
        (
          close_with_error,
          answer_all-eq (failed x) c.callbacks
              (record c { is_open = false; error = some x; callbacks = [] }),
        )
        (
          record {
            shut = refl;
            no_callbacks = refl;
            no_on_close = refl;
            answered = refl;
            notified = refl;
          },
          refl,
        )

  -- A stream that ends without an error leaves the error that later requests are refused with.
  pub close_collector-closing_error :
      (c : ResponseCollector A RequestId Q N) → closing_error (close_collector c) ≡ closing_error c
  unfolding close_collector closing_error
  close_collector-closing_error c =
      rw
        (
          close_collector,
          answer_all-eq (response close) c.callbacks (record c { is_open = false; callbacks = [] }),
        )
        refl
