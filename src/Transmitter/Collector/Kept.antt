-- ===== src/Transmitter/Collector/Kept.antt =====
-- What a response leaves alone: the closing callbacks and their calls, and whether the transaction is
-- closed
-- (rust/src/connection/network/transmitter/transaction.rs).
use typedb_driver.Common.{
  ◌≡◌, refl, inl, inr, Option, none, some, Bool-cases, Eq, nat_eq, Outcome, ok, err, panic,
}
use typedb_driver.Common.Maps
use typedb_driver.Transmitter.{ResponseSink, one_shot, streamed}
use typedb_driver.Transmitter.Collector.{
  Response, response, failed, StreamResponse, result, continuable, TransactionResponse, query,
  is_query, missing, continue, done, error, query_res, stream_res, no_part, ServerMessage, res,
  res_part, no_server, ResponseCollector, Blocked, finish, send_streamed, collect_response,
  collect_found, collect_res, reading, collect_query_res, stream_to, then_forget, collect_res_part,
  collect,
}

module _ {A RequestId Q N : Type 0} ⦃e : Eq RequestId⦄ where
  -- A step that succeeds keeps the closing callbacks of `c`, their calls, and whether and why `c` is closed.
  abbrev pub IsKept :
      ResponseCollector A RequestId Q N
      → Outcome Blocked (ResponseCollector A RequestId Q N)
      → Type 0
  IsKept c (ok d) =
      (d.on_close ≡ c.on_close)
      × (d.called ≡ c.called)
      × (d.is_open ≡ c.is_open)
      × (d.error ≡ c.error)
  IsKept c (err x) = Unit
  IsKept c panic = Unit

  streamed-IsKept :
      (sink : ResponseSink) (m : StreamResponse A RequestId (TransactionResponse Q N))
      (c : ResponseCollector A RequestId Q N)
      → IsKept c (send_streamed sink m c)
  unfolding send_streamed
  streamed-IsKept (one_shot k) m c = tt
  streamed-IsKept (streamed k) m c = (refl, refl, refl, refl)

  stream_to-IsKept :
      (m : StreamResponse A RequestId (TransactionResponse Q N))
      (c : ResponseCollector A RequestId Q N) (o : Option ResponseSink)
      → IsKept c (stream_to m c o)
  stream_to-IsKept m c none = (refl, refl, refl, refl)
  stream_to-IsKept m c (some sink) = streamed-IsKept sink m c

  then_forget-IsKept :
      (i : RequestId) (c : ResponseCollector A RequestId Q N)
      (p : Outcome Blocked (ResponseCollector A RequestId Q N))
      → IsKept c p
      → IsKept c (then_forget i p)
  then_forget-IsKept i c (ok d) h = h
  then_forget-IsKept i c (err x) h = tt
  then_forget-IsKept i c panic h = tt

  response-IsKept :
      (i : RequestId) (r : Response A (TransactionResponse Q N))
      (c : ResponseCollector A RequestId Q N) (o : Option ResponseSink)
      → IsKept c (collect_found i r c o)
  unfolding collect_response finish
  response-IsKept i r c none = (refl, refl, refl, refl)
  response-IsKept i (failed x) c (some sink) = (refl, refl, refl, refl)
  response-IsKept i (response r) c (some sink) = elim (Bool-cases (is_query r)) [
    | inl part ↦ rw (part, collect_response) (streamed-IsKept sink (result (response r)) c)
    | inr final ↦ rw (final, collect_response) (refl, refl, refl, refl)
  ]

  query_res-IsKept :
      (i : RequestId) (r : Response A (TransactionResponse Q N))
      (c : ResponseCollector A RequestId Q N) (o : Option ResponseSink)
      → IsKept c (collect_query_res reading i r c o)
  query_res-IsKept i r c none = (refl, refl, refl, refl)
  query_res-IsKept i (failed x) c (some sink) = tt
  query_res-IsKept i (response r) c (some sink) = streamed-IsKept sink (result (response r)) c

  pub collect-IsKept :
      (m : ServerMessage A RequestId Q N) (c : ResponseCollector A RequestId Q N)
      → IsKept c (collect m c)
  unfolding collect collect_res collect_res_part
  collect-IsKept (res i r) c = response-IsKept i r c (Maps.lookup i c.callbacks)
  collect-IsKept (res_part i (query_res r)) c = query_res-IsKept i r c (Maps.lookup i c.callbacks)
  collect-IsKept (res_part i (stream_res missing)) c = (refl, refl, refl, refl)
  collect-IsKept (res_part i (stream_res continue)) c =
      stream_to-IsKept (continuable i) c (Maps.lookup i c.callbacks)
  collect-IsKept (res_part i (stream_res done)) c = (refl, refl, refl, refl)
  collect-IsKept (res_part i (stream_res (error q))) c =
      then_forget-IsKept i c _
        (stream_to-IsKept (result (response (query q))) c (Maps.lookup i c.callbacks))
  collect-IsKept (res_part i no_part) c = (refl, refl, refl, refl)
  collect-IsKept no_server c = (refl, refl, refl, refl)
