-- ===== src/Transmitter/Collector/Delivery.antt =====
-- What the collector does with a response, and what closing does
-- (rust/src/connection/network/transmitter/transaction.rs).
use typedb_driver.Common.{
  ℕ, ◌≡◌, refl, sym, ◌∙◌, ◌≢◌, ◌⊎◌, inl, inr, Option, none, some, [], ◌∷◌, ◌++◌, arith, Bool-cases,
  Eq, nat_eq, Outcome, ok, err, panic,
}
use mathlib.Core.Path.{subst}
use typedb_driver.Common.Maps
use typedb_driver.Common.Maps.Laws.{lookup-remove, beq_refl}
use typedb_driver.Transmitter.{ResponseSink, one_shot, streamed}
use typedb_driver.Transmitter.Collector.{
  Response, response, failed, StreamResponse, result, continuable, TransactionResponse, query,
  is_query, missing, continue, done, error, ResPart, query_res, stream_res, no_part, ServerMessage,
  res, res_part, no_server, ResponseCollector, Blocked, deliver, channel, finish, send_streamed,
  forget, collect_response, collect_found, collect_res, reading, collect_query_res, stream_to,
  then_forget, collect_res_part, collect,
}

module _ {A RequestId Q N : Type 0} ⦃e : Eq RequestId⦄ where
  -- From `c` to `d`, of which the message was for the request `i`: at most one message is sent, to the
  -- sink of `i`, and the entries of the other requests stay. A one-shot sink that was sent a message is
  -- no longer in the table.
  abbrev pub IsDelivery : RequestId → (c d : ResponseCollector A RequestId Q N) → Type 0
  IsDelivery i c d =
      ((j : RequestId) → i ≢ j → Maps.lookup j d.callbacks ≡ Maps.lookup j c.callbacks)
      × ((d.sent ≡ c.sent)
          ⊎ ((sink : ResponseSink) × (m : StreamResponse A RequestId (TransactionResponse Q N))
              × (Maps.lookup i c.callbacks ≡ some sink)
              × (d.sent ≡ c.sent ++ (channel sink, m) ∷ [])
              × ((k : ℕ) → sink ≡ one_shot k → Maps.lookup i d.callbacks ≡ none)))

  kept-forget :
      (i j : RequestId) (c : ResponseCollector A RequestId Q N)
      → i ≢ j
      → Maps.lookup j (forget i c).callbacks ≡ Maps.lookup j c.callbacks
  kept-forget i j c other = rw (lookup-remove i j c.callbacks) (ground (arith, e.beq_iff i j))

  gone-forget :
      (i : RequestId) (c : ResponseCollector A RequestId Q N)
      → Maps.lookup i (forget i c).callbacks ≡ none
  gone-forget i c = rw (lookup-remove i i c.callbacks, beq_refl i) refl

  streamed-IsDelivery :
      (i : RequestId) (sink : ResponseSink)
      (m : StreamResponse A RequestId (TransactionResponse Q N))
      (c d : ResponseCollector A RequestId Q N)
      → Maps.lookup i c.callbacks ≡ some sink
      → send_streamed sink m c ≡ ok d
      → IsDelivery i c d
  unfolding send_streamed
  streamed-IsDelivery i (one_shot k) m c d found sent = cc
  streamed-IsDelivery i (streamed k) m c d found sent =
      (let one : deliver k m c ≡ d = ground arith in
        rw (sym one) ((λ j other. refl), inr (streamed k, m, found, refl, λ l q. cc)))

  finish-IsDelivery :
      (i : RequestId) (sink : ResponseSink) (r : Response A (TransactionResponse Q N))
      (c : ResponseCollector A RequestId Q N)
      → Maps.lookup i c.callbacks ≡ some sink
      → IsDelivery i c (finish sink r (forget i c))
  unfolding finish
  finish-IsDelivery i sink r c found = (
    (λ j other. kept-forget i j c other),
    inr (sink, result r, found, refl, λ k q. gone-forget i c),
  )

  response-IsDelivery :
      (i : RequestId) (sink : ResponseSink) (r : Response A (TransactionResponse Q N))
      (c d : ResponseCollector A RequestId Q N)
      → Maps.lookup i c.callbacks ≡ some sink
      → collect_response i sink r c ≡ ok d
      → IsDelivery i c d
  unfolding collect_response
  response-IsDelivery i sink (failed x) c d found went =
      (let one : finish sink (failed x) (forget i c) ≡ d = ground arith in
        rw (sym one) (finish-IsDelivery i sink (failed x) c found))
  response-IsDelivery i sink (response r) c d found went = elim (Bool-cases (is_query r)) [
    | inl part ↦ streamed-IsDelivery i sink _ c d found (rw (part, collect_response) at went)
    | inr final ↦
        (let ran = rw (final, collect_response) at went in
          let one : finish sink (response r) (forget i c) ≡ d = ground arith in
          rw (sym one) (finish-IsDelivery i sink (response r) c found))
  ]

  abbrev taken :
      ResponseCollector A RequestId Q N → Outcome Blocked (ResponseCollector A RequestId Q N)
  taken c = ok c

  same-IsDelivery :
      (i : RequestId) (c d : ResponseCollector A RequestId Q N) → taken c ≡ ok d → IsDelivery i c d
  same-IsDelivery i c d went =
      (let one : c ≡ d = ground arith in rw (sym one) ((λ j other. refl), inl refl))

  forget-IsDelivery :
      (i : RequestId) (c d : ResponseCollector A RequestId Q N)
      → taken (forget i c) ≡ ok d
      → IsDelivery i c d
  forget-IsDelivery i c d went =
      (let one : forget i c ≡ d = ground arith in
        rw (sym one) ((λ j other. kept-forget i j c other), inl refl))

  stream_to-IsDelivery :
      (i : RequestId) (m : StreamResponse A RequestId (TransactionResponse Q N))
      (c d : ResponseCollector A RequestId Q N) (o : Option ResponseSink)
      → Maps.lookup i c.callbacks ≡ o
      → stream_to m c o ≡ ok d
      → IsDelivery i c d
  stream_to-IsDelivery i m c d none found went = same-IsDelivery i c d went
  stream_to-IsDelivery i m c d (some sink) found went = streamed-IsDelivery i sink m c d found went

  -- The entry goes after the message is sent.
  then_forget-IsDelivery :
      (i : RequestId) (c d : ResponseCollector A RequestId Q N)
      (p : Outcome Blocked (ResponseCollector A RequestId Q N))
      → ((b : ResponseCollector A RequestId Q N) → p ≡ ok b → IsDelivery i c b)
      → then_forget i p ≡ ok d
      → IsDelivery i c d
  then_forget-IsDelivery i c d (ok b) before went =
      let one : forget i b ≡ d = ground arith in
      let (kept, effect) = before b refl in
      rw (sym one) (
        (λ j other. kept-forget i j b other ∙ kept j other),
        elim effect [
          | inl quiet ↦ inl quiet
          | inr (sink, m, found, sent, gone) ↦ inr (sink, m, found, sent, λ k q. gone-forget i b)
        ],
      )
  then_forget-IsDelivery i c d (err x) before went = cc
  then_forget-IsDelivery i c d panic before went = cc

  found-IsDelivery :
      (i : RequestId) (r : Response A (TransactionResponse Q N))
      (c d : ResponseCollector A RequestId Q N) (o : Option ResponseSink)
      → Maps.lookup i c.callbacks ≡ o
      → collect_found i r c o ≡ ok d
      → IsDelivery i c d
  found-IsDelivery i r c d none found went = same-IsDelivery i c d went
  found-IsDelivery i r c d (some sink) found went = response-IsDelivery i sink r c d found went

  query_res-IsDelivery :
      (i : RequestId) (r : Response A (TransactionResponse Q N))
      (c d : ResponseCollector A RequestId Q N) (o : Option ResponseSink)
      → Maps.lookup i c.callbacks ≡ o
      → collect_query_res reading i r c o ≡ ok d
      → IsDelivery i c d
  query_res-IsDelivery i r c d none found went = same-IsDelivery i c d went
  query_res-IsDelivery i (failed x) c d (some sink) found went = cc
  query_res-IsDelivery i (response r) c d (some sink) found went =
      streamed-IsDelivery i sink _ c d found went

  part-IsDelivery :
      (i : RequestId) (p : ResPart A Q N) (c d : ResponseCollector A RequestId Q N)
      → collect_res_part i p c ≡ ok d
      → IsDelivery i c d
  unfolding collect_res_part
  part-IsDelivery i (query_res r) c d went =
      query_res-IsDelivery i r c d (Maps.lookup i c.callbacks) refl went
  part-IsDelivery i (stream_res missing) c d went = forget-IsDelivery i c d went
  part-IsDelivery i (stream_res continue) c d went =
      stream_to-IsDelivery i (continuable i) c d (Maps.lookup i c.callbacks) refl went
  part-IsDelivery i (stream_res done) c d went = forget-IsDelivery i c d went
  part-IsDelivery i (stream_res (error q)) c d went =
      then_forget-IsDelivery i c d _
        (λ b.
          stream_to-IsDelivery i (result (response (query q))) c b (Maps.lookup i c.callbacks) refl)
        went
  part-IsDelivery i no_part c d went = forget-IsDelivery i c d went

  -- The request that a message is for.
  abbrev pub IsFor : RequestId → ServerMessage A RequestId Q N → Type 0
  IsFor i (res j r) = i ≡ j
  IsFor i (res_part j p) = i ≡ j
  IsFor i no_server = ⊥

  -- A message for a request that the collector takes sends at most one message on, to the sink of that
  -- request, and leaves the entries of other requests as they are. A one-shot sink that was sent a
  -- message is no longer in the table.
  pub collect-IsDelivery :
      (i : RequestId) (m : ServerMessage A RequestId Q N) (c d : ResponseCollector A RequestId Q N)
      → IsFor i m
      → collect m c ≡ ok d
      → IsDelivery i c d
  unfolding collect collect_res
  collect-IsDelivery i (res j r) c d one went =
      subst (λ k. IsDelivery k c d) (sym one)
        (found-IsDelivery j r c d (Maps.lookup j c.callbacks) refl went)
  collect-IsDelivery i (res_part j p) c d one went =
      subst (λ k. IsDelivery k c d) (sym one) (part-IsDelivery j p c d went)
  collect-IsDelivery i no_server c d one went = absurd one
