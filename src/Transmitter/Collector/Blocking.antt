-- ===== src/Transmitter/Collector/Blocking.antt =====
-- When the listener of a transaction blocks on its own lock
-- (rust/src/connection/network/transmitter/transaction.rs).
use typedb_driver.Common.{
  ◌≡◌, refl, ◌≢◌, ◌↔◌, inl, inr, Option, none, some, Bool-cases, Eq, nat_eq, Outcome, ok, err,
  panic,
}
use typedb_driver.Common.Maps
use typedb_driver.Transmitter.{ResponseSink, one_shot, streamed}
use typedb_driver.Transmitter.Collector.{
  Response, response, failed, StreamResponse, result, continuable, TransactionResponse, query,
  is_query, missing, continue, done, error, query_res, stream_res, no_part, ServerMessage, res,
  res_part, no_server, ResponseCollector, Blocked, blocked, send_streamed, collect_response,
  collect_found, collect_res, reading, collect_query_res, stream_to, then_forget, collect_res_part,
  collect,
}

module _ {A RequestId Q N : Type 0} ⦃e : Eq RequestId⦄ where
  -- A part of an answer that does not decode, of a request that waits for a response.
  abbrev pub IsUndecodedPart :
      ServerMessage A RequestId Q N → ResponseCollector A RequestId Q N → Type 0
  IsUndecodedPart (res_part i (query_res (failed x))) c = Maps.lookup i c.callbacks ≢ none
  IsUndecodedPart _ c = ⊥

  sent-unblocked :
      (sink : ResponseSink) (m : StreamResponse A RequestId (TransactionResponse Q N))
      (c : ResponseCollector A RequestId Q N)
      → send_streamed sink m c ≢ err blocked
  unfolding send_streamed
  sent-unblocked (one_shot k) m c = λ h. cc
  sent-unblocked (streamed k) m c = λ h. cc

  stream_to-unblocked :
      (m : StreamResponse A RequestId (TransactionResponse Q N))
      (c : ResponseCollector A RequestId Q N) (o : Option ResponseSink)
      → stream_to m c o ≢ err blocked
  stream_to-unblocked m c none = λ h. cc
  stream_to-unblocked m c (some sink) = sent-unblocked sink m c

  then_forget-unblocked :
      (i : RequestId) (p : Outcome Blocked (ResponseCollector A RequestId Q N))
      → p ≢ err blocked
      → then_forget i p ≢ err blocked
  then_forget-unblocked i (ok c) h = λ q. cc
  then_forget-unblocked i (err x) h = h
  then_forget-unblocked i panic h = λ q. cc

  response-unblocked :
      (i : RequestId) (sink : ResponseSink) (r : Response A (TransactionResponse Q N))
      (c : ResponseCollector A RequestId Q N)
      → collect_response i sink r c ≢ err blocked
  unfolding collect_response
  response-unblocked i sink (failed x) c = λ h. cc
  response-unblocked i sink (response r) c = elim (Bool-cases (is_query r)) [
    | inl part ↦ rw (part, collect_response) (sent-unblocked sink (result (response r)) c)
    | inr final ↦ rw (final, collect_response) (λ h. cc)
  ]

  found-unblocked :
      (i : RequestId) (r : Response A (TransactionResponse Q N))
      (c : ResponseCollector A RequestId Q N) (o : Option ResponseSink)
      → collect_found i r c o ≢ err blocked
  found-unblocked i r c none = λ h. cc
  found-unblocked i r c (some sink) = response-unblocked i sink r c

  part-blocked :
      (i : RequestId) (r : Response A (TransactionResponse Q N))
      (c : ResponseCollector A RequestId Q N) (o : Option ResponseSink)
      → Maps.lookup i c.callbacks ≡ o
      → (collect_query_res reading i r c o ≡ err blocked)
        ↔ IsUndecodedPart (res_part i (query_res r)) c
  part-blocked i (failed x) c none found = (λ h. cc, λ h. absurd (h found))
  part-blocked i (response r) c none found = (λ h. cc, λ h. absurd h)
  part-blocked i (failed x) c (some sink) found = (λ h. rw found (λ q. cc), λ h. refl)
  part-blocked i (response r) c (some sink) found =
      (λ h. absurd (sent-unblocked sink (result (response r)) c h), λ h. absurd h)

  -- The collector blocks on its own lock exactly at a part of an answer that does not decode, for a
  -- request that waits for a response.
  pub collect-IsUndecodedPart :
      (m : ServerMessage A RequestId Q N) (c : ResponseCollector A RequestId Q N)
      → (collect m c ≡ err blocked) ↔ IsUndecodedPart m c
  unfolding collect collect_res collect_res_part
  collect-IsUndecodedPart (res i r) c =
      (λ h. found-unblocked i r c (Maps.lookup i c.callbacks) h, λ h. absurd h)
  collect-IsUndecodedPart (res_part i (query_res r)) c =
      part-blocked i r c (Maps.lookup i c.callbacks) refl
  collect-IsUndecodedPart (res_part i (stream_res missing)) c = (λ h. cc, λ h. absurd h)
  collect-IsUndecodedPart (res_part i (stream_res continue)) c =
      (λ h. stream_to-unblocked (continuable i) c (Maps.lookup i c.callbacks) h, λ h. absurd h)
  collect-IsUndecodedPart (res_part i (stream_res done)) c = (λ h. cc, λ h. absurd h)
  collect-IsUndecodedPart (res_part i (stream_res (error q))) c = (
    λ h.
        then_forget-unblocked i _
          (stream_to-unblocked (result (response (query q))) c (Maps.lookup i c.callbacks)) h,
    λ h. absurd h,
  )
  collect-IsUndecodedPart (res_part i no_part) c = (λ h. cc, λ h. absurd h)
  collect-IsUndecodedPart no_server c = (λ h. cc, λ h. absurd h)
