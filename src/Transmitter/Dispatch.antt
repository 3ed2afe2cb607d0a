-- ===== src/Transmitter/Dispatch.antt =====
-- The messages of the dispatch loop, and the callbacks that it registers
-- (rust/src/connection/network/transmitter/transaction.rs).
use typedb_driver.Common.{
  ℕ, ◌+◌, ◌≤◌, ◌≡◌, refl, sym, ap, ◌∙◌, ◌⊎◌, inl, inr, Option, List, [], ◌∷◌, ◌++◌, map, append-nil,
  append_assoc, arith, ltb, Bool-cases, List-cases, length, All, All-append, Eq, nat_eq,
}
use typedb_driver.Transmitter.{
  ResponseSink, max_grpc_message_len, Dispatcher, is_empty, flush, flush_pending, push, registered,
  accept, drain, sync_dispatch_loop, idle,
}

abbrev pub concat : {A : Type 0} → List (List A) → List A
concat [] = []
concat (x ∷ l) = x ++ concat l

concat-append : {A : Type 0} (k l : List (List A)) → concat (k ++ l) ≡ concat k ++ concat l
concat-append [] l = refl
concat-append (x ∷ k) l = rw (concat-append k l) (sym (append_assoc x (concat k) (concat l)))

map-append : {A B : Type 0} (f : A → B) (k l : List A) → map f (k ++ l) ≡ map f k ++ map f l
map-append f [] l = refl
map-append f (x ∷ k) l = ap (λ t. f x ∷ t) (map-append f k l)

module _ {Req RequestId : Type 0} ⦃e : Eq RequestId⦄ (encoded_len : Req → ℕ)
    (req_id : Req → RequestId) where
  abbrev pub total : List Req → ℕ
  total [] = 0
  total (r ∷ l) = encoded_len r + total l

  total-append : (k l : List Req) → total (k ++ l) ≡ total k + total l
  total-append [] l = omega arith
  total-append (r ∷ k) l = (let rest = total-append k l in omega arith)

  -- A message whose requests' encoded lengths add up to at most the limit, or with a single request.
  abbrev pub IsSendable : List Req → Type 0
  IsSendable l = (total l ≤ max_grpc_message_len) ⊎ (length l ≡ 1)

  record IsSound (d : Dispatcher Req RequestId) : Type 0 where
    measured : d.buffer.len ≡ total d.buffer.reqs
    buffer_sendable : IsSendable d.buffer.reqs
    sendable : All IsSendable d.messages

  -- What the dispatcher took off the queue, in this order: sent, or in the buffer.
  abbrev taken : Dispatcher Req RequestId → List Req
  taken d = concat d.messages ++ d.buffer.reqs

  flush-IsSound : (d : Dispatcher Req RequestId) → IsSound d → IsSound (flush d)
  unfolding flush
  flush-IsSound d h = record {
    measured = refl;
    buffer_sendable = inl (omega arith);
    sendable =
        All-append IsSendable d.messages (d.buffer.reqs ∷ []) h.sendable (h.buffer_sendable, tt);
  }

  flush-taken : (d : Dispatcher Req RequestId) → taken (flush d) ≡ taken d
  unfolding flush
  flush-taken d =
      rw (concat-append d.messages (d.buffer.reqs ∷ []), append-nil (d.buffer.reqs))
        (append-nil (concat d.messages ++ d.buffer.reqs))

  flush_pending-IsSound : (d : Dispatcher Req RequestId) → IsSound d → IsSound (flush_pending d)
  unfolding flush_pending
  flush_pending-IsSound d h = elim (Bool-cases (is_empty d.buffer)) [
    | inl none_left ↦ rw (none_left, flush_pending) h
    | inr pending ↦ rw (pending, flush_pending) (flush-IsSound d h)
  ]

  accept-IsSound :
      (x : Req × Option ResponseSink) (d : Dispatcher Req RequestId)
      → IsSound d
      → IsSound (accept encoded_len req_id x d)
  unfolding accept push flush
  accept-IsSound x d h =
      elim (Bool-cases (ltb max_grpc_message_len (d.buffer.len + encoded_len x.0))) [
        | inl full ↦
            let after = flush-IsSound (registered encoded_len req_id x d) (record {
              measured = h.measured;
              buffer_sendable = h.buffer_sendable;
              sendable = h.sendable;
            }) in
            rw (full, accept)
              (record {
                measured = omega arith;
                buffer_sendable = inr refl;
                sendable = after.sendable;
              })
        | inr fits ↦
            let sum = total-append d.buffer.reqs (x.0 ∷ []) in
            let before = h.measured in
            rw (fits, accept)
              (record {
                measured = ground arith;
                buffer_sendable = inl (ground arith);
                sendable = h.sendable;
              })
      ]

  accept-taken :
      (x : Req × Option ResponseSink) (d : Dispatcher Req RequestId)
      → taken (accept encoded_len req_id x d) ≡ taken d ++ x.0 ∷ []
  unfolding accept push
  accept-taken x d = elim (Bool-cases (ltb max_grpc_message_len (d.buffer.len + encoded_len x.0))) [
    | inl full ↦
        rw (full, accept)
          (sym (append_assoc (concat (flush (registered encoded_len req_id x d)).messages) _ _)
            ∙ ap (λ t. t ++ x.0 ∷ []) (flush-taken (registered encoded_len req_id x d)))
    | inr fits ↦ rw (fits, accept) (sym (append_assoc (concat d.messages) d.buffer.reqs (x.0 ∷ [])))
  ]

  flush_pending-taken : (d : Dispatcher Req RequestId) → taken (flush_pending d) ≡ taken d
  unfolding flush_pending
  flush_pending-taken d = elim (Bool-cases (is_empty d.buffer)) [
    | inl none_left ↦ rw (none_left, flush_pending) refl
    | inr pending ↦ rw (pending, flush_pending) (flush-taken d)
  ]

  -- After a flush the buffer is empty.
  flush_pending-buffer : (d : Dispatcher Req RequestId) → (flush_pending d).buffer.reqs ≡ []
  unfolding flush_pending is_empty flush
  flush_pending-buffer d = elim (List-cases d.buffer.reqs) [
    | inl none_left ↦ rw (flush_pending, is_empty, none_left) refl
    | inr (r, l, pending) ↦ rw (flush_pending, is_empty, pending) refl
  ]

  abbrev requests : List (Req × Option ResponseSink) → List Req
  requests l = map (λ x. x.0) l

  drain-IsSound :
      (l : List (Req × Option ResponseSink)) (d : Dispatcher Req RequestId)
      → IsSound d
      → IsSound (drain encoded_len req_id l d)
  unfolding drain
  drain-IsSound [] d h = h
  drain-IsSound (x ∷ l) d h = drain-IsSound l (accept encoded_len req_id x d) (accept-IsSound x d h)

  drain-taken :
      (l : List (Req × Option ResponseSink)) (d : Dispatcher Req RequestId)
      → taken (drain encoded_len req_id l d) ≡ taken d ++ requests l
  unfolding drain
  drain-taken [] d = sym (append-nil (taken d))
  drain-taken (x ∷ l) d =
      drain-taken l (accept encoded_len req_id x d)
      ∙ (ap (λ t. t ++ requests l) (accept-taken x d)
          ∙ append_assoc (taken d) (x.0 ∷ []) (requests l))

  loop-IsSound :
      (rounds : List (List (Req × Option ResponseSink))) (d : Dispatcher Req RequestId)
      → IsSound d
      → IsSound (sync_dispatch_loop encoded_len req_id rounds d)
  unfolding sync_dispatch_loop
  loop-IsSound [] d h = flush_pending-IsSound d h
  loop-IsSound (l ∷ rounds) d h =
      loop-IsSound rounds _ (flush_pending-IsSound _ (drain-IsSound l d h))

  loop-messages :
      (rounds : List (List (Req × Option ResponseSink))) (d : Dispatcher Req RequestId)
      → concat (sync_dispatch_loop encoded_len req_id rounds d).messages
        ≡ taken d ++ requests (concat rounds)
  unfolding sync_dispatch_loop
  loop-messages [] d =
      sym (append-nil _)
      ∙ (ap (λ t. concat (flush_pending d).messages ++ t) (sym (flush_pending-buffer d))
          ∙ (flush_pending-taken d ∙ sym (append-nil _)))
  loop-messages (l ∷ rounds) d =
      let drained = drain encoded_len req_id l d in
      loop-messages rounds (flush_pending drained)
      ∙ (ap (λ t. t ++ requests (concat rounds)) (flush_pending-taken drained ∙ drain-taken l d)
          ∙ (append_assoc (taken d) (requests l) (requests (concat rounds))
              ∙ ap (λ t. taken d ++ t) (sym (map-append (λ x. x.0) l (concat rounds)))))

  -- The messages that the dispatch loop has sent when it ends hold exactly the requests that it took
  -- off the queue, in their order.
  pub sync_dispatch_loop-concat :
      (rounds : List (List (Req × Option ResponseSink)))
      (callbacks : List (RequestId × ResponseSink))
      → concat (sync_dispatch_loop encoded_len req_id rounds (idle callbacks)).messages
        ≡ map (λ x. x.0) (concat rounds)
  sync_dispatch_loop-concat rounds callbacks = loop-messages rounds (idle callbacks)

  -- The encoded lengths of the requests of a message that the dispatch loop sends add up to at most
  -- the limit, or the message has a single request; the tags and the lengths of the message's own
  -- fields are not counted.
  pub sync_dispatch_loop-IsSendable :
      (rounds : List (List (Req × Option ResponseSink)))
      (callbacks : List (RequestId × ResponseSink))
      → All IsSendable (sync_dispatch_loop encoded_len req_id rounds (idle callbacks)).messages
  sync_dispatch_loop-IsSendable rounds callbacks =
      let start : IsSound (idle callbacks) = record {
        measured = refl;
        buffer_sendable = inl (omega arith);
        sendable = tt;
      } in
      (loop-IsSound rounds (idle callbacks) start).sendable
