-- ===== src/Transmitter.antt =====
-- rust/src/connection/network/transmitter/transaction.rs and response_sink.rs: how the requests of a
-- transaction are sent in batches, and how its responses reach their callers.
pub mod Collector
pub mod Dispatch
pub mod Client
pub mod Tests
use typedb_driver.Common.{
  ℕ, zero, suc, ◌+◌, ◌≤◌, ◌<◌, ◌≡◌, refl, sym, ap, ◌∙◌, ◌≢◌, ◌⊎◌, inl, inr, Bool, true, false, not,
  ◌&&◌, ◌||◌, Option, none, some, List, [], ◌∷◌, ◌++◌, map, append-nil, append_assoc, arith, ltb,
  leb, ◌==◌, if◌then◌else◌, Bool-cases, Option-cases, length, All, All-append, Any, Eq, ◌=?◌,
  nat_eq, Outcome, ok, err, panic,
}
use typedb_driver.Common.Maps

-- `ResponseSink`, with the channel that it sends to.
pub data ResponseSink : Type 0 where
  one_shot streamed : ℕ → ResponseSink

abbrev pub max_grpc_message_len : ℕ
max_grpc_message_len = 1_000_000

-- `TransactionRequestBuffer`. A length is that of an encoding in memory, which fits a word.
pub record TransactionRequestBuffer (Req : Type 0) : Type 0 where
  pub reqs : List Req
  pub len : ℕ

-- What the dispatch loop changes: its buffer, the table of callbacks, and the messages sent.
pub record Dispatcher (Req RequestId : Type 0) : Type 0 where
  pub buffer : TransactionRequestBuffer Req
  pub callbacks : List (RequestId × ResponseSink)
  pub messages : List (List Req)

module _ {Req : Type 0} where
  abbrev pub empty_buffer : TransactionRequestBuffer Req
  empty_buffer = record { reqs = []; len = 0 }

  pub is_empty : TransactionRequestBuffer Req → Bool
  is_empty b = elim b.reqs [ [] ↦ true | r ∷ l ↦ false ]

module _ {Req RequestId : Type 0} where
  -- `request_sink.send(request_buffer.take())`
  pub flush : Dispatcher Req RequestId → Dispatcher Req RequestId
  flush d = record d { buffer = empty_buffer; messages = d.messages ++ d.buffer.reqs ∷ [] }

  pub flush_pending : Dispatcher Req RequestId → Dispatcher Req RequestId
  unfolding is_empty flush
  flush_pending d = if is_empty d.buffer then d else flush d

-- `encoded_len` and `req_id` are those of the generated message.
module _ {Req RequestId : Type 0} ⦃e : Eq RequestId⦄ (encoded_len : Req → ℕ)
    (req_id : Req → RequestId) where
  pub push : Req → TransactionRequestBuffer Req → TransactionRequestBuffer Req
  push r b = record { reqs = b.reqs ++ r ∷ []; len = b.len + encoded_len r }

  pub register :
      RequestId
      → Option ResponseSink
      → List (RequestId × ResponseSink)
      → List (RequestId × ResponseSink)
  register i none callbacks = callbacks
  register i (some sink) callbacks = Maps.insert i sink callbacks

  abbrev pub registered :
      Req × Option ResponseSink → Dispatcher Req RequestId → Dispatcher Req RequestId
  registered x d = record d { callbacks = register (req_id x.0) x.1 d.callbacks }

  abbrev pub buffered : Req → Dispatcher Req RequestId → Dispatcher Req RequestId
  buffered r d = record d { buffer = push r d.buffer }

  -- One request off the queue: its callback is registered, and it goes to the buffer, which is sent
  -- before if it would be too long.
  pub accept : Req × Option ResponseSink → Dispatcher Req RequestId → Dispatcher Req RequestId
  unfolding push register flush
  accept x d =
      if ltb max_grpc_message_len (d.buffer.len + encoded_len x.0)
      then buffered x.0 (flush (registered x d))
      else buffered x.0 (registered x d)

  pub drain : List (Req × Option ResponseSink) → Dispatcher Req RequestId → Dispatcher Req RequestId
  drain [] d = d
  drain (x ∷ l) d = drain l (accept x d)

  -- `sync_dispatch_loop`: the requests that each round finds on the queue, until the shutdown signal.
  pub sync_dispatch_loop :
      List (List (Req × Option ResponseSink)) → Dispatcher Req RequestId → Dispatcher Req RequestId
  sync_dispatch_loop [] d = flush_pending d
  sync_dispatch_loop (l ∷ rounds) d = sync_dispatch_loop rounds (flush_pending (drain l d))

abbrev pub idle :
    {Req RequestId : Type 0} → List (RequestId × ResponseSink) → Dispatcher Req RequestId
idle callbacks = record { buffer = empty_buffer; callbacks = callbacks; messages = [] }
