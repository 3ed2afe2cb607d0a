-- ===== src/Transmitter/Client.antt =====
-- rust/src/connection/network/transmitter/transaction.rs: the methods of `TransactionTransmitter` and its
-- listening loop. The transmitter shares its flag and its error with the collector.
pub mod Refused
pub mod Listening
pub mod Tests
use typedb_driver.Common.{
  ℕ, zero, suc, ◌+◌, ◌≤◌, ◌<◌, ◌≡◌, refl, sym, ap, ◌∙◌, ◌≢◌, ◌⊎◌, inl, inr, Bool, true, false, not,
  ◌&&◌, ◌||◌, Option, none, some, List, [], ◌∷◌, ◌++◌, map, append-nil, append_assoc, arith, ltb,
  leb, ◌==◌, if◌then◌else◌, Bool-cases, Option-cases, List-cases, length, All, All-append, Any, Eq,
  ◌=?◌, nat_eq, Outcome, ok, err, panic, ◌>>=◌,
}
use typedb_driver.Errors.{Error, connection, transaction_is_closed}
use typedb_driver.Transmitter.{ResponseSink, one_shot, streamed}
use typedb_driver.Transmitter.Collector.{
  Response, response, failed, StreamResponse, result, continuable, TransactionResponse,
  ServerMessage, ResponseCollector, Blocked, collect, close_collector, close_with_error,
  closing_error,
}

-- `TransactionRequest`: one of `P`, or the request for more of a stream.
pub data TransactionRequest (P RequestId : Type 0) : Type 0 where
  request : P → TransactionRequest P RequestId
  stream_more : RequestId → TransactionRequest P RequestId

-- The transmitter, with the queue to the dispatch loop. The flags say whether the runtime is open, and
-- whether the dispatch loop and the listening loop still receive.
pub record TransactionTransmitter (A RequestId P Q N : Type 0) : Type 0 where
  pub collector : ResponseCollector A RequestId Q N
  pub queue : List (TransactionRequest P RequestId × Option ResponseSink)
  pub runtime_open : Bool
  pub dispatching : Bool
  pub listening : Bool
  pub shutdown_signals : ℕ

module _ {A RequestId P Q N : Type 0} where
  abbrev pub enqueue :
      TransactionRequest P RequestId
      → Option ResponseSink
      → TransactionTransmitter A RequestId P Q N
      → TransactionTransmitter A RequestId P Q N
  enqueue r sink t = record t { queue = t.queue ++ (r, sink) ∷ [] }

  -- `single` and `stream` differ in the sink; the response comes later, over the sink's channel.
  pub submit :
      TransactionRequest P RequestId
      → ResponseSink
      → TransactionTransmitter A RequestId P Q N
      → Outcome (Error A) (Unit {0}) × TransactionTransmitter A RequestId P Q N
  submit r sink t =
      if not (t.collector.is_open)
      then (err (closing_error t.collector), t)
      else if t.dispatching
      then (ok tt, enqueue r (some sink) t)
      else (err (connection transaction_is_closed), t)

  pub single :
      TransactionRequest P RequestId
      → ℕ
      → TransactionTransmitter A RequestId P Q N
      → Outcome (Error A) (Unit {0}) × TransactionTransmitter A RequestId P Q N
  unfolding submit
  single r k t = submit r (one_shot k) t

  pub stream :
      TransactionRequest P RequestId
      → ℕ
      → TransactionTransmitter A RequestId P Q N
      → Outcome (Error A) (Unit {0}) × TransactionTransmitter A RequestId P Q N
  unfolding submit
  stream r k t = submit r (streamed k) t

  -- What the stream of a request gives for a message of its channel.
  pub process_response :
      StreamResponse A RequestId (TransactionResponse Q N)
      → TransactionTransmitter A RequestId P Q N
      → Option (Response A (TransactionResponse Q N)) × TransactionTransmitter A RequestId P Q N
  process_response (result r) t = (some r, t)
  process_response (continuable i) t =
      if t.dispatching
      then (none, enqueue (stream_more i) none t)
      else (some (failed (connection transaction_is_closed)), t)

  -- The listening loop records the callback `k`, if it still receives.
  pub on_close :
      ℕ → TransactionTransmitter A RequestId P Q N → TransactionTransmitter A RequestId P Q N
  on_close k t =
      if t.listening
      then record t {
        collector = record (t.collector) { on_close = t.collector.on_close ++ k ∷ [] };
      }
      else t

  abbrev pub signal_shutdown :
      TransactionTransmitter A RequestId P Q N → TransactionTransmitter A RequestId P Q N
  signal_shutdown t = record t { shutdown_signals = suc (t.shutdown_signals) }

  abbrev pub shut :
      TransactionTransmitter A RequestId P Q N → TransactionTransmitter A RequestId P Q N
  shut t = record t { collector = record (t.collector) { is_open = false } }

  abbrev pub with_error :
      Error A → TransactionTransmitter A RequestId P Q N → TransactionTransmitter A RequestId P Q N
  with_error x t = record t { collector = record (t.collector) { error = some x } }

  pub submit_close :
      TransactionTransmitter A RequestId P Q N → TransactionTransmitter A RequestId P Q N
  submit_close t = if t.collector.is_open then signal_shutdown (shut t) else t

-- What the listening loop meets.
pub data Event (A RequestId Q N : Type 0) : Type 0 where
  message : ServerMessage A RequestId Q N → Event A RequestId Q N
  status : Error A → Event A RequestId Q N
  finished : Event A RequestId Q N
  registration : ℕ → Event A RequestId Q N

module _ {A RequestId Q N : Type 0} ⦃e : Eq RequestId⦄ where
  -- What goes on after a message is collected.
  abbrev pub listen_after :
      Outcome Blocked (ResponseCollector A RequestId Q N)
      → (ResponseCollector A RequestId Q N
          → Outcome Blocked (ResponseCollector A RequestId Q N × Bool))
      → Outcome Blocked (ResponseCollector A RequestId Q N × Bool)
  listen_after (ok c) next = next c
  listen_after (err x) next = err x
  listen_after panic next = panic

  -- `async_listen_loop`: it ends with an error of the stream or with the end of the stream. The result
  -- says whether it ended.
  pub async_listen_loop :
      List (Event A RequestId Q N)
      → ResponseCollector A RequestId Q N
      → Outcome Blocked (ResponseCollector A RequestId Q N × Bool)
  async_listen_loop [] c = ok (c, false)
  async_listen_loop (message m ∷ l) c = listen_after (collect m c) (λ d. async_listen_loop l d)
  async_listen_loop (status x ∷ l) c = ok (close_with_error x c, true)
  async_listen_loop (finished ∷ l) c = ok (close_collector c, true)
  async_listen_loop (registration k ∷ l) c =
      async_listen_loop l (record c { on_close = c.on_close ++ k ∷ [] })

module _ {A RequestId P Q N : Type 0} ⦃e : Eq RequestId⦄ where
  abbrev pub heard :
      TransactionTransmitter A RequestId P Q N
      → Outcome Blocked (ResponseCollector A RequestId Q N × Bool)
      → Outcome Blocked (TransactionTransmitter A RequestId P Q N)
  heard t (ok (c, ended)) = ok (record t { collector = c; listening = not ended })
  heard t (err x) = err x
  heard t panic = panic

  -- What the listening loop does in the meantime, on the events `l`, if it still runs.
  pub hear :
      List (Event A RequestId Q N)
      → TransactionTransmitter A RequestId P Q N
      → Outcome Blocked (TransactionTransmitter A RequestId P Q N)
  unfolding async_listen_loop
  hear l t = if t.listening then heard t (async_listen_loop l t.collector) else ok t

  -- `close`, with what the listening loop meets after the flag is set, after the callback `k` is registered,
  -- and after the error is set and the shutdown is signalled. The flag of the result says whether the wait
  -- is over: the callback is called as the listening loop ends, and dropped if it had ended before.
  pub close :
      ℕ
      → (before between after : List (Event A RequestId Q N))
      → TransactionTransmitter A RequestId P Q N
      → Outcome Blocked (TransactionTransmitter A RequestId P Q N × Bool)
  unfolding on_close hear
  close k before between after t =
      if t.runtime_open && t.collector.is_open
      then (hear before (shut t) >>= λ t1. hear between (on_close k t1) >>= λ t2.
          hear after (signal_shutdown (with_error (connection transaction_is_closed) t2)) >>= λ t3.
          ok (t3, not t3.listening))
      else ok (t, true)
