-- ===== src/Transmitter/Collector.antt =====
-- rust/src/connection/network/transmitter/transaction.rs: `ResponseCollector`, which hands each response
-- to the callback of its request, and the closing of a transaction; response_sink.rs: the sinks.
-- A response stands with the outcome of its decoding. The thread that runs the closing callbacks is there,
-- so that handing it one does not fail.
pub mod Delivery
pub mod Closing
pub mod Kept
pub mod Blocking
pub mod Tests
use typedb_driver.Common.{
  ℕ, zero, suc, ◌+◌, ◌≤◌, ◌<◌, ◌≡◌, refl, sym, ap, ◌∙◌, ◌≢◌, ◌⊎◌, inl, inr, Bool, true, false, not,
  ◌&&◌, ◌||◌, Option, none, some, List, [], ◌∷◌, ◌++◌, map, append-nil, append_assoc, arith, ltb,
  leb, ◌==◌, if◌then◌else◌, Bool-cases, Option-cases, List-cases, length, All, All-append, Any, Eq,
  ◌=?◌, nat_eq, Outcome, ok, err, panic,
}
use typedb_driver.Common.Maps
use typedb_driver.Errors.{Error, connection, transaction_is_closed}
use typedb_driver.Transmitter.{ResponseSink, one_shot, streamed}

-- `Result`, of a response.
pub data Response (A T : Type 0) : Type 0 where
  response : T → Response A T
  failed : Error A → Response A T

pub data StreamResponse (A RequestId T : Type 0) : Type 0 where
  result : Response A T → StreamResponse A RequestId T
  continuable : RequestId → StreamResponse A RequestId T

-- `TransactionResponse`, with `Q` for its queries and `N` for its analyses.
pub data TransactionResponse (Q N : Type 0) : Type 0 where
  opened : ℕ → TransactionResponse Q N
  commit rollback close : TransactionResponse Q N
  query : Q → TransactionResponse Q N
  analyze : N → TransactionResponse Q N

abbrev pub is_query : {Q N : Type 0} → TransactionResponse Q N → Bool
is_query (query _) = true
is_query _ = false

-- The messages of the server: `Res`, and `ResPart` with a part of an answer or a signal of its stream.
pub data StreamState (Q : Type 0) : Type 0 where
  missing continue done : StreamState Q
  error : Q → StreamState Q

pub data ResPart (A Q N : Type 0) : Type 0 where
  query_res : Response A (TransactionResponse Q N) → ResPart A Q N
  stream_res : StreamState Q → ResPart A Q N
  no_part : ResPart A Q N

pub data ServerMessage (A RequestId Q N : Type 0) : Type 0 where
  res : RequestId → Response A (TransactionResponse Q N) → ServerMessage A RequestId Q N
  res_part : RequestId → ResPart A Q N → ServerMessage A RequestId Q N
  no_server : ServerMessage A RequestId Q N

-- The collector, with the messages sent to the channels of the sinks and the calls of the closing
-- callbacks, both in order. A message to a channel without a receiver is lost.
pub record ResponseCollector (A RequestId Q N : Type 0) : Type 0 where
  pub callbacks : List (RequestId × ResponseSink)
  pub is_open : Bool
  pub error : Option (Error A)
  pub on_close : List ℕ
  pub sent : List (ℕ × StreamResponse A RequestId (TransactionResponse Q N))
  pub called : List (ℕ × Option (Error A))

-- A second lock of the same `RwLock` by the thread that holds it: it deadlocks or panics.
pub data Blocked : Type 0 where
  blocked : Blocked

-- Whether the thread holds a read guard of the table, so that it cannot get the write lock.
pub data Guard : Type 0 where
  free reading : Guard

abbrev pub channel : ResponseSink → ℕ
channel (one_shot k) = k
channel (streamed k) = k

module _ {A RequestId Q N : Type 0} where
  abbrev pub deliver :
      ℕ
      → StreamResponse A RequestId (TransactionResponse Q N)
      → ResponseCollector A RequestId Q N
      → ResponseCollector A RequestId Q N
  deliver channel message c = record c { sent = c.sent ++ (channel, message) ∷ [] }

  -- `ResponseSink::finish` and `error`, which consume the sink.
  unfoldable pub finish :
      ResponseSink
      → Response A (TransactionResponse Q N)
      → ResponseCollector A RequestId Q N
      → ResponseCollector A RequestId Q N
  finish sink r c = deliver (channel sink) (result r) c

  -- `send_result` and `send_continuable`, which are unreachable on a one-shot sink.
  pub send_streamed :
      ResponseSink
      → StreamResponse A RequestId (TransactionResponse Q N)
      → ResponseCollector A RequestId Q N
      → Outcome Blocked (ResponseCollector A RequestId Q N)
  send_streamed (one_shot k) message c = panic
  send_streamed (streamed k) message c = ok (deliver k message c)

module _ {A RequestId Q N : Type 0} ⦃e : Eq RequestId⦄ where
  abbrev pub forget :
      RequestId → ResponseCollector A RequestId Q N → ResponseCollector A RequestId Q N
  forget i c = record c { callbacks = Maps.remove i c.callbacks }

  -- `self.callbacks.write().unwrap().remove(..)`
  abbrev pub remove_callback :
      Guard
      → RequestId
      → ResponseCollector A RequestId Q N
      → Outcome Blocked (ResponseCollector A RequestId Q N)
  remove_callback free i c = ok (forget i c)
  remove_callback reading i c = err blocked

  -- What is done after a lock is taken.
  abbrev pub after_lock :
      Outcome Blocked (ResponseCollector A RequestId Q N)
      → (ResponseCollector A RequestId Q N → Outcome Blocked (ResponseCollector A RequestId Q N))
      → Outcome Blocked (ResponseCollector A RequestId Q N)
  after_lock (ok c) next = next c
  after_lock (err x) next = err x
  after_lock panic next = panic

  unfoldable pub collect_response :
      RequestId
      → ResponseSink
      → Response A (TransactionResponse Q N)
      → ResponseCollector A RequestId Q N
      → Outcome Blocked (ResponseCollector A RequestId Q N)
  unfolding finish send_streamed
  collect_response i sink (failed x) c =
      after_lock (remove_callback free i c) (λ d. ok (finish sink (failed x) d))
  collect_response i sink (response r) c = elim (is_query r) [
    | true ↦ send_streamed sink (result (response r)) c
    | false ↦ after_lock (remove_callback free i c) (λ d. ok (finish sink (response r) d))
  ]

  abbrev pub collect_found :
      RequestId
      → Response A (TransactionResponse Q N)
      → ResponseCollector A RequestId Q N
      → Option ResponseSink
      → Outcome Blocked (ResponseCollector A RequestId Q N)
  collect_found i r c none = ok c
  collect_found i r c (some sink) = collect_response i sink r c

  unfoldable pub collect_res :
      RequestId
      → Response A (TransactionResponse Q N)
      → ResponseCollector A RequestId Q N
      → Outcome Blocked (ResponseCollector A RequestId Q N)
  unfolding collect_response
  collect_res i r c = collect_found i r c (Maps.lookup i c.callbacks)

  -- `match self.callbacks.read().unwrap().get(..)`: the guard is held for the whole match.
  abbrev pub read_callbacks :
      RequestId
      → ResponseCollector A RequestId Q N
      → (Guard → Option ResponseSink → Outcome Blocked (ResponseCollector A RequestId Q N))
      → Outcome Blocked (ResponseCollector A RequestId Q N)
  read_callbacks i c body = body reading (Maps.lookup i c.callbacks)

  -- The `QueryRes` part, with what the table has for the request: the read guard of the lookup is held for
  -- the whole match, since the sink is borrowed from the table.
  abbrev pub collect_query_res :
      Guard
      → RequestId
      → Response A (TransactionResponse Q N)
      → ResponseCollector A RequestId Q N
      → Option ResponseSink
      → Outcome Blocked (ResponseCollector A RequestId Q N)
  collect_query_res guard i r c none = ok c
  collect_query_res guard i (failed x) c (some sink) =
      after_lock (remove_callback guard i c) (λ d. send_streamed sink (result (failed x)) d)
  collect_query_res guard i (response r) c (some sink) = send_streamed sink (result (response r)) c

  abbrev pub stream_to :
      StreamResponse A RequestId (TransactionResponse Q N)
      → ResponseCollector A RequestId Q N
      → Option ResponseSink
      → Outcome Blocked (ResponseCollector A RequestId Q N)
  stream_to message c none = ok c
  stream_to message c (some sink) = send_streamed sink message c

  abbrev pub then_forget :
      RequestId
      → Outcome Blocked (ResponseCollector A RequestId Q N)
      → Outcome Blocked (ResponseCollector A RequestId Q N)
  then_forget i (ok c) = remove_callback free i c
  then_forget i (err x) = err x
  then_forget i panic = panic

  pub collect_res_part :
      RequestId
      → ResPart A Q N
      → ResponseCollector A RequestId Q N
      → Outcome Blocked (ResponseCollector A RequestId Q N)
  unfolding send_streamed
  collect_res_part i (query_res r) c =
      read_callbacks i c (λ guard found. collect_query_res guard i r c found)
  collect_res_part i (stream_res missing) c = remove_callback free i c
  collect_res_part i (stream_res continue) c =
      read_callbacks i c (λ guard found. stream_to (continuable i) c found)
  collect_res_part i (stream_res done) c = remove_callback free i c
  collect_res_part i (stream_res (error q)) c =
      then_forget i
        (read_callbacks i c (λ guard found. stream_to (result (response (query q))) c found))
  collect_res_part i no_part c = remove_callback free i c

  unfoldable pub collect :
      ServerMessage A RequestId Q N
      → ResponseCollector A RequestId Q N
      → Outcome Blocked (ResponseCollector A RequestId Q N)
  unfolding collect_res collect_res_part
  collect (res i r) c = collect_res i r c
  collect (res_part i p) c = collect_res_part i p c
  collect no_server c = ok c

module _ {A RequestId Q N : Type 0} where
  -- `listener.finish(..)` or `listener.error(..)` for all listeners.
  unfoldable pub answer_all :
      Response A (TransactionResponse Q N)
      → List (RequestId × ResponseSink)
      → ResponseCollector A RequestId Q N
      → ResponseCollector A RequestId Q N
  unfolding finish
  answer_all r [] c = c
  answer_all r (x ∷ l) c = answer_all r l (finish x.1 r c)

  abbrev pub call_all :
      Option (Error A)
      → List ℕ
      → ResponseCollector A RequestId Q N
      → ResponseCollector A RequestId Q N
  call_all x l c = record c { called = c.called ++ map (λ k. (k, x)) l; on_close = [] }

  pub close_collector : ResponseCollector A RequestId Q N → ResponseCollector A RequestId Q N
  unfolding answer_all
  close_collector c =
      call_all none c.on_close
        (answer_all (response close) c.callbacks (record c { is_open = false; callbacks = [] }))

  unfoldable pub close_with_error :
      Error A → ResponseCollector A RequestId Q N → ResponseCollector A RequestId Q N
  unfolding answer_all
  close_with_error x c = call_all (some x) c.on_close (
      answer_all (failed x) c.callbacks
        (record c { is_open = false; error = some x; callbacks = [] }))

  -- `TransactionTransmitter::error`
  unfoldable pub closing_error : ResponseCollector A RequestId Q N → Error A
  closing_error c = elim c.error [ none ↦ connection transaction_is_closed | some x ↦ x ]

  pub closing_error-some :
      (x : Error A) (c : ResponseCollector A RequestId Q N) → c.error ≡ some x → closing_error c ≡ x
  unfolding closing_error
  closing_error-some x c h = rw (closing_error, h) refl
