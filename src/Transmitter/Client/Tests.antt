-- ===== src/Transmitter/Client/Tests.antt =====
-- Concrete runs of a transmitter and its listening loop.
use typedb_driver.Common.{
  ℕ, ◌≡◌, refl, ◌⊎◌, true, false, none, some, List, [], ◌∷◌, nat_eq, ok, err,
}
use typedb_driver.Errors.{Error, connection, transaction_is_closed, broken_pipe}
use typedb_driver.Transmitter.{one_shot, streamed}
use typedb_driver.Transmitter.Collector.{
  response, failed, result, commit, res, ResponseCollector, collect, collect_res, collect_response,
  finish, answer_all, close_with_error,
}
use typedb_driver.Transmitter.Client.{
  TransactionRequest, request, TransactionTransmitter, single, stream, close, hear, on_close, Event,
  message, status, registration, async_listen_loop,
}
use typedb_driver.Transmitter.Client.Refused.{IsEndedBy, close-refuses}
use typedb_driver.Transmitter.Client.Listening.{IsEnd, async_listen_loop-IsEnd}

-- A commit and a query wait.
abbrev waiting : ResponseCollector ℕ ℕ ℕ ℕ
waiting = record {
  callbacks = (1, one_shot 10) ∷ (2, streamed 20) ∷ [];
  is_open = true;
  error = none;
  on_close = 5 ∷ [];
  sent = [];
  called = [];
}

abbrev transmitter : TransactionTransmitter ℕ ℕ ℕ ℕ ℕ
transmitter = record {
  collector = waiting;
  queue = [];
  runtime_open = true;
  dispatching = true;
  listening = true;
  shutdown_signals = 0;
}

abbrev query_request : TransactionRequest ℕ ℕ
query_request = request 7

abbrev events : List (Event ℕ ℕ ℕ ℕ)
events =
    registration 6
    ∷ message (res 1 (response commit))
    ∷ status (connection transaction_is_closed)
    ∷ []

abbrev ended : ResponseCollector ℕ ℕ ℕ ℕ
ended = record {
  callbacks = [];
  is_open = false;
  error = some (connection transaction_is_closed);
  on_close = [];
  sent =
      (10, result (response commit))
      ∷ (20, result (failed (connection transaction_is_closed)))
      ∷ [];
  called =
      (5, some (connection transaction_is_closed))
      ∷ (6, some (connection transaction_is_closed))
      ∷ [];
}

loop_ended : async_listen_loop events waiting ≡ ok (ended, true)
unfolding async_listen_loop collect collect_res collect_response finish close_with_error answer_all
loop_ended = refl

async_listen_loop-IsEnd_example : IsEnd (6 ∷ []) waiting ended
async_listen_loop-IsEnd_example = async_listen_loop-IsEnd events waiting ended loop_ended

-- A commit is answered before the callback is registered, and the stream fails after the shutdown.
abbrev shutdown : TransactionTransmitter ℕ ℕ ℕ ℕ ℕ
shutdown = record {
  collector = record {
    callbacks = [];
    is_open = false;
    error = some (connection broken_pipe);
    on_close = [];
    sent = (10, result (response commit)) ∷ (20, result (failed (connection broken_pipe))) ∷ [];
    called = (5, some (connection broken_pipe)) ∷ (6, some (connection broken_pipe)) ∷ [];
  };
  queue = [];
  runtime_open = true;
  dispatching = true;
  listening = false;
  shutdown_signals = 1;
}

closed :
    close 6
      (message (res 1 (response commit)) ∷ [])
      []
      (status (connection broken_pipe) ∷ [])
      transmitter
    ≡ ok (shutdown, true)
unfolding close hear on_close async_listen_loop collect collect_res collect_response finish
    close_with_error answer_all
closed = refl

close-refuses_example :
    (x : Error ℕ) × ((x ≡ connection transaction_is_closed)
      ⊎ IsEndedBy {RequestId = ℕ} {Q = ℕ} {N = ℕ} x (status (connection broken_pipe) ∷ []))
    × (single query_request 30 shutdown ≡ (err x, shutdown))
    × (stream query_request 30 shutdown ≡ (err x, shutdown))
close-refuses_example =
    close-refuses 6 30 (message (res 1 (response commit)) ∷ []) []
      (status (connection broken_pipe) ∷ []) query_request transmitter shutdown true refl refl
      closed
