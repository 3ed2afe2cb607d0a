-- ===== src/Transmitter/Collector/Tests.antt =====
-- Concrete runs of the collector: requests are numbers, queries and analyses are single values.
use typedb_driver.Common.{ℕ, ◌≡◌, refl, ◌↔◌, true, none, some, [], ◌∷◌, nat_eq, ok, err}
use typedb_driver.Errors.{connection, transaction_is_closed}
use typedb_driver.Transmitter.{one_shot, streamed}
use typedb_driver.Transmitter.Collector.{
  response, failed, result, commit, close, query_res, ServerMessage, res, res_part,
  ResponseCollector, blocked, collect, collect_res, collect_response, finish, close_collector,
  close_with_error, closing_error,
}
use typedb_driver.Transmitter.Collector.Delivery.{IsDelivery, collect-IsDelivery}
use typedb_driver.Transmitter.Collector.Closing.{
  IsClosed, close_collector-IsClosed, close_with_error-IsClosed,
}
use typedb_driver.Transmitter.Collector.Blocking.{IsUndecodedPart, collect-IsUndecodedPart}

abbrev Collector : Type 0
Collector = ResponseCollector ℕ ℕ ℕ ℕ

-- A commit and a query wait.
abbrev waiting : Collector
waiting = record {
  callbacks = (1, one_shot 10) ∷ (2, streamed 20) ∷ [];
  is_open = true;
  error = none;
  on_close = 5 ∷ [];
  sent = [];
  called = [];
}

abbrev committed : Collector
committed = record {
  callbacks = (2, streamed 20) ∷ [];
  is_open = true;
  error = none;
  on_close = 5 ∷ [];
  sent = (10, result (response commit)) ∷ [];
  called = [];
}

collected : collect (res 1 (response commit)) waiting ≡ ok committed
unfolding collect collect_res collect_response finish
collected = refl

collect-IsDelivery_example : IsDelivery 1 waiting committed
collect-IsDelivery_example =
    collect-IsDelivery 1 (res 1 (response commit)) waiting committed refl collected

abbrev broken : ServerMessage ℕ ℕ ℕ ℕ
broken = res_part 2 (query_res (failed (connection transaction_is_closed)))

collect-IsUndecodedPart_example :
    (collect broken waiting ≡ err blocked) ↔ IsUndecodedPart broken waiting
collect-IsUndecodedPart_example = collect-IsUndecodedPart broken waiting

close_collector-IsClosed_example : IsClosed (response close) none waiting (close_collector waiting)
close_collector-IsClosed_example = close_collector-IsClosed waiting

close_with_error-IsClosed_example :
    IsClosed
      (failed (connection transaction_is_closed))
      (some (connection transaction_is_closed))
      waiting
      (close_with_error (connection transaction_is_closed) waiting)
    × (closing_error (close_with_error (connection transaction_is_closed) waiting)
        ≡ connection transaction_is_closed)
close_with_error-IsClosed_example =
    close_with_error-IsClosed (connection transaction_is_closed) waiting
