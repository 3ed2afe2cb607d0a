-- ===== src/TransactionStream/Closed.antt =====
-- What the operations of a transaction give when the server closes it
-- (rust/src/connection/transaction_stream.rs).
use typedb_driver.Common.{◌≡◌, refl, List, ◌∷◌, Bytes}
use typedb_driver.Errors.{connection, internal, transaction_is_closed, unexpected_response_type}
use typedb_driver.Transmitter.Collector.{Response, response, failed, TransactionResponse}
use typedb_driver.TransactionStream.{
  QueryResponse, AnalyzeResponse, commit, rollback, require_query, analyze, query, query_answer,
  handle_unexpected_response,
}

module _ {A R D P N : Type 0}
    (debug : TransactionResponse (QueryResponse R D P) (AnalyzeResponse N) → Bytes)
    (debug_query : QueryResponse R D P → Bytes) where
  -- Where the response is that the transaction is closed, a commit, a rollback and a query fail with
  -- `TransactionIsClosed`, but an analysis fails with an internal error, as for a response of a wrong kind.
  pub close-answers :
      (l : List (Response A (TransactionResponse (QueryResponse R D P) (AnalyzeResponse N))))
      → (commit {A = A} debug (response TransactionResponse.close)
          ≡ failed (connection transaction_is_closed))
        × (rollback {A = A} debug (response TransactionResponse.close)
            ≡ failed (connection transaction_is_closed))
        × (query debug debug_query (response (response TransactionResponse.close ∷ l))
            ≡ failed (connection transaction_is_closed))
        × (analyze debug (response TransactionResponse.close ∷ l)
            ≡ failed (internal (unexpected_response_type (debug TransactionResponse.close))))
  unfolding commit rollback query require_query query_answer analyze handle_unexpected_response
  close-answers l = (refl, refl, refl, refl)
