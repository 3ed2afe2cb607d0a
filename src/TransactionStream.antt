-- ===== src/TransactionStream.antt =====
-- rust/src/connection/transaction_stream.rs: what the operations of a transaction make of its responses.
-- `D`, `R` and `P` stand for documents, rows and query structures, `N` for analyzed queries, `debug` prints a
-- response. A stream is the list of the results that it gives.
pub mod Rows
pub mod Closed
pub mod Accessors
pub mod Tests
use typedb_driver.Common.{ℕ, Option, none, some, List, [], ◌∷◌, ◌++◌, map, Bytes}
use typedb_driver.Errors.{
  Error, connection, internal, server, ServerError, transaction_is_closed, unexpected_response_type,
  analyze_no_response, query_stream_no_response,
}
use typedb_driver.Transmitter.Collector.{Response, response, failed, TransactionResponse}

pub data QueryType : Type 0 where
  read_query write_query schema_query : QueryType

pub record ConceptRowHeader (P : Type 0) : Type 0 where
  pub column_names : List Bytes
  pub query_type : QueryType
  pub query_structure : Option P

pub data QueryResponse (R D P : Type 0) : Type 0 where
  ok : QueryType → QueryResponse R D P
  concept_rows_header : ConceptRowHeader P → QueryResponse R D P
  concept_documents_header : QueryType → QueryResponse R D P
  stream_concept_rows : List R → QueryResponse R D P
  stream_concept_documents : List D → QueryResponse R D P
  error : ServerError → QueryResponse R D P

pub data AnalyzeResponse (N : Type 0) : Type 0 where
  ok : N → AnalyzeResponse N
  err : ServerError → AnalyzeResponse N

-- An answer of rows or documents has the header, and the stream.
pub data QueryAnswer (A R D P : Type 0) : Type 0 where
  ok : QueryType → QueryAnswer A R D P
  concept_row_stream :
      ConceptRowHeader P → List (Response A (ConceptRowHeader P × R)) → QueryAnswer A R D P
  concept_document_stream : QueryType → List (Response A (QueryType × D)) → QueryAnswer A R D P

module _ {A R D P N : Type 0}
    (debug : TransactionResponse (QueryResponse R D P) (AnalyzeResponse N) → Bytes) where
  abbrev pub unexpected :
      {B : Type 0} → TransactionResponse (QueryResponse R D P) (AnalyzeResponse N) → Response A B
  unexpected other = failed (internal (unexpected_response_type (debug other)))

  unfoldable pub handle_unexpected_response :
      {B : Type 0}
      → Response A (TransactionResponse (QueryResponse R D P) (AnalyzeResponse N))
      → Response A B
  handle_unexpected_response (response TransactionResponse.close) =
      failed (connection transaction_is_closed)
  handle_unexpected_response (response other) = unexpected other
  handle_unexpected_response (failed x) = failed x

  -- `require_transaction_response!`, where the kind has no content.
  unfoldable pub commit :
      Response A (TransactionResponse (QueryResponse R D P) (AnalyzeResponse N))
      → Response A (Unit {0})
  unfolding handle_unexpected_response
  commit (response TransactionResponse.commit) = response tt
  commit other = handle_unexpected_response other

  unfoldable pub rollback :
      Response A (TransactionResponse (QueryResponse R D P) (AnalyzeResponse N))
      → Response A (Unit {0})
  unfolding handle_unexpected_response
  rollback (response TransactionResponse.rollback) = response tt
  rollback other = handle_unexpected_response other

  unfoldable pub require_query :
      Response A (TransactionResponse (QueryResponse R D P) (AnalyzeResponse N))
      → Response A (QueryResponse R D P)
  unfolding handle_unexpected_response
  require_query (response (TransactionResponse.query q)) = response q
  require_query other = handle_unexpected_response other

  -- The first result of the stream decides.
  unfoldable pub analyze :
      List (Response A (TransactionResponse (QueryResponse R D P) (AnalyzeResponse N)))
      → Response A N
  analyze [] = failed (connection analyze_no_response)
  analyze (response (TransactionResponse.analyze (AnalyzeResponse.ok analyzed)) ∷ l) =
      response analyzed
  analyze (response (TransactionResponse.analyze (AnalyzeResponse.err x)) ∷ l) = failed (server x)
  analyze (response other ∷ l) = unexpected other
  analyze (failed x ∷ l) = failed x

-- `debug` prints a response to a query.
module _ {A R D P : Type 0} (debug : QueryResponse R D P → Bytes) where
  abbrev pub unexpected_query : {B : Type 0} → QueryResponse R D P → Response A B
  unexpected_query other = failed (internal (unexpected_response_type (debug other)))

  -- What a result of the stream adds to an answer of rows, or to one of documents.
  unfoldable pub row_answers :
      ConceptRowHeader P
      → Response A (QueryResponse R D P)
      → List (Response A (ConceptRowHeader P × R))
  row_answers header (response (QueryResponse.stream_concept_rows rows)) =
      map (λ row. response (header, row)) rows
  row_answers header (response (QueryResponse.error x)) = failed (server x) ∷ []
  row_answers header (response other) = unexpected_query other ∷ []
  row_answers header (failed x) = failed x ∷ []

  unfoldable pub document_answers :
      QueryType → Response A (QueryResponse R D P) → List (Response A (QueryType × D))
  document_answers header (response (QueryResponse.stream_concept_documents documents)) =
      map (λ document. response (header, document)) documents
  document_answers header (response (QueryResponse.error x)) = failed (server x) ∷ []
  document_answers header (response other) = unexpected_query other ∷ []
  document_answers header (failed x) = failed x ∷ []

-- `flat_map` of a stream.
abbrev pub flat_map : {B C : Type 0} → (B → List C) → List B → List C
flat_map f [] = []
flat_map f (x ∷ l) = f x ++ flat_map f l

module _ {A R D P : Type 0} (debug : QueryResponse R D P → Bytes) where
  -- From the results of the stream of queries.
  unfoldable pub query_answer :
      List (Response A (QueryResponse R D P)) → Response A (QueryAnswer A R D P)
  unfolding row_answers document_answers
  query_answer [] = failed (connection query_stream_no_response)
  query_answer (failed x ∷ l) = failed x
  query_answer (response (QueryResponse.ok query_type) ∷ l) = response (QueryAnswer.ok query_type)
  query_answer (response (QueryResponse.concept_documents_header header) ∷ l) =
      response
        (QueryAnswer.concept_document_stream header (flat_map (document_answers debug header) l))
  query_answer (response (QueryResponse.concept_rows_header header) ∷ l) =
      response (QueryAnswer.concept_row_stream header (flat_map (row_answers debug header) l))
  query_answer (response (QueryResponse.error x) ∷ l) = failed (server x)
  query_answer (response other ∷ l) = unexpected_query debug other

module _ {A R D P N : Type 0}
    (debug : TransactionResponse (QueryResponse R D P) (AnalyzeResponse N) → Bytes)
    (debug_query : QueryResponse R D P → Bytes) where
  -- From the stream that the transmitter gives, or its refusal.
  unfoldable pub query :
      Response A (List (Response A (TransactionResponse (QueryResponse R D P) (AnalyzeResponse N))))
      → Response A (QueryAnswer A R D P)
  unfolding require_query query_answer
  query (failed x) = failed x
  query (response stream) = query_answer debug_query (map (require_query debug) stream)
