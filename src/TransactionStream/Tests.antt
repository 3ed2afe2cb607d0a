-- ===== src/TransactionStream/Tests.antt =====
-- Concrete streams of a transaction.
use typedb_driver.Common.{ℕ, ◌≡◌, List, [], ◌∷◌, map, Bytes, codes}
use typedb_driver.Errors.{connection, transaction_is_closed}
use typedb_driver.Transmitter.Collector.{Response, response, failed}
use typedb_driver.TransactionStream.{
  QueryType, QueryResponse, ConceptRowHeader, QueryAnswer, query_answer,
}
use typedb_driver.TransactionStream.Rows.{
  delivered, errors, documents_of, document_errors, query_answer-delivers,
}

abbrev debug : QueryResponse ℕ ℕ ℕ → Bytes
debug r = codes "response"

-- Two parts with rows, and an error between them.
abbrev parts : List (Response ℕ (QueryResponse ℕ ℕ ℕ))
parts =
    response (QueryResponse.stream_concept_rows (1 ∷ 2 ∷ []))
    ∷ failed (connection transaction_is_closed)
    ∷ response (QueryResponse.stream_concept_rows (3 ∷ []))
    ∷ []

query_answer-delivers_example :
    ((header : ConceptRowHeader ℕ)
      → (k : List (Response ℕ (ConceptRowHeader ℕ × ℕ))) × (query_answer debug
            (response (QueryResponse.concept_rows_header header) ∷ parts)
          ≡ response (QueryAnswer.concept_row_stream header k))
        × (delivered k ≡ map (λ row. (header, row)) (1 ∷ 2 ∷ 3 ∷ []))
        × (errors k ≡ connection transaction_is_closed ∷ []))
    × ((header : QueryType)
        → (k : List (Response ℕ (QueryType × ℕ))) × (query_answer debug
              (response (QueryResponse.concept_documents_header header) ∷ parts)
            ≡ response (QueryAnswer.concept_document_stream header k))
          × (delivered k ≡ map (λ document. (header, document)) (documents_of parts))
          × (errors k ≡ document_errors debug parts))
query_answer-delivers_example = query_answer-delivers debug parts
