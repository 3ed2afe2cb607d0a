-- ===== src/TransactionStream/Accessors.antt =====
-- rust/src/answer/mod.rs: what kind of answer a query gave, and its stream.
use typedb_driver.Common.{Bool, true, false, List, Outcome, ok, panic}
use typedb_driver.Errors.{Error}
use typedb_driver.Transmitter.Collector.{Response}
use typedb_driver.TransactionStream.{QueryType, ConceptRowHeader, QueryAnswer}

module _ {A R D P : Type 0} where
  pub get_query_type : QueryAnswer A R D P → QueryType
  get_query_type (QueryAnswer.ok query_type) = query_type
  get_query_type (QueryAnswer.concept_row_stream header rows) = header.query_type
  get_query_type (QueryAnswer.concept_document_stream header documents) = header

  pub is_ok : QueryAnswer A R D P → Bool
  is_ok (QueryAnswer.ok _) = true
  is_ok _ = false

  pub is_row_stream : QueryAnswer A R D P → Bool
  is_row_stream (QueryAnswer.concept_row_stream _ _) = true
  is_row_stream _ = false

  pub is_document_stream : QueryAnswer A R D P → Bool
  is_document_stream (QueryAnswer.concept_document_stream _ _) = true
  is_document_stream _ = false

  -- An answer of another kind panics.
  pub into_rows :
      QueryAnswer A R D P → Outcome (Error A) (List (Response A (ConceptRowHeader P × R)))
  into_rows (QueryAnswer.concept_row_stream header rows) = ok rows
  into_rows _ = panic

  pub into_documents : QueryAnswer A R D P → Outcome (Error A) (List (Response A (QueryType × D)))
  into_documents (QueryAnswer.concept_document_stream header documents) = ok documents
  into_documents _ = panic
