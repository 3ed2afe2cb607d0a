-- ===== src/TransactionStream/Rows.antt =====
-- The rows and documents of an answer (rust/src/connection/transaction_stream.rs).
use typedb_driver.Common.{◌≡◌, refl, ap, ◌∙◌, List, [], ◌∷◌, ◌++◌, map, Bytes}
use typedb_driver.Errors.{Error, server, internal, unexpected_response_type}
use typedb_driver.Transmitter.Collector.{Response, response, failed}
use typedb_driver.TransactionStream.{
  QueryType, QueryResponse, ConceptRowHeader, QueryAnswer, row_answers, document_answers, flat_map,
  query_answer,
}

-- What a stream delivers, and the errors among it, each in its order.
abbrev pub delivered : {A B : Type 0} → List (Response A B) → List B
delivered [] = []
delivered (response x ∷ l) = x ∷ delivered l
delivered (failed x ∷ l) = delivered l

abbrev pub errors : {A B : Type 0} → List (Response A B) → List (Error A)
errors [] = []
errors (response x ∷ l) = errors l
errors (failed x ∷ l) = x ∷ errors l

module _ {A R D P : Type 0} where
  -- The rows that the results of the stream hold.
  abbrev pub rows_of : List (Response A (QueryResponse R D P)) → List R
  rows_of [] = []
  rows_of (response (QueryResponse.stream_concept_rows rows) ∷ l) = rows ++ rows_of l
  rows_of (_ ∷ l) = rows_of l

  abbrev pub documents_of : List (Response A (QueryResponse R D P)) → List D
  documents_of [] = []
  documents_of (response (QueryResponse.stream_concept_documents documents) ∷ l) =
      documents ++ documents_of l
  documents_of (_ ∷ l) = documents_of l

module _ {B C : Type 0} where
  map-++ : (f : B → C) (l k : List B) → map f (l ++ k) ≡ map f l ++ map f k
  map-++ f [] k = refl
  map-++ f (x ∷ l) k = ap (f x ∷◌) (map-++ f l k)

module _ {A B C : Type 0} where
  errors-responses :
      (f : B → C) (l : List B) (k : List (Response A C))
      → errors (map (λ x. response (f x)) l ++ k) ≡ errors k
  errors-responses f [] k = refl
  errors-responses f (x ∷ l) k = errors-responses f l k

  delivered-responses :
      (f : B → C) (l : List B) (k : List (Response A C))
      → delivered (map (λ x. response (f x)) l ++ k) ≡ map f l ++ delivered k
  delivered-responses f [] k = refl
  delivered-responses f (x ∷ l) k = ap (f x ∷◌) (delivered-responses f l k)

module _ {A R D P : Type 0} (debug : QueryResponse R D P → Bytes) where
  -- The errors among the results, where a response of another kind is one.
  abbrev pub row_errors : List (Response A (QueryResponse R D P)) → List (Error A)
  row_errors [] = []
  row_errors (failed x ∷ l) = x ∷ row_errors l
  row_errors (response (QueryResponse.stream_concept_rows rows) ∷ l) = row_errors l
  row_errors (response (QueryResponse.error x) ∷ l) = server x ∷ row_errors l
  row_errors (response other ∷ l) = internal (unexpected_response_type (debug other)) ∷ row_errors l

  abbrev pub document_errors : List (Response A (QueryResponse R D P)) → List (Error A)
  document_errors [] = []
  document_errors (failed x ∷ l) = x ∷ document_errors l
  document_errors (response (QueryResponse.stream_concept_documents documents) ∷ l) =
      document_errors l
  document_errors (response (QueryResponse.error x) ∷ l) = server x ∷ document_errors l
  document_errors (response other ∷ l) =
      internal (unexpected_response_type (debug other)) ∷ document_errors l

  rows-delivered :
      (header : ConceptRowHeader P) (l : List (Response A (QueryResponse R D P)))
      → (delivered (flat_map (row_answers debug header) l) ≡ map (λ row. (header, row)) (rows_of l))
        × (errors (flat_map (row_answers debug header) l) ≡ row_errors l)
  unfolding row_answers
  rows-delivered header [] = (refl, refl)
  rows-delivered header (failed x ∷ l) =
      (let (same, failures) = rows-delivered header l in (same, ap (x ∷◌) failures))
  rows-delivered header (response (QueryResponse.stream_concept_rows l') ∷ l) =
      (let (same, failures) = rows-delivered header l in
        let wrap : R → ConceptRowHeader P × R = λ x. (header, x) in
        let more = flat_map (row_answers debug header) l in
        (
          delivered-responses wrap l' more ∙ (rw (same, map-++ wrap l' (rows_of l)) refl),
          errors-responses wrap l' more ∙ failures,
        ))
  rows-delivered header (response (QueryResponse.ok x) ∷ l) =
      (let (same, failures) = rows-delivered header l in
        (same, ap (internal (unexpected_response_type (debug (QueryResponse.ok x))) ∷◌) failures))
  rows-delivered header (response (QueryResponse.concept_rows_header x) ∷ l) =
      (let (same, failures) = rows-delivered header l in
        (
          same,
          ap (internal (unexpected_response_type (debug (QueryResponse.concept_rows_header x))) ∷◌)
              failures,
        ))
  rows-delivered header (response (QueryResponse.concept_documents_header x) ∷ l) =
      (let (same, failures) = rows-delivered header l in
        (
          same,
          ap
              (internal
                (unexpected_response_type (debug (QueryResponse.concept_documents_header x))) ∷◌)
              failures,
        ))
  rows-delivered header (response (QueryResponse.stream_concept_documents x) ∷ l) =
      (let (same, failures) = rows-delivered header l in
        (
          same,
          ap
              (internal
                (unexpected_response_type (debug (QueryResponse.stream_concept_documents x))) ∷◌)
              failures,
        ))
  rows-delivered header (response (QueryResponse.error x) ∷ l) =
      (let (same, failures) = rows-delivered header l in (same, ap (server x ∷◌) failures))

  documents-delivered :
      (header : QueryType) (l : List (Response A (QueryResponse R D P)))
      → (delivered (flat_map (document_answers debug header) l)
          ≡ map (λ document. (header, document)) (documents_of l))
        × (errors (flat_map (document_answers debug header) l) ≡ document_errors l)
  unfolding document_answers
  documents-delivered header [] = (refl, refl)
  documents-delivered header (failed x ∷ l) =
      (let (same, failures) = documents-delivered header l in (same, ap (x ∷◌) failures))
  documents-delivered header (response (QueryResponse.stream_concept_documents l') ∷ l) =
      (let (same, failures) = documents-delivered header l in
        let wrap : D → QueryType × D = λ x. (header, x) in
        let more = flat_map (document_answers debug header) l in
        (
          delivered-responses wrap l' more ∙ (rw (same, map-++ wrap l' (documents_of l)) refl),
          errors-responses wrap l' more ∙ failures,
        ))
  documents-delivered header (response (QueryResponse.ok x) ∷ l) =
      (let (same, failures) = documents-delivered header l in
        (same, ap (internal (unexpected_response_type (debug (QueryResponse.ok x))) ∷◌) failures))
  documents-delivered header (response (QueryResponse.concept_rows_header x) ∷ l) =
      (let (same, failures) = documents-delivered header l in
        (
          same,
          ap (internal (unexpected_response_type (debug (QueryResponse.concept_rows_header x))) ∷◌)
              failures,
        ))
  documents-delivered header (response (QueryResponse.concept_documents_header x) ∷ l) =
      (let (same, failures) = documents-delivered header l in
        (
          same,
          ap
              (internal
                (unexpected_response_type (debug (QueryResponse.concept_documents_header x))) ∷◌)
              failures,
        ))
  documents-delivered header (response (QueryResponse.stream_concept_rows x) ∷ l) =
      (let (same, failures) = documents-delivered header l in
        (
          same,
          ap (internal (unexpected_response_type (debug (QueryResponse.stream_concept_rows x))) ∷◌)
              failures,
        ))
  documents-delivered header (response (QueryResponse.error x) ∷ l) =
      (let (same, failures) = documents-delivered header l in (same, ap (server x ∷◌) failures))

  -- An answer of rows delivers every row of its stream once, in order and with the header, and one of
  -- documents every document; each error of the stream is delivered too, and none ends the stream.
  pub query_answer-delivers :
      (l : List (Response A (QueryResponse R D P)))
      → ((header : ConceptRowHeader P)
          → (k : List (Response A (ConceptRowHeader P × R))) × (query_answer debug
                (response (QueryResponse.concept_rows_header header) ∷ l)
              ≡ response (QueryAnswer.concept_row_stream header k))
            × (delivered k ≡ map (λ row. (header, row)) (rows_of l))
            × (errors k ≡ row_errors l))
        × ((header : QueryType)
            → (k : List (Response A (QueryType × D))) × (query_answer debug
                  (response (QueryResponse.concept_documents_header header) ∷ l)
                ≡ response (QueryAnswer.concept_document_stream header k))
              × (delivered k ≡ map (λ document. (header, document)) (documents_of l))
              × (errors k ≡ document_errors l))
  unfolding query_answer
  query_answer-delivers l = (
    λ header.
        (let (same, failures) = rows-delivered header l in
          (flat_map (row_answers debug header) l, refl, same, failures)),
    λ header.
        (let (same, failures) = documents-delivered header l in
          (flat_map (document_answers debug header) l, refl, same, failures)),
  )
