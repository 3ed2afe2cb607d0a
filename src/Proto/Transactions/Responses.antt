-- ===== src/Proto/Transactions/Responses.antt =====
-- The responses of a transaction from messages (rust/src/connection/network/proto/message.rs, and
-- `QueryType` in common.rs). `A` stands for the addresses of errors, and `checks` is the build's
-- `overflow-checks`.
use typedb_driver.Common.{
  Bool, Option, none, some, List, Bytes, codes, if◌then◌else◌, ◌==◌, Outcome, ok, err, ◌>>=◌,
}
use typedb_driver.Common.Int.{ℤ, pos, negsuc}
use typedb_driver.Errors.{Error, connection, unexpected_query_type}
use typedb_driver.Concept.{External, Concept}
use typedb_driver.Document.{Node}
use typedb_driver.Analyze.{AnalyzedQuery}
use typedb_driver.Analyze.Pipelines.{Pipeline}
use typedb_driver.Transmitter.Collector.{TransactionResponse}
use typedb_driver.TransactionStream.{QueryType, QueryResponse, AnalyzeResponse}
use typedb_driver.Proto.{Chrono}
use typedb_driver.Proto.Values.{missing}
use typedb_driver.Proto.Concepts.{row_try_from_proto}
use typedb_driver.Proto.Documents.{document_try_from_proto}
use typedb_driver.Proto.Analyze.{Enums}
use typedb_driver.Proto.Analyze.Vertices.{optional_from_proto, vec_from_proto}
use typedb_driver.Proto.Analyze.Stages.{pipeline_try_from_proto}
use typedb_driver.Proto.Transactions.Messages.{OkProto, InitialResProto, ResProto, ResPartProto}
use typedb_driver.Proto.Analyze.Queries.{
  server_error_from_proto, analyzed_query_try_from_proto, analyze_response_try_from_proto,
}

-- What a transaction's responses carry.
abbrev pub Row : External → Type 0
Row X = List (Option (Concept X)) × Option Bytes

abbrev pub QueryResponses : External → Type 0
QueryResponses X = QueryResponse (Row X) (Option (Node X)) (Pipeline X)

abbrev pub TransactionResponses : External → Type 0
TransactionResponses X = TransactionResponse (QueryResponses X) (AnalyzeResponse (AnalyzedQuery X))

unfoldable pub query_type_try_from_proto : {A : Type 0} → ℤ → Outcome (Error A) QueryType
query_type_try_from_proto (pos n) =
    if n == 0
    then ok QueryType.read_query
    else if n == 1
    then ok QueryType.write_query
    else if n == 2
    then ok QueryType.schema_query
    else err (connection (unexpected_query_type (pos n)))
query_type_try_from_proto (negsuc n) = err (connection (unexpected_query_type (negsuc n)))

module _ {A : Type 0} {X : External} (chrono : Chrono X) (enums : Enums) (checks : Bool) where
  unfoldable pub header_try_from_proto : OkProto X → Outcome (Error A) (QueryResponses X)
  unfolding query_type_try_from_proto pipeline_try_from_proto
  header_try_from_proto (OkProto.done query_type) =
      query_type_try_from_proto query_type >>= λ type. ok (QueryResponse.ok type)
  header_try_from_proto (OkProto.concept_document_stream query_type) =
      query_type_try_from_proto query_type >>= λ type.
      ok (QueryResponse.concept_documents_header type)
  header_try_from_proto (OkProto.concept_row_stream column_names query_type query_structure) =
      optional_from_proto (pipeline_try_from_proto chrono enums checks) query_structure
      >>= λ structure. query_type_try_from_proto query_type >>= λ type. ok (
          QueryResponse.concept_rows_header (record {
            column_names = column_names;
            query_type = type;
            query_structure = structure;
          }))

  unfoldable pub initial_res_try_from_proto :
      Option (InitialResProto X) → Outcome (Error A) (TransactionResponses X)
  unfolding header_try_from_proto
  initial_res_try_from_proto none = err (missing (codes "transaction.res.query.initial_res.res"))
  initial_res_try_from_proto (some (InitialResProto.error x)) =
      ok (TransactionResponse.query (QueryResponse.error (server_error_from_proto x)))
  initial_res_try_from_proto (some (InitialResProto.ok none)) =
      err (missing (codes "transaction.res.query.initial_res.res.Ok.ok"))
  initial_res_try_from_proto (some (InitialResProto.ok (some header))) =
      header_try_from_proto header >>= λ response. ok (TransactionResponse.query response)

  unfoldable pub res_try_from_proto :
      Option (ResProto X) → Outcome (Error A) (TransactionResponses X)
  unfolding initial_res_try_from_proto analyzed_query_try_from_proto
  res_try_from_proto none = err (missing (codes "res"))
  res_try_from_proto (some (ResProto.open_res millis)) = ok (TransactionResponse.opened millis)
  res_try_from_proto (some ResProto.commit_res) = ok TransactionResponse.commit
  res_try_from_proto (some ResProto.rollback_res) = ok TransactionResponse.rollback
  res_try_from_proto (some (ResProto.query_initial_res initial)) =
      initial_res_try_from_proto initial
  res_try_from_proto (some (ResProto.analyze_res analyzed)) =
      analyze_response_try_from_proto chrono enums checks analyzed >>= λ response.
      ok (TransactionResponse.analyze response)

module _ {A : Type 0} {X : External} (chrono : Chrono X) (checks : Bool) where
  -- The loops that convert the documents or the rows of a part.
  unfoldable pub part_try_from_proto : ResPartProto X → Outcome (Error A) (QueryResponses X)
  unfolding vec_from_proto document_try_from_proto row_try_from_proto
  part_try_from_proto (ResPartProto.documents_res documents) =
      vec_from_proto (document_try_from_proto chrono checks) documents >>= λ converted.
      ok (QueryResponse.stream_concept_documents converted)
  part_try_from_proto (ResPartProto.rows_res rows) =
      vec_from_proto (row_try_from_proto chrono checks) rows >>= λ converted.
      ok (QueryResponse.stream_concept_rows converted)

  unfoldable pub res_part_try_from_proto :
      Option (ResPartProto X) → Outcome (Error A) (TransactionResponses X)
  unfolding part_try_from_proto
  res_part_try_from_proto none = err (missing (codes "query.ResPart.res"))
  res_part_try_from_proto (some part) =
      part_try_from_proto part >>= λ response. ok (TransactionResponse.query response)
