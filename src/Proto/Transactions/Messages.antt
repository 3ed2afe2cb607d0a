-- ===== src/Proto/Transactions/Messages.antt =====
-- The messages of the responses of a transaction, with the constructors that
-- rust/src/connection/network/proto/message.rs names.
use typedb_driver.Common.{ℕ, Option, List, Bytes}
use typedb_driver.Common.Int.{ℤ}
use typedb_driver.Concept.{External}
use typedb_driver.Proto.{ConceptRowProto}
use typedb_driver.Proto.Documents.{NodeProto}
use typedb_driver.Proto.Analyze.{PipelineProto, ErrorProto, AnalyzeResProto}

-- The header of an answer: `Done`, or that of a stream.
pub data OkProto (X : External) : Type 0 where
  done concept_document_stream : (query_type : ℤ) → OkProto X
  concept_row_stream :
      (column_variable_names : List Bytes) (query_type : ℤ)
      (query_structure : Option (PipelineProto X))
      → OkProto X

pub data InitialResProto (X : External) : Type 0 where
  error : ErrorProto → InitialResProto X
  ok : Option (OkProto X) → InitialResProto X

-- The field `res` of `transaction::Res`.
pub data ResProto (X : External) : Type 0 where
  open_res : (server_duration_millis : ℕ) → ResProto X
  commit_res rollback_res : ResProto X
  query_initial_res : Option (InitialResProto X) → ResProto X
  analyze_res : AnalyzeResProto X → ResProto X

pub data ResPartProto (X : External) : Type 0 where
  documents_res : List (Option (NodeProto X)) → ResPartProto X
  rows_res : List (ConceptRowProto X) → ResPartProto X
