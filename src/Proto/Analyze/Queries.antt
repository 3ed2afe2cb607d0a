-- ===== src/Proto/Analyze/Queries.antt =====
-- Functions, fetches and analyzed queries from messages
-- (rust/src/connection/network/proto/analyze.rs). `A` stands for the addresses of errors, and `checks` is the
-- build's `overflow-checks`.
use typedb_driver.Common.{Bool, Option, none, some, List, codes, Outcome, ok, err, ◌>>=◌}
use typedb_driver.Errors.{Error, ServerError}
use typedb_driver.Concept.{External}
use typedb_driver.Analyze.{
  ReturnOperation, Function, Given, FetchLeaf, Fetch, FetchEntries, AnalyzedQuery,
}
use typedb_driver.TransactionStream.{AnalyzeResponse}
use typedb_driver.Proto.{Chrono, ValueTypeStructProto}
use typedb_driver.Proto.Values.{value_type_try_from_proto}
use typedb_driver.Proto.Analyze.{
  Enums, ReturnProto, FunctionProto, AnalyzedGivenProto, FetchProto, FetchEntriesProto,
  AnalyzedQueryProto, ErrorProto, AnalyzeResultProto, AnalyzeResProto,
}
use typedb_driver.Proto.Analyze.Vertices.{
  missing_field, expect_try_from_proto, vec_from_proto, optional_from_proto,
  variable_annotations_try_from_proto, annotated_from_proto,
}
use typedb_driver.Proto.Analyze.Stages.{
  variables_from_proto, reducer_try_from_proto, pipeline_try_from_proto,
}

-- The error of a message has no text.
abbrev pub server_error_from_proto : ErrorProto → ServerError
server_error_from_proto proto = record {
  error_code = proto.error_code;
  error_domain = proto.domain;
  message = codes "";
  stack_trace = proto.stack_trace;
}

-- `and_then(|r| r.return_operation)`
abbrev pub joined : {B : Type 0} → Option (Option B) → Option B
joined none = none
joined (some x) = x

module _ {A : Type 0} where
  unfoldable pub return_operation_try_from_proto : ReturnProto → Outcome (Error A) ReturnOperation
  unfolding vec_from_proto
  return_operation_try_from_proto (ReturnProto.stream variables) =
      variables_from_proto variables >>= λ variables. ok (ReturnOperation.stream variables)
  return_operation_try_from_proto (ReturnProto.single selector variables) =
      variables_from_proto variables >>= λ variables. ok (ReturnOperation.single selector variables)
  return_operation_try_from_proto ReturnProto.check = ok ReturnOperation.check
  return_operation_try_from_proto (ReturnProto.reduce reducers) =
      vec_from_proto reducer_try_from_proto reducers >>= λ reducers.
      ok (ReturnOperation.reduce reducers)

  unfoldable pub given_try_from_proto : AnalyzedGivenProto → Outcome (Error A) Given
  unfolding vec_from_proto variable_annotations_try_from_proto
  given_try_from_proto proto = variables_from_proto proto.variables >>= λ variables.
      vec_from_proto annotated_from_proto proto.variable_annotations >>= λ annotations.
      ok (record { variables = variables; variable_annotations = annotations })

  abbrev pub fetch_leaf_try_from_proto : List ValueTypeStructProto → Outcome (Error A) FetchLeaf
  fetch_leaf_try_from_proto proto =
      vec_from_proto value_type_try_from_proto proto >>= λ annotations.
      ok (record { annotations = annotations })

  unfoldable mutual
    unfolding vec_from_proto value_type_try_from_proto

    pub fetch_try_from_proto : FetchProto → Outcome (Error A) Fetch
    fetch_try_from_proto FetchProto.absent = err (missing_field (codes "Fetch.node"))
    fetch_try_from_proto (FetchProto.object l) =
        fetch_entries_try_from_proto l >>= λ fields. ok (Fetch.object fields)
    fetch_try_from_proto (FetchProto.list x) =
        fetch_try_from_proto x >>= λ elements. ok (Fetch.list elements)
    fetch_try_from_proto (FetchProto.leaf annotations) =
        fetch_leaf_try_from_proto annotations >>= λ leaf. ok (Fetch.leaf leaf)

    pub fetch_entries_try_from_proto : FetchEntriesProto → Outcome (Error A) FetchEntries
    fetch_entries_try_from_proto FetchEntriesProto.no_fetch = ok FetchEntries.no_fetch
    fetch_entries_try_from_proto (FetchEntriesProto.fetch_entry key x l) =
        fetch_try_from_proto x >>= λ x.
        fetch_entries_try_from_proto l >>= λ l. ok (FetchEntries.fetch_entry key x l)

module _ {A : Type 0} {X : External} (chrono : Chrono X) (enums : Enums) (checks : Bool) where
  unfoldable pub function_try_from_proto : FunctionProto X → Outcome (Error A) (Function X)
  unfolding vec_from_proto return_operation_try_from_proto pipeline_try_from_proto
      variable_annotations_try_from_proto
  function_try_from_proto proto = variables_from_proto proto.arguments >>= λ argument_variables.
      expect_try_from_proto return_operation_try_from_proto (joined proto.return_operation)
        (codes "Function.return_operation")
      >>= λ return_operation.
          expect_try_from_proto (pipeline_try_from_proto chrono enums checks) proto.body
            (codes "Function.body")
          >>= λ body.
              vec_from_proto variable_annotations_try_from_proto proto.arguments_annotations
              >>= λ argument_annotations.
                  vec_from_proto variable_annotations_try_from_proto proto.return_annotations
                  >>= λ return_annotations. ok (record {
                    argument_variables = argument_variables;
                    return_operation = return_operation;
                    body = body;
                    argument_annotations = argument_annotations;
                    return_annotations = return_annotations;
                  })

  unfoldable pub analyzed_query_try_from_proto :
      AnalyzedQueryProto X → Outcome (Error A) (AnalyzedQuery X)
  unfolding vec_from_proto function_try_from_proto given_try_from_proto pipeline_try_from_proto
      fetch_try_from_proto
  analyzed_query_try_from_proto proto =
      vec_from_proto function_try_from_proto proto.preamble >>= λ preamble.
      optional_from_proto given_try_from_proto proto.given >>= λ given.
      expect_try_from_proto (pipeline_try_from_proto chrono enums checks) proto.query
        (codes "AnalyzedQuery.query")
      >>= λ query. optional_from_proto fetch_try_from_proto proto.fetch >>= λ fetch. ok (record {
        source = proto.source;
        preamble = preamble;
        given = given;
        query = query;
        fetch = fetch;
      })

  abbrev pub analyze_result_try_from_proto :
      AnalyzeResultProto X → Outcome (Error A) (AnalyzeResponse (AnalyzedQuery X))
  analyze_result_try_from_proto (AnalyzeResultProto.ok analyzed_query) =
      analyzed_query_try_from_proto analyzed_query >>= λ analyzed. ok (AnalyzeResponse.ok analyzed)
  analyze_result_try_from_proto (AnalyzeResultProto.err x) =
      ok (AnalyzeResponse.err (server_error_from_proto x))

  abbrev pub analyze_response_try_from_proto :
      AnalyzeResProto X → Outcome (Error A) (AnalyzeResponse (AnalyzedQuery X))
  analyze_response_try_from_proto proto =
      expect_try_from_proto analyze_result_try_from_proto proto (codes "analyze.Res.result")
