-- ===== src/Proto/Analyze/RoundTrip/Queries.antt =====
-- Stages, pipelines and analyzed queries that are read back
-- (rust/src/connection/network/proto/analyze.rs).
use typedb_driver.Common.{◌≡◌, refl, Bool, List, [], ◌∷◌, map, All, ok}
use typedb_driver.Concept.{External, ValueType}
use typedb_driver.Analyze.{ReturnOperation, Function, Given, Fetch, FetchEntries, AnalyzedQuery}
use typedb_driver.Analyze.Conjunctions.{Variable, VariableAnnotations}
use typedb_driver.Analyze.Pipelines.{
  Reducer, ReduceAssignment, SortOrder, SortVariable, PipelineStage, Pipeline,
}
use typedb_driver.TransactionStream.{AnalyzeResponse}
use typedb_driver.Proto.{Chrono}
use typedb_driver.Proto.Values.{value_type_try_from_proto}
use typedb_driver.Proto.Values.RoundTrip.{ChronoLaws}
use typedb_driver.Proto.Analyze.{Enums}
use typedb_driver.Proto.Analyze.Vertices.{
  vec_from_proto, variable_try_from_proto, variable_annotations_try_from_proto,
  annotated_from_proto,
}
use typedb_driver.Proto.Analyze.Stages.{
  variables_from_proto, reducer_try_from_proto, reduce_assignment_try_from_proto,
  variable_info_from_proto, sort_variable_try_from_proto, stage_try_from_proto,
  pipeline_try_from_proto,
}
use typedb_driver.Proto.Analyze.Queries.{
  return_operation_try_from_proto, given_try_from_proto, fetch_try_from_proto,
  fetch_entries_try_from_proto, function_try_from_proto, analyzed_query_try_from_proto,
  analyze_response_try_from_proto,
}
use typedb_driver.Proto.Analyze.Sent.{
  Codes, sent_variable, sent_variable_annotations, sent_annotated,
}
use typedb_driver.Proto.Analyze.Sent.Queries.{
  sent_order, sent_variables, sent_reducer, sent_assignment, sent_info, sent_return, sent_given,
  sent_leaf_type, sent_fetch, sent_fetch_entries, sent_sort_variable, sent_stage, sent_pipeline,
  sent_function, sent_query,
}
use typedb_driver.Proto.Analyze.RoundTrip.{
  vec_from_proto-map_all, optional_from_proto-map, value_type_from_proto-sent,
  annotations_try_from_proto-sent, annotated_from_proto-sent,
}
use typedb_driver.Proto.Analyze.RoundTrip.Vertices.{IsSendableConjunction}
use typedb_driver.Proto.Analyze.RoundTrip.Constraints.{conjunctions-sent}

module _ {A : Type 0} where
  variables-sent : (l : List Variable) → variables_from_proto {A = A} (sent_variables l) ≡ ok l
  variables-sent = vec_from_proto-map_all {A = A} variable_try_from_proto sent_variable (λ v. refl)

  reducer-sent : (r : Reducer) → reducer_try_from_proto {A = A} (sent_reducer r) ≡ ok r
  reducer-sent r = rw (variables-sent r.arguments) refl

  assignment-sent :
      (r : ReduceAssignment) → reduce_assignment_try_from_proto {A = A} (sent_assignment r) ≡ ok r
  assignment-sent r = rw (reducer-sent r.reducer) refl

  annotations-sent :
      (l : List VariableAnnotations)
      → vec_from_proto
          (variable_annotations_try_from_proto {A = A})
          (map sent_variable_annotations l)
        ≡ ok l
  annotations-sent =
      vec_from_proto-map_all variable_annotations_try_from_proto sent_variable_annotations
        (annotations_try_from_proto-sent {A = A})

  return-sent :
      (r : ReturnOperation) → return_operation_try_from_proto {A = A} (sent_return r) ≡ ok r
  unfolding return_operation_try_from_proto sent_return
  return-sent (ReturnOperation.stream variables) = rw (variables-sent variables) refl
  return-sent (ReturnOperation.single selector variables) = rw (variables-sent variables) refl
  return-sent ReturnOperation.check = refl
  return-sent (ReturnOperation.reduce reducers) =
      rw (vec_from_proto-map_all {A = A} reducer_try_from_proto sent_reducer reducer-sent reducers)
        refl

  given-sent : (g : Given) → given_try_from_proto {A = A} (sent_given g) ≡ ok g
  unfolding given_try_from_proto
  given-sent g =
      rw
        (
          variables-sent g.variables,
          vec_from_proto-map_all annotated_from_proto sent_annotated
              (annotated_from_proto-sent {A = A}) g.variable_annotations,
        )
        refl

  leaf_type-sent : (t : ValueType) → value_type_try_from_proto {A = A} (sent_leaf_type t) ≡ ok t
  unfolding value_type_try_from_proto
  leaf_type-sent t = rw (value_type_from_proto-sent t) refl

  mutual
    unfolding fetch_try_from_proto sent_fetch

    fetch-sent : (x : Fetch) → fetch_try_from_proto {A = A} (sent_fetch x) ≡ ok x
    fetch-sent (Fetch.list x) = rw (fetch-sent x) refl
    fetch-sent (Fetch.leaf x) =
        rw
          (vec_from_proto-map_all {A = A} value_type_try_from_proto sent_leaf_type leaf_type-sent
            x.annotations)
          refl
    fetch-sent (Fetch.object l) = rw (fetch_entries-sent l) refl

    fetch_entries-sent :
        (l : FetchEntries) → fetch_entries_try_from_proto {A = A} (sent_fetch_entries l) ≡ ok l
    fetch_entries-sent FetchEntries.no_fetch = refl
    fetch_entries-sent (FetchEntries.fetch_entry key x l) =
        rw (fetch-sent x, fetch_entries-sent l) refl

module _ {A : Type 0} {enums : Enums} (codes : Codes enums) where
  sort_variable-sent :
      (s : SortVariable)
      → sort_variable_try_from_proto {A = A} enums (sent_sort_variable codes s) ≡ ok s
  unfolding sent_order
  sort_variable-sent s =
      elim s.order
        as (λ o.
          sort_variable_try_from_proto {A = A} enums
            (sent_sort_variable codes (record s { order = o }))
          ≡ ok (record s { order = o })) [
            | SortOrder.ascending ↦
                rw (codes.direction.from-to (sent_order SortOrder.ascending)) refl
            | SortOrder.descending ↦
                rw (codes.direction.from-to (sent_order SortOrder.descending)) refl
          ]

  stage-sent : (s : PipelineStage) → stage_try_from_proto {A = A} enums (sent_stage codes s) ≡ ok s
  unfolding stage_try_from_proto sent_stage
  stage-sent (PipelineStage.match block) = refl
  stage-sent (PipelineStage.insert block) = refl
  stage-sent (PipelineStage.put block) = refl
  stage-sent (PipelineStage.update block) = refl
  stage-sent (PipelineStage.delete block variables) = rw (variables-sent {A = A} variables) refl
  stage-sent (PipelineStage.select variables) = rw (variables-sent {A = A} variables) refl
  stage-sent (PipelineStage.sort variables) =
      rw
        (vec_from_proto-map_all (sort_variable_try_from_proto {A = A} enums)
          (sent_sort_variable codes) sort_variable-sent variables)
        refl
  stage-sent (PipelineStage.require variables) = rw (variables-sent {A = A} variables) refl
  stage-sent (PipelineStage.offset offset) = refl
  stage-sent (PipelineStage.limit limit) = refl
  stage-sent PipelineStage.distinct = refl
  stage-sent (PipelineStage.reduce reducers groupby) =
      rw
        (
          vec_from_proto-map_all reduce_assignment_try_from_proto sent_assignment
              (assignment-sent {A = A}) reducers,
          variables-sent {A = A} groupby,
        )
        refl

-- Pipelines and queries that can be sent: the values in their constraints can be.
module _ {X : External} where
  abbrev pub IsSendablePipeline : Pipeline X → Type 0
  IsSendablePipeline p = All IsSendableConjunction p.conjunctions

  abbrev pub IsSendableQuery : AnalyzedQuery X → Type 0
  IsSendableQuery q = IsSendablePipeline q.query × All (λ f. IsSendablePipeline f.body) q.preamble

module _ {A : Type 0} {X : External} {chrono : Chrono X} {enums : Enums} (laws : ChronoLaws chrono)
    (codes : Codes enums) (checks : Bool) where
  pipeline-sent :
      (p : Pipeline X)
      → IsSendablePipeline p
      → pipeline_try_from_proto {A = A} chrono enums checks (sent_pipeline chrono codes p) ≡ ok p
  unfolding pipeline_try_from_proto sent_pipeline
  pipeline-sent p h =
      rw
        (
          conjunctions-sent {A = A} laws codes checks p.conjunctions h,
          vec_from_proto-map_all (stage_try_from_proto {A = A} enums) (sent_stage codes)
              (stage-sent codes) p.stages,
          vec_from_proto-map_all {A = A} variable_info_from_proto sent_info (λ x. refl)
              p.variable_info,
          variables-sent {A = A} p.outputs,
        )
        refl

  function-sent :
      (f : Function X)
      → IsSendablePipeline f.body
      → function_try_from_proto {A = A} chrono enums checks (sent_function chrono codes f) ≡ ok f
  unfolding function_try_from_proto sent_function
  function-sent f h =
      rw
        (
          variables-sent {A = A} f.argument_variables,
          return-sent {A = A} f.return_operation,
          pipeline-sent f.body h,
          annotations-sent {A = A} f.argument_annotations,
          annotations-sent {A = A} f.return_annotations,
        )
        refl

  functions-sent :
      (l : List (Function X))
      → All (λ f. IsSendablePipeline f.body) l
      → vec_from_proto
          (function_try_from_proto {A = A} chrono enums checks)
          (map (sent_function chrono codes) l)
        ≡ ok l
  unfolding vec_from_proto
  functions-sent [] h = refl
  functions-sent (f ∷ l) (here, rest) = rw (function-sent f here, functions-sent l rest) refl

  -- If the enums of the protocol find each value again from its number, and chrono each date,
  -- time, zone and offset from its parts, with offsets of less than a day, then the message that
  -- carries an analyzed query field by field is read as that query, with and without overflow
  -- checks. No value in a constraint may be a struct, and a decimal's fractional part is less than
  -- its denominator.
  pub analyze_response_try_from_proto-sent_query :
      (q : AnalyzedQuery X)
      → IsSendableQuery q
      → analyze_response_try_from_proto {A = A} chrono enums checks (sent_query chrono codes q)
        ≡ ok (AnalyzeResponse.ok q)
  unfolding sent_query analyzed_query_try_from_proto
  analyze_response_try_from_proto-sent_query q (query, preamble) =
      rw
        (
          functions-sent q.preamble preamble,
          optional_from_proto-map (given_try_from_proto {A = A}) sent_given given-sent q.given,
          pipeline-sent q.query query,
          optional_from_proto-map (fetch_try_from_proto {A = A}) sent_fetch fetch-sent q.fetch,
        )
        refl
