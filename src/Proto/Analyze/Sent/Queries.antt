-- ===== src/Proto/Analyze/Sent/Queries.antt =====
-- The messages that carry stages, pipelines and analyzed queries, from the reading that
-- rust/src/connection/network/proto/analyze.rs gives them.
use mathlib.Core.Option
use typedb_driver.Common.{ℕ, Option, some, List, Bytes, map}
use typedb_driver.Concept.{External, ValueType}
use typedb_driver.Analyze.{ReturnOperation, Function, Given, Fetch, FetchEntries, AnalyzedQuery}
use typedb_driver.Analyze.Conjunctions.{Variable}
use typedb_driver.Analyze.Pipelines.{
  VariableInfo, Reducer, ReduceAssignment, SortOrder, SortVariable, PipelineStage, Pipeline,
}
use typedb_driver.Proto.{Chrono, ValueTypeStructProto}
use typedb_driver.Proto.Analyze.{
  SortDirection, Enums, VariableProto, ReducerProto, ReduceAssignProto, SortVariableProto,
  StageProto, PipelineProto, ReturnProto, FunctionProto, AnalyzedGivenProto, FetchProto,
  FetchEntriesProto, AnalyzeResultProto, AnalyzeResProto,
}
use typedb_driver.Proto.Analyze.Sent.{
  Codes, sent_value_type, sent_variable, sent_variable_annotations, sent_annotated,
  sent_conjunction,
}

unfoldable pub sent_order : SortOrder → SortDirection
sent_order SortOrder.ascending = SortDirection.asc
sent_order SortOrder.descending = SortDirection.desc

abbrev pub sent_variables : List Variable → List VariableProto
sent_variables l = map sent_variable l

abbrev pub sent_reducer : Reducer → ReducerProto
sent_reducer r = record { variables = sent_variables r.arguments; reducer = r.reducer }

abbrev pub sent_assignment : ReduceAssignment → ReduceAssignProto
sent_assignment r = record {
  assigned = some (sent_variable r.assigned);
  reducer = some (sent_reducer r.reducer);
}

abbrev pub sent_info : Variable × VariableInfo → ℕ × Bytes
sent_info x = (x.0.id, x.1.name)

unfoldable pub sent_return : ReturnOperation → ReturnProto
sent_return (ReturnOperation.stream variables) = ReturnProto.stream (sent_variables variables)
sent_return (ReturnOperation.single selector variables) =
    ReturnProto.single selector (sent_variables variables)
sent_return ReturnOperation.check = ReturnProto.check
sent_return (ReturnOperation.reduce reducers) = ReturnProto.reduce (map sent_reducer reducers)

abbrev pub sent_given : Given → AnalyzedGivenProto
sent_given g = record {
  variables = sent_variables g.variables;
  variable_annotations = map sent_annotated g.variable_annotations;
}

abbrev pub sent_leaf_type : ValueType → ValueTypeStructProto
sent_leaf_type t = some (sent_value_type t)

unfoldable mutual
  pub sent_fetch : Fetch → FetchProto
  sent_fetch (Fetch.list x) = FetchProto.list (sent_fetch x)
  sent_fetch (Fetch.leaf x) = FetchProto.leaf (map sent_leaf_type x.annotations)
  sent_fetch (Fetch.object l) = FetchProto.object (sent_fetch_entries l)

  pub sent_fetch_entries : FetchEntries → FetchEntriesProto
  sent_fetch_entries FetchEntries.no_fetch = FetchEntriesProto.no_fetch
  sent_fetch_entries (FetchEntries.fetch_entry key x l) =
      FetchEntriesProto.fetch_entry key (sent_fetch x) (sent_fetch_entries l)

module _ {enums : Enums} (codes : Codes enums) where
  abbrev pub sent_sort_variable : SortVariable → SortVariableProto
  sent_sort_variable s = record {
    variable = some (sent_variable s.variable);
    direction = codes.direction.to_i32 (sent_order s.order);
  }

  unfoldable pub sent_stage : PipelineStage → Option StageProto
  sent_stage (PipelineStage.match block) = some (StageProto.match block.id)
  sent_stage (PipelineStage.insert block) = some (StageProto.insert block.id)
  sent_stage (PipelineStage.put block) = some (StageProto.put block.id)
  sent_stage (PipelineStage.update block) = some (StageProto.update block.id)
  sent_stage (PipelineStage.delete block variables) =
      some (StageProto.delete block.id (sent_variables variables))
  sent_stage (PipelineStage.select variables) = some (StageProto.select (sent_variables variables))
  sent_stage (PipelineStage.sort variables) =
      some (StageProto.sort (map sent_sort_variable variables))
  sent_stage (PipelineStage.require variables) =
      some (StageProto.require (sent_variables variables))
  sent_stage (PipelineStage.offset offset) = some (StageProto.offset offset)
  sent_stage (PipelineStage.limit limit) = some (StageProto.limit limit)
  sent_stage PipelineStage.distinct = some StageProto.distinct
  sent_stage (PipelineStage.reduce reducers groupby) =
      some (StageProto.reduce (map sent_assignment reducers) (sent_variables groupby))

module _ {X : External} (chrono : Chrono X) {enums : Enums} (codes : Codes enums) where
  unfoldable pub sent_pipeline : Pipeline X → PipelineProto X
  sent_pipeline p = record {
    conjunctions = map (sent_conjunction chrono codes) p.conjunctions;
    stages = map (sent_stage codes) p.stages;
    variable_info = map sent_info p.variable_info;
    outputs = sent_variables p.outputs;
  }

  unfoldable pub sent_function : Function X → FunctionProto X
  sent_function f = record {
    body = some (sent_pipeline f.body);
    arguments = sent_variables f.argument_variables;
    return_operation = some (some (sent_return f.return_operation));
    arguments_annotations = map sent_variable_annotations f.argument_annotations;
    return_annotations = map sent_variable_annotations f.return_annotations;
  }

  -- The answer to an analysis that has a result.
  unfoldable pub sent_query : AnalyzedQuery X → AnalyzeResProto X
  sent_query q = some (
      AnalyzeResultProto.ok (record {
        source = q.source;
        preamble = map sent_function q.preamble;
        given = Option.map sent_given q.given;
        query = some (sent_pipeline q.query);
        fetch = Option.map sent_fetch q.fetch;
      }))
