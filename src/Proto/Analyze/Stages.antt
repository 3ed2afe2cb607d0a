-- ===== src/Proto/Analyze/Stages.antt =====
-- Stages and pipelines from messages (rust/src/connection/network/proto/analyze.rs). `A` stands for the
-- addresses of errors, and `checks` is the build's `overflow-checks`.
use typedb_driver.Common.{ℕ, Bool, Option, none, some, List, Bytes, codes, Outcome, ok, err, ◌>>=◌}
use typedb_driver.Errors.{Error}
use typedb_driver.Concept.{External}
use typedb_driver.Analyze.Conjunctions.{Variable}
use typedb_driver.Analyze.Pipelines.{
  VariableInfo, Reducer, ReduceAssignment, SortOrder, SortVariable, PipelineStage, Pipeline,
}
use typedb_driver.Proto.{Chrono}
use typedb_driver.Proto.Analyze.{
  Enums, SortDirection, VariableProto, ReducerProto, ReduceAssignProto, SortVariableProto,
  StageProto, PipelineProto,
}
use typedb_driver.Proto.Analyze.Vertices.{
  missing_field, expect_try_from_proto, vec_from_proto, enum_from_proto, variable_try_from_proto,
}
use typedb_driver.Proto.Analyze.Constraints.{conjunction_id, conjunction_try_from_proto}

abbrev pub sort_order : SortDirection → SortOrder
sort_order SortDirection.asc = SortOrder.ascending
sort_order SortDirection.desc = SortOrder.descending

module _ {A : Type 0} where
  abbrev pub variables_from_proto : List VariableProto → Outcome (Error A) (List Variable)
  variables_from_proto = vec_from_proto variable_try_from_proto

  abbrev pub reducer_try_from_proto : ReducerProto → Outcome (Error A) Reducer
  reducer_try_from_proto proto = variables_from_proto proto.variables >>= λ arguments.
      ok (record { arguments = arguments; reducer = proto.reducer })

  abbrev pub reduce_assignment_try_from_proto :
      ReduceAssignProto → Outcome (Error A) ReduceAssignment
  reduce_assignment_try_from_proto proto =
      expect_try_from_proto variable_try_from_proto proto.assigned (codes "ReduceAssign.assigned")
      >>= λ assigned.
          expect_try_from_proto reducer_try_from_proto proto.reducer (codes "ReduceAssign.reducer")
          >>= λ reducer. ok (record { assigned = assigned; reducer = reducer })

  -- An entry of the map of variable infos.
  abbrev pub variable_info_from_proto : ℕ × Bytes → Outcome (Error A) (Variable × VariableInfo)
  variable_info_from_proto entry = ok (record { id = entry.0 }, record { name = entry.1 })

module _ {A : Type 0} (enums : Enums) where
  abbrev pub sort_variable_try_from_proto : SortVariableProto → Outcome (Error A) SortVariable
  sort_variable_try_from_proto proto =
      expect_try_from_proto variable_try_from_proto proto.variable (codes "SortVariable.variable")
      >>= λ variable. enum_from_proto enums.direction proto.direction >>= λ direction.
          ok (record { variable = variable; order = sort_order direction })

  unfoldable pub stage_try_from_proto : Option StageProto → Outcome (Error A) PipelineStage
  unfolding vec_from_proto
  stage_try_from_proto none = err (missing_field (codes "PipelineStage.stage"))
  stage_try_from_proto (some (StageProto.match block)) =
      ok (PipelineStage.match (conjunction_id block))
  stage_try_from_proto (some (StageProto.insert block)) =
      ok (PipelineStage.insert (conjunction_id block))
  stage_try_from_proto (some (StageProto.put block)) = ok (PipelineStage.put (conjunction_id block))
  stage_try_from_proto (some (StageProto.update block)) =
      ok (PipelineStage.update (conjunction_id block))
  stage_try_from_proto (some (StageProto.delete block deleted_variables)) =
      variables_from_proto deleted_variables >>= λ deleted_variables.
      ok (PipelineStage.delete (conjunction_id block) deleted_variables)
  stage_try_from_proto (some (StageProto.select variables)) =
      variables_from_proto variables >>= λ variables. ok (PipelineStage.select variables)
  stage_try_from_proto (some (StageProto.sort sort_variables)) =
      vec_from_proto sort_variable_try_from_proto sort_variables >>= λ variables.
      ok (PipelineStage.sort variables)
  stage_try_from_proto (some (StageProto.require variables)) =
      variables_from_proto variables >>= λ variables. ok (PipelineStage.require variables)
  stage_try_from_proto (some (StageProto.offset offset)) = ok (PipelineStage.offset offset)
  stage_try_from_proto (some (StageProto.limit limit)) = ok (PipelineStage.limit limit)
  stage_try_from_proto (some StageProto.distinct) = ok PipelineStage.distinct
  stage_try_from_proto (some (StageProto.reduce reducers groupby)) =
      vec_from_proto reduce_assignment_try_from_proto reducers >>= λ reducers.
      variables_from_proto groupby >>= λ groupby. ok (PipelineStage.reduce reducers groupby)

module _ {A : Type 0} {X : External} (chrono : Chrono X) (enums : Enums) (checks : Bool) where
  unfoldable pub pipeline_try_from_proto : PipelineProto X → Outcome (Error A) (Pipeline X)
  unfolding vec_from_proto conjunction_try_from_proto stage_try_from_proto
  pipeline_try_from_proto proto =
      vec_from_proto (conjunction_try_from_proto chrono enums checks) proto.conjunctions
      >>= λ conjunctions. vec_from_proto (stage_try_from_proto enums) proto.stages >>= λ stages.
          vec_from_proto variable_info_from_proto proto.variable_info >>= λ variable_info.
          variables_from_proto proto.outputs >>= λ outputs. ok (record {
            conjunctions = conjunctions;
            stages = stages;
            variable_info = variable_info;
            outputs = outputs;
          })
