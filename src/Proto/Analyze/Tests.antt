-- ===== src/Proto/Analyze/Tests.antt =====
-- An analyzed query with concrete enums.
use typedb_driver.Common.{
  ℕ, ◌≡◌, refl, true, Option, none, some, [], ◌∷◌, codes, if◌then◌else◌, ◌==◌, ok,
}
use typedb_driver.Common.Int.{ℤ, pos, negsuc}
use typedb_driver.Concept.{Value, ValueType}
use typedb_driver.Concept.Tests.{machine}
use typedb_driver.Analyze.{Fetch, FetchEntries, AnalyzedQuery}
use typedb_driver.Analyze.Conjunctions.{
  ConstraintExactness, ConstraintVertex, ConceptType, Comparator, Constraint, Conjunction,
}
use typedb_driver.Analyze.Pipelines.{Pipeline, PipelineStage, SortOrder}
use typedb_driver.TransactionStream.{AnalyzeResponse}
use typedb_driver.Proto.Tests.{clock, clock-laws}
use typedb_driver.Proto.Analyze.{ConstraintExactnessProto, ComparatorProto, SortDirection, Enums}
use typedb_driver.Proto.Analyze.Queries.{analyze_response_try_from_proto}
use typedb_driver.Proto.Analyze.Sent.{EnumCodes, Codes}
use typedb_driver.Proto.Analyze.Sent.Queries.{sent_query}
use typedb_driver.Proto.Analyze.RoundTrip.Queries.{analyze_response_try_from_proto-sent_query}

abbrev exactness_from : ℤ → Option ConstraintExactnessProto
exactness_from (pos n) =
    if n == 0
    then some ConstraintExactnessProto.exact
    else if n == 1
    then some ConstraintExactnessProto.subtypes
    else none
exactness_from (negsuc n) = none

abbrev comparator_from : ℤ → Option ComparatorProto
comparator_from (pos n) =
    if n == 0
    then some ComparatorProto.equal
    else if n == 1
    then some ComparatorProto.not_equal
    else if n == 2
    then some ComparatorProto.less
    else if n == 3
    then some ComparatorProto.less_or_equal
    else if n == 4
    then some ComparatorProto.greater
    else if n == 5
    then some ComparatorProto.greater_or_equal
    else if n == 6
    then some ComparatorProto.like
    else if n == 7
    then some ComparatorProto.contains
    else none
comparator_from (negsuc n) = none

abbrev direction_from : ℤ → Option SortDirection
direction_from (pos n) =
    if n == 0 then some SortDirection.asc else if n == 1 then some SortDirection.desc else none
direction_from (negsuc n) = none

abbrev enums : Enums
enums = record {
  exactness = record { type_name = codes "ConstraintExactness"; from_i32 = exactness_from };
  comparator = record { type_name = codes "Comparator"; from_i32 = comparator_from };
  direction = record { type_name = codes "SortDirection"; from_i32 = direction_from };
}

abbrev exactness_number : ConstraintExactnessProto → ℤ
exactness_number ConstraintExactnessProto.exact = pos 0
exactness_number ConstraintExactnessProto.subtypes = pos 1

exactness_found : (x : ConstraintExactnessProto) → exactness_from (exactness_number x) ≡ some x
exactness_found ConstraintExactnessProto.exact = refl
exactness_found ConstraintExactnessProto.subtypes = refl

abbrev exactness_codes : EnumCodes enums.exactness
exactness_codes = record { to_i32 = exactness_number; from-to = exactness_found }

abbrev comparator_number : ComparatorProto → ℤ
comparator_number ComparatorProto.equal = pos 0
comparator_number ComparatorProto.not_equal = pos 1
comparator_number ComparatorProto.less = pos 2
comparator_number ComparatorProto.less_or_equal = pos 3
comparator_number ComparatorProto.greater = pos 4
comparator_number ComparatorProto.greater_or_equal = pos 5
comparator_number ComparatorProto.like = pos 6
comparator_number ComparatorProto.contains = pos 7

comparator_found : (x : ComparatorProto) → comparator_from (comparator_number x) ≡ some x
comparator_found ComparatorProto.equal = refl
comparator_found ComparatorProto.not_equal = refl
comparator_found ComparatorProto.less = refl
comparator_found ComparatorProto.less_or_equal = refl
comparator_found ComparatorProto.greater = refl
comparator_found ComparatorProto.greater_or_equal = refl
comparator_found ComparatorProto.like = refl
comparator_found ComparatorProto.contains = refl

abbrev comparator_codes : EnumCodes enums.comparator
comparator_codes = record { to_i32 = comparator_number; from-to = comparator_found }

abbrev direction_number : SortDirection → ℤ
direction_number SortDirection.asc = pos 0
direction_number SortDirection.desc = pos 1

direction_found : (x : SortDirection) → direction_from (direction_number x) ≡ some x
direction_found SortDirection.asc = refl
direction_found SortDirection.desc = refl

abbrev direction_codes : EnumCodes enums.direction
direction_codes = record { to_i32 = direction_number; from-to = direction_found }

abbrev numbers : Codes enums
numbers = record {
  exactness = exactness_codes;
  comparator = comparator_codes;
  direction = direction_codes;
}

-- match $p has age > 5; sort $p;
abbrev conjunction : Conjunction machine
conjunction = record {
  constraints =
      record {
        constraint =
            Constraint.has (ConstraintVertex.variable (record { id = 0 }))
              (ConstraintVertex.label (
                ConceptType.attribute_type
                  (record { label = codes "age"; value_type = some ValueType.integer })))
              ConstraintExactness.subtypes;
        span = some (record { begin = 6; end = 20 });
      }
      ∷ record {
        constraint =
            Constraint.comparison (ConstraintVertex.variable (record { id = 1 }))
              (ConstraintVertex.value (Value.integer (pos 5))) Comparator.greater;
        span = none;
      }
      ∷ [];
  variable_annotations = [];
}

abbrev pipeline : Pipeline machine
pipeline = record {
  conjunctions = conjunction ∷ [];
  stages =
      PipelineStage.match (record { id = 0 })
      ∷ PipelineStage.sort
          (record { variable = record { id = 0 }; order = SortOrder.descending } ∷ [])
      ∷ [];
  variable_info = (record { id = 0 }, record { name = codes "p" }) ∷ [];
  outputs = record { id = 0 } ∷ [];
}

abbrev analyzed : AnalyzedQuery machine
analyzed = record {
  source = codes "match";
  preamble = [];
  given = none;
  query = pipeline;
  fetch = some (
      Fetch.object (
        FetchEntries.fetch_entry (codes "p")
          (Fetch.leaf (record { annotations = ValueType.integer ∷ [] })) FetchEntries.no_fetch));
}

analyze_response_try_from_proto-sent_query_example :
    analyze_response_try_from_proto {A = ℕ} clock enums true (sent_query clock numbers analyzed)
    ≡ ok (AnalyzeResponse.ok analyzed)
analyze_response_try_from_proto-sent_query_example =
    analyze_response_try_from_proto-sent_query {A = ℕ} clock-laws numbers true analyzed
      ((((tt, (tt, tt)), ((tt, (tt, tt)), tt)), tt), tt)
