-- ===== src/Analyze/Conjunctions.antt =====
-- The constraints of a query (rust/src/analyze/conjunction.rs), and the annotations of variables
-- (rust/src/analyze/mod.rs). A `usize` that is made of a `u32` has the same number.
use typedb_driver.Common.{ℕ, Bool, Option, List, Bytes, codes, Eq, ◌==◌, ==_iff, ◌=?◌, ap}
use typedb_driver.Concept.{
  External, ValueType, Value, Kind, EntityType, RelationType, AttributeType, RoleType,
}

pub record ConjunctionId : Type 0 where
  pub id : ℕ

pub record Variable : Type 0 where
  pub id : ℕ

instance abbrev pub variable_eq : Eq Variable
variable_eq = record {
  beq = λ x y. x.id == y.id;
  beq_iff = λ x y. (
    λ h. ap (λ i. record { id = i }) ((==_iff x.id y.id).0 h),
    λ h. (==_iff x.id y.id).1 (ap (λ v. v.id) h),
  );
}

-- `type_::Type`.
pub data ConceptType : Type 0 where
  entity_type : EntityType → ConceptType
  relation_type : RelationType → ConceptType
  attribute_type : AttributeType → ConceptType
  role_type : RoleType → ConceptType

pub data TypeAnnotations : Type 0 where
  instance_types type_types : List ConceptType → TypeAnnotations
  value_type : ValueType → TypeAnnotations

pub record VariableAnnotations : Type 0 where
  pub is_optional : Bool
  pub types : TypeAnnotations

pub data ConstraintExactness : Type 0 where
  exact subtypes : ConstraintExactness

pub record ConstraintSpan : Type 0 where
  pub begin : ℕ
  pub end : ℕ

pub record NamedRole : Type 0 where
  pub variable : Variable
  pub name : Bytes

-- `eq` of `NamedRole`: the names are not compared.
pub named_role_eq : NamedRole → NamedRole → Bool
named_role_eq x y = x.variable =? y.variable

pub data ConstraintVertex (X : External) : Type 0 where
  variable : Variable → ConstraintVertex X
  label : ConceptType → ConstraintVertex X
  value : Value X → ConstraintVertex X
  named_role : NamedRole → ConstraintVertex X

pub data Comparator : Type 0 where
  equal not_equal less_than less_or_equal greater greater_or_equal like contains : Comparator

unfoldable pub symbol : Comparator → Bytes
symbol Comparator.equal = codes "=="
symbol Comparator.not_equal = codes "!="
symbol Comparator.less_than = codes "<"
symbol Comparator.less_or_equal = codes "<="
symbol Comparator.greater = codes ">"
symbol Comparator.greater_or_equal = codes ">="
symbol Comparator.like = codes "Like"
symbol Comparator.contains = codes "Contains"

pub data Constraint (X : External) : Type 0 where
  isa : (instance_vertex type : ConstraintVertex X) (exactness : ConstraintExactness) → Constraint X
  has : (owner attribute : ConstraintVertex X) (exactness : ConstraintExactness) → Constraint X
  links :
      (relation player role : ConstraintVertex X) (exactness : ConstraintExactness) → Constraint X
  sub : (subtype supertype : ConstraintVertex X) (exactness : ConstraintExactness) → Constraint X
  owns : (owner attribute : ConstraintVertex X) (exactness : ConstraintExactness) → Constraint X
  relates : (relation role : ConstraintVertex X) (exactness : ConstraintExactness) → Constraint X
  plays : (player role : ConstraintVertex X) (exactness : ConstraintExactness) → Constraint X
  function_call : (name : Bytes) (assigned arguments : List (ConstraintVertex X)) → Constraint X
  expression :
      (text : Bytes) (assigned : ConstraintVertex X) (arguments : List (ConstraintVertex X))
      → Constraint X
  is : (lhs rhs : ConstraintVertex X) → Constraint X
  iid : (concept : ConstraintVertex X) (iid : Bytes) → Constraint X
  comparison : (lhs rhs : ConstraintVertex X) (comparator : Comparator) → Constraint X
  kind : (kind : Kind) (type : ConstraintVertex X) → Constraint X
  label : (type : ConstraintVertex X) (label : Bytes) → Constraint X
  value : (attribute_type : ConstraintVertex X) (value_type : ValueType) → Constraint X
  or : (branches : List ConjunctionId) → Constraint X
  not : (conjunction : ConjunctionId) → Constraint X
  try : (conjunction : ConjunctionId) → Constraint X

pub record ConstraintWithSpan (X : External) : Type 0 where
  pub constraint : Constraint X
  pub span : Option ConstraintSpan

-- The annotations are the entries of a `HashMap`, in the order of iteration.
pub record Conjunction (X : External) : Type 0 where
  pub constraints : List (ConstraintWithSpan X)
  pub variable_annotations : List (Variable × VariableAnnotations)
