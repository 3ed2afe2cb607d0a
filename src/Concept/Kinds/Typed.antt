-- ===== src/Concept/Kinds/Typed.antt =====
-- The typed accessors of a concept (rust/src/concept/mod.rs) agree with its value type.
use typedb_driver.Common.{◌≡◌, Bool, true, false, ◌&&◌, ◌||◌, Option, none, some, arith}
use typedb_driver.Concept.{External, Value, Concept, get_type}
use typedb_driver.Concept.Kinds.{
  try_get_value, try_get_value_type, get_category, is_type, is_instance, is_entity_type,
  is_relation_type, is_role_type, is_attribute_type, is_entity, is_relation, is_attribute, is_value,
  try_get_struct, get_struct, is_struct, try_get_boolean, get_boolean, is_boolean, try_get_integer,
  get_integer, is_integer, try_get_double, get_double, is_double, try_get_decimal, get_decimal,
  is_decimal, try_get_string, get_string, is_string, try_get_date, get_date, is_date,
  try_get_datetime, get_datetime, is_datetime, try_get_datetime_tz, get_datetime_tz, is_datetime_tz,
  try_get_duration, get_duration, is_duration,
}

abbrev pub is_some : {B : Type 0} → Option B → Bool
is_some none = false
is_some (some x) = true

module _ {X : External} where
  -- An accessor for the values that `wrap` makes: it gives what is wrapped, and it gives something exactly
  -- if the concept has the type and a value.
  abbrev pub IsAccessor :
      {B : Type 0} (got : Option B) (typed : Bool) (wrap : B → Value X) (c : Concept X) → Type 0
  IsAccessor {B} got typed wrap c =
      ((x : B) → got ≡ some x → try_get_value c ≡ some (wrap x))
      × (is_some got ≡ (typed && is_some (try_get_value c)))

  -- Each typed accessor of a concept gives what the concept's value wraps, and it gives something
  -- exactly if the test for its type holds of the concept and the concept has a value.
  pub typed-IsAccessor :
      (c : Concept X)
      → IsAccessor (try_get_boolean c) (is_boolean c) (λ x. Value.boolean x) c
        × IsAccessor (try_get_integer c) (is_integer c) (λ x. Value.integer x) c
        × IsAccessor (try_get_double c) (is_double c) (λ x. Value.double x) c
        × IsAccessor (try_get_decimal c) (is_decimal c) (λ x. Value.decimal x) c
        × IsAccessor (try_get_string c) (is_string c) (λ x. Value.string x) c
        × IsAccessor (try_get_date c) (is_date c) (λ x. Value.date x) c
        × IsAccessor (try_get_datetime c) (is_datetime c) (λ x. Value.datetime x) c
        × IsAccessor (try_get_datetime_tz c) (is_datetime_tz c) (λ x. Value.datetime_tz x) c
        × IsAccessor (try_get_duration c) (is_duration c) (λ x. Value.duration x) c
  unfolding try_get_value try_get_value_type get_type try_get_boolean get_boolean is_boolean
      try_get_integer get_integer is_integer try_get_double get_double is_double try_get_decimal
      get_decimal is_decimal try_get_string get_string is_string try_get_date get_date is_date
      try_get_datetime get_datetime is_datetime try_get_datetime_tz get_datetime_tz is_datetime_tz
      try_get_duration get_duration is_duration
  typed-IsAccessor c = ground arith

  -- A struct is found exactly if the concept holds one.
  pub try_get_struct-is_struct :
      (c : Concept X) → is_some (try_get_struct c) ≡ (is_struct c && is_some (try_get_value c))
  unfolding try_get_value try_get_value_type get_type try_get_struct get_struct is_struct
  try_get_struct-is_struct c = ground arith

  -- A concept is a type, an instance or a value, and only one of them; it is a type exactly if it is one
  -- of the four kinds of types, and an instance exactly if it is one of the three kinds of instances.
  pub is_type-is_instance :
      (c : Concept X)
      → (is_type c
          ≡ (is_entity_type c || is_relation_type c || is_role_type c || is_attribute_type c))
        × (is_instance c ≡ (is_entity c || is_relation c || is_attribute c))
        × ((is_type c || is_instance c || is_value c) ≡ true)
        × ((is_type c && is_instance c) ≡ false)
        × ((is_type c && is_value c) ≡ false)
        × ((is_instance c && is_value c) ≡ false)
  unfolding get_category is_type is_instance is_entity_type is_relation_type is_role_type
      is_attribute_type is_entity is_relation is_attribute is_value
  is_type-is_instance c = ground arith
