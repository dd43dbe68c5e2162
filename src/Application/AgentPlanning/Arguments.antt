-- ===== src/Application/AgentPlanning/Arguments.antt =====
-- What the arguments of a call satisfy when the validation by the tool's schema lets them pass.
use kelvin_assistant.Prelude.{
  ◌≡◌, refl, Bool, true, false, Bool-cases, inl, inr, some, List, [], ◌∷◌, Text, text_eq, codes,
  not, ◌&&◌, ◌||◌, ◌==◌, All, all, contains, arith,
}
use kelvin_assistant.Prelude.Int.{Number}
use kelvin_assistant.Prelude.Result.{
  ok, raise_if, >>=-eq-ok, raise_if-eq-ok, tool_arguments_validation_error,
}
use kelvin_assistant.Domain.Json.{
  Json, null, bool, int, float, str, arr, obj, Fields, end, field, lookup, field_names,
}
use kelvin_assistant.Domain.Agent.Tools.{ToolDefinition}
use kelvin_assistant.Application.ToolPolicy.{or_null}
use kelvin_assistant.Application.AgentPlanning.{
  properties_of, required_of, is_false, has_type, number, below, above, validate_range,
  validate_typed, validate_argument_value, validate_argument, validate_each,
  validate_tool_arguments,
}

-- A number is not below the minimum and not above the maximum of the schema.
abbrev pub InRange : Fields → Json → Type 0
InRange schema value =
    (n : Number)
    → number value ≡ some n
    → (below (number (or_null (lookup schema (codes "minimum")))) n ≡ false)
      × (above (number (or_null (lookup schema (codes "maximum")))) n ≡ false)

-- The value has the type that its schema names.
pub record HasType (schema : Fields) (value : Json) : Type 0 where
  pub expected : Text
  pub named : or_null (lookup schema (codes "type")) ≡ str expected
  pub typed : has_type value expected ≡ true
  pub in_range : InRange schema value

-- A value fits what the properties have under its name: nothing, or a schema.
abbrev pub Fits : Json → Json → Type 0
Fits null value = Unit
Fits (obj schema) value = HasType schema value
Fits _ value = ⊥

abbrev pub EachFits : (properties arguments : Fields) → Type 0
EachFits properties end = Unit
EachFits properties (field name value rest) =
    Fits (or_null (lookup properties name)) value × EachFits properties rest

pub record Accepted (definition : ToolDefinition) (arguments : Fields) : Type 0 where
  pub properties : Fields
  pub required : List Text
  pub declared : properties_of (lookup definition.input_schema (codes "properties")) ≡ ok properties
  pub demanded : required_of (lookup definition.input_schema (codes "required")) ≡ ok required
  pub complete : All (λ name. contains (field_names arguments) name ≡ true) required
  pub closed :
      is_false (lookup definition.input_schema (codes "additionalProperties")) ≡ true
      → All (λ name. contains (field_names properties) name ≡ true) (field_names arguments)
  pub fits : EachFits properties arguments

all-All {ℓ} : {A : Type ℓ} (p : A → Bool) (xs : List A) → all p xs ≡ true → All (λ x. p x ≡ true) xs
all-All p [] h = tt
all-All p (x ∷ xs) h = elim (Bool-cases (p x)) [
  | inl e ↦ (e, all-All p xs (rw e at h))
  | inr e ↦ cc (rw e at h)
]

passed :
    (test : Bool) {u : Unit {0}}
    → raise_if test tool_arguments_validation_error ≡ ok u
    → test ≡ false
passed true h = cc
passed false h = refl

range-InRange :
    (value : Json) (schema : Fields) {u : Unit {0}}
    → validate_range (number value) schema ≡ ok u
    → InRange schema value
unfolding validate_range
range-InRange value schema h n e =
    let (low, h₁) =
      raise_if-eq-ok (below (number (or_null (lookup schema (codes "minimum")))) n)
        tool_arguments_validation_error _ (rw e at h) in
    (low, passed (above (number (or_null (lookup schema (codes "maximum")))) n) h₁)

abbrev numeric : Text → Bool
numeric expected = expected == codes "integer" || expected == codes "number"

numeric_type :
    (value : Json) (expected : Text) (n : Number)
    → has_type value expected ≡ true
    → number value ≡ some n
    → numeric expected ≡ true
unfolding has_type
numeric_type (int m) expected n h e = h
numeric_type (float x) expected n h e = ground arith
numeric_type _ expected n h e = cc

typed-HasType :
    (type value : Json) (schema : Fields) {u : Unit {0}}
    → or_null (lookup schema (codes "type")) ≡ type
    → validate_typed type value schema ≡ ok u
    → HasType schema value
unfolding validate_typed
typed-HasType (str expected) value schema same h =
    let (typed, h₁) =
      raise_if-eq-ok (not (has_type value expected)) tool_arguments_validation_error _ h in
    let has : has_type value expected ≡ true = ground arith in
    record {
      expected = expected;
      named = same;
      typed = has;
      in_range =
          λ n e. range-InRange value schema (rw (numeric_type value expected n has e) at h₁) n e;
    }
typed-HasType _ value schema same h = cc

argument-Fits :
    (type value : Json) {u : Unit {0}} → validate_argument type value ≡ ok u → Fits type value
unfolding validate_argument validate_argument_value
argument-Fits null value h = tt
argument-Fits (obj schema) value h =
    typed-HasType (or_null (lookup schema (codes "type"))) value schema refl h
argument-Fits (bool b) value h = cc
argument-Fits (int n) value h = cc
argument-Fits (float x) value h = cc
argument-Fits (str s) value h = cc
argument-Fits (arr xs) value h = cc

each-EachFits :
    (properties arguments : Fields) {u : Unit {0}}
    → validate_each properties arguments ≡ ok u
    → EachFits properties arguments
unfolding validate_each
each-EachFits properties end h = tt
each-EachFits properties (field name value rest) h =
    let (_, h₁, h₂) = >>=-eq-ok (validate_argument (or_null (lookup properties name)) value) _ h in
    (argument-Fits (or_null (lookup properties name)) value h₁, each-EachFits properties rest h₂)

-- Arguments that pass the validation have every required name; if the schema closes its
-- properties, they have no name but a property's; and each value whose name has a schema has the
-- type of that schema, and is within its bounds if it is a number.
pub validate_tool_arguments-Accepted :
    (definition : ToolDefinition) (arguments : Fields) {u : Unit {0}}
    → validate_tool_arguments definition arguments ≡ ok u
    → Accepted definition arguments
unfolding validate_tool_arguments
validate_tool_arguments-Accepted definition arguments h =
    let schema = definition.input_schema in
    let (properties, declared, h₁) =
      >>=-eq-ok (properties_of (lookup schema (codes "properties"))) _ h in
    let (required, demanded, h₂) =
      >>=-eq-ok (required_of (lookup schema (codes "required"))) _ h₁ in
    let (complete, h₃) =
      raise_if-eq-ok (not (all (contains (field_names arguments)) required))
        tool_arguments_validation_error _ h₂ in
    let (closed, h₄) =
      raise_if-eq-ok
        (is_false (lookup schema (codes "additionalProperties"))
          && not (all (contains (field_names properties)) (field_names arguments)))
        tool_arguments_validation_error _ h₃ in
    record {
      properties = properties;
      required = required;
      declared = declared;
      demanded = demanded;
      complete = all-All (contains (field_names arguments)) required (ground arith);
      closed =
          λ e. all-All (contains (field_names properties)) (field_names arguments) (ground arith);
      fits = each-EachFits properties arguments h₄;
    }
