-- ===== src/Application/AgentPlanning.antt =====
-- `AgentPlanningService` of application/agent_planning.py, over a planner, a registry, a policy and
-- the input guard of the context guard. A `Mapping` is `obj` and a tuple is `arr`.
pub mod Arguments
pub mod Outcomes
pub mod Requests
pub mod Rounds
use kelvin_assistant.Prelude.{
  ℕ, ◌-◌, Bool, true, false, Option, none, some, List, [], ◌∷◌, Text, text_eq, codes, not, ◌&&◌,
  ◌||◌, ◌==◌, ltb, distinct, contains, all, if◌then◌else◌,
}
use kelvin_assistant.Prelude.Int.{ℤ, Number, ltb_number}
use kelvin_assistant.Prelude.Result.{
  Exception, Result, ok, raise, ◌>>=◌, ◌>>◌, raise_if, agent_planning_error,
  tool_arguments_validation_error, unknown_tool_error,
}
use kelvin_assistant.Domain.Json.{
  Json, null, bool, int, float, str, arr, obj, Items, nil, cons, Fields, end, field, lookup,
  field_names,
}
use kelvin_assistant.Domain.ContextGuard.{InputGuard, wrap, GuardedContent}
use kelvin_assistant.Domain.Planner.{
  ClarificationTurn, PlannerRequest, create_request, ClarifyDecision, ToolDecision,
  CompleteDecision, PlannerDecision, clarify, tool, complete,
}
use kelvin_assistant.Domain.Agent.Status.{
  AgentStatus, received, clarifying, planning, observing, status_eq,
}
use kelvin_assistant.Domain.Agent.Run.{AgentRun}
use kelvin_assistant.Domain.Agent.Tools.{
  ToolDefinition, make_tool_call, ToolProposal, make_clarification_request,
}
use kelvin_assistant.Ports.Tools.{ToolRegistry}
use kelvin_assistant.Application.ToolPolicy.{ToolPolicyContext, or_null}
use kelvin_assistant.Application.Agent.{
  AgentClarification, Policy, begin_planning, continue_planning, request_clarification,
  propose_tool, complete_run, fail_run,
}

pub data PlanningOutcome : Type 0 where
  clarification_outcome : AgentClarification → ClarifyDecision → PlanningOutcome
  tool_outcome : ToolProposal → ToolDecision → PlanningOutcome
  completion_outcome : AgentRun → CompleteDecision → PlanningOutcome

-- `AgentPlanner.plan`
abbrev pub Planner : Type 0
Planner = PlannerRequest → Result PlannerDecision

unfoldable pub prepare_run : ℕ → AgentRun → Result AgentRun
prepare_run now run =
    if contains (received ∷ clarifying ∷ []) run.status
    then begin_planning now run
    else if run.status == observing
    then continue_planning now run
    else if run.status == planning
    then ok run
    else raise agent_planning_error

-- The texts of a tuple, if it holds nothing else.
unfoldable pub texts : Items → Option (List Text)
texts nil = some []
texts (cons (str t) xs) = elim (texts xs) [ none ↦ none | (some ts) ↦ some (t ∷ ts) ]
texts (cons _ xs) = none

-- `schema.get("properties", {})`, which has to be a mapping
unfoldable pub properties_of : Option Json → Result Fields
properties_of none = ok end
properties_of (some (obj properties)) = ok properties
properties_of (some _) = raise tool_arguments_validation_error

-- A tuple of texts with no text twice: `len(required) != len(required_value)` refuses the others.
unfoldable pub required_names : Option (List Text) → Result (List Text)
required_names none = raise tool_arguments_validation_error
required_names (some names) =
    if distinct names then ok names else raise tool_arguments_validation_error

-- `schema.get("required", ())`, which has to be such a tuple
unfoldable pub required_of : Option Json → Result (List Text)
required_of none = ok []
required_of (some (arr xs)) = required_names (texts xs)
required_of (some _) = raise tool_arguments_validation_error

-- `value is False`
abbrev pub is_false : Option Json → Bool
is_false (some (bool false)) = true
is_false _ = false

-- The alternatives of `valid`
unfoldable pub has_type : Json → (expected_type : Text) → Bool
has_type (str s) expected = expected == codes "string"
has_type (bool b) expected = expected == codes "boolean"
has_type (int n) expected = expected == codes "integer" || expected == codes "number"
has_type (float x) expected = expected == codes "number"
has_type (obj fs) expected = expected == codes "object"
has_type (arr xs) expected = expected == codes "array"
has_type null expected = false

-- `isinstance(value, (int, float))` without `bool`; also `_schema_number`
abbrev pub number : Json → Option Number
number (int n) = some (Number.int n)
number (float x) = some (Number.float x)
number _ = none

-- `minimum is not None and value < minimum`, and the same for the maximum
abbrev pub below : Option Number → Number → Bool
below none value = false
below (some minimum) value = ltb_number value minimum

abbrev pub above : Option Number → Number → Bool
above none value = false
above (some maximum) value = ltb_number maximum value

unfoldable pub validate_range : Option Number → Fields → Result (Unit {0})
validate_range none schema = raise tool_arguments_validation_error
validate_range (some value) schema = do
  raise_if (below (number (or_null (lookup schema (codes "minimum")))) value)
      tool_arguments_validation_error
  raise_if (above (number (or_null (lookup schema (codes "maximum")))) value)
      tool_arguments_validation_error

-- `_validate_argument_value`, by `schema.get("type")`
unfoldable pub validate_typed : Json → Json → Fields → Result (Unit {0})
validate_typed (str expected) value schema = do
  raise_if (not (has_type value expected)) tool_arguments_validation_error
  (if expected == codes "integer" || expected == codes "number"
      then validate_range (number value) schema
      else ok tt)
validate_typed _ value schema = raise tool_arguments_validation_error

unfoldable pub validate_argument_value : Json → Fields → Result (Unit {0})
validate_argument_value value schema =
    validate_typed (or_null (lookup schema (codes "type"))) value schema

-- The body of the loop, by `properties.get(name)`
unfoldable pub validate_argument : Json → Json → Result (Unit {0})
validate_argument null value = ok tt
validate_argument (obj schema) value = validate_argument_value value schema
validate_argument _ value = raise tool_arguments_validation_error

unfoldable pub validate_each : (properties arguments : Fields) → Result (Unit {0})
validate_each properties end = ok tt
validate_each properties (field name value rest) = do
  validate_argument (or_null (lookup properties name)) value
  validate_each properties rest

unfoldable pub validate_tool_arguments : ToolDefinition → Fields → Result (Unit {0})
validate_tool_arguments definition arguments = do
  let schema = definition.input_schema
  properties ← properties_of (lookup schema (codes "properties"))
  required ← required_of (lookup schema (codes "required"))
  raise_if (not (all (contains (field_names arguments)) required)) tool_arguments_validation_error
  raise_if
      (is_false (lookup schema (codes "additionalProperties"))
        && not (all (contains (field_names properties)) (field_names arguments)))
      tool_arguments_validation_error
  validate_each properties arguments

-- `except UnknownToolError` in `apply_decision`
unfoldable pub selected : Result ToolDefinition → Result ToolDefinition
selected (raise unknown_tool_error) = raise agent_planning_error
selected r = r

-- The observation that the planner sees: the guarded text, or none if it is not safe.
unfoldable pub guard_observation : InputGuard → Option Text → Option Text
guard_observation input_guard none = none
guard_observation input_guard (some observation) =
    let guarded = wrap input_guard observation (codes "tool_observation") in
    if guarded.is_safe then some guarded.text else none

module _ (registry : ToolRegistry) (policy : Policy) where
  -- The branches of `apply_decision`; `id` is the fresh identifier of a call.
  unfoldable pub apply_action :
      PlannerDecision → (id now : ℕ) → AgentRun → ToolPolicyContext → Result PlanningOutcome
  apply_action (clarify decision) id now run context = do
    request ← make_clarification_request decision.question decision.reason
    clarification ← request_clarification now run request
    ok (clarification_outcome clarification decision)
  apply_action (complete decision) id now run context = do
    next ← complete_run now run
    ok (completion_outcome next decision)
  apply_action (tool decision) id now run context = do
    definition ← selected (registry.get decision.tool_name)
    validate_tool_arguments definition decision.arguments
    call ←
        make_tool_call id definition.name decision.arguments decision.reason
          decision.expected_effect definition.risk
    proposal ← propose_tool policy now run call context
    ok (tool_outcome proposal decision)

  unfoldable pub apply_decision :
      (id now : ℕ) → AgentRun → PlannerDecision → ToolPolicyContext → Result PlanningOutcome
  apply_decision id now run decision context = do
    raise_if (not (run.status == planning)) agent_planning_error
    apply_action decision id now run context

  unfoldable pub plan_next :
      InputGuard
      → Planner
      → (id now : ℕ) → AgentRun
      → List ClarificationTurn
      → Option Text
      → ToolPolicyContext
      → Result PlanningOutcome
  plan_next input_guard plan id now run clarifications observation context = do
    raise_if (not (run.status == planning)) agent_planning_error
    raise_if (ltb (run.max_steps - run.step_count) 1) agent_planning_error
    request ←
        create_request run.goal registry.list_all (run.max_steps - run.step_count) clarifications
          (guard_observation input_guard observation)
    decision ← plan request
    apply_decision id now run decision context
