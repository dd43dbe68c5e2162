-- ===== src/Domain/Planner.antt =====
-- domain/planner.py: the bounded request to a planner and the decisions that it may return. Each
-- `make_*` is the constructor with its `__post_init__`.
use kelvin_assistant.Prelude.{
  ℕ, Option, none, some, List, Text, text_eq, not, ◌||◌, ltb, strip, is_empty, length, map,
  distinct, if◌then◌else◌,
}
use kelvin_assistant.Prelude.Regex.{fullmatch}
use kelvin_assistant.Prelude.Result.{Result, ok, raise, ◌>>=◌, ◌>>◌, raise_if, planner_domain_error}
use kelvin_assistant.Domain.Json.{Fields, end, freeze_fields}
use kelvin_assistant.Domain.Agent.Names.{tool_name_pattern}
use kelvin_assistant.Domain.Agent.Run.{max_agent_goal_length, max_agent_steps}
use kelvin_assistant.Domain.Agent.Tools.{ToolDefinition, max_tool_output_length}

abbrev pub max_clarification_turns : ℕ
max_clarification_turns = 4

abbrev pub max_planner_reason_length : ℕ
max_planner_reason_length = 2048

abbrev pub max_clarification_question_length : ℕ
max_clarification_question_length = 2048

abbrev pub max_clarification_answer_length : ℕ
max_clarification_answer_length = 8192

abbrev pub max_completion_summary_length : ℕ
max_completion_summary_length = 8192

-- `_required_text`
unfoldable pub required_text : Text → (maximum : ℕ) → Result Text
required_text value maximum = do
  raise_if (is_empty (strip value)) planner_domain_error
  raise_if (ltb maximum (length (strip value))) planner_domain_error
  ok (strip value)

-- `_planner_reason`
abbrev pub planner_reason : Text → Result Text
planner_reason value = required_text value max_planner_reason_length

pub record ClarificationTurn : Type 0 where
  pub question : Text
  pub answer : Text

unfoldable pub make_clarification_turn : Text → Text → Result ClarificationTurn
make_clarification_turn question answer = do
  question' ← required_text question max_clarification_question_length
  answer' ← required_text answer max_clarification_answer_length
  ok (record { question = question'; answer = answer' })

pub record PlannerRequest : Type 0 where
  pub goal : Text
  pub tools : List ToolDefinition
  pub remaining_steps : ℕ
  pub clarifications : List ClarificationTurn
  pub observation : Option Text

-- `_validate_tools`, of which only the errors matter: the tools come back unchanged.
unfoldable pub validate_tools : List ToolDefinition → Result (List ToolDefinition)
validate_tools tools = do
  raise_if (is_empty tools) planner_domain_error
  raise_if (not (distinct (map (λ (tool : ToolDefinition). tool.name) tools))) planner_domain_error
  ok tools

-- The last block of `PlannerRequest.__post_init__`
unfoldable pub normalize_observation : Option Text → Result (Option Text)
normalize_observation none = ok none
normalize_observation (some observation) =
    if is_empty (strip observation)
    then ok none
    else if ltb max_tool_output_length (length (strip observation))
    then raise planner_domain_error
    else ok (some (strip observation))

-- `PlannerRequest.create`
unfoldable pub create_request :
    Text
    → List ToolDefinition
    → (remaining_steps : ℕ) → List ClarificationTurn
    → Option Text
    → Result PlannerRequest
create_request goal tools remaining_steps clarifications observation = do
  goal' ← required_text goal max_agent_goal_length
  tools' ← validate_tools tools
  raise_if (ltb remaining_steps 1 || ltb max_agent_steps remaining_steps) planner_domain_error
  raise_if (ltb max_clarification_turns (length clarifications)) planner_domain_error
  observation' ← normalize_observation observation
  ok (record {
    goal = goal';
    tools = tools';
    remaining_steps = remaining_steps;
    clarifications = clarifications;
    observation = observation';
  })

pub record ClarifyDecision : Type 0 where
  pub question : Text
  pub reason : Text

unfoldable pub make_clarify_decision : Text → Text → Result ClarifyDecision
make_clarify_decision question reason = do
  question' ← required_text question max_clarification_question_length
  reason' ← planner_reason reason
  ok (record { question = question'; reason = reason' })

pub record ToolDecision : Type 0 where
  pub tool_name : Text
  pub arguments : Fields
  pub reason : Text
  pub expected_effect : Text

unfoldable pub make_tool_decision : Text → Fields → Text → Text → Result ToolDecision
make_tool_decision tool_name arguments reason expected_effect = do
  raise_if (not (fullmatch tool_name_pattern (strip tool_name))) planner_domain_error
  arguments' ← freeze_fields planner_domain_error arguments end
  reason' ← planner_reason reason
  effect ← required_text expected_effect max_planner_reason_length
  ok (record {
    tool_name = strip tool_name;
    arguments = arguments';
    reason = reason';
    expected_effect = effect;
  })

pub record CompleteDecision : Type 0 where
  pub summary : Text

unfoldable pub make_complete_decision : Text → Result CompleteDecision
make_complete_decision summary = do
  summary' ← required_text summary max_completion_summary_length
  ok (record { summary = summary' })

pub data PlannerDecision : Type 0 where
  clarify : ClarifyDecision → PlannerDecision
  tool : ToolDecision → PlannerDecision
  complete : CompleteDecision → PlannerDecision
