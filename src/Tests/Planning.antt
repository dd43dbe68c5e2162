-- ===== src/Tests/Planning.antt =====
-- The planner's decisions at small inputs.
use kelvin_assistant.Prelude.{
  ℕ, ◌≡◌, refl, true, false, none, some, [], ◌∷◌, text_eq, codes, is_space, strip, text_beq,
}
use kelvin_assistant.Prelude.Int.{pos, ltb_number, ltb_float, to_float, ltb_ℤ, scale}
use kelvin_assistant.Prelude.Search.{starts_with, has_part, replace, replace_from}
use kelvin_assistant.Prelude.Dict.{get, put}
use kelvin_assistant.Prelude.Regex.{nullable, derivative, fullmatch, match}
use kelvin_assistant.Prelude.Result.{ok, raise, tool_arguments_validation_error}
use kelvin_assistant.Domain.Json.{
  Fields, end, field, str, bool, int, obj, arr, nil, cons, lookup, assign, field_names, freeze,
  freeze_items, freeze_fields, freeze_json, freeze_json_mapping,
}
use kelvin_assistant.Domain.ContextGuard.{InputGuard, wrap, escape_delimiters, begin_delimiter}
use kelvin_assistant.Domain.Planner.{
  tool, ToolDecision, required_text, validate_tools, normalize_observation, create_request,
}
use kelvin_assistant.Domain.Agent.Names.{normalize_tool_name}
use kelvin_assistant.Domain.Agent.Status.{
  planning, executing, allowed_transitions, read, windows_client, allow,
}
use kelvin_assistant.Domain.Agent.Run.{
  transition_to, next_step_count, run_post_init, normalize_required_text, normalize_workspace_id,
}
use kelvin_assistant.Domain.Agent.Run.Valid.{IsValid}
use kelvin_assistant.Domain.Agent.Tools.{
  ToolDefinition, ToolProposal, make_tool_call, make_policy_result,
}
use kelvin_assistant.Ports.Tools.{ToolRegistry}
use kelvin_assistant.Tools.Registry.{register, make_registry, get_tool, list_all, select}
use kelvin_assistant.Tools.Registry.Laws.{static_registry}
use kelvin_assistant.Application.ToolPolicy.{
  evaluate, evaluate_found, evaluate_registered, other_workspace, names_other,
}
use kelvin_assistant.Application.Agent.{
  begin_planning, propose_tool, apply_policy, require_status, require_one_of,
}
use kelvin_assistant.Application.AgentPlanning.{
  tool_outcome, Planner, prepare_run, texts, properties_of, required_names, required_of, has_type,
  validate_range, validate_typed, validate_argument_value, validate_argument, validate_each,
  validate_tool_arguments, selected, apply_action, apply_decision, guard_observation, plan_next,
}
use kelvin_assistant.Application.AgentPlanning.Arguments.{
  Accepted, validate_tool_arguments-Accepted,
}
use kelvin_assistant.Application.AgentPlanning.Outcomes.{Planned, apply_decision-Planned}
use kelvin_assistant.Application.AgentPlanning.Rounds.{Round, plan_next-Round, prepare_run-planning}
use kelvin_assistant.Tests.Domain.{planning_run-IsValid}
use kelvin_assistant.Tests.Data.{run_at, context}

program : Unit {0}
unfolding strip is_space nullable derivative fullmatch match lookup assign field_names freeze
    freeze_items freeze_fields freeze_json freeze_json_mapping allowed_transitions text_beq
    starts_with has_part replace replace_from wrap escape_delimiters required_text validate_tools
    normalize_observation create_request normalize_tool_name transition_to next_step_count
    run_post_init normalize_required_text normalize_workspace_id make_tool_call make_policy_result
    register make_registry get_tool list_all select get put evaluate evaluate_found
    evaluate_registered other_workspace names_other begin_planning propose_tool apply_policy
    require_status require_one_of prepare_run texts properties_of required_names required_of
    has_type validate_range validate_typed validate_argument_value validate_argument validate_each
    validate_tool_arguments selected apply_action apply_decision guard_observation plan_next
    ltb_number ltb_float to_float ltb_ℤ scale
program = tt

abbrev line_schema : Fields
line_schema =
    field (codes "type") (str (codes "integer")) (field (codes "minimum") (int (pos 1)) end)

abbrev schema : Fields
schema = field (codes "properties") (obj (field (codes "line") (obj line_schema) end)) (
    field (codes "required") (arr (cons (str (codes "line")) nil))
      (field (codes "additionalProperties") (bool false) end))

abbrev show : ToolDefinition
show = record {
  name = codes "file.show";
  description = codes "Show a line";
  input_schema = schema;
  risk = read;
  execution_target = windows_client;
  timeout_seconds = 15;
}

abbrev third_line : Fields
third_line = field (codes "line") (int (pos 3)) end

accepts : validate_tool_arguments show third_line ≡ ok tt
unfolding program
accepts = refl

-- The line is missing, below the minimum, or a Boolean, or there is another argument.
refuses :
    (validate_tool_arguments show end ≡ raise tool_arguments_validation_error)
    × (validate_tool_arguments show (field (codes "line") (int (pos 0)) end)
        ≡ raise tool_arguments_validation_error)
    × (validate_tool_arguments show (field (codes "line") (bool true) end)
        ≡ raise tool_arguments_validation_error)
    × (validate_tool_arguments show (field (codes "row") (int (pos 3)) third_line)
        ≡ raise tool_arguments_validation_error)
unfolding program
refuses = (refl, refl, refl, refl)

validate_tool_arguments-Accepted_example : Accepted show third_line
validate_tool_arguments-Accepted_example = validate_tool_arguments-Accepted show third_line accepts

constructs : make_registry (show ∷ []) ≡ ok ((codes "file.show", show) ∷ [])
unfolding program
constructs = refl

abbrev registry : ToolRegistry
registry = static_registry (show ∷ []) ((codes "file.show", show) ∷ []) constructs

abbrev decision : ToolDecision
decision = record {
  tool_name = codes "file.show";
  arguments = third_line;
  reason = codes "because";
  expected_effect = codes "an effect";
}

abbrev proposal : ToolProposal
proposal = record {
  run = record (run_at executing 2 5) { updated_at = some 6 };
  call = record {
    name = codes "file.show";
    arguments = third_line;
    reason = codes "because";
    expected_effect = codes "an effect";
    risk = read;
    id = 41;
  };
  policy_result = record {
    decision = allow;
    reason = codes "Read-only tool is allowed in the authorized workspace.";
  };
  approval = none;
}

applies :
    apply_decision registry (evaluate registry) 41 6 (run_at planning 1 4) (tool decision) context
    ≡ ok (tool_outcome proposal decision)
unfolding program
applies = refl

apply_decision-Planned_example :
    (planning ≡ planning)
    × Planned registry
        (evaluate registry)
        (run_at planning 1 4)
        context
        (tool decision)
        (tool_outcome proposal decision)
apply_decision-Planned_example =
    apply_decision-Planned registry (evaluate registry) 41 6 (run_at planning 1 4) context
      planning_run-IsValid (tool decision) applies

abbrev trusting : InputGuard
trusting text = record { is_safe = true; warnings = [] }

abbrev plan : Planner
plan request = ok (tool decision)

plans :
    plan_next registry (evaluate registry) trusting plan 41 6 (run_at planning 1 4) [] none context
    ≡ ok (tool_outcome proposal decision)
unfolding program kelvin_assistant.Prelude.Sort.sorted
plans = refl

plan_next-Round_example :
    Round registry
      (evaluate registry)
      trusting
      plan
      (run_at planning 1 4)
      []
      none
      context
      (tool_outcome proposal decision)
plan_next-Round_example =
    plan_next-Round registry (evaluate registry) trusting plan 41 6 (run_at planning 1 4) [] none
      context planning_run-IsValid plans

prepares : prepare_run 6 (run_at planning 1 4) ≡ ok (run_at planning 1 4)
unfolding program
prepares = refl

abbrev steps : ℕ
steps = 1

prepare_run-planning_example :
    IsValid (run_at planning 1 4) × (planning ≡ planning) × (steps ≡ steps)
prepare_run-planning_example =
    prepare_run-planning 6 (run_at planning 1 4) planning_run-IsValid prepares

-- Two delimiters that share their dashes leave one delimiter: the text that replaces the first
-- one gives its dashes to the second.
delimiter_left :
    has_part
      (escape_delimiters (codes "--- BEGIN EXTERNAL DATA --- BEGIN EXTERNAL DATA ---"))
      begin_delimiter
    ≡ true
unfolding program
delimiter_left = refl
