-- ===== src/Tests/Domain.antt =====
-- The domain rules at small inputs.
use kelvin_assistant.Prelude.{
  arith, ℕ, ◌+◌, ◌≤◌, ◌≡◌, ◌↔◌, refl, ◌==◌, ◌||◌, true, false, some, List, [], ◌∷◌, codes, length,
  is_space, strip, text_beq,
}
use kelvin_assistant.Prelude.Regex.{nullable, fullmatch}
use kelvin_assistant.Domain.Agent.Names.Shape.{IsToolName}
use kelvin_assistant.Prelude.Result.{ok, raise, agent_domain_error, invalid_transition_error}
use kelvin_assistant.Domain.Json.{
  Fields, end, field, str, null, freeze_json_mapping, freeze_fields, assign, lookup,
}
use kelvin_assistant.Domain.Json.Freeze.{FrozenFields, freeze_json_mapping-again}
use kelvin_assistant.Domain.Agent.Names.{normalize_tool_name}
use kelvin_assistant.Domain.Agent.Status.{
  AgentStatus, planning, executing, observing, completed, failed, awaiting_approval, status_eq,
  is_terminal, allowed_transitions, approved,
}
use kelvin_assistant.Domain.Agent.Status.Graph.{Edge, is_terminal_iff, executing-gate}
use kelvin_assistant.Domain.Agent.Run.{
  AgentRun, max_agent_steps, transition_to, next_step_count, run_post_init, normalize_required_text,
  normalize_workspace_id,
}
use kelvin_assistant.Domain.Agent.Run.Valid.{IsValid, transition, transition_to_lem}
use kelvin_assistant.Domain.Agent.Run.Traces.{
  Moves, transition_to-Moves, follow, executions, follow-bounds, transition_to-terminal,
}
use kelvin_assistant.Domain.Agent.Tools.{
  ToolExecutionResult, execution_post_init, ToolApproval, make_tool_approval, check_decision,
}
use kelvin_assistant.Domain.Agent.Tools.Valid.{
  normalize_tool_name_iff, Consistent, execution_post_init-Consistent,
}
use kelvin_assistant.Tests.Data.{run_at}

program : Unit {0}
unfolding strip is_space nullable fullmatch freeze_json_mapping freeze_fields assign lookup
    normalize_tool_name is_terminal allowed_transitions transition_to next_step_count run_post_init
    normalize_required_text normalize_workspace_id follow executions execution_post_init
    make_tool_approval check_decision text_beq
program = tt

pub planning_run-IsValid : IsValid (run_at planning 1 4)
unfolding program
planning_run-IsValid = record {
  stripped = refl;
  full = refl;
  short = omega arith;
  some_steps = omega arith;
  few_steps = omega arith;
  steps = omega arith;
  workspace = (refl, refl);
  created = tt;
  updated = tt;
}

pub waiting_run-IsValid : IsValid (record (run_at awaiting_approval 1 5) { updated_at = some 9 })
unfolding program
waiting_run-IsValid = record {
  stripped = refl;
  full = refl;
  short = omega arith;
  some_steps = omega arith;
  few_steps = omega arith;
  steps = omega arith;
  workspace = (refl, refl);
  created = tt;
  updated = tt;
}

abbrev later : AgentRun
later = record (run_at executing 2 5) { updated_at = some 9 }

starts : transition_to 9 (run_at planning 1 4) executing ≡ ok later
unfolding program
starts = refl

transition_to-Moves_example : Moves (run_at planning 1 4) executing later
transition_to-Moves_example =
    transition_to-Moves 9 (run_at planning 1 4) executing planning_run-IsValid starts

transition_to_lem_example :
    transition_to 9 (run_at planning 1 4) executing ≡ transition 9 (run_at planning 1 4) executing
transition_to_lem_example = transition_to_lem 9 (run_at planning 1 4) executing planning_run-IsValid

abbrev moves : List (ℕ × AgentStatus)
moves = (9, executing) ∷ (10, observing) ∷ (11, completed) ∷ []

abbrev final : AgentRun
final = record (run_at completed 2 7) { updated_at = some 11 }

follows : follow moves (run_at planning 1 4) ≡ ok final
unfolding program
follows = refl

follow-bounds_example :
    (1 + executions moves ≤ 2) × (executions moves ≤ max_agent_steps) × (7 ≡ 4 + length moves)
follow-bounds_example = follow-bounds moves (run_at planning 1 4) final planning_run-IsValid follows

completed_is_terminal : is_terminal completed ≡ true
unfolding program
completed_is_terminal = refl

transition_to-terminal_example :
    transition_to 9 (run_at completed 1 4) planning ≡ raise invalid_transition_error
transition_to-terminal_example =
    transition_to-terminal 9 (run_at completed 1 4) planning completed_is_terminal

is_terminal_iff_example : (is_terminal failed ≡ true) ↔ ((t : AgentStatus) → ¬ Edge failed t)
is_terminal_iff_example = is_terminal_iff failed

planning_is_active : is_terminal planning ≡ false
unfolding program
planning_is_active = refl

executing-gate_example :
    (Edge planning executing ↔ (((planning == planning) || (planning == awaiting_approval)) ≡ true))
    × (Edge planning awaiting_approval ↔ ((planning == planning) ≡ true))
executing-gate_example = executing-gate planning

abbrev loose : Fields
loose =
    field (codes " a") null (field (codes "b") (str (codes " x")) (field (codes "a ") (str []) end))

abbrev frozen : Fields
frozen = field (codes "a") (str []) (field (codes "b") (str (codes " x")) end)

freezes : freeze_json_mapping loose ≡ ok frozen
unfolding program
freezes = refl

freeze_json_mapping-again_example : FrozenFields frozen × (freeze_json_mapping frozen ≡ ok frozen)
freeze_json_mapping-again_example = freeze_json_mapping-again loose freezes

normalize_tool_name_iff_example :
    (normalize_tool_name (codes " git.diff ") ≡ ok (codes "git.diff"))
    ↔ ((strip (codes " git.diff ") ≡ codes "git.diff") × IsToolName (strip (codes " git.diff ")))
normalize_tool_name_iff_example = normalize_tool_name_iff (codes " git.diff ") (codes "git.diff")

normalize_tool_name_runs :
    (normalize_tool_name (codes " git.diff ") ≡ ok (codes "git.diff"))
    × (normalize_tool_name (codes "git") ≡ raise agent_domain_error)
    × (normalize_tool_name (codes "git..diff") ≡ raise agent_domain_error)
unfolding program
normalize_tool_name_runs = (refl, refl, refl)

abbrev failure : ToolExecutionResult
failure = record {
  tool_call_id = 40;
  tool_name = codes "git.diff";
  succeeded = false;
  output = [];
  error = some (codes "no repository");
  truncated = false;
  duration_ms = 3;
}

failure_runs : execution_post_init failure ≡ ok failure
unfolding program
failure_runs = refl

execution_post_init-Consistent_example : Consistent failure
execution_post_init-Consistent_example = execution_post_init-Consistent failure failure_runs

abbrev signed : ToolApproval
signed = record {
  tool_call_id = 40;
  decision = approved;
  decided_by = some (codes "ann");
  decided_at = some 8;
}
