-- ===== src/Tests/Routes.antt =====
-- Requests to the agent routes, one after the other and at the same time.
use kelvin_assistant.Prelude.{
  ℕ, ◌≡◌, refl, true, Option, none, some, List, [], ◌∷◌, ◌++◌, text_eq, nat_eq, codes, is_space,
  strip, text_beq,
}
use kelvin_assistant.Prelude.Dict.{get, put, pop}
use kelvin_assistant.Prelude.Search.{starts_with, has_part}
use kelvin_assistant.Prelude.Regex.{nullable, derivative, fullmatch, match}
use kelvin_assistant.Prelude.Result.{Exception, ok, raise, http_error, planner_unavailable_error}
use kelvin_assistant.Domain.Json.{
  Fields, end, field, str, lookup, assign, freeze, freeze_items, freeze_fields, freeze_json,
  freeze_json_mapping,
}
use kelvin_assistant.Domain.Agent.Names.{normalize_tool_name}
use kelvin_assistant.Domain.Agent.Status.{
  AgentStatus, executing, awaiting_approval, allowed_transitions, is_terminal, write, approved,
  rejected, ApprovalDecision,
}
use kelvin_assistant.Domain.Agent.Run.{
  AgentRun, transition_to, next_step_count, run_post_init, create_run, normalize_required_text,
  normalize_workspace_id,
}
use kelvin_assistant.Domain.Agent.Tools.{
  ToolProposal, make_tool_call, make_policy_result, make_tool_approval, check_decision,
  execution_post_init,
}
use kelvin_assistant.Ports.Tools.{ToolRegistry}
use kelvin_assistant.Tools.Registry.{register, make_registry, get_tool, list_all, select}
use kelvin_assistant.Tools.Registry.Laws.{static_registry}
use kelvin_assistant.Application.ToolPolicy.{
  evaluate, evaluate_found, evaluate_registered, evaluate_write, unsafe_path, other_workspace,
  names_other,
}
use kelvin_assistant.Application.Agent.{
  start_run, begin_planning, propose_tool, apply_policy, require_status, require_one_of,
  require_active, resolve_approval, record_execution_result, cancel_run,
}
use kelvin_assistant.Adapters.MemoryAgentRuns.{
  add_run, get_run, get_proposal, update_run, update_proposal, complete_proposal, cancel_stored,
  check_version, close_all, close_proposal, record_proposal,
}
use kelvin_assistant.Api.Program.{Program, done, continue_with, advance}
use kelvin_assistant.Api.Responses.{
  Response, agent_run_response, tool_proposal_response, tool_result_response,
}
use kelvin_assistant.Api.AgentRoutes.{
  Services, create_agent_run, begin_agent_planning, propose_agent_tool, resolve_agent_tool_approval,
  policy_context, submit_agent_tool_result, cancel_agent_run,
}
use kelvin_assistant.Api.RouteErrors.{
  is_domain_error, creation_error, change_error, proposal_error, approval_error, result_error,
}
use kelvin_assistant.Api.AgentRoutes.System.{
  Request, post_run, post_planning, post_tool, post_approval, Move, arrive, turn, handle, take_turn,
  make_move, run_system, started,
}
use kelvin_assistant.Api.AgentRoutes.StoreInvariant.{Holds}
use kelvin_assistant.Domain.Agent.Run.Valid.{IsValid}
use kelvin_assistant.Api.AgentRoutes.Interleavings.{Screened, run_system-Holds, executing-Screened}
use kelvin_assistant.Tests.Data.{tools, patch, status}

program : Unit {0}
unfolding strip is_space nullable derivative fullmatch match lookup assign freeze freeze_items
    freeze_fields freeze_json freeze_json_mapping allowed_transitions is_terminal text_beq
    starts_with has_part normalize_tool_name transition_to next_step_count run_post_init create_run
    normalize_required_text normalize_workspace_id make_tool_call make_policy_result
    make_tool_approval check_decision execution_post_init register make_registry get_tool list_all
    select get put pop evaluate evaluate_found evaluate_registered evaluate_write unsafe_path
    other_workspace names_other start_run begin_planning propose_tool apply_policy require_status
    require_one_of require_active resolve_approval record_execution_result cancel_run add_run
    get_run get_proposal update_run update_proposal complete_proposal cancel_stored check_version
    close_all close_proposal record_proposal continue_with advance agent_run_response
    tool_proposal_response tool_result_response is_domain_error creation_error change_error
    proposal_error approval_error result_error create_agent_run begin_agent_planning
    propose_agent_tool resolve_agent_tool_approval policy_context submit_agent_tool_result
    cancel_agent_run handle take_turn make_move run_system
program = tt

constructs :
    make_registry tools ≡ ok ((codes "git.status", status) ∷ (codes "file.patch", patch) ∷ [])
unfolding program
constructs = refl

abbrev registry : ToolRegistry
registry =
    static_registry tools ((codes "git.status", status) ∷ (codes "file.patch", patch) ∷ [])
      constructs

abbrev services : Services
services = record {
  registry = registry;
  policy = evaluate registry;
  planner = λ request. raise planner_unavailable_error;
  input_guard = λ text. record { is_safe = true; warnings = [] };
  is_authorized = λ workspace. true;
  mask_secrets = λ text. text;
}

-- One request to its end.
abbrev alone : Request → List Move
alone request = arrive request ∷ turn 0 ∷ turn 0 ∷ turn 0 ∷ []

abbrev arguments : Fields
arguments = field (codes "path") (str (codes "a/b.py")) end

-- A run that waits for the approval of a patch.
abbrev proposed : ℕ → List Move
proposed max_steps =
    alone (post_run 7 1 none (codes "fix it") max_steps (some (codes "kelvin")))
    ++ alone (post_planning 2 7)
    ++ alone (
        post_tool 40 3 7 (codes "file.patch") arguments (codes "because") (codes "an effect") write)

abbrev decide : ApprovalDecision → Request
decide decision = post_approval 4 7 40 decision

-- Two decisions at the same time: both have read the proposal before one of them is written.
abbrev race : List Move
race =
    proposed 2
    ++ (arrive (decide approved)
        ∷ arrive (decide rejected)
        ∷ turn 1
        ∷ turn 0
        ∷ turn 1
        ∷ turn 0
        ∷ [])

abbrev status_of : Option AgentRun → Option AgentStatus
status_of none = none
status_of (some run) = some run.status

abbrev replies : List (Program Response) → List (Option Exception)
replies [] = []
replies (done (raise e) ∷ ps) = some e ∷ replies ps
replies (_ ∷ ps) = none ∷ replies ps

waits :
    status_of (get (run_system services (proposed 2) started).store.runs 7) ≡ some awaiting_approval
unfolding program
waits = refl

-- The first to write wins; the other one is told of the conflict.
first_wins :
    (status_of (get (run_system services race started).store.runs 7) ≡ some executing)
    × (replies (run_system services race started).running
        ≡ some (http_error 409) ∷ none ∷ none ∷ none ∷ none ∷ [])
unfolding program
first_wins = (refl, refl)

abbrev mine : AgentRun
mine = record {
  id = 7;
  goal = codes "fix it";
  status = executing;
  step_count = 1;
  max_steps = 2;
  version = 3;
  workspace_id = some (codes "kelvin");
  created_at = some 1;
  updated_at = some 4;
}

stored_after : get (run_system services race started).store.runs 7 ≡ some mine
unfolding program
stored_after = refl

run_system-Holds_example :
    (mine.id ≡ 7)
    × IsValid mine
    × Holds services mine (get (run_system services race started).store.proposals 7)
run_system-Holds_example = run_system-Holds services race 7 mine stored_after

executing-Screened_example :
    (p : ToolProposal) × (get (run_system services race started).store.proposals 7 ≡ some p)
    × (p.run ≡ mine)
    × Screened services p
executing-Screened_example = executing-Screened services race 7 mine refl stored_after refl
