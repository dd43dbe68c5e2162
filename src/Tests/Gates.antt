-- ===== src/Tests/Gates.antt =====
-- The registry, the policy and the approval at small inputs.
use kelvin_assistant.Prelude.{
  ◌≡◌, ◌↔◌, refl, true, false, none, some, [], ◌∷◌, text_eq, codes, distinct, is_space, strip,
  text_beq, All,
}
use kelvin_assistant.Prelude.Dict.{get, put}
use kelvin_assistant.Prelude.Sort.{sorted, text_le, IsSorted}
use kelvin_assistant.Prelude.Search.{starts_with, has_part}
use kelvin_assistant.Prelude.Regex.{nullable, fullmatch, match}
use kelvin_assistant.Prelude.Result.{ok}
use kelvin_assistant.Domain.Json.{lookup}
use kelvin_assistant.Domain.Agent.Status.{
  received, planning, executing, awaiting_approval, is_terminal, allowed_transitions, read, write,
  approved, allow, ToolPolicyDecision, require_approval,
}
use kelvin_assistant.Domain.Agent.Run.{
  AgentRun, transition_to, next_step_count, run_post_init, create_run, normalize_required_text,
  normalize_workspace_id,
}
use kelvin_assistant.Domain.Agent.Tools.{
  make_tool_approval, check_decision, make_policy_result, ToolApproval, ToolProposal,
}
use kelvin_assistant.Ports.Tools.{ToolRegistry}
use kelvin_assistant.Tools.Registry.{
  Definitions, register, make_registry, get_tool, or_unknown, list_all,
}
use kelvin_assistant.Tools.Registry.Laws.{
  find, names, is_ok, static_registry, get_tool-make_registry, make_registry-distinct,
  list_all-make_registry,
}
use kelvin_assistant.Tools.Workspaces.{allowlist, is_authorized, Configured, is_authorized_iff}
use kelvin_assistant.Application.ToolPolicy.{
  evaluate, evaluate_found, evaluate_registered, evaluate_write, unsafe_path, other_workspace,
  names_other, or_null,
}
use kelvin_assistant.Application.ToolPolicy.Branches.{decision_of, SafePath}
use kelvin_assistant.Application.ToolPolicy.Decisions.{
  Admitted, evaluate-decides, evaluate-allow, evaluate-require_approval,
}
use kelvin_assistant.Application.Agent.{
  start_run, begin_planning, propose_tool, apply_policy, require_status, require_one_of,
  resolve_approval,
}
use kelvin_assistant.Application.Agent.Gate.{
  Proposed, propose_tool-Proposed, Resolved, resolve_approval-Resolved,
}
use kelvin_assistant.Application.Agent.Calls.{
  Session, Reaches, here, next, planned, proposed, resolved,
}
use kelvin_assistant.Application.Agent.Steps.{Executing, opened, executing_only_after_gates}
use kelvin_assistant.Tests.Domain.{planning_run-IsValid, waiting_run-IsValid}
use kelvin_assistant.Tests.Data.{
  run_at, patch, status, tools, patch_call, status_call, context, asked, waiting,
}

program : Unit {0}
unfolding strip is_space nullable fullmatch match lookup is_terminal allowed_transitions text_beq
    starts_with has_part transition_to next_step_count run_post_init create_run
    normalize_required_text normalize_workspace_id make_tool_approval check_decision
    make_policy_result register make_registry get_tool get put evaluate evaluate_found
    evaluate_registered evaluate_write unsafe_path other_workspace names_other start_run
    begin_planning propose_tool apply_policy require_status require_one_of resolve_approval
program = tt

abbrev registered : Definitions
registered = (codes "git.status", status) ∷ (codes "file.patch", patch) ∷ []

constructs : make_registry tools ≡ ok registered
unfolding program
constructs = refl

get_tool-make_registry_example :
    get_tool registered (codes "file.patch") ≡ or_unknown (find tools (codes "file.patch"))
get_tool-make_registry_example = get_tool-make_registry tools (codes "file.patch") constructs

make_registry-distinct_example : is_ok (make_registry tools) ≡ distinct (names tools)
make_registry-distinct_example = make_registry-distinct tools

list_all-make_registry_example :
    (names (list_all registered) ≡ sorted text_le (names tools))
    × IsSorted text_le (names (list_all registered))
    × All (λ d. find tools d.name ≡ some d) (list_all registered)
list_all-make_registry_example = list_all-make_registry tools constructs

is_authorized_iff_example :
    ((is_authorized (allowlist (codes " kelvin" ∷ [])) (some (codes "kelvin")) ≡ true)
      ↔ Configured (codes "kelvin") (codes " kelvin" ∷ []))
    × (is_authorized (allowlist (codes " kelvin" ∷ [])) none ≡ false)
is_authorized_iff_example = is_authorized_iff (codes " kelvin" ∷ []) (codes "kelvin") refl

abbrev registry : ToolRegistry
registry = static_registry tools registered constructs

evaluate-decides_example :
    (d : ToolPolicyDecision) × (decision_of (evaluate registry patch_call context) ≡ some d)
evaluate-decides_example = evaluate-decides registry patch_call context

evaluate-allow_example :
    (decision_of (evaluate registry status_call context) ≡ some allow)
    ↔ Admitted registry status_call context read
evaluate-allow_example = evaluate-allow registry status_call context

evaluate-require_approval_example :
    (decision_of (evaluate registry patch_call context) ≡ some require_approval) ↔ (
      Admitted registry patch_call context write
      × SafePath (or_null (lookup patch_call.arguments (codes "path"))))
evaluate-require_approval_example = evaluate-require_approval registry patch_call context

-- Drive letters, parent folders and absolute paths are unsafe.
unsafe_paths :
    (unsafe_path (codes "C:x") ≡ true)
    × (unsafe_path (codes "a/../b") ≡ true)
    × (unsafe_path (92 ∷ codes "a") ≡ true)
    × (unsafe_path (codes "a/b.py") ≡ false)
unfolding program
unsafe_paths = (refl, refl, refl, refl)

abbrev waiting_run : AgentRun
waiting_run = record (run_at awaiting_approval 1 5) { updated_at = some 9 }

abbrev proposal : ToolProposal
proposal = record {
  run = waiting_run;
  call = patch_call;
  policy_result = asked;
  approval = some waiting;
}

proposes : propose_tool (evaluate registry) 9 (run_at planning 1 4) patch_call context ≡ ok proposal
unfolding program
proposes = refl

propose_tool-Proposed_example :
    Proposed (evaluate registry) (run_at planning 1 4) patch_call context proposal
propose_tool-Proposed_example =
    propose_tool-Proposed (evaluate registry) 9 (run_at planning 1 4) patch_call context
      planning_run-IsValid proposes

abbrev signed : ToolApproval
signed = record {
  tool_call_id = 40;
  decision = approved;
  decided_by = some (codes "ann");
  decided_at = some 11;
}

abbrev accepted : ToolProposal
accepted = record {
  run = record (run_at executing 2 6) { updated_at = some 12 };
  call = patch_call;
  policy_result = asked;
  approval = some signed;
}

resolves : resolve_approval proposal approved (codes "ann") 11 12 ≡ ok accepted
unfolding program
resolves = refl

resolve_approval-Resolved_example : Resolved proposal approved accepted
resolve_approval-Resolved_example =
    resolve_approval-Resolved proposal approved (codes "ann") 11 12 waiting_run-IsValid resolves

abbrev begun : AgentRun
begun = run_at received 0 0

abbrev asking : ToolProposal
asking = record {
  run = record (run_at awaiting_approval 0 2) { updated_at = some 9 };
  call = patch_call;
  policy_result = asked;
  approval = some waiting;
}

abbrev granted : ToolProposal
granted = record {
  run = record (run_at executing 1 3) { updated_at = some 12 };
  call = patch_call;
  policy_result = asked;
  approval = some signed;
}

abbrev granted_session : Session
granted_session = record { run = granted.run; proposal = some granted }

begins : start_run 7 5 (codes "fix it ") 2 (some (codes "kelvin")) ≡ ok begun
unfolding program
begins = refl

granted_session-Reaches : Reaches (evaluate registry) (opened begun) granted_session
unfolding program
granted_session-Reaches =
    next
      (next (next here (planned 6 {r = record (run_at planning 0 1) { updated_at = some 6 }} refl))
        (proposed 9 patch_call context {p = asking} refl))
      (resolved asking approved (codes "ann") 11 12 {q = granted} refl refl)

executing_only_after_gates_example : Executing (evaluate registry) granted_session
executing_only_after_gates_example =
    executing_only_after_gates (evaluate registry) 7 5 (codes "fix it ") 2 (some (codes "kelvin"))
      begun granted_session begins granted_session-Reaches refl
