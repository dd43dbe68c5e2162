-- ===== src/Api/AgentRoutes.antt =====
-- The handlers of api/agent_routes.py, as programs over the run store. `id` and `now` are the fresh
-- identifier and the clock of the request; the guard of the scope is `check_scope`, before a handler.
pub mod Next
pub mod StoreInvariant
pub mod Additions
pub mod Safe
pub mod Snapshots
pub mod Parts
pub mod Handlers
pub mod ToolHandlers
pub mod Planning
pub mod PlanNext
pub mod System
pub mod Interleavings
use kelvin_assistant.Prelude.{
  ℕ, Bool, true, false, Option, none, some, List, [], ◌∷◌, ◌++◌, map, Text, codes, not, ◌||◌, ◌==◌,
  nat_eq, is_empty, if◌then◌else◌,
}
use kelvin_assistant.Prelude.Result.{
  Exception, Result, ok, raise, agent_domain_error, invalid_transition_error, step_limit_error,
  agent_service_error, run_not_found_error, run_conflict_error, proposal_not_found_error,
  planner_domain_error, agent_planning_error, tool_arguments_validation_error,
  planner_unavailable_error, planner_response_error, result_not_found_error, http_error,
}
use kelvin_assistant.Domain.Json.{Fields}
use kelvin_assistant.Domain.ContextGuard.{InputGuard, line_feed}
use kelvin_assistant.Domain.Agent.Status.{
  AgentStatus, planning, awaiting_approval, failed, status_eq, ToolRisk, ToolPolicyDecision, deny,
  ApprovalDecision,
}
use kelvin_assistant.Domain.Agent.Run.{AgentRun}
use kelvin_assistant.Domain.Agent.Tools.{
  ToolProposal, make_tool_call, ToolExecutionResult, execution_post_init,
}
use kelvin_assistant.Domain.Planner.{ClarificationTurn, make_clarification_turn}
use kelvin_assistant.Ports.Tools.{ToolRegistry}
use kelvin_assistant.Application.ToolPolicy.{ToolPolicyContext}
use kelvin_assistant.Application.Agent.{
  Policy, start_run, begin_planning, propose_tool, resolve_approval, record_execution_result,
  fail_run, cancel_run,
}
use kelvin_assistant.Application.AgentPlanning.{
  Planner, PlanningOutcome, clarification_outcome, tool_outcome, completion_outcome, prepare_run,
  plan_next,
}
use kelvin_assistant.Adapters.MemoryAgentRuns.Versions.{update, cancel, propose, complete}
use kelvin_assistant.Api.Program.{
  Event, audited, approval_required, run_completed, run_failed, message, exception, Program, done,
  ◌>>=◌, ◌>>◌, try, send, add, write, fetch, fetch_proposal, fetch_steps, fetch_all,
}
use kelvin_assistant.Api.Responses.{
  Response, run_body, runs_body, clarify_body, complete_body, tool_body, proposal_body, result_body,
  agent_run_response, tool_proposal_response, tool_result_response, detail_response,
}
use kelvin_assistant.Api.RouteErrors.{
  is_domain_error, creation_error, change_error, proposal_error, approval_error, result_error,
  raising,
}

-- What the handlers get by `Depends`: the services and their parts.
pub record Services : Type 0 where
  pub registry : ToolRegistry
  pub policy : Policy
  pub planner : Planner
  pub input_guard : InputGuard
  pub is_authorized : Option Text → Bool
  pub mask_secrets : Text → Text

-- The `decision` of an audit entry of the input guard
abbrev safety : Bool → Text
safety safe = if safe then codes "allow" else codes "block"

-- The fields of `AgentToolResultRequest`
pub record ResultRequest : Type 0 where
  pub tool_call_id : ℕ
  pub succeeded : Bool
  pub output : Text
  pub error : Option Text
  pub truncated : Bool
  pub duration_ms : ℕ

abbrev pub is_deny : ToolPolicyDecision → Bool
is_deny deny = true
is_deny _ = false

-- `error or default`
abbrev or_default : Option Text → Text → Text
or_default none default = default
or_default (some text) default = if is_empty text then default else text

-- `result.error or f"Tool {name} execution failed."`
abbrev failure_text : ToolExecutionResult → Text
failure_text result =
    or_default result.error (codes "Tool " ++ result.tool_name ++ codes " execution failed.")

-- The end of the `try` of `propose_agent_tool`: what is not denied is stored and, if it waits for an
-- approval, announced.
abbrev pub offer : (expected_version : ℕ) → ToolProposal → Program ToolProposal
offer expected_version proposal =
    if is_deny proposal.policy_result.decision
    then done (ok proposal)
    else (write (propose proposal) expected_version
        >> (if proposal.run.status == awaiting_approval
            then send (approval_required proposal)
            else done (ok tt))
        >> done (ok proposal))

-- The end of the `try` of `submit_agent_tool_result`
abbrev pub settle :
    (now : ℕ) → AgentRun → ToolExecutionResult → Program (AgentRun × ToolExecutionResult)
settle now run result = done (record_execution_result now run result.succeeded) >>= λ updated.
    write (complete updated result) run.version
    >> (if updated.status == failed
        then send (run_failed updated (message (failure_text result)))
        else done (ok tt))
    >> done (ok (updated, result))

module _ (services : Services) where
  unfoldable pub policy_context : Option Text → ToolPolicyContext
  policy_context workspace_id = record {
    workspace_authorized = services.is_authorized workspace_id;
    workspace_id = workspace_id;
  }

  unfoldable pub create_agent_run :
      (id now : ℕ) (correlation_id : Option ℕ) → Text → ℕ → Option Text → Program Response
  unfolding creation_error
  create_agent_run id now correlation_id goal max_steps workspace_id =
      let validation = services.input_guard goal in
      send (
        audited (record {
          event_type = codes "input_guard";
          decision = safety validation.is_safe;
          masked_content = services.mask_secrets goal;
          warnings = validation.warnings;
          correlation_id = correlation_id;
          run_id = none;
        }))
      >> (if not validation.is_safe
          then done (raise (http_error 400))
          else (try
                (done (start_run id now goal max_steps workspace_id) >>= λ run.
                  add run >> done (ok run))
                (raising creation_error)
              >>= λ run. done (ok (run_body (agent_run_response services.mask_secrets run)))))

  unfoldable pub list_agent_runs : Program Response
  list_agent_runs = fetch_all >>= λ runs.
      done (ok (runs_body (map (agent_run_response services.mask_secrets) runs)))

  unfoldable pub get_agent_run : (now run_id : ℕ) → Program Response
  unfolding change_error
  get_agent_run now run_id =
      try
        (fetch run_id >>= λ run. fetch_steps run_id >>= λ steps.
          done (ok (detail_response services.mask_secrets now run steps)))
        (λ e. done (raise (elim e [ run_not_found_error ↦ http_error 404 | other ↦ other ])))

  unfoldable pub cancel_agent_run : (now run_id : ℕ) → Program Response
  unfolding change_error
  cancel_agent_run now run_id =
      try
        (fetch run_id >>= λ current. done (cancel_run now current) >>= λ cancelled.
          write (cancel cancelled) current.version >> done (ok cancelled))
        (raising change_error)
      >>= λ cancelled. done (ok (run_body (agent_run_response services.mask_secrets cancelled)))

  unfoldable pub begin_agent_planning : (now run_id : ℕ) → Program Response
  unfolding change_error
  begin_agent_planning now run_id =
      try
        (fetch run_id >>= λ current. done (begin_planning now current) >>= λ planned.
          write (update planned) current.version >> done (ok planned))
        (raising change_error)
      >>= λ planned. done (ok (run_body (agent_run_response services.mask_secrets planned)))

  unfoldable pub propose_agent_tool :
      (id now run_id : ℕ)
      → Text
      → Fields
      → (reason expected_effect : Text) → ToolRisk
      → Program Response
  unfolding proposal_error policy_context
  propose_agent_tool id now run_id name arguments reason expected_effect risk =
      try
        (fetch run_id >>= λ current.
          done (make_tool_call id name arguments reason expected_effect risk) >>= λ call.
          done (propose_tool services.policy now current call (policy_context current.workspace_id))
          >>= offer current.version)
        (raising proposal_error)
      >>= λ proposal.
          done (ok (proposal_body (tool_proposal_response services.mask_secrets proposal)))

  unfoldable pub resolve_agent_tool_approval :
      (now run_id : ℕ) → (tool_call_id : ℕ) → ApprovalDecision → Program Response
  unfolding approval_error
  resolve_agent_tool_approval now run_id tool_call_id decision =
      try
        (fetch_proposal run_id >>= λ proposal.
          if not (proposal.call.id == tool_call_id)
          then done (raise agent_service_error)
          else (done (resolve_approval proposal decision (codes "local-client") now now)
              >>= λ resolved. write (propose resolved) proposal.run.version >> done (ok resolved)))
        (raising approval_error)
      >>= λ resolved.
          done (ok (proposal_body (tool_proposal_response services.mask_secrets resolved)))

  unfoldable pub get_active_agent_tool : (run_id : ℕ) → Program Response
  get_active_agent_tool run_id =
      try (fetch_proposal run_id) (λ e. done (
        raise (elim e [
          | run_not_found_error ↦ http_error 404
          | proposal_not_found_error ↦ http_error 404
          | other ↦ other
        ])))
      >>= λ proposal.
          done (ok (proposal_body (tool_proposal_response services.mask_secrets proposal)))

  unfoldable pub submit_agent_tool_result : (now run_id : ℕ) → ResultRequest → Program Response
  unfolding result_error
  submit_agent_tool_result now run_id request =
      try
        (fetch_proposal run_id >>= λ proposal.
          if not (proposal.call.id == request.tool_call_id)
          then done (raise agent_service_error)
          else (done (
                execution_post_init (record {
                  tool_call_id = request.tool_call_id;
                  tool_name = proposal.call.name;
                  succeeded = request.succeeded;
                  output = request.output;
                  error = request.error;
                  truncated = request.truncated;
                  duration_ms = request.duration_ms;
                }))
              >>= settle now proposal.run))
        (raising result_error)
      >>= λ (updated, result).
          done (ok (result_body (tool_result_response services.mask_secrets updated result)))
