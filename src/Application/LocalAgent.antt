-- ===== src/Application/LocalAgent.antt =====
-- `LocalReadToolClient` of application/local_agent.py: the client that executes the tools, over an
-- interface to the server, the executors and the handlers of the user. `str(exc)` and the equality of
-- argument mappings are parameters.
pub mod Goals
pub mod Careful
pub mod Approvals
pub mod Executions
pub mod Runs
pub mod Interrupts
use Prim.Native.Nat.{zero, suc}
use kelvin_assistant.Prelude.{
  ℕ, Bool, true, false, Option, none, some, List, [], ◌∷◌, ◌++◌, Text, text_eq, nat_eq, codes, not,
  ◌&&◌, ◌==◌, is_empty, strip, take, if◌then◌else◌,
}
use kelvin_assistant.Prelude.Result.{
  Exception, Result, ok, raise, raise_if, agent_client_error, local_agent_client_error,
  approval_rejected_error, tool_execution_error, cancelled_error, value_error,
}
use kelvin_assistant.Domain.Json.{Fields}
use kelvin_assistant.Domain.ContextGuard.{line_feed}
use kelvin_assistant.Domain.Agent.Status.{
  AgentStatus, planning, awaiting_approval, executing, observing, cancelled, failed, status_eq,
  read, risk_eq, ToolPolicyDecision, allow, require_approval, deny,
}
use kelvin_assistant.Domain.Agent.Run.{AgentRun}
use kelvin_assistant.Domain.Agent.Tools.{
  ToolCall, ToolProposal, ToolExecutionResult, execution_post_init, max_tool_output_length,
}
use kelvin_assistant.Domain.Planner.{ClarificationTurn, make_clarification_turn}
use kelvin_assistant.Ports.AgentClient.{
  AgentNextStep, clarification_step, tool_step, completion_step, ToolExecutor, create_run,
  begin_planning, cancel_run, plan_next, propose_tool, resolve_approval, submit_result, execute,
  preview, approval_handler, clarification_handler, Client, done, ◌>>=◌, ◌>>◌, try, ask,
}

pub record LocalToolRunResult : Type 0 where
  pub run : AgentRun
  pub execution : ToolExecutionResult

pub data LocalAgentStepResult : Type 0 where
  tool_run_result : LocalToolRunResult → LocalAgentStepResult
  clarification_result : AgentRun → (question reason : Text) → LocalAgentStepResult
  completion_result : AgentRun → (summary : Text) → List ToolExecutionResult → LocalAgentStepResult

-- The fields of a client
pub record LocalReadToolClient : Type 0 where
  pub executors : Text → Option ToolExecutor
  pub workspace_id : Text
  pub has_approval_handler : Bool
  pub has_clarification_handler : Bool

-- `__init__`
unfoldable pub make_client :
    (Text → Option ToolExecutor) → Text → Bool → Bool → Result LocalReadToolClient
make_client executors workspace_id approval clarification =
    if is_empty (strip workspace_id)
    then raise value_error
    else ok (record {
      executors = executors;
      workspace_id = strip workspace_id;
      has_approval_handler = approval;
      has_clarification_handler = clarification;
    })

-- `if test: raise LocalAgentClientError`
abbrev pub refuse_if : Bool → Client (Unit {0})
refuse_if test = done (raise_if test local_agent_client_error)

-- `run.workspace_id != self._workspace_id`
abbrev pub is_bound_to : Option Text → Text → Bool
is_bound_to none workspace_id = false
is_bound_to (some w) workspace_id = w == workspace_id

-- `result.error or "Unknown error"`
abbrev pub or_unknown_error : Option Text → Text
or_unknown_error none = codes "Unknown error"
or_unknown_error (some text) = if is_empty text then codes "Unknown error" else text

unfoldable pub execution_observation : ToolExecutionResult → Text
execution_observation result = take max_tool_output_length (
    codes "Tool "
    ++ result.tool_name
    ++ codes " "
    ++ (if result.succeeded then codes "succeeded" else codes "failed")
    ++ codes "."
    ++ line_feed
    ++ (if result.succeeded then result.output else or_unknown_error result.error))

abbrev pub is_require : ToolPolicyDecision → Bool
is_require require_approval = true
is_require _ = false

abbrev pub is_denied : ToolPolicyDecision → Bool
is_denied deny = true
is_denied _ = false

abbrev pub is_allowed : ToolPolicyDecision → Bool
is_allowed allow = true
is_allowed _ = false

module _ (describe : Exception → Text) (same_arguments : Fields → Fields → Bool)
    (client : LocalReadToolClient) where
  -- `resolved.call == proposal.call`, of two dataclasses
  abbrev pub same_call : ToolCall → ToolCall → Bool
  same_call a b =
      a.name == b.name
      && same_arguments a.arguments b.arguments
      && a.reason == b.reason
      && a.expected_effect == b.expected_effect
      && a.risk == b.risk
      && a.id == b.id

  unfoldable pub verify_workspace : AgentRun → Client (Unit {0})
  verify_workspace run = refuse_if (not (is_bound_to run.workspace_id client.workspace_id))

  -- The end of `_resolve_write_approval`, on the answer of the handler
  unfoldable pub submit_decision : ToolProposal → (approved : Bool) → Client ToolProposal
  unfolding verify_workspace
  submit_decision proposal approved =
      ask (resolve_approval proposal.run.id proposal.call.id approved) >>= λ resolved.
      verify_workspace resolved.run
      >> refuse_if (not (same_call resolved.call proposal.call))
      >> (if not approved
          then (refuse_if (not (resolved.run.status == cancelled))
              >> done (raise approval_rejected_error))
          else (refuse_if (not (resolved.run.status == executing)) >> done (ok resolved)))

  -- `except ToolExecutionError` around the preview
  unfoldable pub reject_unseen : {A : Type 0} → ToolProposal → Exception → Client A
  reject_unseen proposal tool_execution_error =
      ask (resolve_approval proposal.run.id proposal.call.id false) >>= λ _.
      done (raise tool_execution_error)
  reject_unseen proposal e = done (raise e)

  unfoldable pub resolve_write_approval : ToolProposal → ToolExecutor → Client ToolProposal
  unfolding submit_decision reject_unseen
  resolve_write_approval proposal executor =
      refuse_if (not (proposal.run.status == awaiting_approval))
      >> refuse_if (not executor.is_previewable)
      >> refuse_if (not client.has_approval_handler)
      >> try (ask (preview executor proposal.call)) (reject_unseen proposal)
      >>= λ content. ask (approval_handler content) >>= submit_decision proposal

  -- `except ToolExecutionError` around the execution
  unfoldable pub failed_execution : ToolProposal → Exception → Client ToolExecutionResult
  failed_execution proposal tool_execution_error = done (
      execution_post_init (record {
        tool_call_id = proposal.call.id;
        tool_name = proposal.call.name;
        succeeded = false;
        output = [];
        error = some (take max_tool_output_length (describe tool_execution_error));
        truncated = false;
        duration_ms = 0;
      }))
  failed_execution proposal e = done (raise e)

  -- The second half of `_execute_proposal`
  unfoldable pub execute_ready : ToolProposal → ToolExecutor → Client LocalToolRunResult
  unfolding failed_execution
  execute_ready proposal executor =
      try (ask (execute executor proposal.call)) (failed_execution proposal) >>= λ execution.
      ask (submit_result proposal.run.id execution) >>= λ updated_run.
      refuse_if (not (updated_run.status == (if execution.succeeded then observing else failed)))
      >> done (ok (record { run = updated_run; execution = execution }))

  unfoldable pub execute_proposal : ToolProposal → ToolExecutor → Client LocalToolRunResult
  unfolding resolve_write_approval execute_ready
  execute_proposal proposal executor =
      let decision = proposal.policy_result.decision in
      refuse_if (is_denied decision)
      >> refuse_if (not (executor.definition.risk == read) && is_allowed decision)
      >> (if is_require decision
          then resolve_write_approval proposal executor
          else (refuse_if (not (proposal.run.status == executing)) >> done (ok proposal)))
      >>= λ ready. execute_ready ready executor
