-- ===== src/Api/Responses.antt =====
-- The response schemas of the agent routes, and their construction from domain objects.
-- `mask_secrets` is the function of domain/output_guard.py on a text.
use kelvin_assistant.Prelude.{ℕ, Bool, Option, none, some, List, map, Text, is_empty, if◌then◌else◌}
use kelvin_assistant.Domain.Json.{Fields}
use kelvin_assistant.Domain.Agent.Status.{
  AgentStatus, ToolRisk, ToolPolicyDecision, ApprovalDecision,
}
use kelvin_assistant.Domain.Agent.Run.{AgentRun}
use kelvin_assistant.Domain.Agent.Tools.{ToolProposal, ToolApproval, ToolExecutionResult}
use kelvin_assistant.Api.Program.{Steps}

pub record AgentRunResponse : Type 0 where
  pub id : ℕ
  pub goal : Text
  pub status : AgentStatus
  pub step_count : ℕ
  pub max_steps : ℕ
  pub version : ℕ
  pub workspace_id : Option Text
  pub created_at : Option ℕ
  pub updated_at : Option ℕ

pub record AgentToolProposalResponse : Type 0 where
  pub run : AgentRunResponse
  pub tool_call_id : ℕ
  pub tool_name : Text
  pub arguments : Fields
  pub reason : Text
  pub expected_effect : Text
  pub risk : ToolRisk
  pub policy_decision : ToolPolicyDecision
  pub policy_reason : Text
  pub approval_status : Option ApprovalDecision

pub record AgentToolResultResponse : Type 0 where
  pub run : AgentRunResponse
  pub tool_call_id : ℕ
  pub tool_name : Text
  pub succeeded : Bool
  pub output : Text
  pub error : Option Text
  pub truncated : Bool
  pub duration_ms : ℕ

pub record AgentStepResponse : Type 0 where
  pub tool_call_id : ℕ
  pub tool_name : Text
  pub arguments : Fields
  pub reason : Text
  pub expected_effect : Text
  pub risk : ToolRisk
  pub policy_decision : ToolPolicyDecision
  pub policy_reason : Text
  pub approval_status : Option ApprovalDecision
  pub approval_decided_by : Option Text
  pub approval_decided_at : Option ℕ
  pub created_at : ℕ
  pub updated_at : ℕ
  pub closed_at : Option ℕ
  pub succeeded : Option Bool
  pub output : Option Text
  pub error : Option Text
  pub truncated : Option Bool
  pub duration_ms : Option ℕ

-- The bodies that the handlers return.
pub data Response : Type 0 where
  run_body : AgentRunResponse → Response
  runs_body : List AgentRunResponse → Response
  detail_body : AgentRunResponse → List AgentStepResponse → Response
  clarify_body : AgentRunResponse → (question reason : Text) → Response
  complete_body : AgentRunResponse → (summary : Text) → Response
  tool_body : AgentToolProposalResponse → Response
  proposal_body : AgentToolProposalResponse → Response
  result_body : AgentToolResultResponse → Response

abbrev pub optional : {A B : Type 0} → (A → B) → Option A → Option B
optional f none = none
optional f (some a) = some (f a)

abbrev optional_join : {A B : Type 0} → (A → Option B) → Option A → Option B
optional_join f none = none
optional_join f (some a) = f a

abbrev or_else : ℕ → Option ℕ → ℕ
or_else now none = now
or_else now (some t) = t

module _ (mask_secrets : Text → Text) where
  -- `_agent_run_response`
  unfoldable pub agent_run_response : AgentRun → AgentRunResponse
  agent_run_response run = record {
    id = run.id;
    goal = mask_secrets run.goal;
    status = run.status;
    step_count = run.step_count;
    max_steps = run.max_steps;
    version = run.version;
    workspace_id = run.workspace_id;
    created_at = run.created_at;
    updated_at = run.updated_at;
  }

  -- `_tool_proposal_response`
  unfoldable pub tool_proposal_response : ToolProposal → AgentToolProposalResponse
  unfolding agent_run_response
  tool_proposal_response proposal = record {
    run = agent_run_response proposal.run;
    tool_call_id = proposal.call.id;
    tool_name = proposal.call.name;
    arguments = proposal.call.arguments;
    reason = mask_secrets proposal.call.reason;
    expected_effect = mask_secrets proposal.call.expected_effect;
    risk = proposal.call.risk;
    policy_decision = proposal.policy_result.decision;
    policy_reason = mask_secrets proposal.policy_result.reason;
    approval_status = optional (λ (a : ToolApproval). a.decision) proposal.approval;
  }

  -- `_tool_result_response`
  unfoldable pub tool_result_response : AgentRun → ToolExecutionResult → AgentToolResultResponse
  unfolding agent_run_response
  tool_result_response run result = record {
    run = agent_run_response run;
    tool_call_id = result.tool_call_id;
    tool_name = result.tool_name;
    succeeded = result.succeeded;
    output = mask_secrets result.output;
    error = optional mask_secrets result.error;
    truncated = result.truncated;
    duration_ms = result.duration_ms;
  }

  -- `mask_secrets(text) if text else None`
  abbrev masked_if_given : Text → Option Text
  masked_if_given text = if is_empty text then none else some (mask_secrets text)

  -- One entry of the loop in `get_agent_run`
  unfoldable pub step_response :
      (now : ℕ) → ToolProposal × Option ToolExecutionResult → AgentStepResponse
  step_response now (proposal, result) = record {
    tool_call_id = proposal.call.id;
    tool_name = proposal.call.name;
    arguments = proposal.call.arguments;
    reason = mask_secrets proposal.call.reason;
    expected_effect = mask_secrets proposal.call.expected_effect;
    risk = proposal.call.risk;
    policy_decision = proposal.policy_result.decision;
    policy_reason = proposal.policy_result.reason;
    approval_status = optional (λ (a : ToolApproval). a.decision) proposal.approval;
    approval_decided_by = optional_join (λ (a : ToolApproval). a.decided_by) proposal.approval;
    approval_decided_at = optional_join (λ (a : ToolApproval). a.decided_at) proposal.approval;
    created_at = or_else now proposal.run.created_at;
    updated_at = or_else now proposal.run.updated_at;
    closed_at = none;
    succeeded = optional (λ (r : ToolExecutionResult). r.succeeded) result;
    output = optional_join (λ (r : ToolExecutionResult). masked_if_given r.output) result;
    error =
        optional_join (λ (r : ToolExecutionResult). optional_join masked_if_given r.error) result;
    truncated = optional (λ (r : ToolExecutionResult). r.truncated) result;
    duration_ms = optional (λ (r : ToolExecutionResult). r.duration_ms) result;
  }

  unfoldable pub detail_response : (now : ℕ) → AgentRun → Steps → Response
  unfolding agent_run_response step_response
  detail_response now run steps =
      detail_body (agent_run_response run) (map (step_response now) steps)
