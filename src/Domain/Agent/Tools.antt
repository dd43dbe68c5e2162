-- ===== src/Domain/Agent/Tools.antt =====
-- Tool definitions, calls, approvals, proposals and results of domain/agent.py. Each `make_*` is
-- the constructor with its `__post_init__`.
pub mod Valid
use kelvin_assistant.Prelude.{
  ℕ, Bool, true, false, Option, none, some, Text, not, ◌&&◌, ◌||◌, ltb, strip, is_empty, length,
  if◌then◌else◌,
}
use kelvin_assistant.Prelude.Result.{Result, ok, raise, ◌>>=◌, ◌>>◌, raise_if, agent_domain_error}
use kelvin_assistant.Domain.Json.{Fields, freeze_json_mapping}
use kelvin_assistant.Domain.Agent.Names.{normalize_tool_name}
use kelvin_assistant.Domain.Agent.Run.{AgentRun, normalize_required_text}
use kelvin_assistant.Domain.Agent.Status.{
  ToolRisk, ToolExecutionTarget, ToolPolicyDecision, ApprovalDecision, pending, approved, rejected,
}

abbrev pub max_tool_output_length : ℕ
max_tool_output_length = 32768

pub record ToolPolicyResult : Type 0 where
  pub decision : ToolPolicyDecision
  pub reason : Text

unfoldable pub make_policy_result : ToolPolicyDecision → Text → Result ToolPolicyResult
make_policy_result decision reason = do
  reason' ← normalize_required_text reason
  ok (record { decision = decision; reason = reason' })

pub record ClarificationRequest : Type 0 where
  pub question : Text
  pub reason : Text

unfoldable pub make_clarification_request : Text → Text → Result ClarificationRequest
make_clarification_request question reason = do
  question' ← normalize_required_text question
  reason' ← normalize_required_text reason
  ok (record { question = question'; reason = reason' })

pub record ToolDefinition : Type 0 where
  pub name : Text
  pub description : Text
  pub input_schema : Fields
  pub risk : ToolRisk
  pub execution_target : ToolExecutionTarget
  pub timeout_seconds : ℕ

unfoldable pub make_tool_definition :
    Text → Text → Fields → ToolRisk → ToolExecutionTarget → ℕ → Result ToolDefinition
make_tool_definition name description input_schema risk execution_target timeout_seconds = do
  name' ← normalize_tool_name name
  description' ← normalize_required_text description
  schema ← freeze_json_mapping input_schema
  raise_if (ltb timeout_seconds 1 || ltb 300 timeout_seconds) agent_domain_error
  ok (record {
    name = name';
    description = description';
    input_schema = schema;
    risk = risk;
    execution_target = execution_target;
    timeout_seconds = timeout_seconds;
  })

pub record ToolCall : Type 0 where
  pub name : Text
  pub arguments : Fields
  pub reason : Text
  pub expected_effect : Text
  pub risk : ToolRisk
  pub id : ℕ

-- `id` is the fresh identifier.
unfoldable pub make_tool_call : (id : ℕ) → Text → Fields → Text → Text → ToolRisk → Result ToolCall
make_tool_call id name arguments reason expected_effect risk = do
  name' ← normalize_tool_name name
  reason' ← normalize_required_text reason
  effect ← normalize_required_text expected_effect
  arguments' ← freeze_json_mapping arguments
  ok (record {
    name = name';
    arguments = arguments';
    reason = reason';
    expected_effect = effect;
    risk = risk;
    id = id;
  })

pub record ToolApproval : Type 0 where
  pub tool_call_id : ℕ
  pub decision : ApprovalDecision
  pub decided_by : Option Text
  pub decided_at : Option ℕ

abbrev pub stripped : Option Text → Option Text
stripped none = none
stripped (some t) = some (strip t)

abbrev pub is_given {ℓ} : {A : Type ℓ} → Option A → Bool
is_given none = false
is_given (some a) = true

-- `not text`, of an optional text
abbrev pub is_blank : Option Text → Bool
is_blank none = true
is_blank (some t) = is_empty t

-- The guard of `ToolApproval.__post_init__` on the stripped author and the time.
unfoldable pub check_decision :
    ApprovalDecision → (decided_by : Option Text) → (decided_at : Option ℕ) → Result (Unit {0})
check_decision pending decided_by decided_at =
    raise_if (is_given decided_by || is_given decided_at) agent_domain_error
check_decision approved decided_by decided_at =
    raise_if (is_blank decided_by || not (is_given decided_at)) agent_domain_error
check_decision rejected decided_by decided_at =
    raise_if (is_blank decided_by || not (is_given decided_at)) agent_domain_error

unfoldable pub make_tool_approval :
    ℕ → ApprovalDecision → Option Text → Option ℕ → Result ToolApproval
make_tool_approval tool_call_id decision decided_by decided_at = do
  check_decision decision (stripped decided_by) decided_at
  ok (record {
    tool_call_id = tool_call_id;
    decision = decision;
    decided_by = stripped decided_by;
    decided_at = decided_at;
  })

pub record ToolProposal : Type 0 where
  pub run : AgentRun
  pub call : ToolCall
  pub policy_result : ToolPolicyResult
  pub approval : Option ToolApproval

pub record ToolExecutionResult : Type 0 where
  pub tool_call_id : ℕ
  pub tool_name : Text
  pub succeeded : Bool
  pub output : Text
  pub error : Option Text
  pub truncated : Bool
  pub duration_ms : ℕ

abbrev pub longer_than : ℕ → Option Text → Bool
longer_than n none = false
longer_than n (some t) = ltb n (length t)

-- `ToolExecutionResult.__post_init__`
unfoldable pub execution_post_init : ToolExecutionResult → Result ToolExecutionResult
execution_post_init r = do
  name ← normalize_tool_name r.tool_name
  raise_if (ltb max_tool_output_length (length r.output)) agent_domain_error
  raise_if (longer_than max_tool_output_length r.error) agent_domain_error
  raise_if (r.succeeded && is_given r.error) agent_domain_error
  raise_if (not r.succeeded && is_blank r.error) agent_domain_error
  ok (record r { tool_name = name })
