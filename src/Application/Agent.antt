-- ===== src/Application/Agent.antt =====
-- `AgentService` of application/agent.py: the guarded life cycle of a run. The policy is the
-- parameter that the service is constructed with; `now` is the clock's answer in the call.
pub mod Gate
pub mod Calls
pub mod Open
pub mod Steps
pub mod Moved
use kelvin_assistant.Prelude.{
  ℕ, Bool, true, false, Option, none, some, List, [], ◌∷◌, Text, not, ◌||◌, ◌==◌, nat_eq, contains,
  if◌then◌else◌,
}
use kelvin_assistant.Prelude.Result.{Result, ok, raise, ◌>>=◌, ◌>>◌, raise_if, agent_service_error}
use kelvin_assistant.Domain.Agent.Status.{
  AgentStatus, received, clarifying, planning, awaiting_approval, executing, observing, completed,
  cancelled, failed, status_eq, is_terminal, ToolPolicyDecision, allow, require_approval, deny,
  ApprovalDecision, pending, approved, rejected,
}
use kelvin_assistant.Domain.Agent.Run.{AgentRun, create_run, transition_to}
use kelvin_assistant.Domain.Agent.Tools.{
  ClarificationRequest, ToolCall, ToolPolicyResult, ToolApproval, make_tool_approval, ToolProposal,
}
use kelvin_assistant.Application.ToolPolicy.{ToolPolicyContext}

-- `ToolPolicy.evaluate`
abbrev pub Policy : Type 0
Policy = ToolCall → ToolPolicyContext → Result ToolPolicyResult

pub record AgentClarification : Type 0 where
  pub run : AgentRun
  pub request : ClarificationRequest

unfoldable pub start_run : (id now : ℕ) → Text → ℕ → Option Text → Result AgentRun
start_run id now goal max_steps workspace_id = create_run id now goal max_steps workspace_id

-- `if run.status not in statuses: raise AgentServiceError`
unfoldable pub require_one_of : List AgentStatus → AgentRun → Result (Unit {0})
require_one_of statuses run = raise_if (not (contains statuses run.status)) agent_service_error

-- `_require_status`
unfoldable pub require_status : AgentRun → AgentStatus → Result (Unit {0})
require_status run expected = raise_if (not (run.status == expected)) agent_service_error

-- `if run.status.is_terminal: raise AgentServiceError`
unfoldable pub require_active : AgentRun → Result (Unit {0})
require_active run = raise_if (is_terminal run.status) agent_service_error

unfoldable pub request_clarification :
    ℕ → AgentRun → ClarificationRequest → Result AgentClarification
request_clarification now run request = do
  require_one_of (received ∷ planning ∷ []) run
  next ← transition_to now run clarifying
  ok (record { run = next; request = request })

unfoldable pub begin_planning : ℕ → AgentRun → Result AgentRun
begin_planning now run = do
  require_one_of (received ∷ clarifying ∷ []) run
  transition_to now run planning

-- The branches of `propose_tool` on the policy's decision.
unfoldable pub apply_policy :
    ToolPolicyDecision → ℕ → AgentRun → ToolCall → ToolPolicyResult → Result ToolProposal
apply_policy allow now run call result = do
  next ← transition_to now run executing
  ok (record { run = next; call = call; policy_result = result; approval = none })
apply_policy require_approval now run call result = do
  next ← transition_to now run awaiting_approval
  approval ← make_tool_approval call.id pending none none
  ok (record { run = next; call = call; policy_result = result; approval = some approval })
apply_policy deny now run call result =
    ok (record { run = run; call = call; policy_result = result; approval = none })

unfoldable pub propose_tool :
    Policy → ℕ → AgentRun → ToolCall → ToolPolicyContext → Result ToolProposal
propose_tool policy now run call context = do
  require_status run planning
  result ← policy call context
  apply_policy result.decision now run call result

abbrev pub is_require_approval : ToolPolicyDecision → Bool
is_require_approval require_approval = true
is_require_approval _ = false

abbrev pub is_pending : ApprovalDecision → Bool
is_pending pending = true
is_pending _ = false

-- The proposal has a pending approval of its own call.
abbrev pub waits_for : Option ToolApproval → ℕ → Bool
waits_for none call_id = false
waits_for (some approval) call_id =
    if is_pending approval.decision then approval.tool_call_id == call_id else false

-- `EXECUTING if decision is APPROVED else CANCELLED`
abbrev pub status_after : ApprovalDecision → AgentStatus
status_after approved = executing
status_after _ = cancelled

unfoldable pub resolve_approval :
    ToolProposal
    → ApprovalDecision
    → (decided_by : Text) → (decided_at now : ℕ) → Result ToolProposal
resolve_approval proposal decision decided_by decided_at now = do
  require_status proposal.run awaiting_approval
  raise_if
      (not (is_require_approval proposal.policy_result.decision)
        || not (waits_for proposal.approval proposal.call.id))
      agent_service_error
  raise_if (is_pending decision) agent_service_error
  approval ← make_tool_approval proposal.call.id decision (some decided_by) (some decided_at)
  next ← transition_to now proposal.run (status_after decision)
  ok (record {
    run = next;
    call = proposal.call;
    policy_result = proposal.policy_result;
    approval = some approval;
  })

unfoldable pub record_execution_result : ℕ → AgentRun → (succeeded : Bool) → Result AgentRun
record_execution_result now run succeeded = do
  require_status run executing
  transition_to now run (if succeeded then observing else failed)

unfoldable pub continue_planning : ℕ → AgentRun → Result AgentRun
continue_planning now run = do require_status run observing; transition_to now run planning

unfoldable pub complete_run : ℕ → AgentRun → Result AgentRun
complete_run now run = do
  require_one_of (planning ∷ observing ∷ []) run
  transition_to now run completed

unfoldable pub fail_run : ℕ → AgentRun → Result AgentRun
fail_run now run = do require_active run; transition_to now run failed

unfoldable pub cancel_run : ℕ → AgentRun → Result AgentRun
cancel_run now run = do require_active run; transition_to now run cancelled
