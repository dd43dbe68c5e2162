-- ===== src/Application/Agent/Calls.antt =====
-- The calls of a client that uses the service in any order, one call after the other, with the
-- proposal that is open in between.
use kelvin_assistant.Prelude.{ℕ, ◌≡◌, Bool, Option, none, some, Text}
use kelvin_assistant.Prelude.Result.{ok}
use kelvin_assistant.Domain.Agent.Status.{status_eq, ApprovalDecision}
use kelvin_assistant.Domain.Agent.Run.{AgentRun}
use kelvin_assistant.Domain.Agent.Tools.{ClarificationRequest, ToolCall, ToolProposal}
use kelvin_assistant.Application.ToolPolicy.{ToolPolicyContext}
use kelvin_assistant.Application.Agent.{
  Policy, AgentClarification, request_clarification, begin_planning, propose_tool, resolve_approval,
  record_execution_result, continue_planning, complete_run, fail_run, cancel_run,
}

-- A run, and the proposal that the store holds for it, if there is one.
pub record Session : Type 0 where
  pub run : AgentRun
  pub proposal : Option ToolProposal

-- One call of the service that returns. A call that ends a tool's execution closes the proposal.
pub data Step (policy : Policy) (s : Session) : Session → Type 0 where
  clarified :
      (now : ℕ) (request : ClarificationRequest) {c : AgentClarification}
      → request_clarification now s.run request ≡ ok c
      → Step policy s (record { run = c.run; proposal = none })
  planned :
      (now : ℕ) {r : AgentRun}
      → begin_planning now s.run ≡ ok r
      → Step policy s (record { run = r; proposal = none })
  proposed :
      (now : ℕ) (call : ToolCall) (context : ToolPolicyContext) {p : ToolProposal}
      → propose_tool policy now s.run call context ≡ ok p
      → Step policy s (record { run = p.run; proposal = some p })
  resolved :
      (p : ToolProposal) (d : ApprovalDecision) (by : Text) (at now : ℕ) {q : ToolProposal}
      → s.proposal ≡ some p
      → resolve_approval p d by at now ≡ ok q
      → Step policy s (record { run = q.run; proposal = some q })
  recorded :
      (now : ℕ) (succeeded : Bool) {r : AgentRun}
      → record_execution_result now s.run succeeded ≡ ok r
      → Step policy s (record { run = r; proposal = none })
  continued :
      (now : ℕ) {r : AgentRun}
      → continue_planning now s.run ≡ ok r
      → Step policy s (record { run = r; proposal = none })
  finished :
      (now : ℕ) {r : AgentRun}
      → complete_run now s.run ≡ ok r
      → Step policy s (record { run = r; proposal = none })
  broken :
      (now : ℕ) {r : AgentRun}
      → fail_run now s.run ≡ ok r
      → Step policy s (record { run = r; proposal = none })
  stopped :
      (now : ℕ) {r : AgentRun}
      → cancel_run now s.run ≡ ok r
      → Step policy s (record { run = r; proposal = none })

pub data Reaches (policy : Policy) (s : Session) : Session → Type 0 where
  here : Reaches policy s s
  next : {t u : Session} → Reaches policy s t → Step policy t u → Reaches policy s u
