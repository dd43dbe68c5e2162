-- ===== src/Ports/AgentClient.antt =====
-- The protocol of ports/agent_client.py with the executors of ports/tools.py and the handlers of the
-- user: what the local client asks of the world, and what it may be answered.
use kelvin_assistant.Prelude.{ℕ, Bool, Option, List, ◌∷◌, Text}
use kelvin_assistant.Prelude.Result.{Exception, Result, ok, raise}
use kelvin_assistant.Domain.Json.{Fields}
use kelvin_assistant.Domain.Agent.Status.{ToolRisk}
use kelvin_assistant.Domain.Agent.Run.{AgentRun}
use kelvin_assistant.Domain.Agent.Tools.{
  ToolDefinition, ToolCall, ToolProposal, ToolExecutionResult,
}
use kelvin_assistant.Domain.Planner.{ClarificationTurn}

pub data AgentNextStep : Type 0 where
  clarification_step : AgentRun → (question reason : Text) → AgentNextStep
  tool_step : ToolProposal → AgentNextStep
  completion_step : AgentRun → (summary : Text) → AgentNextStep

-- `ToolExecutor`, and whether it is a `PreviewableToolExecutor`
pub record ToolExecutor : Type 0 where
  pub definition : ToolDefinition
  pub is_previewable : Bool

-- The methods of `AgentApiClient`, those of an executor, and the two handlers
pub data Question : Type 0 where
  create_run : (goal workspace_id : Text) → Question
  begin_planning : (run_id : ℕ) → Question
  cancel_run : (run_id : ℕ) → Question
  plan_next : (run_id : ℕ) → List ClarificationTurn → (observation : Option Text) → Question
  propose_tool :
      (run_id : ℕ) (name : Text) → Fields → (reason expected_effect : Text) → ToolRisk → Question
  resolve_approval : (run_id tool_call_id : ℕ) (approved : Bool) → Question
  submit_result : (run_id : ℕ) → ToolExecutionResult → Question
  execute : ToolExecutor → ToolCall → Question
  preview : ToolExecutor → ToolCall → Question
  approval_handler : (content : Text) → Question
  clarification_handler : (question : Text) → Question

abbrev pub Answer : Question → Type 0
Answer (create_run goal workspace_id) = AgentRun
Answer (begin_planning run_id) = AgentRun
Answer (cancel_run run_id) = AgentRun
Answer (plan_next run_id turns observation) = AgentNextStep
Answer (propose_tool run_id name arguments reason expected_effect risk) = ToolProposal
Answer (resolve_approval run_id tool_call_id approved) = ToolProposal
Answer (submit_result run_id result) = AgentRun
Answer (execute executor call) = ToolExecutionResult
Answer (preview executor call) = Text
Answer (approval_handler content) = Bool
Answer (clarification_handler question) = Text

-- A question that was asked, with the value or the exception it was answered with.
pub data Exchange : Type 0 where
  exchange : (question : Question) → Result (Answer question) → Exchange

pub data Client (A : Type 0) : Type 0 where
  done : Result A → Client A
  asking : (question : Question) → (Result (Answer question) → Client A) → Client A

-- A client in place of the value or the exception that another one ends with.
unfoldable pub continue_with : {A B : Type 0} → Client A → (Result A → Client B) → Client B
continue_with (done r) f = f r
continue_with (asking question k) f = asking question (λ r. continue_with (k r) f)

abbrev pub on_value : {A B : Type 0} → (A → Client B) → Result A → Client B
on_value f (ok a) = f a
on_value f (raise e) = done (raise e)

abbrev pub on_error : {A : Type 0} → (Exception → Client A) → Result A → Client A
on_error h (ok a) = done (ok a)
on_error h (raise e) = h e

infixr 5 ◌>>=◌ ◌>>◌
abbrev pub ◌>>=◌ : {A B : Type 0} → Client A → (A → Client B) → Client B
p >>= f = continue_with p (on_value f)

abbrev pub ◌>>◌ : {B : Type 0} → Client (Unit {0}) → Client B → Client B
p >> q = p >>= λ _. q

abbrev pub try : {A : Type 0} → Client A → (Exception → Client A) → Client A
try p h = continue_with p (on_error h)

abbrev pub ask : (question : Question) → Client (Answer question)
ask question = asking question done

-- What the world answers, which may depend on all that came before, the latest first.
abbrev pub World : Type 0
World = List Exchange → (question : Question) → Result (Answer question)

pub record Finished (A : Type 0) : Type 0 where
  pub result : Result A
  pub history : List Exchange

-- A client in a world, to its end.
unfoldable pub run_client : {A : Type 0} → World → List Exchange → Client A → Finished A
run_client world past (done r) = record { result = r; history = past }
run_client world past (asking question k) =
    let answer = world past question in
    run_client world (exchange question answer ∷ past) (k answer)
