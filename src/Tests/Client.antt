-- ===== src/Tests/Client.antt =====
-- The local client in small worlds.
use kelvin_assistant.Prelude.{
  ◌≡◌, refl, Bool, true, false, Option, none, some, List, [], ◌∷◌, Text, text_eq, codes, is_space,
  strip, text_beq, ◌==◌, if◌then◌else◌,
}
use kelvin_assistant.Prelude.Result.{
  Exception, Result, ok, raise, cancelled_error, approval_rejected_error, agent_client_error,
}
use kelvin_assistant.Domain.Json.{Fields, end, field, str}
use kelvin_assistant.Domain.Agent.Status.{
  AgentStatus, received, planning, awaiting_approval, executing, observing, cancelled,
}
use kelvin_assistant.Domain.Agent.Run.{AgentRun}
use kelvin_assistant.Domain.Agent.Tools.{ToolProposal, ToolExecutionResult}
use kelvin_assistant.Ports.AgentClient.{
  ToolExecutor, create_run, begin_planning, cancel_run, plan_next, propose_tool, resolve_approval,
  submit_result, execute, preview, approval_handler, clarification_handler, Exchange, exchange,
  World, continue_with, run_client,
}
use kelvin_assistant.Application.LocalAgent.{
  LocalReadToolClient, verify_workspace, submit_decision, reject_unseen, resolve_write_approval,
  failed_execution, execute_ready, execute_proposal, execution_observation,
}
use kelvin_assistant.Application.LocalAgent.Goals.{
  is_client_error, cancel_remote_run, on_interrupt, check_executor, run_tool_lifecycle, run_tool,
  clarified, execute_step, take_step, goal_loop, run_goal_loop, run_goal,
}
use kelvin_assistant.Application.LocalAgent.Careful.{Followed}
use kelvin_assistant.Application.LocalAgent.Approvals.{Asked, Cautious}
use kelvin_assistant.Application.LocalAgent.Runs.{run-Cautious}
use kelvin_assistant.Application.LocalAgent.Interrupts.{run_goal-cancels}
use kelvin_assistant.Tests.Data.{run_at, patch, patch_call, asked, waiting}

program : Unit {0}
unfolding strip is_space text_beq continue_with run_client verify_workspace submit_decision
    reject_unseen resolve_write_approval failed_execution execute_ready execute_proposal
    execution_observation is_client_error cancel_remote_run on_interrupt check_executor
    run_tool_lifecycle run_tool clarified execute_step take_step goal_loop run_goal_loop run_goal
program = tt

abbrev describe : Exception → Text
describe e = codes "failed"

abbrev same_arguments : Fields → Fields → Bool
same_arguments a b = true

abbrev executor : ToolExecutor
executor = record { definition = patch; is_previewable = true }

abbrev executors : Text → Option ToolExecutor
executors name = if name == codes "file.patch" then some executor else none

abbrev client : LocalReadToolClient
client = record {
  executors = executors;
  workspace_id = codes "kelvin";
  has_approval_handler = true;
  has_clarification_handler = false;
}

abbrev proposal_at : AgentStatus → ToolProposal
proposal_at status = record {
  run = run_at status 0 2;
  call = patch_call;
  policy_result = asked;
  approval = some waiting;
}

abbrev result : ToolExecutionResult
result = record {
  tool_call_id = 40;
  tool_name = codes "file.patch";
  succeeded = true;
  output = codes "done";
  error = none;
  truncated = false;
  duration_ms = 1;
}

-- A user who answers what is given, and a planner that is interrupted.
abbrev world : Bool → World
world consent past (create_run goal workspace_id) = ok (run_at received 0 0)
world consent past (begin_planning run_id) = ok (run_at planning 0 1)
world consent past (cancel_run run_id) = ok (run_at cancelled 0 3)
world consent past (plan_next run_id turns observation) = raise cancelled_error
world consent past (propose_tool run_id name arguments reason expected_effect risk) =
    ok (proposal_at awaiting_approval)
world consent past (resolve_approval run_id tool_call_id true) = ok (proposal_at executing)
world consent past (resolve_approval run_id tool_call_id false) = ok (proposal_at cancelled)
world consent past (submit_result run_id execution) = ok (run_at observing 1 4)
world consent past (execute tool call) = ok result
world consent past (preview tool call) = ok (codes "a change")
world consent past (approval_handler content) = ok consent
world consent past (clarification_handler question) = raise agent_client_error

abbrev arguments : Fields
arguments = field (codes "path") (str (codes "a/b.py")) end

executions : List Exchange → List Text
executions [] = []
executions (exchange (execute tool call) r ∷ past) = call.name ∷ executions past
executions (_ ∷ past) = executions past

-- The tool is executed if the user says yes, and it is not if the user says no.
approves :
    ((run_client
        (world true)
        []
        (run_tool describe same_arguments client (codes "file.patch") arguments)).result
      ≡ ok (record { run = run_at observing 1 4; execution = result }))
    × ((run_client
          (world false)
          []
          (run_tool describe same_arguments client (codes "file.patch") arguments)).result
        ≡ raise approval_rejected_error)
unfolding program
approves = (refl, refl)

counts :
    (executions
        (run_client
          (world true)
          []
          (run_tool describe same_arguments client (codes "file.patch") arguments)).history
      ≡ codes "file.patch" ∷ [])
    × (executions
          (run_client
            (world false)
            []
            (run_tool describe same_arguments client (codes "file.patch") arguments)).history
        ≡ [])
unfolding program executions
counts = (refl, refl)

interrupted :
    (run_client (world true) [] (run_goal describe same_arguments client (codes "fix it"))).result
    ≡ raise cancelled_error
unfolding program
interrupted = refl

run-Cautious_example :
    Followed
      (Cautious describe same_arguments client)
      (run_client
        (world true)
        []
        (run_goal describe same_arguments client (codes "fix it"))).history
    × Followed
        (Cautious describe same_arguments client)
        (run_client
          (world true)
          []
          (run_tool describe same_arguments client (codes "file.patch") arguments)).history
run-Cautious_example =
    run-Cautious describe same_arguments client (world true) (codes "fix it") (codes "file.patch")
      arguments

run_goal-cancels_example :
    (answer : Result AgentRun) × Asked
      (exchange (cancel_run 7) answer)
      (run_client
        (world true)
        []
        (run_goal describe same_arguments client (codes "fix it"))).history
unfolding text_beq
run_goal-cancels_example =
    run_goal-cancels describe same_arguments client (world true) (codes "fix it")
      (run_at received 0 0) refl refl interrupted
