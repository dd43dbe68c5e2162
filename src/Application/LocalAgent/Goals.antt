-- ===== src/Application/LocalAgent/Goals.antt =====
-- `run_tool` and `run_goal` of `LocalReadToolClient`.
use Prim.Native.Nat.{zero, suc}
use kelvin_assistant.Prelude.{
  ℕ, Bool, true, false, Option, none, some, List, [], ◌∷◌, ◌++◌, Text, text_eq, codes, not, ◌==◌,
  is_empty, strip, if◌then◌else◌,
}
use kelvin_assistant.Prelude.Result.{
  Exception, Result, ok, raise, agent_client_error, local_agent_client_error,
  approval_rejected_error, cancelled_error, value_error,
}
use kelvin_assistant.Domain.Json.{Fields}
use kelvin_assistant.Domain.Agent.Status.{planning, cancelled, status_eq, read, risk_eq}
use kelvin_assistant.Domain.Agent.Run.{AgentRun}
use kelvin_assistant.Domain.Agent.Tools.{ToolProposal, ToolExecutionResult}
use kelvin_assistant.Domain.Planner.{ClarificationTurn, make_clarification_turn}
use kelvin_assistant.Ports.AgentClient.{
  AgentNextStep, clarification_step, tool_step, completion_step, ToolExecutor, create_run,
  begin_planning, cancel_run, plan_next, propose_tool, clarification_handler, Client, done, ◌>>=◌,
  ◌>>◌, try, ask,
}
use kelvin_assistant.Application.LocalAgent.{
  LocalToolRunResult, LocalAgentStepResult, tool_run_result, clarification_result,
  completion_result, LocalReadToolClient, refuse_if, execution_observation, verify_workspace,
  execute_proposal,
}

-- `except AgentClientError`
unfoldable pub is_client_error : Exception → Bool
is_client_error agent_client_error = true
is_client_error local_agent_client_error = true
is_client_error approval_rejected_error = true
is_client_error _ = false

-- `self._executors.get(name)`, which has to be there
abbrev pub registered : Option ToolExecutor → Result ToolExecutor
registered none = raise local_agent_client_error
registered (some executor) = ok executor

-- What the loop of a goal keeps from turn to turn.
pub record LoopState : Type 0 where
  pub clarifications : List ClarificationTurn
  pub observation : Option Text
  pub executions : List ToolExecutionResult

module _ (describe : Exception → Text) (same_arguments : Fields → Fields → Bool)
    (client : LocalReadToolClient) where
  unfoldable pub cancel_remote_run : (run_id : ℕ) → Client (Unit {0})
  unfolding is_client_error
  cancel_remote_run run_id =
      try
        (ask (cancel_run run_id) >>= λ stopped.
          verify_workspace describe same_arguments client stopped
          >> refuse_if (not (stopped.status == cancelled)))
        (λ e. if is_client_error e then done (ok tt) else done (raise e))

  -- `except (asyncio.CancelledError, KeyboardInterrupt)`
  unfoldable pub on_interrupt : {A : Type 0} → AgentRun → Exception → Client A
  unfolding cancel_remote_run
  on_interrupt run cancelled_error = cancel_remote_run run.id >> done (raise cancelled_error)
  on_interrupt run e = done (raise e)

  -- The two tests on the executor of a proposal
  unfoldable pub check_executor : ToolProposal → ToolExecutor → Client (Unit {0})
  check_executor proposal executor =
      refuse_if (not (proposal.call.name == executor.definition.name))
      >> refuse_if (not (proposal.call.risk == executor.definition.risk))

  unfoldable pub run_tool_lifecycle :
      AgentRun → Text → Fields → ToolExecutor → Client LocalToolRunResult
  unfolding check_executor
  run_tool_lifecycle run name arguments executor = ask (begin_planning run.id) >>= λ planned.
      refuse_if (not (planned.status == planning))
      >> ask (
          propose_tool planned.id name arguments
            (codes "Run " ++ name ++ codes " from the local Kelvin client.")
            (if executor.definition.risk == read
              then codes "Read workspace state without modifying files."
              else codes "Apply the exact user-approved workspace change.")
            executor.definition.risk)
      >>= λ proposal.
          verify_workspace describe same_arguments client proposal.run
          >> check_executor proposal executor
          >> execute_proposal describe same_arguments client proposal executor

  unfoldable pub run_tool : Text → Fields → Client LocalToolRunResult
  unfolding on_interrupt run_tool_lifecycle
  run_tool name arguments = done (registered (client.executors name)) >>= λ executor.
      ask (create_run (codes "Execute tool " ++ name ++ codes ".") client.workspace_id) >>= λ run.
      verify_workspace describe same_arguments client run
      >> try (run_tool_lifecycle run name arguments executor) (on_interrupt run)

  -- The branch of a clarification, up to the turn that is added
  unfoldable pub clarified : (question : Text) → Client ClarificationTurn
  clarified question = ask (clarification_handler question) >>= λ answer.
      refuse_if (is_empty (strip answer)) >> done (make_clarification_turn question (strip answer))

  -- The branch of a tool, up to its execution
  unfoldable pub execute_step : ToolProposal → Client LocalToolRunResult
  unfolding check_executor
  execute_step proposal =
      verify_workspace describe same_arguments client proposal.run
      >> done (registered (client.executors proposal.call.name))
      >>= λ executor.
          check_executor proposal executor
          >> execute_proposal describe same_arguments client proposal executor

  abbrev with_turn : LoopState → ClarificationTurn → LoopState
  with_turn state turn = record state { clarifications = state.clarifications ++ (turn ∷ []) }

  abbrev with_execution : LoopState → ToolExecutionResult → LoopState
  with_execution state execution = record state {
    observation = some (execution_observation execution);
    executions = state.executions ++ (execution ∷ []);
  }

  -- What follows the planner's step in a turn of the loop; `next` is the rest of the loop.
  unfoldable pub take_step :
      AgentNextStep
      → LoopState
      → (next : LoopState → Client LocalAgentStepResult) → Client LocalAgentStepResult
  unfolding clarified execute_step
  take_step (clarification_step run question reason) state next =
      verify_workspace describe same_arguments client run
      >> (if not client.has_clarification_handler
          then done (ok (clarification_result run question reason))
          else (clarified question >>= λ turn. next (with_turn state turn)))
  take_step (completion_step run summary) state next =
      verify_workspace describe same_arguments client run
      >> done (ok (completion_result run summary state.executions))
  take_step (tool_step proposal) state next = execute_step proposal >>= λ result.
      if not result.execution.succeeded
      then done (ok (tool_run_result result))
      else next (with_execution state result.execution)

  -- `for _ in range(run.max_steps)`
  unfoldable pub goal_loop : (turns : ℕ) (run_id : ℕ) → LoopState → Client LocalAgentStepResult
  unfolding take_step
  goal_loop zero run_id state = done (raise local_agent_client_error)
  goal_loop (suc n) run_id state =
      ask (plan_next run_id state.clarifications state.observation) >>= λ step.
      take_step step state (goal_loop n run_id)

  unfoldable pub run_goal_loop : AgentRun → Client LocalAgentStepResult
  unfolding goal_loop
  run_goal_loop run =
      goal_loop run.max_steps run.id
        (record { clarifications = []; observation = none; executions = [] })

  unfoldable pub run_goal : (goal : Text) → Client LocalAgentStepResult
  unfolding on_interrupt run_goal_loop
  run_goal goal =
      if is_empty (strip goal)
      then done (raise value_error)
      else (ask (create_run (strip goal) client.workspace_id) >>= λ run.
          verify_workspace describe same_arguments client run
          >> try (run_goal_loop run) (on_interrupt run))
