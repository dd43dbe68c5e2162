-- ===== src/Application/LocalAgent/Runs.antt =====
-- The whole runs of the client follow the rule on executions.
use Prim.Native.Nat.{zero, suc}
use kelvin_assistant.Prelude.{
  ℕ, ◌≡◌, inl, inr, Bool, Bool-cases, List, [], Text, text_eq, nat_eq, not, arith, is_empty, strip,
}
use kelvin_assistant.Prelude.Result.{Exception, ok, raise, cancelled_error}
use kelvin_assistant.Domain.Json.{Fields}
use kelvin_assistant.Domain.Agent.Status.{status_eq, risk_eq}
use kelvin_assistant.Domain.Agent.Run.{AgentRun}
use kelvin_assistant.Domain.Agent.Tools.{ToolProposal}
use kelvin_assistant.Ports.AgentClient.{
  AgentNextStep, clarification_step, tool_step, completion_step, ToolExecutor, create_run,
  begin_planning, cancel_run, plan_next, propose_tool, clarification_handler, Exchange, Client,
  ◌>>◌, try, World, run_client,
}
use kelvin_assistant.Application.LocalAgent.{
  LocalAgentStepResult, LocalReadToolClient, verify_workspace, execute_proposal,
}
use kelvin_assistant.Application.LocalAgent.Careful.{
  Rule, Post, Followed, Careful, Careful->>=, Careful-try, Careful-ask, Careful-value,
  run_client-Careful, Careful-done,
}
use kelvin_assistant.Application.LocalAgent.Goals.{
  is_client_error, registered, LoopState, cancel_remote_run, on_interrupt, check_executor,
  run_tool_lifecycle, run_tool, clarified, execute_step, take_step, goal_loop, run_goal_loop,
  run_goal,
}
use kelvin_assistant.Application.LocalAgent.Approvals.{
  Anything, Careful-refuse, Careful-refuse_last, Cautious,
}
use kelvin_assistant.Application.LocalAgent.Executions.{execute_proposal-Careful}

module _ (describe : Exception → Text) (same_arguments : Fields → Fields → Bool)
    (client : LocalReadToolClient) where
  abbrev rule : Rule
  rule = Cautious describe same_arguments client

  -- A check of the workspace, and what comes after it.
  verified :
      {A : Type 0} (past : List Exchange) (run : AgentRun) (q : Client A)
      → Careful rule Anything past q
      → Careful rule Anything past (verify_workspace describe same_arguments client run >> q)
  unfolding verify_workspace
  verified past run q h = Careful-refuse rule Anything past _ q (λ _. h) (λ e. tt)

  -- The proposal is of the name and the risk of its executor.
  abbrev Matched : ToolProposal → ToolExecutor → Post (Unit {0})
  Matched p executor past (ok u) =
      (p.call.name ≡ executor.definition.name) × (p.call.risk ≡ executor.definition.risk)
  Matched p executor past (raise e) = Unit

  check_executor-Careful :
      (past : List Exchange) (p : ToolProposal) (executor : ToolExecutor)
      → Careful rule
          (Matched p executor)
          past
          (check_executor describe same_arguments client p executor)
  unfolding check_executor
  check_executor-Careful past p executor =
      Careful-refuse rule (Matched p executor) past _ _
        (λ name.
          Careful-refuse_last rule (Matched p executor) past _
            (λ risk. (
              (text_eq.beq_iff p.call.name executor.definition.name).0 (ground arith),
              (risk_eq.beq_iff p.call.risk executor.definition.risk).0 (ground arith),
            ))
            (λ e. tt))
        (λ e. tt)

  -- A proposal whose executor is checked, and its execution.
  checked-Careful :
      (past : List Exchange) (p : ToolProposal) (executor : ToolExecutor)
      → Careful rule Anything past (
          check_executor describe same_arguments client p executor
          >> execute_proposal describe same_arguments client p executor)
  checked-Careful past p executor =
      Careful->>= rule Anything (Matched p executor) past _ _
        (check_executor-Careful past p executor)
        (λ now b (name, risk).
          execute_proposal-Careful describe same_arguments client now p executor name risk)
        (λ now e q. tt)

  run_tool_lifecycle-Careful :
      (past : List Exchange) (run : AgentRun) (name : Text) (arguments : Fields)
      (executor : ToolExecutor)
      → Careful rule Anything past
          (run_tool_lifecycle describe same_arguments client run name arguments executor)
  unfolding run_tool_lifecycle
  run_tool_lifecycle-Careful past run name arguments executor =
      Careful-ask rule Anything past (begin_planning run.id) _ tt
        (λ planned.
          Careful-refuse rule Anything _ _ _
            (λ _.
              Careful-ask rule Anything _ (propose_tool planned.id name arguments _ _ _) _ tt
                (λ p. verified _ p.run _ (checked-Careful _ p executor)) (λ e. tt))
            (λ e. tt))
        (λ e. tt)

  cancel_remote_run-Careful :
      (past : List Exchange) (run_id : ℕ)
      → Careful rule Anything past (cancel_remote_run describe same_arguments client run_id)
  unfolding cancel_remote_run
  cancel_remote_run-Careful past run_id =
      Careful-try rule Anything Anything past _ _
        (Careful-ask rule Anything past (cancel_run run_id) _ tt
          (λ run. verified _ run _ (Careful-done rule Anything _ _ tt)) (λ e. tt))
        (λ now a q. tt)
        (λ now e q. elim (Bool-cases (is_client_error e)) [
          | inl x ↦ rw x (Careful-done rule Anything now (ok tt) tt)
          | inr x ↦ rw x (Careful-done rule Anything now (raise e) tt)
        ])

  on_interrupt-Careful :
      (A : Type 0) (past : List Exchange) (run : AgentRun) (e : Exception)
      → Careful {A = A} rule Anything past (on_interrupt describe same_arguments client run e)
  unfolding on_interrupt
  on_interrupt-Careful A past run cancelled_error =
      Careful->>= rule Anything Anything past _ _ (cancel_remote_run-Careful past run.id)
        (λ now b q. Careful-done rule Anything now (raise cancelled_error) tt) (λ now e q. tt)
  on_interrupt-Careful A past run _ = Careful-done rule Anything past _ tt

  interruptible-Careful :
      {A : Type 0} (past : List Exchange) (run : AgentRun) (p : Client A)
      → Careful rule Anything past p
      → Careful rule Anything past (try p (on_interrupt describe same_arguments client run))
  interruptible-Careful past run p h =
      Careful-try rule Anything Anything past p _ h (λ now a q. tt)
        (λ now e q. on_interrupt-Careful _ now run e)

  run_tool-Careful :
      (name : Text) (arguments : Fields)
      → Careful rule Anything [] (run_tool describe same_arguments client name arguments)
  unfolding run_tool
  run_tool-Careful name arguments =
      Careful-value rule Anything [] (registered (client.executors name)) _
        (λ executor _.
          Careful-ask rule Anything [] (create_run _ client.workspace_id) _ tt
            (λ run. verified _ run _ (
              interruptible-Careful _ run _
                (run_tool_lifecycle-Careful _ run name arguments executor)))
            (λ e. tt))
        (λ e. tt)

  clarified-Careful :
      (past : List Exchange) (question : Text)
      → Careful rule Anything past (clarified describe same_arguments client question)
  unfolding clarified
  clarified-Careful past question =
      Careful-ask rule Anything past (clarification_handler question) _ tt
        (λ answer.
          Careful-refuse rule Anything _ _ _ (λ _. Careful-done rule Anything _ _ tt) (λ e. tt))
        (λ e. tt)

  execute_step-Careful :
      (past : List Exchange) (p : ToolProposal)
      → Careful rule Anything past (execute_step describe same_arguments client p)
  unfolding execute_step
  execute_step-Careful past p = verified past p.run _ (
      Careful-value rule Anything past (registered (client.executors p.call.name)) _
        (λ executor _. checked-Careful past p executor) (λ e. tt))

  take_step-Careful :
      (past : List Exchange) (step : AgentNextStep) (state : LoopState)
      (next : LoopState → Client LocalAgentStepResult)
      → ((now : List Exchange) (s : LoopState) → Careful rule Anything now (next s))
      → Careful rule Anything past (take_step describe same_arguments client step state next)
  unfolding take_step
  take_step-Careful past (clarification_step run question reason) state next h =
      verified past run _ (elim (Bool-cases (not client.has_clarification_handler)) [
        | inl e ↦ rw e (Careful-done rule Anything past _ tt)
        | inr e ↦ rw e (
            Careful->>= rule Anything Anything past _ _ (clarified-Careful past question)
              (λ now turn q. h now _) (λ now x q. tt))
      ])
  take_step-Careful past (completion_step run summary) state next h =
      verified past run _ (Careful-done rule Anything past _ tt)
  take_step-Careful past (tool_step p) state next h =
      Careful->>= rule Anything Anything past _ _ (execute_step-Careful past p)
        (λ now result q. elim (Bool-cases (not result.execution.succeeded)) [
          | inl e ↦ rw e (Careful-done rule Anything now _ tt)
          | inr e ↦ rw e (h now _)
        ])
        (λ now x q. tt)

  goal_loop-Careful :
      (turns : ℕ) (past : List Exchange) (run_id : ℕ) (state : LoopState)
      → Careful rule Anything past (goal_loop describe same_arguments client turns run_id state)
  unfolding goal_loop
  goal_loop-Careful zero past run_id state = Careful-done rule Anything past _ tt
  goal_loop-Careful (suc n) past run_id state =
      Careful-ask rule Anything past (plan_next run_id state.clarifications state.observation) _ tt
        (λ step. take_step-Careful _ step state _ (λ now s. goal_loop-Careful n now run_id s))
        (λ e. tt)

  run_goal-Careful :
      (goal : Text) → Careful rule Anything [] (run_goal describe same_arguments client goal)
  unfolding run_goal run_goal_loop
  run_goal-Careful goal = elim (Bool-cases (is_empty (strip goal))) [
    | inl e ↦ rw e (Careful-done rule Anything [] _ tt)
    | inr e ↦ rw e (
        Careful-ask rule Anything [] (create_run (strip goal) client.workspace_id) _ tt
          (λ run.
            verified _ run _
              (interruptible-Careful _ run _ (goal_loop-Careful run.max_steps _ run.id _)))
          (λ x. tt))
  ]

  -- Whatever the server, the tools and the user answer, a run of a goal or of one tool executes a tool
  -- only for a call of its name and its risk, and if it is not a read tool, only after its preview
  -- was shown to the user, who approved it, and the server answered to the approval of this call with
  -- an equal call of a run that executes.
  pub run-Cautious :
      (world : World) (goal name : Text) (arguments : Fields)
      → Followed rule (run_client world [] (run_goal describe same_arguments client goal)).history
        × Followed rule
            (run_client world [] (run_tool describe same_arguments client name arguments)).history
  run-Cautious world goal name arguments = (
    (run_client-Careful rule Anything world [] _ tt (run_goal-Careful goal)).0,
    (run_client-Careful rule Anything world [] _ tt (run_tool-Careful name arguments)).0,
  )
