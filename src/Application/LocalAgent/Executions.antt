-- ===== src/Application/LocalAgent/Executions.antt =====
-- The execution of a proposal follows the rule on executions.
use kelvin_assistant.Prelude.{
  ◌≡◌, refl, inl, inr, Bool, true, false, Bool-cases, List, Text, text_eq, nat_eq, not, ◌&&◌, ◌==◌,
  if◌then◌else◌, arith,
}
use kelvin_assistant.Prelude.Result.{Exception, ok, tool_execution_error}
use kelvin_assistant.Domain.Json.{Fields}
use kelvin_assistant.Domain.Agent.Status.{
  executing, status_eq, read, risk_eq, ToolPolicyDecision, allow, require_approval, deny,
}
use kelvin_assistant.Domain.Agent.Tools.{ToolProposal}
use kelvin_assistant.Ports.AgentClient.{
  ToolExecutor, submit_result, execute, Exchange, done, ◌>>◌, ask,
}
use kelvin_assistant.Application.LocalAgent.{
  LocalReadToolClient, refuse_if, is_require, is_denied, is_allowed, resolve_write_approval,
  failed_execution, execute_ready, execute_proposal,
}
use kelvin_assistant.Application.LocalAgent.Careful.{
  Careful, Careful->>=, Careful-try, Careful-ask, Careful-done, Careful-last,
}
use kelvin_assistant.Application.LocalAgent.Approvals.{
  Anything, Careful-refuse, Cautious, Ready, resolve_write_approval-Careful,
}

module _ (describe : Exception → Text) (same_arguments : Fields → Fields → Bool)
    (client : LocalReadToolClient) where
  failed_execution-Careful :
      (past : List Exchange) (p : ToolProposal) (e : Exception)
      → Careful
          (Cautious describe same_arguments client)
          Anything
          past
          (failed_execution describe same_arguments client p e)
  unfolding failed_execution
  failed_execution-Careful past p tool_execution_error =
      Careful-done (Cautious describe same_arguments client) Anything past _ tt
  failed_execution-Careful past p _ =
      Careful-done (Cautious describe same_arguments client) Anything past _ tt

  execute_ready-Careful :
      (past : List Exchange) (p : ToolProposal) (executor : ToolExecutor)
      → Cautious describe same_arguments client past (execute executor p.call)
      → Careful
          (Cautious describe same_arguments client)
          Anything
          past
          (execute_ready describe same_arguments client p executor)
  unfolding execute_ready
  execute_ready-Careful past p executor allowed =
      Careful->>= (Cautious describe same_arguments client) Anything Anything past _ _
        (Careful-try (Cautious describe same_arguments client) Anything Anything past
          (ask (execute executor p.call)) _
          (Careful-last (Cautious describe same_arguments client) (execute executor p.call) Anything
            past allowed (λ r. tt))
          (λ now a q. tt) (λ now e q. failed_execution-Careful now p e))
        (λ now execution _.
          Careful-ask (Cautious describe same_arguments client) Anything now
            (submit_result p.run.id execution) _ tt
            (λ run.
              Careful-refuse (Cautious describe same_arguments client) Anything _ _ _
                (λ _. Careful-done (Cautious describe same_arguments client) Anything _ _ tt)
                (λ e. tt))
            (λ e. tt))
        (λ now e q. tt)

  allowed_of :
      (d : ToolPolicyDecision) → is_denied d ≡ false → is_require d ≡ false → is_allowed d ≡ true
  allowed_of allow kept e = refl
  allowed_of require_approval kept e = cc
  allowed_of deny kept e = cc

  ready-Careful :
      (past : List Exchange) (p : ToolProposal) (executor : ToolExecutor)
      → p.call.name ≡ executor.definition.name
      → p.call.risk ≡ executor.definition.risk
      → is_denied p.policy_result.decision ≡ false
      → (not (executor.definition.risk == read) && is_allowed p.policy_result.decision) ≡ false
      → Careful
          (Cautious describe same_arguments client)
          (Ready describe same_arguments client executor)
          past
          (if is_require p.policy_result.decision
            then resolve_write_approval describe same_arguments client p executor
            else (refuse_if (not (p.run.status == executing)) >> done (ok p)))
  ready-Careful past p executor name risk kept gate =
      elim (Bool-cases (is_require p.policy_result.decision)) [
        | inl e ↦ rw e (
            resolve_write_approval-Careful describe same_arguments client past p executor name risk)
        | inr e ↦
            let free = allowed_of p.policy_result.decision kept e in
            let reads : executor.definition.risk ≡ read =
              (risk_eq.beq_iff executor.definition.risk read).0 (ground arith) in
            rw e (
              Careful-refuse (Cautious describe same_arguments client)
                (Ready describe same_arguments client executor) past _ _
                (λ at.
                  Careful-done (Cautious describe same_arguments client)
                    (Ready describe same_arguments client executor) past (ok p)
                    (name, risk, inl reads))
                (λ x. tt))
      ]

  pub execute_proposal-Careful :
      (past : List Exchange) (p : ToolProposal) (executor : ToolExecutor)
      → p.call.name ≡ executor.definition.name
      → p.call.risk ≡ executor.definition.risk
      → Careful
          (Cautious describe same_arguments client)
          Anything
          past
          (execute_proposal describe same_arguments client p executor)
  unfolding execute_proposal
  execute_proposal-Careful past p executor name risk =
      Careful-refuse (Cautious describe same_arguments client) Anything past _ _
        (λ kept.
          Careful-refuse (Cautious describe same_arguments client) Anything past _ _
            (λ gate.
              Careful->>= (Cautious describe same_arguments client) Anything
                (Ready describe same_arguments client executor) past _ _
                (ready-Careful past p executor name risk kept gate)
                (λ now q allowed. execute_ready-Careful now q executor allowed) (λ now e q. tt))
            (λ e. tt))
        (λ e. tt)
