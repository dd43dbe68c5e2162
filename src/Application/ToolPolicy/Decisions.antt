-- ===== src/Application/ToolPolicy/Decisions.antt =====
-- When the policy allows, when it asks for an approval, and that it is closed otherwise.
use kelvin_assistant.Prelude.{◌≡◌, ◌↔◌, ap, ◌∙◌, refl, true, false, some, text_eq, codes, arith}
use kelvin_assistant.Prelude.Result.{Result, ok, raise}
use kelvin_assistant.Domain.Json.{lookup}
use kelvin_assistant.Domain.Agent.Status.{
  ToolRisk, read, write, risk_eq, ToolPolicyDecision, allow, require_approval,
}
use kelvin_assistant.Domain.Agent.Tools.{ToolDefinition, ToolCall}
use kelvin_assistant.Ports.Tools.{ToolRegistry}
use kelvin_assistant.Application.ToolPolicy.{ToolPolicyContext, evaluate, other_workspace, or_null}
use kelvin_assistant.Application.ToolPolicy.Branches.{
  path_decision, path_argument, decision, path_decision_sound, path_decision_complete, outcome,
  decision-evaluate_found, decision_of, SafePath,
}

module _ (registry : ToolRegistry) (call : ToolCall) (context : ToolPolicyContext) where
  decision-evaluate :
      decision_of (evaluate registry call context)
      ≡ some (outcome (registry.get call.name) call context)
  unfolding evaluate
  decision-evaluate =
      decision-evaluate_found (registry.get call.name) call context (registry.get_error call.name)

  -- The policy returns a decision for every call, whatever the registry holds: it never raises.
  pub evaluate-decides :
      (d : ToolPolicyDecision) × (decision_of (evaluate registry call context) ≡ some d)
  evaluate-decides = (outcome (registry.get call.name) call context, decision-evaluate)

  -- The tool is registered with the risk of the call, in the authorized workspace.
  pub record Admitted (risk : ToolRisk) : Type 0 where
    pub definition : ToolDefinition
    pub registered : registry.get call.name ≡ ok definition
    pub authorized : context.workspace_authorized ≡ true
    pub same_workspace : other_workspace context.workspace_id call.arguments ≡ false
    pub same_risk : call.risk ≡ definition.risk
    pub of_risk : definition.risk ≡ risk

  decision-read :
      (d : ToolDefinition)
      → context.workspace_authorized ≡ true
      → other_workspace context.workspace_id call.arguments ≡ false
      → call.risk ≡ d.risk
      → d.risk ≡ read
      → decision d call context ≡ allow
  decision-read d a o s r = ground arith

  decision-write :
      (d : ToolDefinition)
      → context.workspace_authorized ≡ true
      → other_workspace context.workspace_id call.arguments ≡ false
      → call.risk ≡ d.risk
      → d.risk ≡ write
      → decision d call context ≡ path_decision (path_argument call)
  decision-write d a o s r = ground arith

  outcome-allow :
      (r : Result ToolDefinition)
      → registry.get call.name ≡ r
      → outcome r call context ≡ allow
      → Admitted read
  outcome-allow (ok d) e h = record {
    definition = d;
    registered = e;
    authorized = ground arith;
    same_workspace = ground arith;
    same_risk = ground arith;
    of_risk = ground arith;
  }
  outcome-allow (raise x) e h = cc

  -- A tool is allowed without an approval exactly when it is registered as a read tool with the
  -- risk of the call, the workspace is authorized, and the arguments name no other workspace.
  pub evaluate-allow : (decision_of (evaluate registry call context) ≡ some allow) ↔ Admitted read
  evaluate-allow = (
    λ h. outcome-allow (registry.get call.name) refl (cc decision-evaluate),
    λ a.
        decision-evaluate
        ∙ ap some (
            ap (λ r. outcome r call context) a.registered
            ∙ decision-read a.definition a.authorized a.same_workspace a.same_risk a.of_risk),
  )

  outcome-require :
      (r : Result ToolDefinition)
      → registry.get call.name ≡ r
      → outcome r call context ≡ require_approval
      → Admitted write × (path_decision (path_argument call) ≡ require_approval)
  outcome-require (ok d) e h = (
    record {
      definition = d;
      registered = e;
      authorized = ground arith;
      same_workspace = ground arith;
      same_risk = ground arith;
      of_risk = ground arith;
    },
    ground arith,
  )
  outcome-require (raise x) e h = cc

  -- An approval is asked for exactly when the tool is registered as a write tool with the risk of
  -- the call, the workspace is authorized, the arguments name no other workspace, and their path,
  -- if there is one, is a text that has no two dots in a row anywhere, and that begins neither with
  -- a slash or a backslash nor with a drive letter and a colon.
  pub evaluate-require_approval :
      (decision_of (evaluate registry call context) ≡ some require_approval)
      ↔ (Admitted write × SafePath (or_null (lookup call.arguments (codes "path"))))
  evaluate-require_approval = (
    λ h.
        let (a, p) = outcome-require (registry.get call.name) refl (cc decision-evaluate) in
        (a, path_decision_sound (path_argument call) p),
    λ (a, safe).
        decision-evaluate
        ∙ ap some (
            ap (λ r. outcome r call context) a.registered
            ∙ decision-write a.definition a.authorized a.same_workspace a.same_risk a.of_risk
            ∙ path_decision_complete (path_argument call) safe),
  )
