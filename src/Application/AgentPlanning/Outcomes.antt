-- ===== src/Application/AgentPlanning/Outcomes.antt =====
-- What the outcome of one planner decision guarantees of the run and of the proposed call.
use kelvin_assistant.Prelude.{ℕ, ◌≡◌, refl, [], ◌∷◌, Text, not, ◌==◌, contains, arith}
use kelvin_assistant.Prelude.Result.{
  Result, ok, raise, >>=-eq-ok, raise_if-eq-ok, returned, unknown_tool_error, agent_planning_error,
  agent_service_error,
}
use kelvin_assistant.Domain.Json.{Fields, freeze_json_mapping}
use kelvin_assistant.Domain.Planner.{PlannerDecision, clarify, tool, complete, ToolDecision}
use kelvin_assistant.Domain.Agent.Names.{normalize_tool_name}
use kelvin_assistant.Domain.Agent.Status.{
  received, clarifying, planning, observing, completed, ToolRisk, status_eq,
}
use kelvin_assistant.Domain.Agent.Run.{AgentRun, transition_to, normalize_required_text}
use kelvin_assistant.Domain.Agent.Run.Valid.{IsValid}
use kelvin_assistant.Domain.Agent.Run.Traces.{Moves, transition_to-Moves}
use kelvin_assistant.Domain.Agent.Tools.{
  ToolDefinition, ToolCall, make_tool_call, ToolProposal, make_clarification_request,
}
use kelvin_assistant.Ports.Tools.{ToolRegistry}
use kelvin_assistant.Application.ToolPolicy.{ToolPolicyContext}
use kelvin_assistant.Application.Agent.{
  Policy, request_clarification, complete_run, propose_tool, require_one_of,
}
use kelvin_assistant.Application.Agent.Gate.{Proposed, propose_tool-Proposed}
use kelvin_assistant.Application.AgentPlanning.{
  PlanningOutcome, clarification_outcome, tool_outcome, completion_outcome, selected,
  validate_tool_arguments, apply_action, apply_decision,
}
use kelvin_assistant.Application.AgentPlanning.Arguments.{
  Accepted, validate_tool_arguments-Accepted,
}

-- A call as `make_tool_call` builds it.
record Built (name : Text) (arguments : Fields) (risk : ToolRisk) (call : ToolCall) : Type 0 where
  named : normalize_tool_name name ≡ ok call.name
  frozen : freeze_json_mapping arguments ≡ ok call.arguments
  same_risk : call.risk ≡ risk

make_tool_call-Built :
    (id : ℕ) (name : Text) (arguments : Fields) (reason effect : Text) (risk : ToolRisk)
    {call : ToolCall}
    → make_tool_call id name arguments reason effect risk ≡ ok call
    → Built name arguments risk call
unfolding make_tool_call
make_tool_call-Built id name arguments reason effect risk h =
    let (name', named, h₁) = >>=-eq-ok (normalize_tool_name name) _ h in
    let (reason', _, h₂) = >>=-eq-ok (normalize_required_text reason) _ h₁ in
    let (effect', _, h₃) = >>=-eq-ok (normalize_required_text effect) _ h₂ in
    let (arguments', frozen, h₄) = >>=-eq-ok (freeze_json_mapping arguments) _ h₃ in
    returned (Built name arguments risk) h₄
      (record { named = named; frozen = frozen; same_risk = refl })

-- The proposal of a planner's tool decision: its call is one of a registered tool, with the risk
-- of the registration and accepted arguments, and the policy decided on this very call.
pub record Chosen (registry : ToolRegistry) (policy : Policy) (run : AgentRun)
    (context : ToolPolicyContext) (decision : ToolDecision) (p : ToolProposal) : Type 0 where
  pub definition : ToolDefinition
  pub registered : registry.get decision.tool_name ≡ ok definition
  pub accepted : Accepted definition decision.arguments
  pub named : normalize_tool_name definition.name ≡ ok p.call.name
  pub frozen : freeze_json_mapping decision.arguments ≡ ok p.call.arguments
  pub same_risk : p.call.risk ≡ definition.risk
  pub proposed : Proposed policy run p.call context p

-- What an outcome makes of the run, by the planner's decision.
abbrev pub Planned :
    ToolRegistry
    → Policy
    → AgentRun
    → ToolPolicyContext
    → PlannerDecision
    → PlanningOutcome
    → Type 0
Planned registry policy run context (clarify d) (clarification_outcome c d') =
    Moves run clarifying c.run × (d' ≡ d)
Planned registry policy run context (complete d) (completion_outcome next d') =
    Moves run completed next × (d' ≡ d)
Planned registry policy run context (tool d) (tool_outcome p d') =
    Chosen registry policy run context d p × (d' ≡ d)
Planned registry policy run context _ _ = ⊥

selected_ok : (r : Result ToolDefinition) {d : ToolDefinition} → selected r ≡ ok d → r ≡ ok d
unfolding selected
selected_ok (ok d) h = h
selected_ok (raise unknown_tool_error) h = cc
selected_ok (raise _) h = h

module _ (registry : ToolRegistry) (policy : Policy) (id now : ℕ) (run : AgentRun)
    (context : ToolPolicyContext) (v : IsValid run) where
  action-Planned :
      (decision : PlannerDecision) {o : PlanningOutcome}
      → apply_action registry policy decision id now run context ≡ ok o
      → Planned registry policy run context decision o
  unfolding apply_action request_clarification require_one_of complete_run
  action-Planned (clarify d) h =
      let (request, _, h₁) = >>=-eq-ok (make_clarification_request d.question d.reason) _ h in
      let (c, asked, h₂) = >>=-eq-ok (request_clarification now run request) _ h₁ in
      let (_, h₃) =
        raise_if-eq-ok (not (contains (received ∷ planning ∷ []) run.status)) agent_service_error _
          asked in
      let (next, t, h₄) = >>=-eq-ok (transition_to now run clarifying) _ h₃ in
      returned (Planned registry policy run context (clarify d)) h₂ (
        returned (λ c. Moves run clarifying c.run) h₄ (transition_to-Moves now run clarifying v t),
        refl,
      )
  action-Planned (complete d) h =
      let (next, done, h₁) = >>=-eq-ok (complete_run now run) _ h in
      let (_, t) =
        raise_if-eq-ok (not (contains (planning ∷ observing ∷ []) run.status)) agent_service_error _
          done in
      returned (Planned registry policy run context (complete d)) h₁
        (transition_to-Moves now run completed v t, refl)
  action-Planned (tool d) h =
      let (definition, found, h₁) = >>=-eq-ok (selected (registry.get d.tool_name)) _ h in
      let (_, accepted, h₂) = >>=-eq-ok (validate_tool_arguments definition d.arguments) _ h₁ in
      let (call, made, h₃) =
        >>=-eq-ok
          (make_tool_call id definition.name d.arguments d.reason d.expected_effect definition.risk)
          _ h₂ in
      let (p, proposed, h₄) = >>=-eq-ok (propose_tool policy now run call context) _ h₃ in
      let built =
        make_tool_call-Built id definition.name d.arguments d.reason d.expected_effect
          definition.risk made in
      let holds = propose_tool-Proposed policy now run call context v proposed in
      let same = holds.same_call in
      returned (Planned registry policy run context (tool d)) h₄ (
        record {
          definition = definition;
          registered = selected_ok (registry.get d.tool_name) found;
          accepted = validate_tool_arguments-Accepted definition d.arguments accepted;
          named = rw same built.named;
          frozen = rw same built.frozen;
          same_risk = rw same built.same_risk;
          proposed = rw same holds;
        },
        refl,
      )

  -- A decision that is applied to a valid run does what it says: a question pauses the run, a
  -- summary completes it, and a tool is proposed only if it is registered and its arguments are
  -- accepted, as a call with the registered risk on which the policy itself decides.
  pub apply_decision-Planned :
      (decision : PlannerDecision) {o : PlanningOutcome}
      → apply_decision registry policy id now run decision context ≡ ok o
      → (run.status ≡ planning) × Planned registry policy run context decision o
  unfolding apply_decision
  apply_decision-Planned decision h =
      let (was, h₁) = raise_if-eq-ok (not (run.status == planning)) agent_planning_error _ h in
      ((status_eq.beq_iff run.status planning).0 (ground arith), action-Planned decision h₁)
