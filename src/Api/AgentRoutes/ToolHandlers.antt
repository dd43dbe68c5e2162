-- ===== src/Api/AgentRoutes/ToolHandlers.antt =====
-- The safety of the handlers of tool calls: the proposal, its approval, and the client's result.
use kelvin_assistant.Prelude.{
  ℕ, ◌≡◌, sym, subst, ap, Option, Bool, true, false, Bool-cases, inl, inr, Text, codes, not, ◌==◌,
  nat_eq, if◌then◌else◌,
}
use kelvin_assistant.Prelude.Result.{ok}
use kelvin_assistant.Domain.Json.{Fields}
use kelvin_assistant.Domain.Agent.Status.{
  AgentStatus, observing, failed, status_eq, ToolRisk, ToolPolicyDecision, allow, require_approval,
  deny, ApprovalDecision, pending, approved, rejected,
}
use kelvin_assistant.Domain.Agent.Run.{AgentRun}
use kelvin_assistant.Domain.Agent.Run.Valid.{IsValid}
use kelvin_assistant.Domain.Agent.Tools.{ToolProposal, ToolExecutionResult, make_tool_call}
use kelvin_assistant.Application.Agent.{
  propose_tool, status_after, resolve_approval, record_execution_result,
}
use kelvin_assistant.Application.Agent.Gate.{
  Gated, Resolved, propose_tool-Proposed, resolve_approval-Resolved,
}
use kelvin_assistant.Application.Agent.Open.{
  IsOpen, proposed-Inv, Proposed-result, Resolved-result, Resolved-open,
}
use kelvin_assistant.Application.Agent.Moved.{record_execution_result-Moves}
use kelvin_assistant.Adapters.MemoryAgentRuns.{RunStore}
use kelvin_assistant.Adapters.MemoryAgentRuns.Versions.{propose, complete}
use kelvin_assistant.Api.Program.{Event, done, continue_with, ◌>>◌, send}
use kelvin_assistant.Api.AgentRoutes.{
  Services, is_deny, offer, settle, ResultRequest, propose_agent_tool, resolve_agent_tool_approval,
  submit_agent_tool_result, policy_context,
}
use kelvin_assistant.Api.RouteErrors.{proposal_error, approval_error, result_error}
use kelvin_assistant.Api.AgentRoutes.StoreInvariant.{Judged, run_context, is_active, is_idle}
use kelvin_assistant.Api.AgentRoutes.Safe.{Safe, Anything}
use kelvin_assistant.Api.AgentRoutes.Snapshots.{
  get_run-Snapshot, get_proposal-IsOpen, complete-Inv, propose-Inv,
}
use kelvin_assistant.Api.AgentRoutes.Parts.{
  Safe-fetch, Safe-fetch_proposal, Safe-done, Safe-write, Safe-send, Safe-reply, Safe-any,
}

-- A proposal that is not denied moves its run to a state in which it waits on the proposal.
pub Gated-busy :
    (d : ToolPolicyDecision) (run : AgentRun) (p : ToolProposal)
    → is_deny d ≡ false
    → Gated d run p
    → is_idle p.run.status ≡ false
unfolding is_idle
Gated-busy allow run p h g = let at = g.0.status in rw at
Gated-busy require_approval run p h g = let at = g.0.status in rw at
Gated-busy deny run p h g = cc

-- A policy's result in the context of the run before is one in the context of the run after.
Judged-at :
    (services : Services) (p : ToolProposal) (workspace_id : Option Text)
    → p.run.workspace_id ≡ workspace_id
    → services.policy p.call (run_context services workspace_id) ≡ ok p.policy_result
    → Judged services p
Judged-at services p workspace_id e h = record {
  result =
      subst (λ w. services.policy p.call (run_context services w) ≡ ok p.policy_result) (sym e) h;
}

Gated-workspace :
    (d : ToolPolicyDecision) (run : AgentRun) (p : ToolProposal)
    → Gated d run p
    → p.run.workspace_id ≡ run.workspace_id
Gated-workspace allow run p g = g.0.workspace
Gated-workspace require_approval run p g = g.0.workspace
Gated-workspace deny run p g = ap (λ (r : AgentRun). r.workspace_id) g.0

-- A proposal that the policy judged in the context of its run.
pub Judged-of :
    (services : Services) (run : AgentRun) (p : ToolProposal)
    → Gated p.policy_result.decision run p
    → services.policy p.call (policy_context services run.workspace_id) ≡ ok p.policy_result
    → Judged services p
unfolding policy_context
Judged-of services run p g h =
    Judged-at services p run.workspace_id (Gated-workspace p.policy_result.decision run p g) h

Resolved-Judged :
    (services : Services) (p q : ToolProposal) (d : ApprovalDecision)
    → Resolved p d q
    → Judged services p
    → Judged services q
Resolved-Judged services p q d r j =
    Judged-at services q p.run.workspace_id r.moves.workspace
      (Resolved-result services.policy p q d (run_context services p.run.workspace_id) r j.result)

Resolved-busy : (d : ApprovalDecision) {s : AgentStatus} → s ≡ status_after d → is_idle s ≡ false
unfolding is_idle
Resolved-busy pending e = rw e
Resolved-busy approved e = rw e
Resolved-busy rejected e = rw e

recorded-quiet :
    (b : Bool) {s : AgentStatus} → s ≡ (if b then observing else failed) → is_active s ≡ false
unfolding is_active
recorded-quiet true e = rw e
recorded-quiet false e = rw e

-- After a notification that is sent or not, a program goes on.
Safe-maybe :
    {A : Type 0} (services : Services) (t : RunStore) (test : Bool) (x : Event) (a : A)
    → Safe services Anything t ((if test then send x else done (ok tt)) >> done (ok a))
unfolding continue_with
Safe-maybe services t true x a =
    Safe-send services Anything t x (λ _. done (ok a)) (Safe-any services t (ok a))
Safe-maybe services t false x a = Safe-any services t (ok a)

offer-Safe :
    (services : Services) (t : RunStore) (run : AgentRun) (p : ToolProposal)
    → IsValid p.run
    → IsOpen (Judged services) p.run p
    → (is_deny p.policy_result.decision ≡ false → is_idle p.run.status ≡ false)
    → Safe services Anything t (offer run.version p)
offer-Safe services t run p valid open_for busy =
    elim (Bool-cases (is_deny p.policy_result.decision)) [
      | inl e ↦ rw e (Safe-any services t _)
      | inr e ↦ rw e (
          Safe-write services Anything t (propose p) run.version _
            (λ a b f i h. (
              propose-Inv services a b i p run.version valid open_for (busy e) h,
              Safe-maybe services b _ _ p,
            ))
            (λ a x f h. tt))
    ]

settle-Safe :
    (services : Services) (t : RunStore) (now : ℕ) (run : AgentRun) (result : ToolExecutionResult)
    → IsValid run
    → Safe services Anything t (settle now run result)
settle-Safe services t now run result v =
    Safe-done services Anything t (record_execution_result now run result.succeeded) _
      (λ new h.
        let m = record_execution_result-Moves now run v result.succeeded h in
        Safe-write services Anything t (complete new result) run.version _
          (λ a b f i p. (
            complete-Inv services a b i new result run.version m.valid
                (recorded-quiet result.succeeded m.status) p,
            Safe-maybe services b _ _ (new, result),
          ))
          (λ a x f p. tt))
      (λ e. tt)

module _ (services : Services) (s : RunStore) where
  pub propose_agent_tool-Safe :
      (id now run_id : ℕ) (name : Text) (arguments : Fields) (reason expected_effect : Text)
      (risk : ToolRisk)
      → Safe services Anything s
          (propose_agent_tool services id now run_id name arguments reason expected_effect risk)
  unfolding propose_agent_tool
  propose_agent_tool-Safe id now run_id name arguments reason expected_effect risk =
      Safe-reply services s _ proposal_error _ (
        Safe-fetch services Anything s run_id _
          (λ t run i g.
            let valid = (get_run-Snapshot services t run_id run i g).valid in
            let context = policy_context services run.workspace_id in
            Safe-done services Anything t
              (make_tool_call id name arguments reason expected_effect risk) _
              (λ call _.
                Safe-done services Anything t (propose_tool services.policy now run call context) _
                  (λ p h.
                    let g = propose_tool-Proposed services.policy now run call context valid h in
                    let e =
                      Judged-of services run p g.gated
                        (Proposed-result services.policy run call context g) in
                    let opened =
                      proposed-Inv (Judged services) services.policy run call context valid g e in
                    offer-Safe services t run p opened.valid opened.open_proposal
                      (λ e. Gated-busy p.policy_result.decision run p e g.gated))
                  (λ e. tt))
              (λ e. tt))
          (λ t e. tt))

  pub resolve_agent_tool_approval-Safe :
      (now run_id tool_call_id : ℕ) (decision : ApprovalDecision)
      → Safe services Anything s
          (resolve_agent_tool_approval services now run_id tool_call_id decision)
  unfolding resolve_agent_tool_approval
  resolve_agent_tool_approval-Safe now run_id tool_call_id decision =
      Safe-reply services s _ approval_error _ (
        Safe-fetch_proposal services Anything s run_id _
          (λ t p i g.
            let (valid, open_before) = get_proposal-IsOpen services t run_id p i g in
            elim (Bool-cases (not (p.call.id == tool_call_id))) [
              | inl e ↦ rw e (Safe-any services t _)
              | inr e ↦ rw e (
                  Safe-done services Anything t
                    (resolve_approval p decision (codes "local-client") now now) _
                    (λ q h.
                      let r =
                        resolve_approval-Resolved p decision (codes "local-client") now now valid
                          h in
                      let e = Resolved-Judged services p q decision r open_before.evaluated in
                      let opened = Resolved-open (Judged services) p.run p decision e r in
                      Safe-write services Anything t (propose q) p.run.version _
                        (λ a b f j w. (
                          propose-Inv services a b j q p.run.version opened.valid
                              opened.open_proposal (Resolved-busy decision r.moves.status) w,
                          Safe-any services b (ok q),
                        ))
                        (λ a x f w. tt))
                    (λ e. tt))
            ])
          (λ t e. tt))

  pub submit_agent_tool_result-Safe :
      (now run_id : ℕ) (request : ResultRequest)
      → Safe services Anything s (submit_agent_tool_result services now run_id request)
  unfolding submit_agent_tool_result
  submit_agent_tool_result-Safe now run_id request = Safe-reply services s _ result_error _ (
      Safe-fetch_proposal services Anything s run_id _
        (λ t p i g.
          let (valid, _) = get_proposal-IsOpen services t run_id p i g in
          elim (Bool-cases (not (p.call.id == request.tool_call_id))) [
            | inl e ↦ rw e (Safe-any services t _)
            | inr e ↦ rw e (
                Safe-done services Anything t _ _
                  (λ result h. settle-Safe services t now p.run result valid) (λ e. tt))
          ])
        (λ t e. tt))
