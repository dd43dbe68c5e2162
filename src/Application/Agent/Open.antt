-- ===== src/Application/Agent/Open.antt =====
-- What holds of the proposal that is open between two calls: it has passed the gates when its run
-- executes.
use kelvin_assistant.Prelude.{
  ◌≡◌, ◌≢◌, ◌⊎◌, refl, sym, subst, subst₂, ◌∙◌, ap, false, inl, inr, Option, none, some,
}
use kelvin_assistant.Prelude.Result.{ok}
use kelvin_assistant.Domain.Agent.Status.{
  AgentStatus, planning, executing, status_eq, ToolPolicyDecision, allow, require_approval, deny,
  ApprovalDecision, pending, approved, rejected,
}
use kelvin_assistant.Domain.Agent.Run.{AgentRun}
use kelvin_assistant.Domain.Agent.Run.Valid.{IsValid}
use kelvin_assistant.Domain.Agent.Run.Traces.{Moves}
use kelvin_assistant.Domain.Agent.Tools.{ToolCall, ToolApproval, ToolProposal, ToolPolicyResult}
use kelvin_assistant.Domain.Agent.Tools.Valid.{Decided}
use kelvin_assistant.Application.ToolPolicy.{ToolPolicyContext}
use kelvin_assistant.Application.Agent.{Policy, status_after, is_pending}
use kelvin_assistant.Application.Agent.Gate.{Gated, Proposed, Resolved}
use kelvin_assistant.Application.Agent.Calls.{Session}

-- The policy's own result stands in the proposal.
pub record Evaluated (policy : Policy) (p : ToolProposal) : Type 0 where
  pub context : ToolPolicyContext
  pub result : policy p.call context ≡ ok p.policy_result

-- A named author approved this very call.
pub record Approved (p : ToolProposal) : Type 0 where
  pub approval : ToolApproval
  pub held : p.approval ≡ some approval
  pub decision : approval.decision ≡ approved
  pub own : approval.tool_call_id ≡ p.call.id
  pub author : Decided approval

-- The policy allowed the call, or it required an approval and a named author gave it.
abbrev pub Passed : ToolProposal → Type 0
Passed p =
    (p.policy_result.decision ≡ allow)
    ⊎ ((p.policy_result.decision ≡ require_approval) × Approved p)

-- What holds of an open proposal of the run `r`: the rule, which says how the policy evaluated it,
-- and that it has passed the gates when the run executes.
pub record IsOpen (rule : ToolProposal → Type 0) (r : AgentRun) (p : ToolProposal) : Type 0 where
  pub same_run : p.run ≡ r
  pub evaluated : rule p
  pub passed : r.status ≡ executing → Passed p

abbrev pub OpenAll : (ToolProposal → Type 0) → AgentRun → Option ToolProposal → Type 0
OpenAll rule r none = r.status ≢ executing
OpenAll rule r (some p) = IsOpen rule r p

pub record Inv (rule : ToolProposal → Type 0) (s : Session) : Type 0 where
  pub valid : IsValid s.run
  pub open_proposal : OpenAll rule s.run s.proposal

-- A move to another state than executing closes the matter.
pub moved_on :
    (rule : ToolProposal → Type 0) {run r : AgentRun} {t : AgentStatus}
    → Moves run t r
    → t ≢ executing
    → Inv rule (record { run = r; proposal = none })
moved_on rule m other = record { valid = m.valid; open_proposal = λ e. other (sym m.status ∙ e) }

pub Gated-open :
    (rule : ToolProposal → Type 0) (run : AgentRun) (p : ToolProposal)
    → run.status ≡ planning
    → IsValid run
    → rule p
    → (d : ToolPolicyDecision) → p.policy_result.decision ≡ d
    → Gated d run p
    → Inv rule (record { run = p.run; proposal = some p })
Gated-open rule run p was v e allow same g = record {
  valid = g.0.valid;
  open_proposal = record { same_run = refl; evaluated = e; passed = λ _. inl same };
}
Gated-open rule run p was v e require_approval same g = record {
  valid = g.0.valid;
  open_proposal = record {
    same_run = refl;
    evaluated = e;
    passed = λ x. let at = g.0.status in cc;
  };
}
Gated-open rule run p was v e deny same g = record {
  valid = subst IsValid (sym g.0) v;
  open_proposal = record {
    same_run = refl;
    evaluated = e;
    passed =
        λ x. let at : p.run.status ≡ planning = ap (λ (r : AgentRun). r.status) g.0 ∙ was in cc;
  };
}

pub proposed-Inv :
    (rule : ToolProposal → Type 0) (policy : Policy) (run : AgentRun) (call : ToolCall)
    (context : ToolPolicyContext) {p : ToolProposal}
    → IsValid run
    → Proposed policy run call context p
    → rule p
    → Inv rule (record { run = p.run; proposal = some p })
proposed-Inv rule policy run call context {p} v g e =
    Gated-open rule run p g.was_planning v e p.policy_result.decision refl g.gated

-- The policy's own result for the call of a proposal.
pub Proposed-result :
    (policy : Policy) (run : AgentRun) (call : ToolCall) (context : ToolPolicyContext)
    {p : ToolProposal}
    → Proposed policy run call context p
    → policy p.call context ≡ ok p.policy_result
Proposed-result policy run call context {p} g =
    subst (λ c. policy c context ≡ ok p.policy_result) (sym g.same_call) g.evaluated

-- What a resolved approval keeps of the policy's result.
pub Resolved-result :
    (policy : Policy) (p q : ToolProposal) (d : ApprovalDecision) (context : ToolPolicyContext)
    → Resolved p d q
    → policy p.call context ≡ ok p.policy_result
    → policy q.call context ≡ ok q.policy_result
Resolved-result policy p q d context r e =
    subst₂ (λ c x. policy c context ≡ ok x) (sym r.same_call) (sym r.same_result) e

-- An approval that is resolved keeps the call and the policy's result.
pub Resolved-open :
    (rule : ToolProposal → Type 0) (run : AgentRun) (p : ToolProposal) (d : ApprovalDecision)
    {q : ToolProposal}
    → rule q
    → Resolved p d q
    → Inv rule (record { run = q.run; proposal = some q })
Resolved-open rule run p d {q} e r = record {
  valid = r.moves.valid;
  open_proposal = record {
    same_run = refl;
    evaluated = e;
    passed = by_decision d (r.final) (r.decision) (r.moves.status);
  };
}
  where
    by_decision :
        (e : ApprovalDecision)
        → is_pending e ≡ false
        → r.approval.decision ≡ e
        → q.run.status ≡ status_after e
        → q.run.status ≡ executing
        → Passed q
    by_decision pending f c at x = cc
    by_decision rejected f c at x = cc
    by_decision approved f c at x = inr (
      ap (λ (t : ToolPolicyResult). t.decision) r.same_result ∙ r.required,
      record { approval = r.approval; held = r.held; decision = c; own = r.own; author = r.author },
    )
