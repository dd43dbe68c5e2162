-- ===== src/Application/Agent/Gate.antt =====
-- What the two gates of a tool call, the policy and the approval, let through.
use kelvin_assistant.Prelude.{
  ℕ, ◌≡◌, refl, sym, subst, Bool, true, false, Option, none, some, Text, not, ◌||◌, ◌==◌, nat_eq,
  arith,
}
use kelvin_assistant.Prelude.Result.{ok, >>=-eq-ok, raise_if-eq-ok, returned, agent_service_error}
use kelvin_assistant.Domain.Agent.Status.{
  AgentStatus, planning, awaiting_approval, executing, status_eq, ToolPolicyDecision, allow,
  require_approval, deny, ApprovalDecision, pending, approved, rejected,
}
use kelvin_assistant.Domain.Agent.Run.{AgentRun, transition_to}
use kelvin_assistant.Domain.Agent.Run.Valid.{IsValid}
use kelvin_assistant.Domain.Agent.Run.Traces.{Moves, transition_to-Moves}
use kelvin_assistant.Domain.Agent.Tools.{
  ToolCall, ToolPolicyResult, ToolApproval, make_tool_approval, check_decision, stripped,
  ToolProposal,
}
use kelvin_assistant.Domain.Agent.Tools.Valid.{Metadata, Decided, make_tool_approval-Metadata}
use kelvin_assistant.Application.ToolPolicy.{ToolPolicyContext}
use kelvin_assistant.Application.Agent.{
  Policy, require_status, apply_policy, propose_tool, is_require_approval, is_pending, waits_for,
  status_after, resolve_approval,
}

-- The approval of a proposal waits for a decision on its call.
pub record Waits (p : ToolProposal) : Type 0 where
  pub approval : ToolApproval
  pub held : p.approval ≡ some approval
  pub undecided : approval.decision ≡ pending
  pub own : approval.tool_call_id ≡ p.call.id

-- What the decision of the policy makes of the run and of the approval.
abbrev pub Gated : ToolPolicyDecision → AgentRun → ToolProposal → Type 0
Gated allow run p = Moves run executing p.run × (p.approval ≡ none)
Gated require_approval run p = Moves run awaiting_approval p.run × Waits p
Gated deny run p = (p.run ≡ run) × (p.approval ≡ none)

pub record Proposed (policy : Policy) (run : AgentRun) (call : ToolCall)
    (context : ToolPolicyContext) (p : ToolProposal) : Type 0 where
  pub was_planning : run.status ≡ planning
  pub same_call : p.call ≡ call
  pub evaluated : policy call context ≡ ok p.policy_result
  pub gated : Gated p.policy_result.decision run p

made_approval :
    (id : ℕ) (d : ApprovalDecision) (by : Option Text) (at : Option ℕ) {a : ToolApproval}
    → make_tool_approval id d by at ≡ ok a
    → (a.tool_call_id ≡ id) × (a.decision ≡ d)
unfolding make_tool_approval
made_approval id d by at {a} h =
    let (u, _, q) = >>=-eq-ok (check_decision d (stripped by) at) _ h in
    returned (λ (x : ToolApproval). (x.tool_call_id ≡ id) × (x.decision ≡ d)) q (refl, refl)

abbrev proposal : AgentRun → ToolCall → ToolPolicyResult → Option ToolApproval → ToolProposal
proposal run call result approval = record {
  run = run;
  call = call;
  policy_result = result;
  approval = approval;
}

module _ (policy : Policy) (now : ℕ) (run : AgentRun) (call : ToolCall)
    (context : ToolPolicyContext) (v : IsValid run) (was : run.status ≡ planning) where
  proposed :
      (result : ToolPolicyResult) {p : ToolProposal}
      → policy call context ≡ ok result
      → (d : ToolPolicyDecision) → result.decision ≡ d
      → apply_policy d now run call result ≡ ok p
      → Proposed policy run call context p
  unfolding apply_policy
  proposed result e allow same h =
      let (next, t, q) = >>=-eq-ok (transition_to now run executing) _ h in
      returned (Proposed policy run call context) q (record {
        was_planning = was;
        same_call = refl;
        evaluated = e;
        gated =
            subst (λ x. Gated x run (proposal next call result none)) (sym same)
              (transition_to-Moves now run executing v t, refl);
      })
  proposed result e require_approval same h =
      let (next, t, q) = >>=-eq-ok (transition_to now run awaiting_approval) _ h in
      let (a, m, q') = >>=-eq-ok (make_tool_approval call.id pending none none) _ q in
      let (own, undecided) = made_approval call.id pending none none m in
      returned (Proposed policy run call context) q' (record {
        was_planning = was;
        same_call = refl;
        evaluated = e;
        gated =
            subst (λ x. Gated x run (proposal next call result (some a))) (sym same)
              (
                transition_to-Moves now run awaiting_approval v t,
                record { approval = a; held = refl; undecided = undecided; own = own },
              );
      })
  proposed result e deny same h = returned (Proposed policy run call context) h (record {
    was_planning = was;
    same_call = refl;
    evaluated = e;
    gated = subst (λ x. Gated x run (proposal run call result none)) (sym same) (refl, refl);
  })

status_of : (run : AgentRun) (s : AgentStatus) → not (run.status == s) ≡ false → run.status ≡ s
status_of run s h = (status_eq.beq_iff run.status s).0 (ground arith)

-- A proposal of a valid run holds the call as it was proposed and the policy's own result for it,
-- and the run is in the state that this result asks for: executing if it allows the call,
-- awaiting a decision on this call if it requires an approval, unchanged if it denies.
pub propose_tool-Proposed :
    (policy : Policy) (now : ℕ) (run : AgentRun) (call : ToolCall) (context : ToolPolicyContext)
    {p : ToolProposal}
    → IsValid run
    → propose_tool policy now run call context ≡ ok p
    → Proposed policy run call context p
unfolding propose_tool require_status
propose_tool-Proposed policy now run call context v h =
    let (was, h₁) = raise_if-eq-ok (not (run.status == planning)) agent_service_error _ h in
    let (result, e, h₂) = >>=-eq-ok (policy call context) _ h₁ in
    proposed policy now run call context v (status_of run planning was) result e result.decision
      refl h₂

-- The proposal `q` is `p` after the decision `d` by a named author.
pub record Resolved (p : ToolProposal) (d : ApprovalDecision) (q : ToolProposal) : Type 0 where
  pub waited : p.run.status ≡ awaiting_approval
  pub before : Waits p
  pub required : p.policy_result.decision ≡ require_approval
  pub final : is_pending d ≡ false
  pub moves : Moves p.run (status_after d) q.run
  pub same_call : q.call ≡ p.call
  pub same_result : q.policy_result ≡ p.policy_result
  pub approval : ToolApproval
  pub held : q.approval ≡ some approval
  pub decision : approval.decision ≡ d
  pub own : approval.tool_call_id ≡ q.call.id
  pub author : Decided approval

requires :
    (d : ToolPolicyDecision) (w : Bool)
    → (not (is_require_approval d) || not w) ≡ false
    → d ≡ require_approval
requires require_approval w h = refl
requires _ w h = cc

waited_for :
    (d : ToolPolicyDecision) (w : Bool) → (not (is_require_approval d) || not w) ≡ false → w ≡ true
waited_for d w h = ground arith

pending_only : (d : ApprovalDecision) → is_pending d ≡ true → d ≡ pending
pending_only pending h = refl
pending_only _ h = cc

-- An approval that the guard accepts waits for a decision on the call.
waiting :
    (p : ToolProposal) (o : Option ToolApproval)
    → p.approval ≡ o
    → waits_for o p.call.id ≡ true
    → Waits p
waiting p none e h = cc
waiting p (some a) e h = record {
  approval = a;
  held = e;
  undecided = pending_only a.decision (ground arith);
  own = (nat_eq.beq_iff a.tool_call_id p.call.id).0 (ground arith);
}

Decided-by_someone :
    (d : ApprovalDecision) (a : ToolApproval) → is_pending d ≡ false → Metadata d a → Decided a
Decided-by_someone pending a f m = cc
Decided-by_someone approved a f m = m
Decided-by_someone rejected a f m = m

-- An approval is resolved only while the run waits and the proposal holds an approval for this very
-- call that is still pending, and only for a call that the policy required an approval for; then it
-- holds a final decision of a named author on the same call, the policy's result is kept, and the run
-- moves to the state of the decision: it executes exactly if the decision is an approval.
pub resolve_approval-Resolved :
    (p : ToolProposal) (d : ApprovalDecision) (by : Text) (at now : ℕ) {q : ToolProposal}
    → IsValid p.run
    → resolve_approval p d by at now ≡ ok q
    → Resolved p d q
unfolding resolve_approval require_status
resolve_approval-Resolved p d by at now v h =
    let (was, h₁) =
      raise_if-eq-ok (not (p.run.status == awaiting_approval)) agent_service_error _ h in
    let (open_approval, h₂) =
      raise_if-eq-ok
        (not (is_require_approval p.policy_result.decision) || not (waits_for p.approval p.call.id))
        agent_service_error _ h₁ in
    let (final, h₃) = raise_if-eq-ok (is_pending d) agent_service_error _ h₂ in
    let (a, m, h₄) = >>=-eq-ok (make_tool_approval p.call.id d (some by) (some at)) _ h₃ in
    let (next, t, q) = >>=-eq-ok (transition_to now p.run (status_after d)) _ h₄ in
    let (own, decision) = made_approval p.call.id d (some by) (some at) m in
    returned (Resolved p d) q (record {
      waited = status_of p.run awaiting_approval was;
      before =
          waiting p p.approval refl
            (waited_for p.policy_result.decision (waits_for p.approval p.call.id) open_approval);
      required = requires (p.policy_result.decision) (waits_for p.approval p.call.id) open_approval;
      final = final;
      moves = transition_to-Moves now p.run (status_after d) v t;
      same_call = refl;
      same_result = refl;
      approval = a;
      held = refl;
      decision = decision;
      own = own;
      author =
          Decided-by_someone d a final
            (make_tool_approval-Metadata p.call.id d (some by) (some at) m);
    })
