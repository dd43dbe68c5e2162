-- ===== src/Application/LocalAgent/Approvals.antt =====
-- The client executes no tool that changes state unless the user has seen and approved it.
use kelvin_assistant.Prelude.{
  ℕ, ◌≡◌, ◌⊎◌, refl, ◌∙◌, inr, Bool, true, false, List, ◌∷◌, Text, text_eq, nat_eq, not, ◌==◌,
  if◌then◌else◌, arith,
}
use mathlib.Core.List.{Memᴰ}
use kelvin_assistant.Prelude.Result.{
  Exception, Result, ok, raise, raise_if, local_agent_client_error, tool_execution_error,
  approval_rejected_error,
}
use kelvin_assistant.Domain.Json.{Fields}
use kelvin_assistant.Domain.Agent.Status.{cancelled, executing, status_eq, read, risk_eq}
use kelvin_assistant.Domain.Agent.Tools.{ToolCall, ToolProposal}
use kelvin_assistant.Ports.AgentClient.{
  ToolExecutor, resolve_approval, execute, preview, approval_handler, Exchange, exchange, Client,
  done, ◌>>◌, ask,
}
use kelvin_assistant.Application.LocalAgent.{
  LocalReadToolClient, refuse_if, same_call, verify_workspace, submit_decision, reject_unseen,
  resolve_write_approval,
}
use kelvin_assistant.Application.LocalAgent.Careful.{
  Rule, Post, Careful, Careful->>=, Careful-try, Careful-ask, Careful-value, Careful-done,
  Careful-last,
}

-- Something that was asked and answered is in the history.
abbrev pub Asked : Exchange → List Exchange → Type 0
Asked = Memᴰ

abbrev pub Anything : {A : Type 0} → Post A
Anything past r = Unit

-- A test that has to fail, and what comes after it.
pub Careful-refuse :
    {A : Type 0} (rule : Rule) (Q : Post A) (past : List Exchange) (test : Bool) (q : Client A)
    → (test ≡ false → Careful rule Q past q)
    → ((e : Exception) → Q past (raise e))
    → Careful rule Q past (refuse_if test >> q)
Careful-refuse rule Q past test q next failed =
    Careful-value rule Q past _ _ (λ b h. next (went test h)) failed
  where
    went : (t : Bool) {u : Unit {0}} → raise_if t local_agent_client_error ≡ ok u → t ≡ false
    went true h = cc
    went false h = refl

-- A test that has to fail, at the end.
pub Careful-refuse_last :
    (rule : Rule) (Q : Post (Unit {0})) (past : List Exchange) (test : Bool)
    → (test ≡ false → Q past (ok tt))
    → ((e : Exception) → Q past (raise e))
    → Careful rule Q past (refuse_if test)
Careful-refuse_last rule Q past true last failed =
    Careful-done rule Q past _ (failed local_agent_client_error)
Careful-refuse_last rule Q past false last failed = Careful-done rule Q past _ (last refl)

module _ (describe : Exception → Text) (same_arguments : Fields → Fields → Bool)
    (client : LocalReadToolClient) where
  -- The user saw the preview of the call that is executed and approved it, and the server answered
  -- to this approval with the same call, of a run that executes.
  pub record Confirmed (past : List Exchange) (executor : ToolExecutor) (call : ToolCall)
      : Type 0 where
    pub shown : ToolCall
    pub content : Text
    pub run_id : ℕ
    pub answer : ToolProposal
    pub previewed : Asked (exchange (preview executor shown) (ok content)) past
    pub approved : Asked (exchange (approval_handler content) (ok true)) past
    pub resolved : Asked (exchange (resolve_approval run_id shown.id true) (ok answer)) past
    pub same : same_call describe same_arguments client call shown ≡ true
    pub answered : answer.call ≡ call
    pub executes : answer.run.status ≡ executing

  -- A tool is executed for a call of its name and its risk, and only if it is a read tool or its call
  -- was confirmed.
  abbrev pub Cautious : Rule
  Cautious past (execute executor call) =
      (call.name ≡ executor.definition.name)
      × (call.risk ≡ executor.definition.risk)
      × ((executor.definition.risk ≡ read) ⊎ Confirmed past executor call)
  Cautious past _ = Unit

  -- A proposal that is ready for its executor
  abbrev pub Ready : ToolExecutor → Post ToolProposal
  Ready executor past (ok p) = Cautious past (execute executor p.call)
  Ready executor past (raise e) = Unit

  same_call_sound :
      (a b : ToolCall)
      → not (same_call describe same_arguments client a b) ≡ false
      → (a.name ≡ b.name) × (a.risk ≡ b.risk)
  same_call_sound a b h = (
    (text_eq.beq_iff a.name b.name).0 (ground arith),
    (risk_eq.beq_iff a.risk b.risk).0 (ground arith),
  )

  decided-Careful :
      (past : List Exchange) (p q : ToolProposal) (executor : ToolExecutor) (content : Text)
      (run_id : ℕ) (approved : Bool)
      → p.call.name ≡ executor.definition.name
      → p.call.risk ≡ executor.definition.risk
      → Asked (exchange (preview executor p.call) (ok content)) past
      → Asked (exchange (approval_handler content) (ok approved)) past
      → Asked (exchange (resolve_approval run_id p.call.id approved) (ok q)) past
      → not (same_call describe same_arguments client q.call p.call) ≡ false
      → Careful Cautious (Ready executor) past (
          if not approved
          then (refuse_if (not (q.run.status == cancelled)) >> done (raise approval_rejected_error))
          else (refuse_if (not (q.run.status == executing)) >> done (ok q)))
  decided-Careful past p q executor content run_id false name risk saw said told same =
      Careful-refuse Cautious (Ready executor) past _ _
        (λ _. Careful-done Cautious (Ready executor) past _ tt) (λ e. tt)
  decided-Careful past p q executor content run_id true name risk saw said told same =
      Careful-refuse Cautious (Ready executor) past _ _
        (λ at.
          let (same_name, same_risk) = same_call_sound q.call p.call same in
          Careful-done Cautious (Ready executor) past (ok q) (
            same_name ∙ name,
            same_risk ∙ risk,
            inr (record {
              shown = p.call;
              content = content;
              run_id = run_id;
              answer = q;
              previewed = saw;
              approved = said;
              resolved = told;
              same = ground arith;
              answered = refl;
              executes = (status_eq.beq_iff q.run.status executing).0 (ground arith);
            }),
          ))
        (λ e. tt)

  submit_decision-Careful :
      (past : List Exchange) (p : ToolProposal) (executor : ToolExecutor) (content : Text)
      (approved : Bool)
      → p.call.name ≡ executor.definition.name
      → p.call.risk ≡ executor.definition.risk
      → Asked (exchange (preview executor p.call) (ok content)) past
      → Asked (exchange (approval_handler content) (ok approved)) past
      → Careful Cautious
          (Ready executor)
          past
          (submit_decision describe same_arguments client p approved)
  unfolding submit_decision verify_workspace
  submit_decision-Careful past p executor content approved name risk saw said =
      Careful-ask Cautious (Ready executor) past (resolve_approval p.run.id p.call.id approved) _ tt
        (λ q.
          Careful-refuse Cautious (Ready executor) _ _ _
            (λ bound.
              Careful-refuse Cautious (Ready executor) _ _ _
                (λ same.
                  decided-Careful _ p q executor content p.run.id approved name risk (Memᴰ.tail saw)
                    (Memᴰ.tail said) (Memᴰ.head refl) same)
                (λ e. tt))
            (λ e. tt))
        (λ e. tt)

  reject_unseen-Careful :
      {A : Type 0} (Q : Post A)
      → ((now : List Exchange) (e : Exception) → Q now (raise e))
      → (past : List Exchange) (p : ToolProposal) (e : Exception)
      → Careful Cautious Q past (reject_unseen describe same_arguments client p e)
  unfolding reject_unseen
  reject_unseen-Careful Q ends past p tool_execution_error =
      Careful-ask Cautious Q past (resolve_approval p.run.id p.call.id false) _ tt
        (λ a. Careful-done Cautious Q _ _ (ends _ tool_execution_error)) (λ e. ends _ e)
  reject_unseen-Careful Q ends past p _ = Careful-done Cautious Q past _ (ends past _)

  pub resolve_write_approval-Careful :
      (past : List Exchange) (p : ToolProposal) (executor : ToolExecutor)
      → p.call.name ≡ executor.definition.name
      → p.call.risk ≡ executor.definition.risk
      → Careful Cautious
          (Ready executor)
          past
          (resolve_write_approval describe same_arguments client p executor)
  unfolding resolve_write_approval
  resolve_write_approval-Careful past p executor name risk =
      Careful-refuse Cautious (Ready executor) past _ _
        (λ _.
          Careful-refuse Cautious (Ready executor) past _ _
            (λ _.
              Careful-refuse Cautious (Ready executor) past _ _
                (λ _.
                  Careful->>= Cautious (Ready executor) Seen past _ _
                    (Careful-try Cautious Seen Seen past (ask (preview executor p.call)) _
                      (Careful-last Cautious (preview executor p.call) Seen past tt seen)
                      (λ now content saw. saw)
                      (λ now e _. reject_unseen-Careful Seen (λ _ _. tt) now p e))
                    (λ now content saw.
                      Careful-ask Cautious (Ready executor) now (approval_handler content) _ tt
                        (λ approved.
                          submit_decision-Careful _ p executor content approved name risk
                            (Memᴰ.tail saw) (Memᴰ.head refl))
                        (λ e. tt))
                    (λ now e q. tt))
                (λ e. tt))
            (λ e. tt))
        (λ e. tt)
    where
      Seen : Post Text
      Seen now (ok content) = Asked (exchange (preview executor p.call) (ok content)) now
      Seen now (raise e) = Unit

      seen : (r : Result Text) → Seen (exchange (preview executor p.call) r ∷ past) r
      seen (ok content) = (Memᴰ.head refl)
      seen (raise e) = tt
