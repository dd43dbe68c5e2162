-- ===== src/Application/LocalAgent/Interrupts.antt =====
-- A run of a goal that is interrupted asks the server to cancel the run.
use kelvin_assistant.Prelude.{
  ℕ, ◌≡◌, refl, sym, subst, Bool, true, false, List, [], ◌∷◌, Text, text_eq, nat_eq, not,
  if◌then◌else◌, is_empty, strip,
}
use mathlib.Core.List.{Memᴰ}
use kelvin_assistant.Prelude.Result.{Exception, Result, ok, raise, cancelled_error}
use kelvin_assistant.Domain.Json.{Fields}
use kelvin_assistant.Domain.Agent.Status.{status_eq, risk_eq}
use kelvin_assistant.Domain.Agent.Run.{AgentRun}
use kelvin_assistant.Ports.AgentClient.{
  create_run, cancel_run, Exchange, exchange, Client, done, continue_with, asking, on_value, ◌>>◌,
  try, World, run_client,
}
use kelvin_assistant.Application.LocalAgent.{
  LocalAgentStepResult, LocalReadToolClient, is_bound_to, refuse_if, verify_workspace,
}
use kelvin_assistant.Application.LocalAgent.Careful.{
  Rule, Post, Followed, Careful, Careful->>=, Careful-try, run_client-Careful, Careful-done,
}
use kelvin_assistant.Application.LocalAgent.Goals.{
  cancel_remote_run, on_interrupt, run_goal_loop, run_goal,
}
use kelvin_assistant.Application.LocalAgent.Approvals.{Asked, Anything}

-- No rule.
abbrev free : Rule
free past question = Unit

-- A client of which nothing is asked.
free-Careful : {A : Type 0} (past : List Exchange) (p : Client A) → Careful free Anything past p
unfolding Careful
free-Careful past (done r) = tt
free-Careful past (asking question k) = (tt, λ r. free-Careful (exchange question r ∷ past) (k r))

free_past : (past : List Exchange) → Followed free past
free_past [] = tt
free_past (exchange question answer ∷ past) = (tt, free_past past)

-- The cancellation of the run was asked for.
abbrev CancelAsked : {A : Type 0} → ℕ → Post A
CancelAsked run_id now r =
    (answer : Result AgentRun) × Asked (exchange (cancel_run run_id) answer) now

-- Once it was asked for, it stays in the history.
CancelAsked-Careful :
    {A : Type 0} (run_id : ℕ) (past : List Exchange) (p : Client A)
    → (answer : Result AgentRun) × Asked (exchange (cancel_run run_id) answer) past
    → Careful free (CancelAsked run_id) past p
unfolding Careful
CancelAsked-Careful run_id past (done r) h = h
CancelAsked-Careful run_id past (asking question k) (answer, h) =
    (tt, λ r. CancelAsked-Careful run_id (exchange question r ∷ past) (k r) (answer, Memᴰ.tail h))

module _ (describe : Exception → Text) (same_arguments : Fields → Fields → Bool)
    (client : LocalReadToolClient) where
  -- If the client was interrupted, it has asked to cancel the run.
  abbrev Cancels : {A : Type 0} → ℕ → Post A
  Cancels run_id now r =
      r ≡ raise cancelled_error
      → (answer : Result AgentRun) × Asked (exchange (cancel_run run_id) answer) now

  cancel_remote_run-Cancels :
      (past : List Exchange) (run_id : ℕ)
      → Careful free
          (CancelAsked run_id)
          past
          (cancel_remote_run describe same_arguments client run_id)
  unfolding cancel_remote_run Careful continue_with
  cancel_remote_run-Cancels past run_id =
      (tt, λ r. CancelAsked-Careful run_id _ _ (r, Memᴰ.head refl))

  on_interrupt-Cancels :
      (A : Type 0) (past : List Exchange) (run : AgentRun) (e : Exception)
      → Careful {A = A} free
          (Cancels run.id)
          past
          (on_interrupt describe same_arguments client run e)
  unfolding on_interrupt
  on_interrupt-Cancels A past run cancelled_error =
      Careful->>= free (Cancels run.id) (CancelAsked run.id) past _ _
        (cancel_remote_run-Cancels past run.id)
        (λ now b q. Careful-done free (Cancels run.id) now (raise cancelled_error) (λ _. q))
        (λ now e q _. q)
  on_interrupt-Cancels A past run _ = Careful-done free (Cancels run.id) past _ (λ h. cc)

  interruptible-Cancels :
      {A : Type 0} (past : List Exchange) (run : AgentRun) (p : Client A)
      → Careful free (Cancels run.id) past (try p (on_interrupt describe same_arguments client run))
  interruptible-Cancels past run p =
      Careful-try free (Cancels run.id) Anything past p _ (free-Careful past p) (λ now a q h. cc)
        (λ now e q. on_interrupt-Cancels _ now run e)

  -- If the server has created the run of a goal in the workspace of the client, and the client is
  -- interrupted, then it has asked the server to cancel this very run.
  pub run_goal-cancels :
      (world : World) (goal : Text) (run : AgentRun)
      → world [] (create_run (strip goal) client.workspace_id) ≡ ok run
      → is_bound_to run.workspace_id client.workspace_id ≡ true
      → (run_client world [] (run_goal describe same_arguments client goal)).result
        ≡ raise cancelled_error
      → (answer : Result AgentRun) × Asked
          (exchange (cancel_run run.id) answer)
          (run_client world [] (run_goal describe same_arguments client goal)).history
  unfolding run_goal run_client continue_with verify_workspace
  run_goal-cancels world goal run created bound =
      either (is_empty (strip goal)) _ _ (λ h. cc)
        (subst
          (λ r.
            Finds (exchange (create_run (strip goal) client.workspace_id) r ∷ [])
              (on_value start r))
          (sym created) (bound_to (is_bound_to run.workspace_id client.workspace_id) bound _ _))
    where
      start : AgentRun → Client LocalAgentStepResult
      start r =
          verify_workspace describe same_arguments client r
          >> try (run_goal_loop describe same_arguments client r)
              (on_interrupt describe same_arguments client r)

      Finds : List Exchange → Client LocalAgentStepResult → Type 0
      Finds past p =
          Cancels run.id (run_client world past p).history (run_client world past p).result

      either :
          (b : Bool) (p q : Client LocalAgentStepResult)
          → Finds [] p
          → Finds [] q
          → Finds [] (if b then p else q)
      either true p q h k = h
      either false p q h k = k

      bound_to :
          (b : Bool)
          → b ≡ true
          → (past : List Exchange) (p : Client LocalAgentStepResult)
          → Finds past
              (refuse_if (not b) >> try p (on_interrupt describe same_arguments client run))
      bound_to true e past p =
          (run_client-Careful free (Cancels run.id) world past _ (free_past past)
            (interruptible-Cancels past run p)).1
      bound_to false e past p = cc
