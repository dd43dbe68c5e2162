-- ===== src/Application/Agent/Steps.antt =====
-- A client that calls the service in any order, one call after the other, with the proposal that is
-- open in between: whatever the order, a run executes only a tool call that passed the gates.
use kelvin_assistant.Prelude.{
  ℕ, ◌≡◌, ◌≢◌, refl, sym, subst, Bool, true, false, Option, none, some, Text, if◌then◌else◌,
}
use kelvin_assistant.Prelude.Result.{
  ok, ◌>>◌, >>=-eq-ok, raise_if, raise_if-eq-ok, returned, agent_service_error,
}
use kelvin_assistant.Domain.Agent.Status.{
  AgentStatus, clarifying, planning, executing, observing, completed, cancelled, failed, status_eq,
}
use kelvin_assistant.Domain.Agent.Run.{AgentRun, transition_to, create_run}
use kelvin_assistant.Domain.Agent.Run.Valid.{IsValid, run_post_init-Constructed}
use kelvin_assistant.Domain.Agent.Run.Traces.{transition_to-Moves}
use kelvin_assistant.Domain.Agent.Tools.{ToolProposal}
use kelvin_assistant.Application.Agent.{
  Policy, AgentClarification, start_run, request_clarification, begin_planning,
  record_execution_result, continue_planning, complete_run, fail_run, cancel_run, require_one_of,
  require_status, require_active,
}
use kelvin_assistant.Application.Agent.Gate.{propose_tool-Proposed, resolve_approval-Resolved}
use kelvin_assistant.Application.Agent.Calls.{
  Session, Step, Reaches, clarified, planned, proposed, resolved, recorded, continued, finished,
  broken, stopped, here, next,
}
use kelvin_assistant.Application.Agent.Open.{
  Evaluated, Passed, IsOpen, OpenAll, Inv, moved_on, proposed-Inv, Proposed-result, Resolved-result,
  Resolved-open,
}

module _ (policy : Policy) (now : ℕ) (run : AgentRun) (v : IsValid run) where
  -- A guarded transition, with the guard passed.
  move :
      (t : AgentStatus) {r : AgentRun}
      → t ≢ executing
      → transition_to now run t ≡ ok r
      → Inv (Evaluated policy) (record { run = r; proposal = none })
  move t other h = moved_on (Evaluated policy) (transition_to-Moves now run t v h) other

  guarded :
      (test : Bool) (t : AgentStatus) {r : AgentRun}
      → t ≢ executing
      → (raise_if test agent_service_error >> transition_to now run t) ≡ ok r
      → Inv (Evaluated policy) (record { run = r; proposal = none })
  guarded test t other h =
      let (_, h') = raise_if-eq-ok test agent_service_error (transition_to now run t) h in
      move t other h'

clarifying_ne : clarifying ≢ executing
clarifying_ne e = cc

result_status : (succeeded : Bool) → (if succeeded then observing else failed) ≢ executing
result_status true e = cc
result_status false e = cc

IsOpen-at :
    (policy : Policy) (run : AgentRun) (o : Option ToolProposal) (p : ToolProposal)
    → OpenAll (Evaluated policy) run o
    → o ≡ some p
    → IsOpen (Evaluated policy) run p
IsOpen-at policy run o p h e = subst (OpenAll (Evaluated policy) run) e h

Step-Inv :
    (policy : Policy) {s t : Session}
    → Step policy s t
    → Inv (Evaluated policy) s
    → Inv (Evaluated policy) t
unfolding request_clarification begin_planning record_execution_result continue_planning
    complete_run fail_run cancel_run require_one_of require_status require_active
Step-Inv policy {s} (clarified now request h) i =
    let (_, h₁) = raise_if-eq-ok _ agent_service_error _ h in
    let (r, t, q) = >>=-eq-ok (transition_to now s.run clarifying) _ h₁ in
    returned
      (λ (c : AgentClarification). Inv (Evaluated policy) (record { run = c.run; proposal = none }))
      q (move policy now s.run i.valid clarifying clarifying_ne t)
Step-Inv policy {s} (planned now h) i = guarded policy now s.run i.valid _ planning (λ e. cc) h
Step-Inv policy {s} (proposed now call context h) i =
    let g = propose_tool-Proposed policy now s.run call context i.valid h in
    proposed-Inv (Evaluated policy) policy s.run call context i.valid g
      (record { context = context; result = Proposed-result policy s.run call context g })
Step-Inv policy {s} (resolved p d by at now e h) i =
    let o = IsOpen-at policy s.run s.proposal p i.open_proposal e in
    let r = resolve_approval-Resolved p d by at now (subst IsValid (sym o.same_run) i.valid) h in
    let c = o.evaluated.context in
    Resolved-open (Evaluated policy) s.run p d
      (record { context = c; result = Resolved-result policy p _ d c r o.evaluated.result }) r
Step-Inv policy {s} (recorded now succeeded h) i =
    guarded policy now s.run i.valid _ _ (result_status succeeded) h
Step-Inv policy {s} (continued now h) i = guarded policy now s.run i.valid _ planning (λ e. cc) h
Step-Inv policy {s} (finished now h) i = guarded policy now s.run i.valid _ completed (λ e. cc) h
Step-Inv policy {s} (broken now h) i = guarded policy now s.run i.valid _ failed (λ e. cc) h
Step-Inv policy {s} (stopped now h) i = guarded policy now s.run i.valid _ cancelled (λ e. cc) h

Reaches-Inv :
    (policy : Policy) {s t : Session}
    → Inv (Evaluated policy) s
    → Reaches policy s t
    → Inv (Evaluated policy) t
Reaches-Inv policy i here = i
Reaches-Inv policy i (next r st) = Step-Inv policy st (Reaches-Inv policy i r)

abbrev pub opened : AgentRun → Session
opened run = record { run = run; proposal = none }

start-Inv :
    (policy : Policy) (id now : ℕ) (goal : Text) (max_steps : ℕ) (w : Option Text) {run : AgentRun}
    → start_run id now goal max_steps w ≡ ok run
    → Inv (Evaluated policy) (opened run)
unfolding start_run create_run
start-Inv policy id now goal max_steps w h =
    let c = run_post_init-Constructed now _ h in
    record { valid = c.valid; open_proposal = λ e. let at = c.status in cc }

-- The call that a session executes.
pub record Executing (policy : Policy) (s : Session) : Type 0 where
  pub proposal : ToolProposal
  pub held : s.proposal ≡ some proposal
  pub evaluated : Evaluated policy proposal
  pub passed : Passed proposal

executing_of :
    (policy : Policy) (run : AgentRun) (o : Option ToolProposal)
    → OpenAll (Evaluated policy) run o
    → run.status ≡ executing
    → Executing policy (record { run = run; proposal = o })
executing_of policy run none h e = absurd (h e)
executing_of policy run (some p) h e = record {
  proposal = p;
  held = refl;
  evaluated = h.evaluated;
  passed = h.passed e;
}

-- Whatever calls of the service follow the start of a run, in any order: when the run is executing,
-- it has an open proposal, the policy evaluated exactly its call, and either the policy allowed
-- that call or it required an approval and a named author approved that call.
pub executing_only_after_gates :
    (policy : Policy) (id now : ℕ) (goal : Text) (max_steps : ℕ) (w : Option Text) (run : AgentRun)
    (s : Session)
    → start_run id now goal max_steps w ≡ ok run
    → Reaches policy (opened run) s
    → s.run.status ≡ executing
    → Executing policy s
executing_only_after_gates policy id now goal max_steps w run s started r e =
    executing_of policy s.run s.proposal
      (Reaches-Inv policy (start-Inv policy id now goal max_steps w started) r).open_proposal e
