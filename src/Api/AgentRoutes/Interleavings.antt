-- ===== src/Api/AgentRoutes/Interleavings.antt =====
-- What holds of the run store whatever requests arrive, and in whatever order their steps are made.
use Prim.Native.Nat.{zero, suc}
use kelvin_assistant.Prelude.{
  ℕ, ◌≡◌, ◌⊎◌, refl, ◌∙◌, ap, subst, inl, inr, Option, none, some, List, [], ◌∷◌, codes, true,
  nat_eq,
}
use kelvin_assistant.Prelude.Dict.{get}
use kelvin_assistant.Prelude.Result.{ok}
use kelvin_assistant.Domain.Json.{lookup}
use kelvin_assistant.Domain.Agent.Status.{
  executing, ToolPolicyDecision, allow, require_approval, read, write,
}
use kelvin_assistant.Domain.Agent.Run.{AgentRun}
use kelvin_assistant.Domain.Agent.Run.Valid.{IsValid}
use kelvin_assistant.Domain.Agent.Tools.{ToolProposal, is_given}
use kelvin_assistant.Application.ToolPolicy.{ToolPolicyContext, evaluate, or_null}
use kelvin_assistant.Application.ToolPolicy.Branches.{decision_of, SafePath}
use kelvin_assistant.Application.ToolPolicy.Decisions.{
  Admitted, evaluate-allow, evaluate-require_approval,
}
use kelvin_assistant.Application.Agent.Open.{Passed, Approved}
use kelvin_assistant.Adapters.MemoryAgentRuns.{RunStore}
use kelvin_assistant.Api.Program.{Program, advance}
use kelvin_assistant.Api.Responses.{Response}
use kelvin_assistant.Api.AgentRoutes.{Services}
use kelvin_assistant.Api.AgentRoutes.StoreInvariant.{
  Inv, Holds, Judged, run_context, Evolves, Evolves-refl, is_active,
}
use kelvin_assistant.Api.AgentRoutes.Additions.{Inv-empty}
use kelvin_assistant.Api.AgentRoutes.Safe.{Safe, Anything, Safe-later, advance-Safe}
use kelvin_assistant.Api.AgentRoutes.Snapshots.{stored-Entry}
use kelvin_assistant.Api.AgentRoutes.Handlers.{
  create_agent_run-Safe, list_agent_runs-Safe, get_agent_run-Safe, get_active_agent_tool-Safe,
  cancel_agent_run-Safe, begin_agent_planning-Safe,
}
use kelvin_assistant.Api.AgentRoutes.ToolHandlers.{
  propose_agent_tool-Safe, resolve_agent_tool_approval-Safe, submit_agent_tool_result-Safe,
}
use kelvin_assistant.Api.AgentRoutes.PlanNext.{plan_next_agent_step-Safe}
use kelvin_assistant.Api.AgentRoutes.System.{
  Request, post_run, get_runs, get_one, post_cancel, post_planning, post_next, post_tool,
  post_approval, get_active, post_result, handle, System, Move, arrive, turn, take_turn, make_move,
  run_system, started,
}

handle-Safe :
    (services : Services) (s : RunStore) (request : Request)
    → Safe services Anything s (handle services request)
unfolding handle
handle-Safe services s (post_run id now correlation_id goal max_steps workspace_id) =
    create_agent_run-Safe services s id now correlation_id goal max_steps workspace_id
handle-Safe services s get_runs = list_agent_runs-Safe services s
handle-Safe services s (get_one now run_id) = get_agent_run-Safe services s now run_id
handle-Safe services s (post_cancel now run_id) = cancel_agent_run-Safe services s now run_id
handle-Safe services s (post_planning now run_id) = begin_agent_planning-Safe services s now run_id
handle-Safe services s (post_next id now correlation_id run_id turns observation) =
    plan_next_agent_step-Safe services s id now correlation_id run_id turns observation
handle-Safe services s (post_tool id now run_id name arguments reason expected_effect risk) =
    propose_agent_tool-Safe services s id now run_id name arguments reason expected_effect risk
handle-Safe services s (post_approval now run_id tool_call_id decision) =
    resolve_agent_tool_approval-Safe services s now run_id tool_call_id decision
handle-Safe services s (get_active run_id) = get_active_agent_tool-Safe services s run_id
handle-Safe services s (post_result now run_id request) =
    submit_agent_tool_result-Safe services s now run_id request

-- Every request that is being handled is safe to go on with.
abbrev AllSafe : Services → RunStore → List (Program Response) → Type 0
AllSafe services s [] = Unit
AllSafe services s (p ∷ ps) = Safe services Anything s p × AllSafe services s ps

-- The store is in order, and stays so.
abbrev Good : Services → System → Type 0
Good services system = Inv services system.store × AllSafe services system.store system.running

AllSafe-later :
    (services : Services) (s t : RunStore) (ps : List (Program Response))
    → Evolves s t
    → AllSafe services s ps
    → AllSafe services t ps
AllSafe-later services s t [] e h = tt
AllSafe-later services s t (p ∷ ps) e (h, hs) =
    (Safe-later services Anything p s t (λ r q. tt) e h, AllSafe-later services s t ps e hs)

take_turn-Good :
    (services : Services) (i : ℕ) (s : RunStore) (ps : List (Program Response))
    → Inv services s
    → AllSafe services s ps
    → Good services (take_turn i s ps) × Evolves s (take_turn i s ps).store
unfolding take_turn
take_turn-Good services zero s [] v h = ((v, tt), Evolves-refl s)
take_turn-Good services (suc i) s [] v h = ((v, tt), Evolves-refl s)
take_turn-Good services zero s (p ∷ ps) v (h, hs) =
    let (j, e, rest) = advance-Safe services Anything p s v h in
    ((j, (rest, AllSafe-later services s (advance p s).store ps e hs)), e)
take_turn-Good services (suc i) s (p ∷ ps) v (h, hs) =
    let ((j, rest), e) = take_turn-Good services i s ps v hs in
    ((j, (Safe-later services Anything p s (take_turn i s ps).store (λ r q. tt) e h, rest)), e)

make_move-Good :
    (services : Services) (move : Move) (system : System)
    → Good services system
    → Good services (make_move services move system)
unfolding make_move
make_move-Good services (arrive request) system (v, hs) =
    (v, (handle-Safe services system.store request, hs))
make_move-Good services (turn i) system (v, hs) =
    (take_turn-Good services i system.store system.running v hs).0

run_system-Good :
    (services : Services) (moves : List Move) (system : System)
    → Good services system
    → Good services (run_system services moves system)
unfolding run_system
run_system-Good services [] system h = h
run_system-Good services (move ∷ moves) system h =
    run_system-Good services moves (make_move services move system)
      (make_move-Good services move system h)

module _ (services : Services) (moves : List Move) (id : ℕ) (run : AgentRun) where
  abbrev reached : RunStore
  reached = (run_system services moves started).store

  -- Whatever requests arrive and however their steps interleave, a run that is stored is valid and
  -- stored under its own identifier, and the proposal that is stored with it is of this very run
  -- and holds the policy's own result for its call and the workspace of the run: there is one while
  -- the run waits for an approval or executes, and none before it plans, while it plans, asks or
  -- observes.
  pub run_system-Holds :
      get reached.runs id ≡ some run
      → (run.id ≡ id) × IsValid run × Holds services run (get reached.proposals id)
  run_system-Holds g =
      stored-Entry services reached id run
        (run_system-Good services moves started (Inv-empty services, tt)).0 g

  -- Whatever requests arrive and however their steps interleave, a stored run that executes has a
  -- stored proposal on whose call the policy itself decided, and either the policy allowed it, or it
  -- required an approval and a named author approved this very call.
  pub executing-Passed :
      get reached.runs id ≡ some run
      → run.status ≡ executing
      → (p : ToolProposal) × (get reached.proposals id ≡ some p)
        × (p.run ≡ run)
        × Judged services p
        × Passed p
  unfolding is_active
  executing-Passed g at =
      let (_, _, holds) = run_system-Holds g in
      held (get reached.proposals id) refl (holds.proposed (rw at refl)) holds
    where
      held :
          (o : Option ToolProposal)
          → get reached.proposals id ≡ o
          → is_given o ≡ true
          → Holds services run (get reached.proposals id)
          → (p : ToolProposal) × (get reached.proposals id ≡ some p)
            × (p.run ≡ run)
            × Judged services p
            × Passed p
      held none e h holds = cc
      held (some p) e h holds =
          let o = holds.open_proposal p e in (p, e, o.same_run, o.evaluated, o.passed at)

-- What the default policy of the application has let through for a run: the workspace of the run is
-- authorized, and the tool is one that reads, or one that writes, with an approval.
pub record Screened (services : Services) (p : ToolProposal) : Type 0 where
  pub authorized : services.is_authorized p.run.workspace_id ≡ true
  pub admitted :
      Admitted services.registry p.call (run_context services p.run.workspace_id) read
      ⊎ (Admitted services.registry p.call (run_context services p.run.workspace_id) write
          × SafePath (or_null (lookup p.call.arguments (codes "path")))
          × Approved p)

Passed-Screened :
    (services : Services) (p : ToolProposal)
    → services.policy ≡ evaluate services.registry
    → Judged services p
    → Passed p
    → Screened services p
Passed-Screened services p wired judged passed = elim passed [
  | inl allowed ↦
      let a = (evaluate-allow services.registry p.call context).0 (decided allow allowed) in
      record { authorized = a.authorized; admitted = inl a }
  | inr (required, approved) ↦
      let (a, safe) =
        (evaluate-require_approval services.registry p.call context).0
          (decided require_approval required) in
      record { authorized = a.authorized; admitted = inr (a, safe, approved) }
]
  where
    context : ToolPolicyContext
    context = run_context services p.run.workspace_id

    decided :
        (d : ToolPolicyDecision)
        → p.policy_result.decision ≡ d
        → decision_of (evaluate services.registry p.call (run_context services p.run.workspace_id))
          ≡ some d
    decided d same =
        ap decision_of (
          subst (λ f. f p.call (run_context services p.run.workspace_id) ≡ ok p.policy_result) wired
            judged.result)
        ∙ ap some same

-- With the default policy, whatever requests arrive and however their steps interleave: a stored run
-- that executes is in a workspace that the host authorizes, and has a stored proposal, of this very
-- run, of a registered tool with the risk of the call, whose arguments name no other workspace than
-- that of the run. It is a read tool; or it is a write tool, a named author approved this very call,
-- and its path, if it has one, has no two dots in a row and begins neither with a slash or a
-- backslash nor with a drive letter and a colon.
pub executing-Screened :
    (services : Services) (moves : List Move) (id : ℕ) (run : AgentRun)
    → services.policy ≡ evaluate services.registry
    → get (run_system services moves started).store.runs id ≡ some run
    → run.status ≡ executing
    → (p : ToolProposal) × (get (run_system services moves started).store.proposals id ≡ some p)
      × (p.run ≡ run)
      × Screened services p
executing-Screened services moves id run wired g at =
    let (p, held, same, e, passed) = executing-Passed services moves id run g at in
    (p, held, same, Passed-Screened services p wired e passed)
