-- ===== src/Api/AgentRoutes/Handlers.antt =====
-- The safety of the handlers that read and write the run store.
use kelvin_assistant.Prelude.{
  ℕ, ◌≡◌, ◌⊎◌, true, false, Bool-cases, inl, inr, Option, Text, not, nat_eq, arith,
}
use kelvin_assistant.Prelude.Result.{Result, ok, raise, http_error}
use kelvin_assistant.Domain.Agent.Status.{
  AgentStatus, received, planning, cancelled, failed, status_eq, allowed_transitions,
}
use kelvin_assistant.Domain.Agent.Status.Graph.{Edge}
use kelvin_assistant.Domain.Agent.Run.{AgentRun}
use kelvin_assistant.Domain.Agent.Run.Valid.{IsValid}
use kelvin_assistant.Application.Agent.{start_run, begin_planning, cancel_run}
use kelvin_assistant.Application.Agent.Moved.{
  start_run-IsValid, begin_planning-Moves, cancel_run-Moves,
}
use kelvin_assistant.Adapters.MemoryAgentRuns.{RunStore}
use kelvin_assistant.Adapters.MemoryAgentRuns.Versions.{Write, update, cancel, perform}
use kelvin_assistant.Api.Program.{done, ◌>>=◌, ◌>>◌, add, write, fetch, fetch_proposal}
use kelvin_assistant.Api.AgentRoutes.{
  Services, create_agent_run, list_agent_runs, get_agent_run, cancel_agent_run,
  begin_agent_planning, get_active_agent_tool,
}
use kelvin_assistant.Api.RouteErrors.{creation_error, change_error}
use kelvin_assistant.Api.AgentRoutes.StoreInvariant.{Inv, Evolves, is_active, is_idle}
use kelvin_assistant.Api.AgentRoutes.Safe.{Safe, Anything}
use kelvin_assistant.Api.AgentRoutes.Snapshots.{Snapshot, get_run-Snapshot, update-Inv, cancel-Inv}
use kelvin_assistant.Api.AgentRoutes.Parts.{
  Safe-fetch, Safe-done, Safe-write, Safe-send, Safe-raising, Safe-reply, Safe-any, Safe-add,
  Safe-fetch_all, Safe-fetch_steps, Safe-reading,
}

-- A run that may start to plan is idle.
pub Edge-idle : (s : AgentStatus) → Edge s planning → is_idle s ≡ true
unfolding is_idle allowed_transitions
Edge-idle s e = ground arith

quiet : (s : AgentStatus) → s ≡ received → is_active s ≡ false
unfolding is_active
quiet s e = rw e

pub planning-quiet : {s : AgentStatus} → s ≡ planning → is_active s ≡ false
unfolding is_active
planning-quiet e = rw e

pub closed-quiet : {s : AgentStatus} → (s ≡ cancelled) ⊎ (s ≡ failed) → is_active s ≡ false
unfolding is_active
closed-quiet (inl e) = rw e
closed-quiet (inr e) = rw e

module _ (services : Services) (s : RunStore) where
  created-Safe :
      (r : Result AgentRun)
      → ((run : AgentRun) → r ≡ ok run → IsValid run × (run.status ≡ received))
      → Safe services Anything s (done r >>= λ run. add run >> done (ok run))
  created-Safe r h =
      Safe-done services Anything s r _
        (λ run g.
          Safe-add services Anything s run _ (h run g).0 (quiet run.status (h run g).1)
            (λ t. Safe-any services t (ok run)) (λ t e. tt))
        (λ e. tt)

  pub create_agent_run-Safe :
      (id now : ℕ) (correlation_id : Option ℕ) (goal : Text) (max_steps : ℕ)
      (workspace_id : Option Text)
      → Safe services Anything s
          (create_agent_run services id now correlation_id goal max_steps workspace_id)
  unfolding create_agent_run
  create_agent_run-Safe id now correlation_id goal max_steps workspace_id =
      Safe-send services Anything s _ _
        (elim (Bool-cases (not (services.input_guard goal).is_safe)) [
          | inl e ↦ rw e (Safe-any services s (raise (http_error 400)))
          | inr e ↦ rw e (
              Safe-reply services s _ creation_error _ (
                created-Safe (start_run id now goal max_steps workspace_id)
                  (λ run. start_run-IsValid id now goal max_steps workspace_id)))
        ])

  pub list_agent_runs-Safe : Safe services Anything s (list_agent_runs services)
  unfolding list_agent_runs
  list_agent_runs-Safe = Safe-fetch_all services Anything s _ (λ t runs. Safe-any services t _)

  pub get_agent_run-Safe :
      (now run_id : ℕ) → Safe services Anything s (get_agent_run services now run_id)
  unfolding get_agent_run
  get_agent_run-Safe now run_id = Safe-raising services s _ _ (
      Safe-fetch services Anything s run_id _
        (λ t run i g.
          Safe-fetch_steps services Anything t run_id _ (λ u steps. Safe-any services u _))
        (λ t e. tt))

  pub get_active_agent_tool-Safe :
      (run_id : ℕ) → Safe services Anything s (get_active_agent_tool services run_id)
  unfolding get_active_agent_tool
  get_active_agent_tool-Safe run_id =
      Safe-reply services s (fetch_proposal run_id) _ _ (Safe-reading services s run_id)

  -- A handler that reads a run, moves it and writes it.
  moving :
      (run_id : ℕ) (next : AgentRun → Result AgentRun) (w : AgentRun → Write)
      → ((t u v : RunStore) (run new : AgentRun)
          → Snapshot t run
          → next run ≡ ok new
          → Evolves t u
          → Inv services u
          → perform u (w new) run.version ≡ ok v
          → Inv services v)
      → Safe services Anything s (
          fetch run_id >>= λ current.
          done (next current) >>= λ new. write (w new) current.version >> done (ok new))
  moving run_id next w keeps =
      Safe-fetch services Anything s run_id _
        (λ t run i g.
          Safe-done services Anything t (next run) _
            (λ new h.
              Safe-write services Anything t (w new) run.version _
                (λ u v e j p. (
                  keeps t u v run new (get_run-Snapshot services t run_id run i g) h e j p,
                  Safe-any services v (ok new),
                ))
                (λ a x e p. tt))
            (λ e. tt))
        (λ t e. tt)

  pub cancel_agent_run-Safe :
      (now run_id : ℕ) → Safe services Anything s (cancel_agent_run services now run_id)
  unfolding cancel_agent_run
  cancel_agent_run-Safe now run_id = Safe-reply services s _ change_error _ (
      moving run_id (cancel_run now) cancel (λ t u v run new known h e j p.
        let m = cancel_run-Moves now run known.valid h in
        cancel-Inv services u v j new run.version m.valid (closed-quiet (inl m.status)) p))

  pub begin_agent_planning-Safe :
      (now run_id : ℕ) → Safe services Anything s (begin_agent_planning services now run_id)
  unfolding begin_agent_planning
  begin_agent_planning-Safe now run_id = Safe-reply services s _ change_error _ (
      moving run_id (begin_planning now) update (λ t u v run new known h e j p.
        let m = begin_planning-Moves now run known.valid h in
        update-Inv services u v j t run new known (Edge-idle run.status m.allowed) e m.id m.valid
          (planning-quiet m.status) p))
