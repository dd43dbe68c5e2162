-- ===== src/Api/AgentRoutes/PlanNext.antt =====
-- The safety of `plan_next_agent_step`, stage by stage.
use kelvin_assistant.Prelude.{
  ℕ, ◌≡◌, ◌⊎◌, refl, sym, ap, subst, true, false, Bool-cases, inl, inr, Option, some, List, Text,
  ◌==◌, nat_eq, nat_beq_iff, arith,
}
use kelvin_assistant.Prelude.Result.{Result, ok, raise}
use kelvin_assistant.Domain.Agent.Status.{clarifying, planning, failed, completed, status_eq}
use kelvin_assistant.Domain.Agent.Run.{AgentRun}
use kelvin_assistant.Domain.Agent.Run.Traces.{Moves}
use kelvin_assistant.Application.Agent.{fail_run}
use kelvin_assistant.Application.Agent.Moved.{fail_run-Moves, prepare_run-Moves}
use kelvin_assistant.Application.AgentPlanning.{
  PlanningOutcome, clarification_outcome, tool_outcome, completion_outcome, prepare_run, plan_next,
}
use kelvin_assistant.Application.AgentPlanning.Rounds.{plan_next-Round}
use kelvin_assistant.Adapters.MemoryAgentRuns.{RunStore}
use kelvin_assistant.Adapters.MemoryAgentRuns.Versions.{update, propose}
use kelvin_assistant.Api.Program.{done, ◌>>=◌, ◌>>◌, try}
use kelvin_assistant.Api.AgentRoutes.{Services, is_deny, policy_context}
use kelvin_assistant.Api.AgentRoutes.Next.{
  make_turns, planning_error, store_outcome, store_prepared, plan_next_agent_step,
}
use kelvin_assistant.Api.AgentRoutes.StoreInvariant.{is_active}
use kelvin_assistant.Api.AgentRoutes.Safe.{Post, Safe, Anything, Safe-end}
use kelvin_assistant.Api.AgentRoutes.Snapshots.{
  Snapshot, get_run-Snapshot, update-Inv, propose-Inv, perform-Snapshot,
}
use kelvin_assistant.Api.AgentRoutes.Handlers.{Edge-idle, planning-quiet}
use kelvin_assistant.Api.AgentRoutes.Parts.{
  Safe-fetch, Safe-done, Safe-write, Safe-send, Safe-raising, Safe-try, Safe->>=, Safe-any,
}
use kelvin_assistant.Api.AgentRoutes.Planning.{
  Placed, Stage, unprepared-Safe, update-error, moved-Inv, planning_error-Safe, placed,
}

module _ (services : Services) (planned : AgentRun) where
  store_outcome-Safe :
      (s : RunStore) (now : ℕ) (correlation_id : Option ℕ) (o : PlanningOutcome)
      → Snapshot s planned
      → planned.status ≡ planning
      → Placed services planned o
      → Safe services Anything s (store_outcome services now correlation_id planned o)
  unfolding store_outcome is_active
  store_outcome-Safe s now correlation_id (clarification_outcome c d) known was m =
      Safe-write services Anything s (update c.run) planned.version _
        (λ a b f i h. (
          moved-Inv services planned s a b clarifying c.run known was refl m f i h,
          Safe-send services Anything b _ _ (Safe-any services b _),
        ))
        (λ a x f h. tt)
  store_outcome-Safe s now correlation_id (completion_outcome run d) known was m =
      Safe-write services Anything s (update run) planned.version _
        (λ a b f i h. (
          moved-Inv services planned s a b completed run known was refl m f i h,
          Safe-send services Anything b _ _
              (Safe-send services Anything b _ _ (Safe-any services b _)),
        ))
        (λ a x f h. tt)
  store_outcome-Safe s now correlation_id (tool_outcome p d) known was (valid, open_for, busy) =
      elim (Bool-cases (is_deny p.policy_result.decision)) [
        | inl e ↦ rw e (
            Safe-done services Anything s (fail_run now planned) _
              (λ new g.
                Safe-write services Anything s (update new) planned.version _
                  (λ a b f i h. (
                    moved-Inv services planned s a b failed new known was refl
                        (fail_run-Moves now planned known.valid g) f i h,
                    Safe-send services Anything b _ _ (Safe-any services b _),
                  ))
                  (λ a x f h. tt))
              (λ x. tt))
        | inr e ↦ rw e (
            Safe-write services Anything s (propose p) planned.version _
              (λ a b f i h. (
                propose-Inv services a b i p planned.version valid open_for (busy e) h,
                Safe-send services Anything b _ _ (Safe-any services b _),
              ))
              (λ a x f h. tt))
      ]

  -- `planned` is a stored run, or comes from one by a move to planning.
  abbrev Prepared : AgentRun → Type 0
  Prepared current =
      ((planned ≡ current) × (current.status ≡ planning)) ⊎ Moves current planning planned

  Prepared-planning : (current : AgentRun) → Prepared current → planned.status ≡ planning
  Prepared-planning current (inl (same, at)) = rw same at
  Prepared-planning current (inr m) = m.status

  store_prepared-Safe :
      (s : RunStore) (current : AgentRun)
      → Snapshot s current
      → Prepared current
      → Safe services
          (Stage services planned (λ _. Unit))
          s
          (store_prepared services planned current)
  unfolding Safe
  store_prepared-Safe s current known (inl (same, at)) =
      let unchanged : (planned.version == current.version) ≡ true =
        (nat_beq_iff planned.version current.version).1 (ap (λ (a : AgentRun). a.version) same) in
      rw unchanged (subst (Snapshot s) (sym same) known, tt)
  store_prepared-Safe s current known (inr m) =
      let version = m.version in
      let changed : (planned.version == current.version) ≡ false = ground arith in
      rw changed (λ t e i. (
        λ u h. (
          update-Inv services t u i s current planned known (Edge-idle current.status m.allowed) e
              m.id m.valid (planning-quiet m.status) h,
          (perform-Snapshot t u (update planned) current.version m.valid h, tt),
        ),
        λ x h. inl (update-error t planned current.version x h),
      ))

  round-Safe :
      (s : RunStore) (id now : ℕ) (turns : List (Text × Text)) (observation : Option Text)
      → Snapshot s planned
      → planned.status ≡ planning
      → Safe services (Stage services planned (Placed services planned)) s (
          done (make_turns turns) >>= λ made. done (
            plan_next services.registry services.policy services.input_guard services.planner id now
              planned made observation
              (policy_context services planned.workspace_id)))
  round-Safe s id now turns observation known was =
      Safe-done services (Stage services planned (Placed services planned)) s (make_turns turns) _
        (λ made _. ended _ (λ o h.
          let r =
            plan_next-Round services.registry services.policy services.input_guard services.planner
              id now planned made observation (policy_context services planned.workspace_id)
              known.valid h in
          placed services planned r.decision o known.valid was r.planned))
        (λ e. inr known)
    where
      ended :
          (r : Result PlanningOutcome)
          → ((o : PlanningOutcome) → r ≡ ok o → Placed services planned o)
          → Safe services (Stage services planned (Placed services planned)) s (done r)
      ended (ok o) h =
          Safe-end services (Stage services planned (Placed services planned)) (ok o) s
            (known, h o refl)
      ended (raise e) h =
          Safe-end services (Stage services planned (Placed services planned)) (raise e) s
            (inr known)

  -- What is known of the outcome at the end of the stage.
  abbrev pub Outcomes : Post PlanningOutcome
  Outcomes (ok o) s = Snapshot s planned × Placed services planned o
  Outcomes (raise e) s = Unit

  -- The second stage of the handler, with its `except` clauses.
  planned-Safe :
      (s : RunStore) (id now : ℕ) (turns : List (Text × Text)) (observation : Option Text)
      (current : AgentRun)
      → Snapshot s current
      → Prepared current
      → Safe services Outcomes s (
          try
            (store_prepared services planned current >> done (make_turns turns) >>= λ made. done (
              plan_next services.registry services.policy services.input_guard services.planner id
                now planned made observation
                (policy_context services planned.workspace_id)))
            (planning_error services now (some planned)))
  planned-Safe s id now turns observation current known ready =
      let was = Prepared-planning current ready in
      Safe-try services Outcomes (Stage services planned (Placed services planned)) s _ _
        (Safe->>= services (Stage services planned (Placed services planned))
          (Stage services planned (λ _. Unit)) s _ _ (store_prepared-Safe s current known ready)
          (λ b t e q. round-Safe t id now turns observation q.0 was) (λ e t q. q))
        (λ o t q. q)
        (λ e t f q. planning_error-Safe services planned Outcomes (λ x u. tt) t now e q was)

module _ (services : Services) (s : RunStore) where
  -- What the first stage knows of the run that it read and of the prepared one.
  abbrev Ready : Post (AgentRun × AgentRun)
  Ready (ok (current, planned)) t = Snapshot t current × Prepared services planned current
  Ready (raise e) t = Unit

  prepared :
      (t : RunStore) (run : AgentRun) (r : Result AgentRun)
      → Snapshot t run
      → ((planned : AgentRun)
          → r ≡ ok planned
          → ((planned ≡ run) × (run.status ≡ planning)) ⊎ Moves run planning planned)
      → Safe services Ready t (done r >>= λ planned. done (ok (run, planned)))
  prepared t run r known moves =
      Safe-done services Ready t r _
        (λ planned h. Safe-end services Ready (ok (run, planned)) t (known, moves planned h))
        (λ e. tt)

  pub plan_next_agent_step-Safe :
      (id now : ℕ) (correlation_id : Option ℕ) (run_id : ℕ) (turns : List (Text × Text))
      (observation : Option Text)
      → Safe services Anything s
          (plan_next_agent_step services id now correlation_id run_id turns observation)
  unfolding plan_next_agent_step
  plan_next_agent_step-Safe id now correlation_id run_id turns observation =
      Safe->>= services Anything Ready s _ _
        (Safe-try services Ready Ready s _ _
          (Safe-fetch services Ready s run_id _
            (λ t run i g.
              prepared t run (prepare_run now run) (get_run-Snapshot services t run_id run i g)
                (λ r. prepare_run-Moves now run (get_run-Snapshot services t run_id run i g).valid))
            (λ t e. tt))
          (λ a t q. q) (λ e t f q. unprepared-Safe services Ready (λ x u. tt) t now e))
        (λ (current, planned) t e (known, ready).
          Safe->>= services Anything (Outcomes services planned) t _ _
            (planned-Safe services planned t id now turns observation current known ready)
            (λ o u f (fresh, at). Safe-raising services u _ _ (
              store_outcome-Safe services planned u now correlation_id o fresh
                (Prepared-planning services planned current ready) at))
            (λ x u q. tt))
        (λ x t q. tt)
