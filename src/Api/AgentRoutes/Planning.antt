-- ===== src/Api/AgentRoutes/Planning.antt =====
-- The safety of `plan_next_agent_step`.
use kelvin_assistant.Prelude.{
  ℕ, ◌+◌, ◌≡◌, ◌⊎◌, refl, sym, subst, true, false, Bool-cases, inl, inr, none, some, Option-cases,
  not, ◌||◌, ◌==◌, nat_eq,
}
use kelvin_assistant.Prelude.Dict.{get}
use kelvin_assistant.Prelude.Result.{
  Exception, ok, raise, agent_planning_error, planner_unavailable_error, planner_response_error,
  tool_arguments_validation_error, http_error, raised,
}
use kelvin_assistant.Domain.Planner.{PlannerDecision, clarify, tool, complete}
use kelvin_assistant.Domain.Agent.Status.{
  AgentStatus, clarifying, planning, failed, completed, status_eq,
}
use kelvin_assistant.Domain.Agent.Run.{AgentRun}
use kelvin_assistant.Domain.Agent.Run.Valid.{IsValid}
use kelvin_assistant.Domain.Agent.Run.Traces.{Moves}
use kelvin_assistant.Application.Agent.{fail_run}
use kelvin_assistant.Application.Agent.Open.{IsOpen, proposed-Inv, Proposed-result}
use kelvin_assistant.Application.Agent.Moved.{fail_run-Moves}
use kelvin_assistant.Application.AgentPlanning.{
  PlanningOutcome, clarification_outcome, tool_outcome, completion_outcome,
}
use kelvin_assistant.Application.AgentPlanning.Outcomes.{Planned}
use kelvin_assistant.Adapters.MemoryAgentRuns.{RunStore, update_run, check_version}
use kelvin_assistant.Adapters.MemoryAgentRuns.Versions.{update, perform}
use kelvin_assistant.Api.Program.{done, continue_with, ◌>>◌}
use kelvin_assistant.Api.AgentRoutes.{Services, is_deny, policy_context}
use kelvin_assistant.Api.RouteErrors.{is_domain_error}
use kelvin_assistant.Api.AgentRoutes.Next.{is_store_error, fail_planning_run, planning_error}
use kelvin_assistant.Api.AgentRoutes.StoreInvariant.{Inv, Judged, Evolves, is_active, is_idle}
use kelvin_assistant.Api.AgentRoutes.Safe.{Post, Safe, Anything, Safe-end}
use kelvin_assistant.Api.AgentRoutes.Snapshots.{Snapshot, update-Inv}
use kelvin_assistant.Api.AgentRoutes.ToolHandlers.{Gated-busy, Judged-of}
use kelvin_assistant.Api.AgentRoutes.Parts.{
  Safe-done, Safe-write, Safe-send, Safe-try, Safe->>=, Safe-any,
}

-- A write that fails raises an error of the store.
pub update-error :
    (t : RunStore) (run : AgentRun) (v : ℕ) (e : Exception)
    → perform t (update run) v ≡ raise e
    → is_store_error e ≡ true
unfolding update_run check_version is_store_error
update-error t run v e h = elim (Option-cases (get t.runs run.id)) [
  | inl g ↦ raised (λ x. is_store_error x ≡ true) (rw g at h) refl
  | inr (b, g) ↦ elim (Bool-cases (not (b.version == v) || not (run.version == v + 1))) [
    | inl f ↦ raised (λ x. is_store_error x ≡ true) (rw (g, f) at h) refl
    | inr f ↦ cc (rw (g, f) at h)
  ]
]

module _ (services : Services) (planned : AgentRun) where
  -- What an outcome of a round on the run `planned` is.
  abbrev pub Placed : PlanningOutcome → Type 0
  Placed (clarification_outcome c d) = Moves planned clarifying c.run
  Placed (completion_outcome run d) = Moves planned completed run
  Placed (tool_outcome p d) =
      IsValid p.run
      × IsOpen (Judged services) p.run p
      × (is_deny p.policy_result.decision ≡ false → is_idle p.run.status ≡ false)

  pub placed :
      (decision : PlannerDecision) (o : PlanningOutcome)
      → IsValid planned
      → planned.status ≡ planning
      → Planned services.registry services.policy planned
          (policy_context services planned.workspace_id)
          decision
          o
      → Placed o
  placed (clarify d) (clarification_outcome c d') v was h = h.0
  placed (complete d) (completion_outcome run d') v was h = h.0
  placed (tool d) (tool_outcome p d') v was h =
      let g = h.0.proposed in
      let context = policy_context services planned.workspace_id in
      let e =
        Judged-of services planned p g.gated
          (Proposed-result services.policy planned p.call context g) in
      let o = proposed-Inv (Judged services) services.policy planned p.call context v g e in
      (o.valid, o.open_proposal, λ e. Gated-busy p.policy_result.decision planned p e g.gated)
  placed (clarify d) (tool_outcome p d') v was h = absurd h
  placed (clarify d) (completion_outcome p d') v was h = absurd h
  placed (tool d) (clarification_outcome p d') v was h = absurd h
  placed (tool d) (completion_outcome p d') v was h = absurd h
  placed (complete d) (clarification_outcome p d') v was h = absurd h
  placed (complete d) (tool_outcome p d') v was h = absurd h

  -- What is known between the stages of the handler.
  abbrev pub Stage : {A : Type 0} → (A → Type 0) → Post A
  Stage P (ok a) s = Snapshot s planned × P a
  Stage P (raise e) s = (is_store_error e ≡ true) ⊎ Snapshot s planned

  pub moved-Inv :
      (s a b : RunStore) (status : AgentStatus) (new : AgentRun)
      → Snapshot s planned
      → planned.status ≡ planning
      → is_active status ≡ false
      → Moves planned status new
      → Evolves s a
      → Inv services a
      → perform a (update new) planned.version ≡ ok b
      → Inv services b
  unfolding is_idle
  moved-Inv s a b status new known was inactive m f i h =
      update-Inv services a b i s planned new known (rw was refl) f m.id m.valid
        (subst (λ x. is_active x ≡ false) (sym m.status) inactive) h

  fail_planning_run-Safe :
      (s : RunStore) (now : ℕ) (e : Exception)
      → Snapshot s planned
      → planned.status ≡ planning
      → Safe services Anything s (fail_planning_run services now (some planned) e)
  unfolding fail_planning_run is_active continue_with
  fail_planning_run-Safe s now e known was = elim (Bool-cases (not (planned.status == planning))) [
    | inl g ↦ rw g (Safe-any services s _)
    | inr g ↦ rw g (
        Safe-try services Anything Anything s _ _
          (Safe-done services Anything s (fail_run now planned) _
            (λ new r.
              Safe-write services Anything s (update new) planned.version _
                (λ a b f i h. (
                  moved-Inv s a b failed new known was refl
                      (fail_run-Moves now planned known.valid r) f i h,
                  Safe-send services Anything b _ (λ x. done (ok x)) (Safe-any services b (ok tt)),
                ))
                (λ a x f h. tt))
            (λ x. tt))
          (λ a t q. tt)
          (λ x t f q. elim (Bool-cases (is_store_error x)) [
            | inl y ↦ rw y (Safe-any services t _)
            | inr y ↦ rw y (Safe-any services t _)
          ]))
  ]

  failing-Safe :
      {A : Type 0} (Q : Post A)
      → ((e : Exception) (t : RunStore) → Q (raise e) t)
      → (s : RunStore) (now : ℕ) (e : Exception) (status : ℕ) → is_store_error e ≡ false
      → (is_store_error e ≡ true) ⊎ Snapshot s planned
      → planned.status ≡ planning
      → Safe services Q s
          (fail_planning_run services now (some planned) e >> done (raise (http_error status)))
  failing-Safe Q ends s now e status other (inl store_error) was = cc
  failing-Safe Q ends s now e status other (inr known) was =
      Safe->>= services Q Anything s _ (λ _. done (raise (http_error status)))
        (fail_planning_run-Safe s now e known was)
        (λ b t f q. Safe-end services Q (raise (http_error status)) t (ends (http_error status) t))
        (λ x t q. ends x t)

  -- The handling of an error of the round ends with an exception.
  pub planning_error-Safe :
      {A : Type 0} (Q : Post A)
      → ((e : Exception) (t : RunStore) → Q (raise e) t)
      → (s : RunStore) (now : ℕ) (e : Exception) → (is_store_error e ≡ true) ⊎ Snapshot s planned
      → planned.status ≡ planning
      → Safe services Q s (planning_error services now (some planned) e)
  unfolding planning_error is_store_error is_domain_error
  planning_error-Safe Q ends s now planner_unavailable_error known was =
      failing-Safe Q ends s now planner_unavailable_error 503 refl known was
  planning_error-Safe Q ends s now planner_response_error known was =
      failing-Safe Q ends s now planner_response_error 502 refl known was
  planning_error-Safe Q ends s now agent_planning_error known was =
      failing-Safe Q ends s now agent_planning_error 502 refl known was
  planning_error-Safe Q ends s now tool_arguments_validation_error known was =
      failing-Safe Q ends s now tool_arguments_validation_error 502 refl known was
  planning_error-Safe Q ends s now _ known was = Safe-end services Q _ s (ends _ s)

-- The same before a run was prepared: nothing is written.
pub unprepared-Safe :
    {A : Type 0} (services : Services) (Q : Post A)
    → ((e : Exception) (t : RunStore) → Q (raise e) t)
    → (s : RunStore) (now : ℕ) (e : Exception)
    → Safe services Q s (planning_error services now none e)
unfolding planning_error fail_planning_run is_domain_error continue_with
unprepared-Safe services Q ends s now planner_unavailable_error = Safe-end services Q _ s (ends _ s)
unprepared-Safe services Q ends s now planner_response_error = Safe-end services Q _ s (ends _ s)
unprepared-Safe services Q ends s now agent_planning_error = Safe-end services Q _ s (ends _ s)
unprepared-Safe services Q ends s now tool_arguments_validation_error =
    Safe-end services Q _ s (ends _ s)
unprepared-Safe services Q ends s now _ = Safe-end services Q _ s (ends _ s)
