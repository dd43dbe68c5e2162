-- ===== src/Application/Agent/Moved.antt =====
-- What the calls that move a run without a proposal do to a valid run.
use kelvin_assistant.Prelude.{
  ℕ, ◌≡◌, ◌⊎◌, refl, inl, inr, Bool, Bool-cases, Option, [], ◌∷◌, Text, not, ◌==◌, contains,
  if◌then◌else◌,
}
use kelvin_assistant.Prelude.Result.{ok, raise_if-eq-ok, returned, agent_service_error}
use kelvin_assistant.Domain.Agent.Status.{
  received, clarifying, planning, executing, observing, cancelled, failed, status_eq, is_terminal,
}
use kelvin_assistant.Domain.Agent.Run.{AgentRun, create_run}
use kelvin_assistant.Domain.Agent.Run.Valid.{IsValid, run_post_init-Constructed}
use kelvin_assistant.Domain.Agent.Run.Traces.{Moves, transition_to-Moves}
use kelvin_assistant.Application.Agent.{
  start_run, begin_planning, continue_planning, record_execution_result, fail_run, cancel_run,
  require_one_of, require_status, require_active,
}
use kelvin_assistant.Application.AgentPlanning.{prepare_run}

pub start_run-IsValid :
    (id now : ℕ) (goal : Text) (max_steps : ℕ) (workspace_id : Option Text) {r : AgentRun}
    → start_run id now goal max_steps workspace_id ≡ ok r
    → IsValid r × (r.status ≡ received)
unfolding start_run create_run
start_run-IsValid id now goal max_steps workspace_id h =
    let c = run_post_init-Constructed now _ h in (c.valid, c.status)

module _ (now : ℕ) (run : AgentRun) (v : IsValid run) where
  pub begin_planning-Moves : {r : AgentRun} → begin_planning now run ≡ ok r → Moves run planning r
  unfolding begin_planning require_one_of
  begin_planning-Moves h =
      let (_, t) =
        raise_if-eq-ok (not (contains (received ∷ clarifying ∷ []) run.status)) agent_service_error
          _ h in
      transition_to-Moves now run planning v t

  continue_planning-Moves : {r : AgentRun} → continue_planning now run ≡ ok r → Moves run planning r
  unfolding continue_planning require_status
  continue_planning-Moves h =
      let (_, t) = raise_if-eq-ok (not (run.status == observing)) agent_service_error _ h in
      transition_to-Moves now run planning v t

  pub fail_run-Moves : {r : AgentRun} → fail_run now run ≡ ok r → Moves run failed r
  unfolding fail_run require_active
  fail_run-Moves h =
      let (_, t) = raise_if-eq-ok (is_terminal run.status) agent_service_error _ h in
      transition_to-Moves now run failed v t

  pub cancel_run-Moves : {r : AgentRun} → cancel_run now run ≡ ok r → Moves run cancelled r
  unfolding cancel_run require_active
  cancel_run-Moves h =
      let (_, t) = raise_if-eq-ok (is_terminal run.status) agent_service_error _ h in
      transition_to-Moves now run cancelled v t

  pub record_execution_result-Moves :
      (succeeded : Bool) {r : AgentRun}
      → record_execution_result now run succeeded ≡ ok r
      → Moves run (if succeeded then observing else failed) r
  unfolding record_execution_result require_status
  record_execution_result-Moves succeeded h =
      let (_, t) = raise_if-eq-ok (not (run.status == executing)) agent_service_error _ h in
      transition_to-Moves now run (if succeeded then observing else failed) v t

  -- A prepared run is the run itself, in the planning state, or comes from it by one move to there.
  pub prepare_run-Moves :
      {r : AgentRun}
      → prepare_run now run ≡ ok r
      → ((r ≡ run) × (run.status ≡ planning)) ⊎ Moves run planning r
  unfolding prepare_run
  prepare_run-Moves {r} h = elim (Bool-cases (contains (received ∷ clarifying ∷ []) run.status)) [
    | inl e ↦ inr (begin_planning-Moves (rw e at h))
    | inr e ↦ elim (Bool-cases (run.status == observing)) [
      | inl f ↦ inr (continue_planning-Moves (rw (e, f) at h))
      | inr f ↦ elim (Bool-cases (run.status == planning)) [
        | inl g ↦ inl (
          returned (λ (r : AgentRun). r ≡ run) (rw (e, f, g) at h) refl,
          (status_eq.beq_iff run.status planning).0 g,
        )
        | inr g ↦ cc (rw (e, f, g) at h)
      ]
    ]
  ]
