-- ===== src/Application/AgentPlanning/Rounds.antt =====
-- Whole rounds of planning: what the planner is asked, and what a prepared run is.
use kelvin_assistant.Prelude.{
  ℕ, ◌≡◌, refl, ◌-◌, ◌<◌, Bool-cases, inl, inr, Option, List, [], ◌∷◌, Text, not, ◌==◌, ltb,
  contains, arith, none, some, if◌then◌else◌, subst, text_eq,
}
use kelvin_assistant.Prelude.Result.{ok, >>=-eq-ok, raise_if-eq-ok, returned, agent_planning_error}
use kelvin_assistant.Domain.ContextGuard.{InputGuard, wrap, delimited}
use kelvin_assistant.Domain.Planner.{
  ClarificationTurn, PlannerRequest, create_request, PlannerDecision,
}
use kelvin_assistant.Domain.Agent.Status.{received, clarifying, planning, observing, status_eq}
use kelvin_assistant.Domain.Agent.Run.{AgentRun, transition_to}
use kelvin_assistant.Domain.Agent.Run.Valid.{IsValid}
use kelvin_assistant.Domain.Agent.Run.Traces.{transition_to-Moves}
use kelvin_assistant.Ports.Tools.{ToolRegistry}
use kelvin_assistant.Application.ToolPolicy.{ToolPolicyContext}
use kelvin_assistant.Application.Agent.{
  Policy, begin_planning, continue_planning, require_one_of, require_status,
}
use kelvin_assistant.Application.AgentPlanning.{
  PlanningOutcome, Planner, prepare_run, guard_observation, plan_next,
}
use kelvin_assistant.Application.AgentPlanning.Outcomes.{Planned, apply_decision-Planned}
use kelvin_assistant.Application.AgentPlanning.Requests.{Asked, create_request-Asked}

-- The text of an observation between the delimiters of external data, if the guard calls it safe.
abbrev pub guarded_by : InputGuard → Option Text → Option Text
guarded_by guard none = none
guarded_by guard (some text) = if (guard text).is_safe then some (delimited text) else none

guard_observation-guarded_by :
    (guard : InputGuard) (o : Option Text) → guard_observation guard o ≡ guarded_by guard o
unfolding guard_observation wrap
guard_observation-guarded_by guard none = refl
guard_observation-guarded_by guard (some text) = elim (Bool-cases (guard text).is_safe) [
  | inl e ↦ rw e refl
  | inr e ↦ rw e refl
]

-- One round of planning: what the planner was asked and what its answer did.
pub record Round (registry : ToolRegistry) (policy : Policy) (guard : InputGuard) (plan : Planner)
    (run : AgentRun) (turns : List ClarificationTurn) (observation : Option Text)
    (context : ToolPolicyContext) (o : PlanningOutcome) : Type 0 where
  pub was_planning : run.status ≡ planning
  pub steps_left : run.step_count < run.max_steps
  pub request : PlannerRequest
  pub asked :
      Asked run.goal registry.list_all
        (run.max_steps - run.step_count)
        turns
        (guarded_by guard observation)
        request
  pub decision : PlannerDecision
  pub answered : plan request ≡ ok decision
  pub planned : Planned registry policy run context decision o

-- A round of planning on a valid run that succeeds was made in the planning state with steps left;
-- the planner was asked with the stripped goal of the run, the tools of the registry, exactly the
-- steps that the run has left, the turns, and the stripped text of the observation between its
-- delimiters if the guard calls it safe; the request is within the limits of the planner's contract
-- on the goal, the steps, the turns, the observation and the tools, which are some and of distinct
-- names; and the outcome is the one of the planner's answer.
pub plan_next-Round :
    (registry : ToolRegistry) (policy : Policy) (guard : InputGuard) (plan : Planner) (id now : ℕ)
    (run : AgentRun) (turns : List ClarificationTurn) (observation : Option Text)
    (context : ToolPolicyContext) {o : PlanningOutcome}
    → IsValid run
    → plan_next registry policy guard plan id now run turns observation context ≡ ok o
    → Round registry policy guard plan run turns observation context o
unfolding plan_next
plan_next-Round registry policy guard plan id now run turns observation context v h =
    let (_, h₁) = raise_if-eq-ok (not (run.status == planning)) agent_planning_error _ h in
    let (left, h₂) =
      raise_if-eq-ok (ltb (run.max_steps - run.step_count) 1) agent_planning_error _ h₁ in
    let (request, asked, h₃) =
      >>=-eq-ok
        (create_request run.goal registry.list_all (run.max_steps - run.step_count) turns
          (guard_observation guard observation))
        _ h₂ in
    let (decision, answered, h₄) = >>=-eq-ok (plan request) _ h₃ in
    let request_of =
      create_request-Asked run.goal registry.list_all (run.max_steps - run.step_count) turns
        (guard_observation guard observation) asked in
    let (was, planned) = apply_decision-Planned registry policy id now run context v decision h₄ in
    record {
      was_planning = was;
      steps_left = ground arith;
      request = request;
      asked =
          subst
            (λ x. Asked run.goal registry.list_all (run.max_steps - run.step_count) turns x request)
            (guard_observation-guarded_by guard observation) request_of;
      decision = decision;
      answered = answered;
      planned = planned;
    }

-- Preparing a valid run gives a valid run in the planning state with the same number of steps.
pub prepare_run-planning :
    (now : ℕ) (run : AgentRun) {r : AgentRun}
    → IsValid run
    → prepare_run now run ≡ ok r
    → IsValid r × (r.status ≡ planning) × (r.step_count ≡ run.step_count)
unfolding prepare_run begin_planning continue_planning require_one_of require_status
prepare_run-planning now run {r} v h =
    elim (Bool-cases (contains (received ∷ clarifying ∷ []) run.status)) [
      | inl e ↦ entered (rw e at h)
      | inr e ↦ elim (Bool-cases (run.status == observing)) [
        | inl f ↦ entered (rw (e, f) at h)
        | inr f ↦ elim (Bool-cases (run.status == planning)) [
          | inl g ↦
              returned
                (λ (r : AgentRun).
                  IsValid r × (r.status ≡ planning) × (r.step_count ≡ run.step_count))
                (rw (e, f, g) at h) (v, (status_eq.beq_iff run.status planning).0 g, refl)
          | inr g ↦ cc (rw (e, f, g) at h)
        ]
      ]
    ]
  where
    entered :
        transition_to now run planning ≡ ok r
        → IsValid r × (r.status ≡ planning) × (r.step_count ≡ run.step_count)
    entered t = let m = transition_to-Moves now run planning v t in (m.valid, m.status, m.steps)
