-- ===== src/Api/AgentRoutes/Next.antt =====
-- `plan_next_agent_step` of api/agent_routes.py.
use kelvin_assistant.Prelude.{
  ℕ, Bool, true, false, Option, none, some, List, [], ◌∷◌, ◌++◌, Text, codes, not, ◌==◌, nat_eq,
  if◌then◌else◌,
}
use kelvin_assistant.Prelude.Result.{
  Exception, Result, ok, raise, run_not_found_error, run_conflict_error, proposal_not_found_error,
  agent_planning_error, tool_arguments_validation_error, planner_unavailable_error,
  planner_response_error, result_not_found_error, http_error,
}
use kelvin_assistant.Domain.ContextGuard.{line_feed}
use kelvin_assistant.Domain.Agent.Status.{planning, status_eq}
use kelvin_assistant.Domain.Agent.Run.{AgentRun}
use kelvin_assistant.Domain.Planner.{ClarificationTurn, make_clarification_turn}
use kelvin_assistant.Application.Agent.{fail_run}
use kelvin_assistant.Application.AgentPlanning.{
  PlanningOutcome, clarification_outcome, tool_outcome, completion_outcome, prepare_run, plan_next,
}
use kelvin_assistant.Adapters.MemoryAgentRuns.Versions.{update, propose}
use kelvin_assistant.Api.Program.{
  Event, audited, run_completed, run_failed, message, exception, Program, done, ◌>>=◌, ◌>>◌, try,
  send, write, fetch,
}
use kelvin_assistant.Api.Responses.{
  Response, clarify_body, complete_body, tool_body, agent_run_response, tool_proposal_response,
}
use kelvin_assistant.Api.AgentRoutes.{Services, is_deny, policy_context}
use kelvin_assistant.Api.RouteErrors.{is_domain_error, change_error, raising}

-- `except AgentRunStoreError`
unfoldable pub is_store_error : Exception → Bool
is_store_error run_not_found_error = true
is_store_error run_conflict_error = true
is_store_error proposal_not_found_error = true
is_store_error result_not_found_error = true
is_store_error _ = false

-- The tuple of `ClarificationTurn`s of a request
unfoldable pub make_turns : List (Text × Text) → Result (List ClarificationTurn)
make_turns [] = ok []
make_turns ((question, reply) ∷ turns) = elim (make_clarification_turn question reply) [
  | (raise e) ↦ raise e
  | (ok turn) ↦ elim (make_turns turns) [ (raise e) ↦ raise e | (ok rest) ↦ ok (turn ∷ rest) ]
]

module _ (services : Services) where
  -- `_fail_planning_run`
  unfoldable pub fail_planning_run : (now : ℕ) → Option AgentRun → Exception → Program (Unit {0})
  unfolding is_store_error
  fail_planning_run now none e = done (ok tt)
  fail_planning_run now (some planned) e =
      if not (planned.status == planning)
      then done (ok tt)
      else (try
          (done (fail_run now planned) >>= λ failed_run.
            write (update failed_run) planned.version >> send (run_failed failed_run (exception e)))
          (λ x. if is_store_error x then done (ok tt) else done (raise x)))

  -- The first `except` clauses of `plan_next_agent_step`; `planned` is the variable there
  unfoldable pub planning_error :
      {A : Type 0} → ℕ → (planned : Option AgentRun) → Exception → Program A
  unfolding is_domain_error change_error fail_planning_run
  planning_error now planned planner_unavailable_error =
      fail_planning_run now planned planner_unavailable_error >> done (raise (http_error 503))
  planning_error now planned planner_response_error =
      fail_planning_run now planned planner_response_error >> done (raise (http_error 502))
  planning_error now planned agent_planning_error =
      fail_planning_run now planned agent_planning_error >> done (raise (http_error 502))
  planning_error now planned tool_arguments_validation_error =
      fail_planning_run now planned tool_arguments_validation_error >> done (raise (http_error 502))
  planning_error now planned e =
      if is_domain_error e then done (raise (http_error 422)) else done (raise (change_error e))

  abbrev output_decision : (correlation_id : Option ℕ) → AgentRun → Text → Event
  output_decision correlation_id planned content = audited (record {
    event_type = codes "output_guard";
    decision = codes "allow";
    masked_content = content;
    warnings = [];
    correlation_id = correlation_id;
    run_id = some planned.id;
  })

  -- The branches on the outcome, in the second `try` of `plan_next_agent_step`
  unfoldable pub store_outcome :
      (now : ℕ) (correlation_id : Option ℕ) → AgentRun → PlanningOutcome → Program Response
  store_outcome now correlation_id planned (clarification_outcome clarification decision) =
      let question = services.mask_secrets decision.question in
      let reason = services.mask_secrets decision.reason in
      write (update clarification.run) planned.version
      >> send (
          output_decision correlation_id planned
            (codes "question: " ++ question ++ line_feed ++ codes "reason: " ++ reason))
      >> done (
          ok (
            clarify_body (agent_run_response services.mask_secrets clarification.run) question
              reason))
  store_outcome now correlation_id planned (completion_outcome run decision) =
      let summary = services.mask_secrets decision.summary in
      write (update run) planned.version
      >> send (run_completed run summary)
      >> send (output_decision correlation_id planned summary)
      >> done (ok (complete_body (agent_run_response services.mask_secrets run) summary))
  store_outcome now correlation_id planned (tool_outcome proposal decision) =
      if is_deny proposal.policy_result.decision
      then (done (fail_run now planned) >>= λ failed_run.
          write (update failed_run) planned.version
          >> send (run_failed failed_run (message proposal.policy_result.reason))
          >> done (raise (http_error 403)))
      else (write (propose proposal) planned.version
          >> send (
              output_decision correlation_id planned (
                codes "tool_name: "
                ++ proposal.call.name
                ++ line_feed
                ++ codes "reason: "
                ++ services.mask_secrets proposal.call.reason
                ++ line_feed
                ++ codes "effect: "
                ++ services.mask_secrets proposal.call.expected_effect
                ++ line_feed
                ++ codes "policy_reason: "
                ++ services.mask_secrets proposal.policy_result.reason))
          >> done (ok (tool_body (tool_proposal_response services.mask_secrets proposal))))

  -- `except AgentRunConflictError`
  abbrev conflict_error : Exception → Exception
  conflict_error run_conflict_error = http_error 409
  conflict_error e = e

  -- `if planned.version != current.version: update`
  abbrev pub store_prepared : (planned current : AgentRun) → Program (Unit {0})
  store_prepared planned current =
      if not (planned.version == current.version)
      then write (update planned) current.version
      else done (ok tt)

  unfoldable pub plan_next_agent_step :
      (id now : ℕ) (correlation_id : Option ℕ) (run_id : ℕ)
      → List (Text × Text)
      → Option Text
      → Program Response
  unfolding planning_error make_turns policy_context
  plan_next_agent_step id now correlation_id run_id clarifications observation =
      try
        (fetch run_id >>= λ current.
          done (prepare_run now current) >>= λ planned. done (ok (current, planned)))
        (planning_error now none)
      >>= λ (current, planned).
          try
            (store_prepared planned current >> done (make_turns clarifications) >>= λ turns. done (
              plan_next services.registry services.policy services.input_guard services.planner id
                now planned turns observation (policy_context services planned.workspace_id)))
            (planning_error now (some planned))
          >>= λ outcome.
              try (store_outcome now correlation_id planned outcome) (raising conflict_error)
