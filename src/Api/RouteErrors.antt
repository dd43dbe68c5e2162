-- ===== src/Api/RouteErrors.antt =====
-- The `except` clauses of api/agent_routes.py: which HTTP error an exception becomes. The detail of an
-- HTTP error is not modelled.
use kelvin_assistant.Prelude.{Bool, true, false, if◌then◌else◌}
use kelvin_assistant.Prelude.Result.{
  Exception, raise, agent_domain_error, invalid_transition_error, step_limit_error,
  agent_service_error, run_not_found_error, run_conflict_error, proposal_not_found_error,
  planner_domain_error, http_error,
}
use kelvin_assistant.Api.Program.{Program, done}

-- `isinstance(exc, AgentDomainError)`
unfoldable pub is_domain_error : Exception → Bool
is_domain_error agent_domain_error = true
is_domain_error invalid_transition_error = true
is_domain_error step_limit_error = true
is_domain_error _ = false

-- The `except` clauses of `create_agent_run`
unfoldable pub creation_error : Exception → Exception
unfolding is_domain_error
creation_error planner_domain_error = http_error 422
creation_error run_conflict_error = http_error 409
creation_error e = if is_domain_error e then http_error 422 else e

-- The `except` clauses of the handlers that change a run by the agent service
unfoldable pub change_error : Exception → Exception
change_error run_not_found_error = http_error 404
change_error agent_service_error = http_error 409
change_error run_conflict_error = http_error 409
change_error e = e

-- The `except` clauses of `propose_agent_tool`
unfoldable pub proposal_error : Exception → Exception
unfolding is_domain_error change_error
proposal_error e = if is_domain_error e then http_error 422 else change_error e

-- The `except` clauses of `resolve_agent_tool_approval`
unfoldable pub approval_error : Exception → Exception
unfolding change_error
approval_error proposal_not_found_error = http_error 404
approval_error e = change_error e

-- The `except` clauses of `submit_agent_tool_result`
unfoldable pub result_error : Exception → Exception
unfolding is_domain_error approval_error
result_error e = if is_domain_error e then http_error 422 else approval_error e

abbrev pub raising : {A : Type 0} → (Exception → Exception) → Exception → Program A
raising f e = done (raise (f e))
