-- ===== src/Api/AgentRoutes/System.antt =====
-- Requests that run at the same time: each is a program, and any of them may make the next step.
use Prim.Native.Nat.{zero, suc}
use kelvin_assistant.Prelude.{ℕ, Option, List, [], ◌∷◌, Text}
use kelvin_assistant.Domain.Json.{Fields}
use kelvin_assistant.Domain.Agent.Status.{ToolRisk, ApprovalDecision}
use kelvin_assistant.Adapters.MemoryAgentRuns.{RunStore, empty_store}
use kelvin_assistant.Api.Program.{Program, advance}
use kelvin_assistant.Api.Responses.{Response}
use kelvin_assistant.Api.AgentRoutes.{
  Services, ResultRequest, create_agent_run, list_agent_runs, get_agent_run, cancel_agent_run,
  begin_agent_planning, propose_agent_tool, resolve_agent_tool_approval, get_active_agent_tool,
  submit_agent_tool_result,
}
use kelvin_assistant.Api.AgentRoutes.Next.{plan_next_agent_step}

-- The routes of the router, with the parameters of the requests
pub data Request : Type 0 where
  post_run :
      (id now : ℕ) (correlation_id : Option ℕ) → Text → (max_steps : ℕ) → Option Text → Request
  get_runs : Request
  get_one : (now run_id : ℕ) → Request
  post_cancel : (now run_id : ℕ) → Request
  post_planning : (now run_id : ℕ) → Request
  post_next :
      (id now : ℕ) (correlation_id : Option ℕ) (run_id : ℕ)
      → List (Text × Text)
      → Option Text
      → Request
  post_tool :
      (id now run_id : ℕ) → Text → Fields → (reason expected_effect : Text) → ToolRisk → Request
  post_approval : (now run_id tool_call_id : ℕ) → ApprovalDecision → Request
  get_active : (run_id : ℕ) → Request
  post_result : (now run_id : ℕ) → ResultRequest → Request

unfoldable pub handle : Services → Request → Program Response
handle services (post_run id now correlation_id goal max_steps workspace_id) =
    create_agent_run services id now correlation_id goal max_steps workspace_id
handle services get_runs = list_agent_runs services
handle services (get_one now run_id) = get_agent_run services now run_id
handle services (post_cancel now run_id) = cancel_agent_run services now run_id
handle services (post_planning now run_id) = begin_agent_planning services now run_id
handle services (post_next id now correlation_id run_id turns observation) =
    plan_next_agent_step services id now correlation_id run_id turns observation
handle services (post_tool id now run_id name arguments reason expected_effect risk) =
    propose_agent_tool services id now run_id name arguments reason expected_effect risk
handle services (post_approval now run_id tool_call_id decision) =
    resolve_agent_tool_approval services now run_id tool_call_id decision
handle services (get_active run_id) = get_active_agent_tool services run_id
handle services (post_result now run_id request) =
    submit_agent_tool_result services now run_id request

-- The store, and the requests that are being handled.
pub record System : Type 0 where
  pub store : RunStore
  pub running : List (Program Response)

-- A request arrives, or the one at an index makes its next step.
pub data Move : Type 0 where
  arrive : Request → Move
  turn : ℕ → Move

-- The step of the program at an index, if there is one.
unfoldable pub take_turn : ℕ → RunStore → List (Program Response) → System
take_turn i s [] = record { store = s; running = [] }
take_turn zero s (p ∷ ps) = let a = advance p s in record { store = a.store; running = a.rest ∷ ps }
take_turn (suc i) s (p ∷ ps) =
    let after = take_turn i s ps in record { store = after.store; running = p ∷ after.running }

unfoldable pub make_move : Services → Move → System → System
unfolding handle take_turn
make_move services (arrive request) system = record system {
  running = handle services request ∷ system.running;
}
make_move services (turn i) system = take_turn i system.store system.running

unfoldable pub run_system : Services → List Move → System → System
unfolding make_move
run_system services [] system = system
run_system services (move ∷ moves) system =
    run_system services moves (make_move services move system)

abbrev pub started : System
started = record { store = empty_store; running = [] }
