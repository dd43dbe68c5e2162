-- ===== src/Adapters/MemoryAgentRuns.antt =====
-- `InMemoryAgentRunStore` of adapters/memory_agent_runs.py. Every method holds the store's lock from
-- its first line to its last, so it is one step on the state; a method that raises does so before
-- its first write, so the state comes back only with success.
pub mod Versions
pub mod Proposals
use kelvin_assistant.Prelude.{
  ℕ, ◌+◌, Bool, true, false, Option, none, some, List, [], ◌∷◌, ◌++◌, not, ◌||◌, ◌==◌, nat_eq, leb,
  map, if◌then◌else◌,
}
use kelvin_assistant.Prelude.Dict.{Dict, get, put, pop, values}
use kelvin_assistant.Prelude.Sort.{sorted}
use kelvin_assistant.Prelude.Result.{
  Exception, Result, ok, raise, ◌>>=◌, ◌>>◌, raise_if, run_not_found_error, run_conflict_error,
  proposal_not_found_error, result_not_found_error,
}
use kelvin_assistant.Domain.Agent.Status.{is_terminal}
use kelvin_assistant.Domain.Agent.Run.{AgentRun}
use kelvin_assistant.Domain.Agent.Tools.{ToolProposal, ToolExecutionResult, is_given}

pub record RunStore : Type 0 where
  pub runs : Dict ℕ AgentRun
  pub proposals : Dict ℕ ToolProposal
  pub results : Dict ℕ ToolExecutionResult
  pub proposals_history : Dict ℕ (List ToolProposal)
  pub results_history : Dict ℕ (List ToolExecutionResult)

abbrev pub empty_store : RunStore
empty_store = record {
  runs = [];
  proposals = [];
  results = [];
  proposals_history = [];
  results_history = [];
}

-- A missing entry is an error of its own.
abbrev pub or_raise {ℓ} : {A : Type ℓ} → Exception → Option A → Result A
or_raise e none = raise e
or_raise e (some a) = ok a

-- `d.get(k, [])`
abbrev pub or_nil {ℓ} : {A : Type ℓ} → Option (List A) → List A
or_nil none = []
or_nil (some xs) = xs

-- The lookup and the optimistic check that every write to a stored run begins with.
unfoldable pub check_version : RunStore → AgentRun → ℕ → Result (Unit {0})
check_version s run expected_version = do
  stored ← or_raise run_not_found_error (get s.runs run.id)
  raise_if (not (stored.version == expected_version) || not (run.version == expected_version + 1))
      run_conflict_error

unfoldable pub add_run : RunStore → AgentRun → Result RunStore
add_run s run = do
  raise_if (is_given (get s.runs run.id)) run_conflict_error
  ok (record s { runs = put s.runs run.id run })

unfoldable pub get_run : RunStore → ℕ → Result AgentRun
get_run s run_id = or_raise run_not_found_error (get s.runs run_id)

unfoldable pub update_run : RunStore → AgentRun → (expected_version : ℕ) → Result RunStore
update_run s run expected_version = do
  check_version s run expected_version
  ok (record s { runs = put s.runs run.id run })

-- `replace(p, run=run)`
abbrev pub with_run : AgentRun → ToolProposal → ToolProposal
with_run run p = record p { run = run }

-- The loop of `cancel_run` over the history of one run.
unfoldable pub close_all : AgentRun → List ToolProposal → List ToolProposal
close_all run [] = []
close_all run (p ∷ ps) = (if is_terminal run.status then with_run run p else p) ∷ close_all run ps

-- A history that is not there is a fresh list, which is dropped again.
abbrev pub change {ℓ} :
    {A : Type ℓ} → Dict ℕ (List A) → ℕ → (List A → List A) → Option (List A) → Dict ℕ (List A)
change d k f none = d
change d k f (some xs) = put d k (f xs)

unfoldable pub cancel_stored : RunStore → AgentRun → (expected_version : ℕ) → Result RunStore
cancel_stored s run expected_version = do
  check_version s run expected_version
  ok (record s {
    runs = put s.runs run.id run;
    proposals = pop s.proposals run.id;
    proposals_history =
        change s.proposals_history run.id (close_all run) (get s.proposals_history run.id);
  })

-- The loop of `update_proposal`: the first entry of the call is replaced, or else one is added.
unfoldable pub record_proposal : ToolProposal → List ToolProposal → List ToolProposal
record_proposal proposal [] = proposal ∷ []
record_proposal proposal (p ∷ ps) =
    let rest = record_proposal proposal ps in
    if p.call.id == proposal.call.id then proposal ∷ ps else p ∷ rest

unfoldable pub update_proposal : RunStore → ToolProposal → (expected_version : ℕ) → Result RunStore
update_proposal s proposal expected_version = do
  check_version s proposal.run expected_version
  let run_id = proposal.run.id
  ok (record s {
    runs = put s.runs run_id proposal.run;
    proposals = put s.proposals run_id proposal;
    proposals_history =
        put s.proposals_history run_id
          (record_proposal proposal (or_nil (get s.proposals_history run_id)));
  })

unfoldable pub get_proposal : RunStore → ℕ → Result ToolProposal
get_proposal s run_id = do
  stored ← or_raise run_not_found_error (get s.runs run_id)
  or_raise proposal_not_found_error (get s.proposals run_id)

-- The loop of `complete_proposal`: the first entry of the call gets the run.
unfoldable pub close_proposal : AgentRun → (call_id : ℕ) → List ToolProposal → List ToolProposal
close_proposal run call_id [] = []
close_proposal run call_id (p ∷ ps) =
    let rest = close_proposal run call_id ps in
    if p.call.id == call_id then with_run run p ∷ ps else p ∷ rest

unfoldable pub complete_proposal :
    RunStore → AgentRun → ToolExecutionResult → (expected_version : ℕ) → Result RunStore
complete_proposal s run result expected_version = do
  stored ← or_raise run_not_found_error (get s.runs run.id)
  proposal ← or_raise proposal_not_found_error (get s.proposals run.id)
  raise_if (not (proposal.call.id == result.tool_call_id)) run_conflict_error
  raise_if (not (stored.version == expected_version) || not (run.version == expected_version + 1))
      run_conflict_error
  ok (record {
    runs = put s.runs run.id run;
    proposals = pop s.proposals run.id;
    results = put s.results run.id result;
    proposals_history =
        change s.proposals_history run.id (close_proposal run result.tool_call_id)
          (get s.proposals_history run.id);
    results_history =
        put s.results_history run.id (or_nil (get s.results_history run.id) ++ result ∷ []);
  })

unfoldable pub get_result : RunStore → ℕ → Result ToolExecutionResult
get_result s run_id = do
  stored ← or_raise run_not_found_error (get s.runs run_id)
  or_raise result_not_found_error (get s.results run_id)

abbrev pub time : Option ℕ → ℕ
time none = 0
time (some t) = t

-- `r.created_at or datetime.min`
abbrev pub creation : AgentRun → ℕ
creation r = time r.created_at

-- The sort by creation, `reverse=True`
unfoldable pub newer : AgentRun → AgentRun → Bool
newer a b = leb (creation b) (creation a)

unfoldable pub list_runs : RunStore → List AgentRun
list_runs s = sorted newer (values s.runs)

-- `{r.tool_call_id: r for r in results}`
unfoldable pub results_by_call :
    List ToolExecutionResult → Dict ℕ ToolExecutionResult → Dict ℕ ToolExecutionResult
results_by_call [] d = d
results_by_call (r ∷ rs) d = results_by_call rs (put d r.tool_call_id r)

unfoldable pub get_run_steps : RunStore → ℕ → List (ToolProposal × Option ToolExecutionResult)
get_run_steps s run_id =
    let results = results_by_call (or_nil (get s.results_history run_id)) [] in
    map (λ p. (p, get results p.call.id)) (or_nil (get s.proposals_history run_id))
