-- ===== src/Tests/Stores.antt =====
-- The stores at small inputs.
use mathlib.Core.List.{Memᴰ}
use kelvin_assistant.Prelude.{
  Option, nat_eq, ◌≡◌, ◌≤◌, refl, true, false, none, some, [], ◌∷◌, codes, All,
}
use kelvin_assistant.Prelude.Dict.{get, put, pop}
use kelvin_assistant.Prelude.Result.{ok}
use kelvin_assistant.Domain.Agent.Status.{
  planning, executing, observing, cancelled, failed, is_terminal,
}
use kelvin_assistant.Domain.Agent.Run.{AgentRun}
use kelvin_assistant.Domain.Agent.Tools.{ToolProposal, ToolExecutionResult}
use kelvin_assistant.Adapters.MemoryAgentRuns.{
  RunStore, empty_store, add_run, update_run, update_proposal, complete_proposal, cancel_stored,
  check_version, close_all, close_proposal, record_proposal, get_run_steps,
}
use kelvin_assistant.Adapters.MemoryAgentRuns.Versions.{
  update, cancel, perform, Replaced, perform-Replaced, no_lost_update, version-perform,
}
use kelvin_assistant.Adapters.MemoryAgentRuns.Proposals.{
  Reads, get_proposal-update_proposal, Completed, complete_proposal-Completed, Shows, shown,
  get_run_steps-complete_proposal,
}
use kelvin_assistant.Tests.Data.{run_at, patch_call, asked, waiting}

program : Unit {0}
unfolding get put pop add_run update_run update_proposal complete_proposal cancel_stored
    check_version close_all close_proposal record_proposal is_terminal
program = tt

abbrev s0 : RunStore
s0 = record empty_store { runs = (7, run_at planning 0 1) ∷ [] }

adds : add_run empty_store (run_at planning 0 1) ≡ ok s0
unfolding program
adds = refl

abbrev s1 : RunStore
s1 = record empty_store { runs = (7, run_at cancelled 0 2) ∷ [] }

cancels : perform s0 (cancel (run_at cancelled 0 2)) 1 ≡ ok s1
unfolding program
cancels = refl

no_lost_update_example : ¬ (perform s1 (update (run_at failed 0 2)) 1 ≡ ok s1)
no_lost_update_example =
    no_lost_update s0 s1 s1 (cancel (run_at cancelled 0 2)) (update (run_at failed 0 2)) 1 refl
      cancels

perform-Replaced_example : Replaced s0 (run_at cancelled 0 2) 1 s1
perform-Replaced_example = perform-Replaced s0 (cancel (run_at cancelled 0 2)) 1 cancels

unfold_get : get s0.runs 7 ≡ some (run_at planning 0 1)
unfolding program
unfold_get = refl

version-perform_example : (run' : AgentRun) × (get s1.runs 7 ≡ some run') × (1 ≤ run'.version)
version-perform_example =
    version-perform s0 (cancel (run_at cancelled 0 2)) 1 7 (run_at planning 0 1) cancels unfold_get

abbrev proposal : ToolProposal
proposal = record {
  run = run_at executing 1 2;
  call = patch_call;
  policy_result = asked;
  approval = some waiting;
}

abbrev s2 : RunStore
s2 = record empty_store {
  runs = (7, run_at executing 1 2) ∷ [];
  proposals = (7, proposal) ∷ [];
  proposals_history = (7, proposal ∷ []) ∷ [];
}

proposes : update_proposal s0 proposal 1 ≡ ok s2
unfolding program
proposes = refl

get_proposal-update_proposal_example : Reads s2 (run_at executing 1 2) (ok proposal)
get_proposal-update_proposal_example = get_proposal-update_proposal s0 proposal 1 proposes

abbrev result : ToolExecutionResult
result = record {
  tool_call_id = 40;
  tool_name = codes "file.patch";
  succeeded = true;
  output = codes "Updated";
  error = none;
  truncated = false;
  duration_ms = 3;
}

abbrev s3 : RunStore
s3 = record {
  runs = (7, run_at observing 1 3) ∷ [];
  proposals = [];
  results = (7, result) ∷ [];
  proposals_history = (7, record proposal { run = run_at observing 1 3 } ∷ []) ∷ [];
  results_history = (7, result ∷ []) ∷ [];
}

completes : complete_proposal s2 (run_at observing 1 3) result 2 ≡ ok s3
unfolding program
completes = refl

complete_proposal-Completed_example : Completed s2 (run_at observing 1 3) result s3
complete_proposal-Completed_example =
    complete_proposal-Completed s2 (run_at observing 1 3) result 2 completes

get_run_steps-complete_proposal_example :
    Memᴰ {A = ToolProposal × Option ToolExecutionResult}
      (record proposal { run = run_at observing 1 3 }, some result)
      (get_run_steps s3 7)
    × All (Shows (shown s2 (run_at observing 1 3) result)) (get_run_steps s3 7)
get_run_steps-complete_proposal_example =
    get_run_steps-complete_proposal s0 s2 s3 proposal (run_at observing 1 3) result 1 2 refl
      proposes completes
