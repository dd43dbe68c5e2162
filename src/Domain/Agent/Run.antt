-- ===== src/Domain/Agent/Run.antt =====
-- `AgentRun` of domain/agent.py. The clock is an argument: `now` is what `datetime.now(UTC)`
-- returns in the call. Numbers are natural, so the guards against negative numbers are in the type.
pub mod Valid
pub mod Traces
use kelvin_assistant.Prelude.{
  ℕ, ◌+◌, Bool, Option, none, some, Text, not, ◌||◌, ◌==◌, ltb, leb, strip, is_empty, length,
  contains, if◌then◌else◌,
}
use kelvin_assistant.Prelude.Regex.{fullmatch}
use kelvin_assistant.Prelude.Result.{
  Result, ok, raise, ◌>>=◌, ◌>>◌, raise_if, agent_domain_error, invalid_transition_error,
  step_limit_error,
}
use kelvin_assistant.Domain.Agent.Names.{workspace_id_pattern}
use kelvin_assistant.Domain.Agent.Status.{
  AgentStatus, received, executing, status_eq, allowed_transitions,
}

abbrev pub default_max_agent_steps : ℕ
default_max_agent_steps = 12

abbrev pub max_agent_steps : ℕ
max_agent_steps = 100

abbrev pub max_agent_goal_length : ℕ
max_agent_goal_length = 8192

pub record AgentRun : Type 0 where
  pub id : ℕ
  pub goal : Text
  pub status : AgentStatus
  pub step_count : ℕ
  pub max_steps : ℕ
  pub version : ℕ
  pub workspace_id : Option Text
  pub created_at : Option ℕ
  pub updated_at : Option ℕ

-- `_normalize_required_text`
unfoldable pub normalize_required_text : Text → Result Text
normalize_required_text value =
    let normalized = strip value in
    if is_empty normalized then raise agent_domain_error else ok normalized

unfoldable pub normalize_workspace_id : Option Text → Result (Option Text)
normalize_workspace_id none = ok none
normalize_workspace_id (some value) =
    let workspace_id = strip value in
    if fullmatch workspace_id_pattern workspace_id
    then ok (some workspace_id)
    else raise agent_domain_error

abbrev pub or_now : ℕ → Option ℕ → Option ℕ
or_now now none = some now
or_now now (some t) = some t

-- `__post_init__`, which `replace` runs again
unfoldable pub run_post_init : ℕ → AgentRun → Result AgentRun
run_post_init now run = do
  goal ← normalize_required_text run.goal
  raise_if (ltb max_agent_goal_length (length goal)) agent_domain_error
  raise_if (ltb run.max_steps 1 || ltb max_agent_steps run.max_steps) agent_domain_error
  raise_if (ltb run.max_steps run.step_count) agent_domain_error
  workspace_id ← normalize_workspace_id run.workspace_id
  ok (record run {
    goal = goal;
    workspace_id = workspace_id;
    created_at = or_now now run.created_at;
    updated_at = or_now now run.updated_at;
  })

-- `AgentRun.create`; `id` is the fresh identifier
unfoldable pub create_run : (id now : ℕ) → Text → ℕ → Option Text → Result AgentRun
create_run id now goal max_steps workspace_id = run_post_init now (record {
  id = id;
  goal = goal;
  status = received;
  step_count = 0;
  max_steps = max_steps;
  version = 0;
  workspace_id = workspace_id;
  created_at = none;
  updated_at = none;
})

-- `next_step_count` of `transition_to`
unfoldable pub next_step_count : AgentRun → AgentStatus → Result ℕ
next_step_count run next_status =
    if next_status == executing
    then (if leb run.max_steps run.step_count
        then raise step_limit_error
        else ok (run.step_count + 1))
    else ok run.step_count

unfoldable pub transition_to : ℕ → AgentRun → AgentStatus → Result AgentRun
transition_to now run next_status = do
  raise_if (not (contains (allowed_transitions run.status) next_status)) invalid_transition_error
  step_count ← next_step_count run next_status
  run_post_init now (record run {
    status = next_status;
    step_count = step_count;
    version = run.version + 1;
    updated_at = some now;
  })
