-- ===== src/Tests/Data.antt =====
-- Runs, calls and tools for the tests.
use kelvin_assistant.Prelude.{ℕ, none, some, List, [], ◌∷◌, codes, true}
use kelvin_assistant.Domain.Json.{Fields, end, field, str}
use kelvin_assistant.Domain.Agent.Status.{
  AgentStatus, read, write, windows_client, require_approval, pending,
}
use kelvin_assistant.Domain.Agent.Run.{AgentRun}
use kelvin_assistant.Domain.Agent.Tools.{ToolDefinition, ToolCall, ToolPolicyResult, ToolApproval}
use kelvin_assistant.Application.ToolPolicy.{ToolPolicyContext}

-- A run in the given state, as the store would hold it.
abbrev pub run_at : AgentStatus → (step_count version : ℕ) → AgentRun
run_at status step_count version = record {
  id = 7;
  goal = codes "fix it";
  status = status;
  step_count = step_count;
  max_steps = 2;
  version = version;
  workspace_id = some (codes "kelvin");
  created_at = some 5;
  updated_at = some 5;
}

abbrev pub patch : ToolDefinition
patch = record {
  name = codes "file.patch";
  description = codes "Replace text";
  input_schema = end;
  risk = write;
  execution_target = windows_client;
  timeout_seconds = 15;
}

abbrev pub status : ToolDefinition
status = record {
  name = codes "git.status";
  description = codes "Show status";
  input_schema = end;
  risk = read;
  execution_target = windows_client;
  timeout_seconds = 15;
}

abbrev pub tools : List ToolDefinition
tools = status ∷ patch ∷ []

abbrev pub call_of : ToolDefinition → Fields → ToolCall
call_of tool arguments = record {
  name = tool.name;
  arguments = arguments;
  reason = codes "because";
  expected_effect = codes "an effect";
  risk = tool.risk;
  id = 40;
}

abbrev pub patch_call : ToolCall
patch_call = call_of patch (field (codes "path") (str (codes "a/b.py")) end)

abbrev pub status_call : ToolCall
status_call = call_of status end

abbrev pub context : ToolPolicyContext
context = record { workspace_authorized = true; workspace_id = some (codes "kelvin") }

abbrev pub asked : ToolPolicyResult
asked = record {
  decision = require_approval;
  reason = codes "State-changing tools require explicit user approval.";
}

abbrev pub waiting : ToolApproval
waiting = record { tool_call_id = 40; decision = pending; decided_by = none; decided_at = none }
