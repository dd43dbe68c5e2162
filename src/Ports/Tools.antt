-- ===== src/Ports/Tools.antt =====
-- `ToolRegistry` of ports/tools.py: the operations, with what the protocol's comments promise.
use kelvin_assistant.Prelude.{◌≡◌, Text, List}
use kelvin_assistant.Prelude.Result.{Result, ok, raise, Exception, unknown_tool_error}
use kelvin_assistant.Domain.Agent.Tools.{ToolDefinition}

pub record ToolRegistry : Type 0 where
  pub get : Text → Result ToolDefinition
  pub list_all : List ToolDefinition
  -- The definition has the exact name that was asked for.
  pub get_name : (name : Text) (d : ToolDefinition) → get name ≡ ok d → d.name ≡ name
  -- The only error is `UnknownToolError`.
  pub get_error : (name : Text) (e : Exception) → get name ≡ raise e → e ≡ unknown_tool_error
