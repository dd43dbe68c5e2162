-- ===== src/Tools/Registry.antt =====
-- `StaticToolRegistry` of tools/registry.py.
pub mod Laws
use kelvin_assistant.Prelude.{Option, none, some, List, [], ◌∷◌, Text, text_eq, if◌then◌else◌}
use kelvin_assistant.Prelude.Dict.{Dict, keys, get, put}
use kelvin_assistant.Prelude.Sort.{sorted, text_le}
use kelvin_assistant.Prelude.Result.{
  Result, ok, raise, ◌>>=◌, ◌>>◌, raise_if, duplicate_tool_error, unknown_tool_error,
}
use kelvin_assistant.Domain.Agent.Tools.{ToolDefinition, is_given}

abbrev pub Definitions : Type 0
Definitions = Dict Text ToolDefinition

-- The loop of the constructor, with the dict `registered` so far.
unfoldable pub register : List ToolDefinition → Definitions → Result Definitions
register [] registered = ok registered
register (d ∷ ds) registered =
    raise_if (is_given (get registered d.name)) duplicate_tool_error
    >> register ds (put registered d.name d)

unfoldable pub make_registry : List ToolDefinition → Result Definitions
make_registry ds = register ds []

-- `except KeyError: raise UnknownToolError`
abbrev pub or_unknown : Option ToolDefinition → Result ToolDefinition
or_unknown none = raise unknown_tool_error
or_unknown (some d) = ok d

unfoldable pub get_tool : Definitions → Text → Result ToolDefinition
get_tool definitions name = or_unknown (get definitions name)

abbrev pub push : Option ToolDefinition → List ToolDefinition → List ToolDefinition
push none ds = ds
push (some d) ds = d ∷ ds

-- `self._definitions[name] for name in names`, for names of the dict
unfoldable pub select : Definitions → List Text → List ToolDefinition
select definitions [] = []
select definitions (n ∷ ns) = let rest = select definitions ns in push (get definitions n) rest

unfoldable pub list_all : Definitions → List ToolDefinition
list_all definitions = select definitions (sorted text_le (keys definitions))
