-- ===== src/Application/ToolPolicy.antt =====
-- `DefaultToolPolicy` of application/tool_policy.py, over any tool registry.
pub mod Paths
pub mod Branches
pub mod Decisions
use kelvin_assistant.Prelude.{
  ℕ, Bool, true, false, Option, none, some, List, [], ◌∷◌, ◌++◌, Text, text_eq, codes, not, ◌&&◌,
  ◌||◌, ◌==◌, contains, nat_beq, if◌then◌else◌,
}
use kelvin_assistant.Prelude.Search.{starts_with, has_part}
use kelvin_assistant.Prelude.Regex.{Regex, chr, cat, range, match}
use kelvin_assistant.Prelude.Result.{Exception, Result, ok, raise, unknown_tool_error}
use kelvin_assistant.Domain.Json.{Json, null, str, Fields, lookup}
use kelvin_assistant.Domain.Agent.Status.{
  ToolRisk, read, write, destructive, privileged, risk_eq, ToolPolicyDecision, allow,
  require_approval, deny,
}
use kelvin_assistant.Domain.Agent.Tools.{
  ToolPolicyResult, make_policy_result, ToolDefinition, ToolCall,
}
use kelvin_assistant.Ports.Tools.{ToolRegistry}

pub record ToolPolicyContext : Type 0 where
  pub workspace_authorized : Bool
  pub workspace_id : Option Text

-- `arguments.get(key)`, where a missing key and a JSON null both are `None`
abbrev pub or_null : Option Json → Json
or_null none = null
or_null (some v) = v

-- `requested is not None and requested != workspace_id`
unfoldable pub names_other : Json → Text → Bool
names_other null workspace_id = false
names_other (str t) workspace_id = not (t == workspace_id)
names_other _ workspace_id = true

-- The test on the workspace that the arguments ask for.
unfoldable pub other_workspace : Option Text → Fields → Bool
other_workspace none arguments = false
other_workspace (some workspace_id) arguments =
    names_other (or_null (lookup arguments (codes "workspace"))) workspace_id

-- `re.match(r"^[a-zA-Z]:", path)`
abbrev pub drive_pattern : Regex
drive_pattern = cat (chr (λ c. range b'a' b'z' c || range b'A' b'Z' c)) (chr (nat_beq b':'))

unfoldable pub unsafe_path : Text → Bool
unsafe_path path =
    has_part path (codes "..")
    || starts_with path (codes "/")
    || starts_with path (b'\\' ∷ [])
    || match drive_pattern path

-- The value of the enumeration, as the text in the reason.
abbrev pub risk_text : ToolRisk → Text
risk_text read = codes "read"
risk_text write = codes "write"
risk_text destructive = codes "destructive"
risk_text privileged = codes "privileged"

-- The branch for a tool that changes state, by the argument `path`.
unfoldable pub evaluate_write : Json → Result ToolPolicyResult
evaluate_write null =
    make_policy_result require_approval
      (codes "State-changing tools require explicit user approval.")
evaluate_write (str path) =
    if unsafe_path path
    then make_policy_result deny (codes "path must be relative and without traversal.")
    else make_policy_result require_approval
        (codes "State-changing tools require explicit user approval.")
evaluate_write _ = make_policy_result deny (codes "Argument 'path' must be a string.")

-- The tests on a registered tool, in the order of the code.
unfoldable pub evaluate_registered :
    ToolDefinition → ToolCall → ToolPolicyContext → Result ToolPolicyResult
evaluate_registered definition call context =
    if not context.workspace_authorized
    then make_policy_result deny (codes "The requested workspace is not authorized.")
    else if other_workspace context.workspace_id call.arguments
    then make_policy_result deny (codes "Tool arguments target a different workspace.")
    else if not (call.risk == definition.risk)
    then make_policy_result deny (codes "The proposed risk does not match the registered tool.")
    else if contains (destructive ∷ privileged ∷ []) definition.risk
    then make_policy_result deny (risk_text definition.risk ++ codes " tools are disabled in v0.6.")
    else if definition.risk == write
    then evaluate_write (or_null (lookup call.arguments (codes "path")))
    else make_policy_result allow (codes "Read-only tool is allowed in the authorized workspace.")

-- `except UnknownToolError`; any other error of the registry is passed on.
unfoldable pub evaluate_found :
    Result ToolDefinition → ToolCall → ToolPolicyContext → Result ToolPolicyResult
evaluate_found (ok definition) call context = evaluate_registered definition call context
evaluate_found (raise unknown_tool_error) call context =
    make_policy_result deny (codes "The requested tool is not registered.")
evaluate_found (raise e) call context = raise e

-- `DefaultToolPolicy.evaluate`
unfoldable pub evaluate : ToolRegistry → ToolCall → ToolPolicyContext → Result ToolPolicyResult
evaluate registry call context = evaluate_found (registry.get call.name) call context
