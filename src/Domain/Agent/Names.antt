-- ===== src/Domain/Agent/Names.antt =====
-- The identifiers of domain/agent.py: tool names and workspace identifiers.
pub mod Shape
use kelvin_assistant.Prelude.{ℕ, Bool, Text, ◌||◌, nat_beq, strip, if◌then◌else◌}
use kelvin_assistant.Prelude.Regex.{Regex, chr, cat, star, plus, up_to, range, fullmatch}
use kelvin_assistant.Prelude.Result.{Result, ok, raise, agent_domain_error}

-- `[a-z]`
abbrev pub lower : ℕ → Bool
lower = range b'a' b'z'

-- `[a-z0-9_]`
abbrev pub word : ℕ → Bool
word c = lower c || range b'0' b'9' c || nat_beq c b'_'

-- `_TOOL_NAME_PATTERN`
abbrev pub tool_name_pattern : Regex
tool_name_pattern =
    let part = cat (chr lower) (star (chr word)) in cat part (plus (cat (chr (nat_beq b'.')) part))

-- `_WORKSPACE_ID_PATTERN`
abbrev pub workspace_id_pattern : Regex
workspace_id_pattern = cat (chr lower) (up_to 63 (chr (λ c. word c || nat_beq c b'-')))

unfoldable pub normalize_tool_name : Text → Result Text
normalize_tool_name value =
    let name = strip value in
    if fullmatch tool_name_pattern name then ok name else raise agent_domain_error
