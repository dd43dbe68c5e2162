-- ===== src/Tests/Patches.antt =====
-- A patch of one small file.
use kelvin_assistant.Prelude.{
  ℕ, ◌≡◌, refl, Bool, true, false, none, some, [], ◌∷◌, Text, text_eq, codes, is_space, strip,
  text_beq, nat_eq, ◌==◌, if◌then◌else◌,
}
use kelvin_assistant.Prelude.Dict.{get, put, pop}
use kelvin_assistant.Prelude.Regex.{nullable, fullmatch}
use kelvin_assistant.Prelude.Search.{starts_with, replace_first, count_from, count}
use kelvin_assistant.Prelude.Result.{ok, raise, tool_execution_error}
use kelvin_assistant.Domain.Json.{end, field, str, lookup, field_names}
use kelvin_assistant.Domain.Agent.Names.{normalize_tool_name}
use kelvin_assistant.Domain.Agent.Run.{normalize_required_text}
use kelvin_assistant.Domain.Agent.Tools.{ToolCall, ToolExecutionResult, execution_post_init}
use kelvin_assistant.Adapters.WriteTools.{
  FilePath, path_eq, is_above, parent, Host, atomic_write, PreparedPatch, resolve_workspace,
  read_utf8, validate_call, required_string, required_argument, resolve_file, prepare_patch,
  preview, apply_patch, execute,
}
use kelvin_assistant.Adapters.WriteTools.Patches.{IsPatch}
use kelvin_assistant.Adapters.WriteTools.Execution.{Written, execute-previewed}
use kelvin_assistant.Tests.Data.{patch, call_of}

program : Unit {0}
unfolding strip is_space nullable fullmatch text_beq get put pop lookup field_names starts_with
    replace_first count_from count normalize_required_text normalize_tool_name execution_post_init
    is_above parent atomic_write resolve_workspace read_utf8 validate_call required_string
    required_argument resolve_file prepare_patch preview apply_patch execute
program = tt

abbrev root : FilePath
root = codes "w" ∷ []

abbrev file : FilePath
file = codes "w" ∷ codes "a" ∷ []

abbrev host : Host
host = record {
  workspace = some root;
  is_dir = λ p. true;
  is_absolute = λ t. false;
  resolve = λ p t. file;
  resolve_strict = λ p t. some file;
  is_file = λ p. true;
  size = λ p. some 3;
  contents = λ p. if p == file then some (codes "one") else none;
  is_writable = λ p. true;
}

abbrev call_with : (old_text new_text : Text) → ToolCall
call_with old_text new_text = call_of patch (
    field (codes "path") (str (codes "a"))
      (field (codes "old_text") (str old_text) (field (codes "new_text") (str new_text) end)))

abbrev call : ToolCall
call = call_with (codes "ne") (codes "ld")

abbrev never : FilePath → FilePath → Bool
never p q = false

abbrev diff : (original updated name : Text) → Text
diff original updated name = updated

abbrev name : FilePath → FilePath → Text
name p q = codes "a"

shows : (preview never diff name host [] call).content ≡ ok (codes "old")
unfolding program
shows = refl

abbrev result : ToolExecutionResult
result = record {
  tool_call_id = 40;
  tool_name = codes "file.patch";
  succeeded = true;
  output = codes "Updated a";
  error = none;
  truncated = false;
  duration_ms = 3;
}

executes : (execute host (preview never diff name host [] call).prepared 3 call).result ≡ ok result
unfolding program
executes = refl

writes :
    (execute host (preview never diff name host [] call).prepared 3 call).host.contents file
    ≡ some (codes "old")
unfolding program
writes = refl

-- The file has changed since the preview, or nothing was previewed.
refuses :
    ((execute
        (record host { contents = λ p. some (codes "new") })
        (preview never diff name host [] call).prepared
        3
        call).result
      ≡ raise tool_execution_error)
    × ((execute host [] 3 call).result ≡ raise tool_execution_error)
unfolding program
refuses = (refl, refl)

-- Occurrences that overlap are counted once: `aaa` has `aa` at two places.
overlaps : count (codes "aaa") (codes "aa") ≡ 1
unfolding program
overlaps = refl

execute-previewed_example :
    (p : PreparedPatch) × IsPatch diff host call p
    × (codes "old" ≡ p.preview)
    × Written host p (execute host (preview never diff name host [] call).prepared 3 call).host
    × ((last : Host) (d : ℕ)
        → (execute last
            (execute host (preview never diff name host [] call).prepared 3 call).prepared
            d
            call).result
          ≡ raise tool_execution_error)
execute-previewed_example =
    execute-previewed never diff name host host [] 3 call (codes "old") result shows executes
