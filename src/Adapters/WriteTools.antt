-- ===== src/Adapters/WriteTools.antt =====
-- `FilePatchExecutor` of adapters/write_tools.py, over a host: what the operating system answers about
-- paths and files. A path is the list of its parts. A file that cannot be read and one that is not
-- UTF-8 text both have no contents here, as the code raises one class of exception for both.
-- `should_ignore_path` and the unified diff are parameters, and so is the clock.
pub mod Patches
pub mod Execution
use kelvin_assistant.Prelude.{
  ℕ, Bool, true, false, Option, none, some, List, [], ◌∷◌, ◌++◌, Text, text_eq, list_beq,
  list_beq_iff, Eq, nat_eq, codes, not, ◌&&◌, ◌||◌, ◌==◌, ltb, length, is_empty, strip, all,
  contains, if◌then◌else◌,
}
use kelvin_assistant.Prelude.Dict.{Dict, get, put, pop}
use kelvin_assistant.Prelude.Search.{count, replace_first}
use kelvin_assistant.Prelude.Result.{
  Exception, Result, ok, raise, ◌>>=◌, ◌>>◌, raise_if, tool_execution_error, value_error,
}
use kelvin_assistant.Domain.Json.{Json, str, Fields, lookup, field_names}
use kelvin_assistant.Domain.Agent.Status.{ToolRisk, write, risk_eq}
use kelvin_assistant.Domain.Agent.Tools.{
  ToolCall, ToolExecutionResult, execution_post_init, max_tool_output_length,
}

abbrev pub max_patch_file_bytes : ℕ
max_patch_file_bytes = 1048576

abbrev pub max_patch_text_length : ℕ
max_patch_text_length = 32768

abbrev pub FilePath : Type 0
FilePath = List Text

instance abbrev pub path_eq : Eq FilePath
path_eq = record { beq = list_beq; beq_iff = list_beq_iff }

-- `root in path.parents`
unfoldable pub is_above : (root path : FilePath) → Bool
is_above root [] = false
is_above [] (part ∷ path) = true
is_above (first ∷ root) (part ∷ path) = let below = is_above root path in first == part && below

-- `path.parent`
unfoldable pub parent : FilePath → FilePath
parent [] = []
parent (part ∷ []) = []
parent (part ∷ next ∷ path) = part ∷ parent (next ∷ path)

-- What the operating system answers at one time.
pub record Host : Type 0 where
  -- `workspace_root.resolve(strict=True)`, if it does not raise
  pub workspace : Option FilePath
  pub is_dir : FilePath → Bool
  pub is_absolute : Text → Bool
  -- `(root / path).resolve(strict=False)`, and the same with `strict=True`
  pub resolve : FilePath → Text → FilePath
  pub resolve_strict : FilePath → Text → Option FilePath
  pub is_file : FilePath → Bool
  pub size : FilePath → Option ℕ
  pub contents : FilePath → Option Text
  -- Whether a file can be replaced
  pub is_writable : FilePath → Bool

-- The host after `_atomic_write_utf8`, if it succeeds
unfoldable pub atomic_write : Host → FilePath → Text → Result Host
atomic_write host path content =
    raise_if (not (host.is_writable path)) tool_execution_error
    >> ok (record host { contents = λ p. if p == path then some content else host.contents p })

pub record PreparedPatch : Type 0 where
  pub path : FilePath
  pub relative_path : Text
  pub original : Text
  pub updated : Text
  pub preview : Text

-- `self._prepared`
abbrev pub Prepared : Type 0
Prepared = Dict ℕ PreparedPatch

abbrev pub or_tool_error : {A : Type 0} → Option A → Result A
or_tool_error none = raise tool_execution_error
or_tool_error (some a) = ok a

unfoldable pub resolve_workspace : Host → Result FilePath
resolve_workspace host = do
  root ← or_tool_error host.workspace
  raise_if (not (host.is_dir root)) tool_execution_error
  ok root

unfoldable pub read_utf8 : Host → FilePath → Result Text
read_utf8 host path = or_tool_error (host.contents path)

-- `_validate_call`, for the definition of the tool
unfoldable pub validate_call : ToolCall → Result (Unit {0})
validate_call call = do
  raise_if (not (call.name == codes "file.patch")) tool_execution_error
  raise_if (not (call.risk == write)) tool_execution_error
  raise_if
      (not (
        all (contains (codes "path" ∷ codes "old_text" ∷ codes "new_text" ∷ []))
          (field_names call.arguments)))
      tool_execution_error

unfoldable pub required_string : ToolCall → Text → Result Text
required_string call name = elim (lookup call.arguments name) [
  | (some (str value)) ↦ ok value
  | _ ↦ raise tool_execution_error
]

unfoldable pub required_argument : ToolCall → Text → Result Text
required_argument call name = do
  value ← required_string call name
  raise_if (is_empty value) tool_execution_error
  ok value

pub record Previewed : Type 0 where
  pub prepared : Prepared
  pub content : Result Text

-- The rest of `preview`: the patch is kept before the preview is built, which raises if it is blank.
abbrev pub previewed : Prepared → ToolCall → Result PreparedPatch → Previewed
previewed prepared call (raise e) = record { prepared = prepared; content = raise e }
previewed prepared call (ok patch) = record {
  prepared = put prepared call.id patch;
  content = raise_if (is_empty (strip patch.preview)) value_error >> ok patch.preview;
}

module _ (should_ignore_path : FilePath → FilePath → Bool)
    (unified_diff : (original updated name : Text) → Text)
    (relative : FilePath → FilePath → Text) where
  unfoldable pub resolve_file : Host → FilePath → Text → Result FilePath
  resolve_file host root relative_path = do
    raise_if (host.is_absolute relative_path) tool_execution_error
    raise_if (not (is_above root (host.resolve root relative_path))) tool_execution_error
    candidate ← or_tool_error (host.resolve_strict root relative_path)
    raise_if (not (is_above root candidate)) tool_execution_error
    raise_if (should_ignore_path candidate root) tool_execution_error
    raise_if (not (host.is_file candidate)) tool_execution_error
    size ← or_tool_error (host.size candidate)
    raise_if (ltb max_patch_file_bytes size) tool_execution_error
    ok candidate

  unfoldable pub prepare_patch : Host → ToolCall → Result PreparedPatch
  prepare_patch host call = do
    root ← resolve_workspace host
    validate_call call
    relative_path ← required_argument call (codes "path")
    old_text ← required_argument call (codes "old_text")
    new_text ← required_string call (codes "new_text")
    raise_if
        (ltb max_patch_text_length (length old_text) || ltb max_patch_text_length (length new_text))
        tool_execution_error
    path ← resolve_file host root relative_path
    original ← read_utf8 host path
    raise_if (not (count original old_text == 1)) tool_execution_error
    let updated = replace_first original old_text new_text
    raise_if (updated == original) tool_execution_error
    let normalized_path = relative path root
    let preview = unified_diff original updated normalized_path
    raise_if (ltb max_tool_output_length (length preview)) tool_execution_error
    ok (record {
      path = path;
      relative_path = normalized_path;
      original = original;
      updated = updated;
      preview = preview;
    })

  unfoldable pub preview : Host → Prepared → ToolCall → Previewed
  preview host prepared call = previewed prepared call (prepare_patch host call)

-- The checks and the write of `execute`
unfoldable pub apply_patch : Host → PreparedPatch → Result Host
apply_patch host patch = do
  root ← resolve_workspace host
  raise_if (not (parent patch.path == root) && not (is_above root patch.path)) tool_execution_error
  current ← read_utf8 host patch.path
  raise_if (not (current == patch.original)) tool_execution_error
  atomic_write host patch.path patch.updated

pub record Executed : Type 0 where
  pub host : Host
  pub prepared : Prepared
  pub result : Result ToolExecutionResult

abbrev pub executed_patch :
    Host → Prepared → (duration_ms : ℕ) → ToolCall → PreparedPatch → Result Host → Executed
executed_patch host left duration_ms call patch (raise e) = record {
  host = host;
  prepared = left;
  result = raise e;
}
executed_patch host left duration_ms call patch (ok after) = record {
  host = after;
  prepared = left;
  result = execution_post_init (record {
    tool_call_id = call.id;
    tool_name = call.name;
    succeeded = true;
    output = codes "Updated " ++ patch.relative_path;
    error = none;
    truncated = false;
    duration_ms = duration_ms;
  });
}

-- `execute`: the patch is taken out of `_prepared`, whatever comes of it.
abbrev pub execute_prepared :
    Host → Prepared → (duration_ms : ℕ) → ToolCall → Option PreparedPatch → Executed
execute_prepared host left duration_ms call none = record {
  host = host;
  prepared = left;
  result = raise tool_execution_error;
}
execute_prepared host left duration_ms call (some patch) =
    executed_patch host left duration_ms call patch (apply_patch host patch)

unfoldable pub execute : Host → Prepared → (duration_ms : ℕ) → ToolCall → Executed
execute host prepared duration_ms call =
    execute_prepared host (pop prepared call.id) duration_ms call (get prepared call.id)
