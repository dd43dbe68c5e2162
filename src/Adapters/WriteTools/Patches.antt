-- ===== src/Adapters/WriteTools/Patches.antt =====
-- What a prepared patch is.
use kelvin_assistant.Prelude.{
  ◌≤◌, ◌≡◌, refl, Bool, true, false, Option, none, some, Text, text_eq, nat_eq, nat_beq_iff, codes,
  not, ◌||◌, ◌==◌, ltb, ltb→le, length, is_empty, arith,
}
use kelvin_assistant.Prelude.Search.{count, replace_first}
use kelvin_assistant.Prelude.Search.Occurrences.{Once, replace_first-Once}
use kelvin_assistant.Prelude.Result.{
  ok, raise, >>=-eq-ok, raise_if-eq-ok, returned, tool_execution_error,
}
use kelvin_assistant.Domain.Json.{Json, str, lookup}
use kelvin_assistant.Domain.Agent.Tools.{ToolCall, max_tool_output_length}
use kelvin_assistant.Adapters.WriteTools.{
  FilePath, path_eq, is_above, Host, PreparedPatch, or_tool_error, resolve_workspace, read_utf8,
  validate_call, required_string, required_argument, resolve_file, prepare_patch,
  max_patch_text_length,
}

pub or_tool_error-eq-ok : {A : Type 0} (o : Option A) {a : A} → or_tool_error o ≡ ok a → o ≡ some a
or_tool_error-eq-ok none h = cc
or_tool_error-eq-ok (some a) h = cc

-- Where a patch stands, and what it does to the text of its file.
pub record IsPatch (diff : Text → Text → Text → Text) (host : Host) (call : ToolCall)
    (patch : PreparedPatch) : Type 0 where
  pub root : FilePath
  pub workspace : host.workspace ≡ some root
  pub inside : is_above root patch.path ≡ true
  pub found : host.contents patch.path ≡ some patch.original
  pub old_text : Text
  pub new_text : Text
  pub old_argument : lookup call.arguments (codes "old_text") ≡ some (str old_text)
  pub new_argument : lookup call.arguments (codes "new_text") ≡ some (str new_text)
  pub once : Once patch.original old_text new_text patch.updated
  pub shown : patch.preview ≡ diff patch.original patch.updated patch.relative_path
  pub short : length patch.preview ≤ max_tool_output_length

required_string-eq-ok :
    (call : ToolCall) (name : Text) {t : Text}
    → required_string call name ≡ ok t
    → lookup call.arguments name ≡ some (str t)
unfolding required_string
required_string-eq-ok call name h = go (lookup call.arguments name) refl h
  where
    go :
        (o : Option Json) {t : Text}
        → lookup call.arguments name ≡ o
        → elim o [ (some (str value)) ↦ ok value | _ ↦ raise tool_execution_error ] ≡ ok t
        → lookup call.arguments name ≡ some (str t)
    go (some (str value)) e h = returned (λ t. lookup call.arguments name ≡ some (str t)) h e
    go none e h = cc
    go (some _) e h = cc

required_argument-eq-ok :
    (call : ToolCall) (name : Text) {t : Text}
    → required_argument call name ≡ ok t
    → (lookup call.arguments name ≡ some (str t)) × (is_empty t ≡ false)
unfolding required_argument
required_argument-eq-ok call name h =
    let (value, found, h₁) = >>=-eq-ok (required_string call name) _ h in
    let (full, h₂) = raise_if-eq-ok (is_empty value) tool_execution_error _ h₁ in
    returned (λ t. (lookup call.arguments name ≡ some (str t)) × (is_empty t ≡ false)) h₂
      (required_string-eq-ok call name found, full)

pub resolve_workspace-eq-ok :
    (host : Host) {root : FilePath} → resolve_workspace host ≡ ok root → host.workspace ≡ some root
unfolding resolve_workspace
resolve_workspace-eq-ok host h =
    let (root, found, h₁) = >>=-eq-ok (or_tool_error host.workspace) _ h in
    let (_, h₂) = raise_if-eq-ok (not (host.is_dir root)) tool_execution_error _ h₁ in
    returned (λ r. host.workspace ≡ some r) h₂ (or_tool_error-eq-ok host.workspace found)

module _ (should_ignore_path : FilePath → FilePath → Bool)
    (unified_diff : (original updated name : Text) → Text)
    (relative : FilePath → FilePath → Text) where
  resolve_file-inside :
      (host : Host) (root : FilePath) (relative_path : Text) {path : FilePath}
      → resolve_file should_ignore_path unified_diff relative host root relative_path ≡ ok path
      → is_above root path ≡ true
  unfolding resolve_file
  resolve_file-inside host root relative_path h =
      let (_, h₁) = raise_if-eq-ok (host.is_absolute relative_path) tool_execution_error _ h in
      let (_, h₂) =
        raise_if-eq-ok (not (is_above root (host.resolve root relative_path))) tool_execution_error
          _ h₁ in
      let (candidate, _, h₃) =
        >>=-eq-ok (or_tool_error (host.resolve_strict root relative_path)) _ h₂ in
      let (inside, h₄) = raise_if-eq-ok (not (is_above root candidate)) tool_execution_error _ h₃ in
      let (_, h₅) = raise_if-eq-ok (should_ignore_path candidate root) tool_execution_error _ h₄ in
      let (_, h₆) = raise_if-eq-ok (not (host.is_file candidate)) tool_execution_error _ h₅ in
      let (size, _, h₇) = >>=-eq-ok (or_tool_error (host.size candidate)) _ h₆ in
      let (_, h₈) = raise_if-eq-ok (ltb _ size) tool_execution_error _ h₇ in
      returned (λ p. is_above root p ≡ true) h₈ (ground arith)

  -- A patch that is prepared stands in the workspace and replaces an occurrence of its text, with none before it
  -- and none after it.
  pub prepare_patch-IsPatch :
      (host : Host) (call : ToolCall) {patch : PreparedPatch}
      → prepare_patch should_ignore_path unified_diff relative host call ≡ ok patch
      → IsPatch unified_diff host call patch
  unfolding prepare_patch read_utf8
  prepare_patch-IsPatch host call h =
      let (root, workspace, h₁) = >>=-eq-ok (resolve_workspace host) _ h in
      let (_, _, h₂) = >>=-eq-ok (validate_call call) _ h₁ in
      let (relative_path, _, h₃) = >>=-eq-ok (required_argument call (codes "path")) _ h₂ in
      let (old_text, old_found, h₄) = >>=-eq-ok (required_argument call (codes "old_text")) _ h₃ in
      let (new_text, new_found, h₅) = >>=-eq-ok (required_string call (codes "new_text")) _ h₄ in
      let (_, h₆) =
        raise_if-eq-ok
          (ltb max_patch_text_length (length old_text)
            || ltb max_patch_text_length (length new_text))
          tool_execution_error _ h₅ in
      let (path, resolved, h₇) =
        >>=-eq-ok (resolve_file should_ignore_path unified_diff relative host root relative_path) _
          h₆ in
      let (original, found, h₈) = >>=-eq-ok (or_tool_error (host.contents path)) _ h₇ in
      let (once, h₉) =
        raise_if-eq-ok (not (count original old_text == 1)) tool_execution_error _ h₈ in
      let (_, h₁₀) =
        raise_if-eq-ok (replace_first original old_text new_text == original) tool_execution_error _
          h₉ in
      let (short, h₁₁) =
        raise_if-eq-ok
          (ltb max_tool_output_length (
            length (
              unified_diff original (replace_first original old_text new_text)
                (relative path root))))
          tool_execution_error _ h₁₀ in
      let (old_argument, full) = required_argument-eq-ok call (codes "old_text") old_found in
      returned (IsPatch unified_diff host call) h₁₁ (record {
        root = root;
        workspace = resolve_workspace-eq-ok host workspace;
        inside = resolve_file-inside host root relative_path resolved;
        found = or_tool_error-eq-ok (host.contents path) found;
        old_text = old_text;
        new_text = new_text;
        old_argument = old_argument;
        new_argument = required_string-eq-ok call (codes "new_text") new_found;
        once =
            replace_first-Once original old_text new_text full
              ((nat_beq_iff (count original old_text) 1).0 (ground arith));
        shown = refl;
        short = ltb→le max_tool_output_length _ short;
      })
