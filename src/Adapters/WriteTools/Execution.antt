-- ===== src/Adapters/WriteTools/Execution.antt =====
-- What is written is what was shown: the preview of a patch, then anything on the host, then the
-- execution.
use kelvin_assistant.Prelude.{
  ℕ, ◌≡◌, ◌⊎◌, inl, inr, refl, ◌∙◌, ap, Bool, true, false, Bool-cases, Option, none, some, Text,
  text_eq, nat_eq, ==_refl, not, ◌&&◌, ◌==◌, is_empty, strip, if◌then◌else◌, arith,
}
use kelvin_assistant.Prelude.Dict.{get, pop, get-put, get-pop}
use kelvin_assistant.Prelude.Result.{
  Result, ok, raise, >>=-eq-ok, raise_if-eq-ok, returned, tool_execution_error, value_error,
}
use kelvin_assistant.Domain.Agent.Tools.{ToolCall, ToolExecutionResult}
use kelvin_assistant.Adapters.WriteTools.{
  FilePath, path_eq, is_above, parent, Host, atomic_write, PreparedPatch, Prepared, or_tool_error,
  resolve_workspace, read_utf8, prepare_patch, Previewed, previewed, preview, apply_patch,
  executed_patch, execute_prepared, execute,
}
use kelvin_assistant.Adapters.WriteTools.Patches.{
  IsPatch, or_tool_error-eq-ok, resolve_workspace-eq-ok, prepare_patch-IsPatch,
}

-- What a successful execution did.
pub record Written (later : Host) (patch : PreparedPatch) (after : Host) : Type 0 where
  pub root : FilePath
  pub workspace : later.workspace ≡ some root
  pub inside : (parent patch.path ≡ root) ⊎ (is_above root patch.path ≡ true)
  pub unchanged : later.contents patch.path ≡ some patch.original
  pub contents :
      (p : FilePath)
      → after.contents p ≡ (if p == patch.path then some patch.updated else later.contents p)

in_workspace :
    (root path : FilePath)
    → (not (parent path == root) && not (is_above root path)) ≡ false
    → (parent path ≡ root) ⊎ (is_above root path ≡ true)
in_workspace root path h = elim (Bool-cases (is_above root path)) [
  | inl e ↦ inr e
  | inr e ↦ inl ((path_eq.beq_iff (parent path) root).0 (ground arith))
]

apply_patch-Written :
    (later : Host) (patch : PreparedPatch) {after : Host}
    → apply_patch later patch ≡ ok after
    → Written later patch after
unfolding apply_patch read_utf8 atomic_write
apply_patch-Written later patch h =
    let (root, workspace, h₁) = >>=-eq-ok (resolve_workspace later) _ h in
    let (near, h₂) =
      raise_if-eq-ok (not (parent patch.path == root) && not (is_above root patch.path))
        tool_execution_error _ h₁ in
    let (current, found, h₃) = >>=-eq-ok (or_tool_error (later.contents patch.path)) _ h₂ in
    let (same, h₄) = raise_if-eq-ok (not (current == patch.original)) tool_execution_error _ h₃ in
    let (_, h₅) = raise_if-eq-ok (not (later.is_writable patch.path)) tool_execution_error _ h₄ in
    let equal : current ≡ patch.original =
      (text_eq.beq_iff current patch.original).0 (ground arith) in
    returned (Written later patch) h₅ (record {
      root = root;
      workspace = resolve_workspace-eq-ok later workspace;
      inside = in_workspace root patch.path near;
      unchanged = or_tool_error-eq-ok (later.contents patch.path) found ∙ ap some equal;
      contents = λ p. refl;
    })

module _ (should_ignore_path : FilePath → FilePath → Bool)
    (unified_diff : (original updated name : Text) → Text)
    (relative : FilePath → FilePath → Text) where
  -- What a preview that is shown has kept.
  record Kept (host : Host) (call : ToolCall) (content : Text) (v : Previewed) : Type 0 where
    pub patch : PreparedPatch
    pub is_patch : IsPatch unified_diff host call patch
    pub kept : get v.prepared call.id ≡ some patch
    pub shown : content ≡ patch.preview

  preview-Kept :
      (host : Host) (prepared : Prepared) (call : ToolCall) (content : Text)
      → (preview should_ignore_path unified_diff relative host prepared call).content ≡ ok content
      → Kept host call content (preview should_ignore_path unified_diff relative host prepared call)
  unfolding preview
  preview-Kept host prepared call content =
      go (prepare_patch should_ignore_path unified_diff relative host call) refl
    where
      go :
          (r : Result PreparedPatch)
          → prepare_patch should_ignore_path unified_diff relative host call ≡ r
          → (previewed prepared call r).content ≡ ok content
          → Kept host call content (previewed prepared call r)
      go (raise e) same h = cc
      go (ok patch) same h =
          let (_, shown) = raise_if-eq-ok (is_empty (strip patch.preview)) value_error _ h in
          record {
            patch = patch;
            is_patch =
                prepare_patch-IsPatch should_ignore_path unified_diff relative host call same;
            kept = get-put prepared call.id call.id patch ∙ rw (==_refl call.id);
            shown = returned (λ t. t ≡ patch.preview) shown refl;
          }

  execute-Written :
      (later : Host) (prepared : Prepared) (duration_ms : ℕ) (call : ToolCall)
      (patch : PreparedPatch) {r : ToolExecutionResult}
      → get prepared call.id ≡ some patch
      → (execute later prepared duration_ms call).result ≡ ok r
      → Written later patch (execute later prepared duration_ms call).host
  unfolding execute
  execute-Written later prepared duration_ms call patch {r} kept h =
      rw kept (go (apply_patch later patch) refl (rw kept at h))
    where
      go :
          (a : Result Host)
          → apply_patch later patch ≡ a
          → (executed_patch later (pop prepared call.id) duration_ms call patch a).result ≡ ok r
          → Written later patch
              (executed_patch later (pop prepared call.id) duration_ms call patch a).host
      go (raise e) same h = cc
      go (ok after) same h = apply_patch-Written later patch same

  -- The patch is gone after an execution.
  execute-left :
      (later : Host) (prepared : Prepared) (d : ℕ) (call : ToolCall)
      → (execute later prepared d call).prepared ≡ pop prepared call.id
  unfolding execute
  execute-left later prepared d call = go (get prepared call.id)
    where
      applied :
          (patch : PreparedPatch) (a : Result Host)
          → (executed_patch later (pop prepared call.id) d call patch a).prepared
            ≡ pop prepared call.id
      applied patch (raise e) = refl
      applied patch (ok after) = refl

      go :
          (o : Option PreparedPatch)
          → (execute_prepared later (pop prepared call.id) d call o).prepared ≡ pop prepared call.id
      go none = refl
      go (some patch) = applied patch (apply_patch later patch)

  execute-once :
      (later last : Host) (prepared : Prepared) (d d' : ℕ) (call : ToolCall)
      → (execute last (execute later prepared d call).prepared d' call).result
        ≡ raise tool_execution_error
  unfolding execute
  execute-once later last prepared d d' call =
      let gone : get (execute later prepared d call).prepared call.id ≡ none =
        ap (λ left. get left call.id) (execute-left later prepared d call)
        ∙ get-pop prepared call.id call.id
        ∙ rw (==_refl call.id) in
      rw gone refl

  -- A preview that was shown, and then an execution of the same call on a host that may have changed
  -- in any way: if it succeeds, the contents were still those of the preview, they are replaced by
  -- those of the patch whose diff the preview showed, and nothing else changes. The file is below the
  -- workspace at the time of the preview, and in the workspace at the time of the execution. The new
  -- contents are the old ones with one occurrence of the old text of the call replaced by the new
  -- text; the old text occurs neither in the part before it nor in the part after it (an occurrence
  -- that overlaps it is not excluded). A second execution is refused.
  pub execute-previewed :
      (host later : Host) (prepared : Prepared) (duration_ms : ℕ) (call : ToolCall) (content : Text)
      (r : ToolExecutionResult)
      → (preview should_ignore_path unified_diff relative host prepared call).content ≡ ok content
      → (execute later
          (preview should_ignore_path unified_diff relative host prepared call).prepared
          duration_ms
          call).result
        ≡ ok r
      → (patch : PreparedPatch) × IsPatch unified_diff host call patch
        × (content ≡ patch.preview)
        × Written later patch
            (execute later
              (preview should_ignore_path unified_diff relative host prepared call).prepared
              duration_ms
              call).host
        × ((last : Host) (d : ℕ)
            → (execute last
                (execute later
                  (preview should_ignore_path unified_diff relative host prepared call).prepared
                  duration_ms
                  call).prepared
                d
                call).result
              ≡ raise tool_execution_error)
  execute-previewed host later prepared duration_ms call content r shown h =
      let k = preview-Kept host prepared call content shown in
      let after = (preview should_ignore_path unified_diff relative host prepared call).prepared in
      (
        k.patch,
        k.is_patch,
        k.shown,
        execute-Written later after duration_ms call k.patch k.kept h,
        λ last d. execute-once later last after duration_ms d call,
      )
