-- ===== src/Domain/Agent/Tools/Valid.antt =====
-- What the constructors of the tool records guarantee.
use kelvin_assistant.Prelude.{
  ℕ, ◌≤◌, ◌≡◌, ◌↔◌, refl, ap, true, false, Bool-cases, inl, inr, Option, none, some, Text, strip,
  strip-strip, is_empty, length, not, ◌||◌, ◌&&◌, arith, ltb→le,
}
use kelvin_assistant.Prelude.Regex.{fullmatch}
use kelvin_assistant.Prelude.Result.{ok, >>=-eq-ok, raise_if-eq-ok, returned, agent_domain_error}
use kelvin_assistant.Domain.Agent.Names.{tool_name_pattern, normalize_tool_name}
use kelvin_assistant.Domain.Agent.Names.Shape.{IsToolName, fullmatch-tool_name_pattern}
use kelvin_assistant.Domain.Agent.Status.{ApprovalDecision, pending, approved, rejected}
use kelvin_assistant.Domain.Agent.Tools.{
  ToolExecutionResult, execution_post_init, max_tool_output_length, is_given, is_blank, longer_than,
  make_tool_approval, check_decision, stripped, ToolApproval,
}

tool_name_sound :
    (value : Text) {name : Text}
    → normalize_tool_name value ≡ ok name
    → (strip value ≡ name) × (fullmatch tool_name_pattern (strip value) ≡ true)
unfolding normalize_tool_name
tool_name_sound value {name} h = elim (Bool-cases (fullmatch tool_name_pattern (strip value))) [
  | inl e ↦ (returned (λ t. strip value ≡ t) (rw e at h) refl, e)
  | inr e ↦ cc (rw e at h)
]

tool_name_complete :
    (value : Text) {name : Text}
    → strip value ≡ name
    → fullmatch tool_name_pattern (strip value) ≡ true
    → normalize_tool_name value ≡ ok name
unfolding normalize_tool_name
tool_name_complete value {name} same e = rw e (ap ok same)

-- A tool name is accepted exactly when the stripped text is made of two or more parts with dots
-- between them, each a lower-case letter and then lower-case letters, digits and underscores; and
-- then the result is the stripped text.
pub normalize_tool_name_iff :
    (value name : Text)
    → (normalize_tool_name value ≡ ok name) ↔ ((strip value ≡ name) × IsToolName (strip value))
normalize_tool_name_iff value name =
    let shape = fullmatch-tool_name_pattern (strip value) in
    (
      λ h. let (same, m) = tool_name_sound value h in (same, shape.0 m),
      λ (same, m). tool_name_complete value same (shape.1 m),
    )

-- Normalizing a tool name twice is normalizing it once.
pub normalize_tool_name_again :
    (value : Text) {name : Text}
    → normalize_tool_name value ≡ ok name
    → normalize_tool_name name ≡ ok name
normalize_tool_name_again value {name} h =
    let (same, e) = tool_name_sound value h in
    let fixed : strip name ≡ name = rw (← same) (strip-strip value) in
    tool_name_complete name fixed (rw (fixed, ← same) e)

-- A result whose error text is set is a failure, and the other way round.
pub record Consistent (r : ToolExecutionResult) : Type 0 where
  pub name : normalize_tool_name r.tool_name ≡ ok r.tool_name
  pub output : length r.output ≤ max_tool_output_length
  pub error : longer_than max_tool_output_length r.error ≡ false
  pub succeeded : r.succeeded ≡ true → r.error ≡ none
  pub failed : r.succeeded ≡ false → is_blank r.error ≡ false

not_given : {A : Type 0} (o : Option A) → is_given o ≡ false → o ≡ none
not_given none h = refl
not_given (some a) h = cc

-- An execution result is constructed only with a valid tool name, with bounded texts, with no error
-- if it succeeded and with one that is not empty if it failed.
pub execution_post_init-Consistent :
    (r : ToolExecutionResult) {r' : ToolExecutionResult}
    → execution_post_init r ≡ ok r'
    → Consistent r'
unfolding execution_post_init
execution_post_init-Consistent r h =
    let (name, g, h₁) = >>=-eq-ok (normalize_tool_name r.tool_name) _ h in
    let (output, h₂) = raise_if-eq-ok _ agent_domain_error _ h₁ in
    let (error, h₃) = raise_if-eq-ok _ agent_domain_error _ h₂ in
    let (succeeded, h₄) =
      raise_if-eq-ok (r.succeeded && is_given r.error) agent_domain_error _ h₃ in
    let (failed, h₅) =
      raise_if-eq-ok (not r.succeeded && is_blank r.error) agent_domain_error _ h₄ in
    returned Consistent h₅ (record {
      name = normalize_tool_name_again r.tool_name g;
      output = ltb→le max_tool_output_length _ output;
      error = error;
      succeeded = λ e. not_given r.error (rw e at succeeded);
      failed = λ e. rw e at failed;
    })

-- Who decided, and when.
pub record Decided (a : ToolApproval) : Type 0 where
  pub author : Text
  pub time : ℕ
  pub by : a.decided_by ≡ some author
  pub named : is_empty author ≡ false
  pub at : a.decided_at ≡ some time

abbrev pub Metadata : ApprovalDecision → ToolApproval → Type 0
Metadata pending a = (a.decided_by ≡ none) × (a.decided_at ≡ none)
Metadata approved a = Decided a
Metadata rejected a = Decided a

decided :
    (id : ℕ) (d : ApprovalDecision) (by : Option Text) (at : Option ℕ)
    → (is_blank by || not (is_given at)) ≡ false
    → Decided (record { tool_call_id = id; decision = d; decided_by = by; decided_at = at })
decided id d none at h = cc
decided id d (some t) none h = ground arith
decided id d (some t) (some n) h = record {
  author = t;
  time = n;
  by = refl;
  named = ground arith;
  at = refl;
}

pub make_tool_approval-Metadata :
    (id : ℕ) (d : ApprovalDecision) (by : Option Text) (at : Option ℕ) {a : ToolApproval}
    → make_tool_approval id d by at ≡ ok a
    → Metadata d a
unfolding make_tool_approval check_decision
make_tool_approval-Metadata id pending by at h =
    let (e, q) = raise_if-eq-ok (is_given (stripped by) || is_given at) agent_domain_error _ h in
    returned (Metadata pending) q
      (not_given (stripped by) (ground arith), not_given at (ground arith))
make_tool_approval-Metadata id approved by at h =
    let (e, q) = raise_if-eq-ok _ agent_domain_error _ h in
    returned Decided q (decided id approved (stripped by) at e)
make_tool_approval-Metadata id rejected by at h =
    let (e, q) = raise_if-eq-ok _ agent_domain_error _ h in
    returned Decided q (decided id rejected (stripped by) at e)
