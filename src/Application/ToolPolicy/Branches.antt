-- ===== src/Application/ToolPolicy/Branches.antt =====
-- The decision of the policy on each of its branches, as a function of the tests.
use kelvin_assistant.Prelude.{
  ◌≡◌, refl, false, Bool-cases, inl, inr, Option, none, some, [], ◌∷◌, ◌++◌, Text, text_eq, codes,
  not, ◌==◌, contains, if◌then◌else◌, arith, strip, is_space, is_empty,
}
use kelvin_assistant.Prelude.Result.{Exception, Result, ok, raise, unknown_tool_error}
use kelvin_assistant.Domain.Json.{Json, null, str, lookup}
use kelvin_assistant.Domain.Agent.Run.{normalize_required_text}
use kelvin_assistant.Domain.Agent.Status.{
  ToolRisk, read, write, destructive, privileged, risk_eq, ToolPolicyDecision, allow,
  require_approval, deny,
}
use kelvin_assistant.Domain.Agent.Tools.{
  ToolPolicyResult, make_policy_result, ToolDefinition, ToolCall,
}
use kelvin_assistant.Application.ToolPolicy.{
  ToolPolicyContext, evaluate_found, evaluate_registered, evaluate_write, other_workspace,
  unsafe_path, or_null, risk_text,
}
use kelvin_assistant.Application.ToolPolicy.Paths.{IsPlain, unsafe_path_sound, unsafe_path_complete}

-- The decision of a result, if there is one.
abbrev pub decision_of : Result ToolPolicyResult → Option ToolPolicyDecision
decision_of (ok r) = some r.decision
decision_of (raise e) = none

-- A reason that is not blank lets the result be constructed.
pub made :
    (d : ToolPolicyDecision) (reason : Text)
    → is_empty (strip reason) ≡ false
    → decision_of (make_policy_result d reason) ≡ some d
unfolding make_policy_result normalize_required_text
made d reason h = rw h

pub made_disabled :
    (r : ToolRisk)
    → decision_of (make_policy_result deny (risk_text r ++ codes " tools are disabled in v0.6."))
      ≡ some deny
unfolding strip is_space
made_disabled read = made deny _ refl
made_disabled _ = made deny _ refl

-- The decision on a path argument.
abbrev pub path_decision : Json → ToolPolicyDecision
path_decision null = require_approval
path_decision (str path) = if unsafe_path path then deny else require_approval
path_decision _ = deny

pub decision-evaluate_write : (j : Json) → decision_of (evaluate_write j) ≡ some (path_decision j)
unfolding evaluate_write strip is_space
decision-evaluate_write null = made require_approval _ refl
decision-evaluate_write (str path) = elim (Bool-cases (unsafe_path path)) [
  | inl e ↦ rw e (made deny _ refl)
  | inr e ↦ rw e (made require_approval _ refl)
]
decision-evaluate_write _ = made deny _ refl

abbrev pub path_argument : ToolCall → Json
path_argument call = or_null (lookup call.arguments (codes "path"))

-- The decisions of the tests, without the reasons.
abbrev pub decision : ToolDefinition → ToolCall → ToolPolicyContext → ToolPolicyDecision
decision d call context =
    if not context.workspace_authorized
    then deny
    else if other_workspace context.workspace_id call.arguments
    then deny
    else if not (call.risk == d.risk)
    then deny
    else if contains (destructive ∷ privileged ∷ []) d.risk
    then deny
    else if d.risk == write
    then path_decision (path_argument call)
    else allow

pub decision-evaluate_registered :
    (d : ToolDefinition) (call : ToolCall) (context : ToolPolicyContext)
    → decision_of (evaluate_registered d call context) ≡ some (decision d call context)
unfolding evaluate_registered strip is_space
decision-evaluate_registered d call context = elim (Bool-cases context.workspace_authorized) [
  | inr a ↦ rw a (made deny _ refl)
  | inl a ↦ elim (Bool-cases (other_workspace context.workspace_id call.arguments)) [
    | inl o ↦ rw (a, o) (made deny _ refl)
    | inr o ↦ elim (Bool-cases (call.risk == d.risk)) [
      | inr q ↦ rw (a, o, q) (made deny _ refl)
      | inl q ↦ rw (a, o, q) (by_risk d.risk)
    ]
  ]
]
  where
    by_risk :
        (r : ToolRisk)
        → decision_of (
            if contains (destructive ∷ privileged ∷ []) r
            then make_policy_result deny (risk_text r ++ codes " tools are disabled in v0.6.")
            else if r == write
            then evaluate_write (path_argument call)
            else make_policy_result allow
                (codes "Read-only tool is allowed in the authorized workspace."))
          ≡ some (
              if contains (destructive ∷ privileged ∷ []) r
              then deny
              else if r == write
              then path_decision (path_argument call)
              else allow)
    by_risk read = made allow _ refl
    by_risk write = decision-evaluate_write (path_argument call)
    by_risk destructive = made_disabled destructive
    by_risk privileged = made_disabled privileged

-- The call has no path, or a plain one.
abbrev pub SafePath : Json → Type 0
SafePath null = Unit
SafePath (str path) = IsPlain path
SafePath _ = ⊥

pub path_decision_sound : (j : Json) → path_decision j ≡ require_approval → SafePath j
path_decision_sound null h = tt
path_decision_sound (str path) h = unsafe_path_sound path (ground arith)
path_decision_sound _ h = cc

pub path_decision_complete : (j : Json) → SafePath j → path_decision j ≡ require_approval
path_decision_complete null h = refl
path_decision_complete (str path) h = rw (unsafe_path_complete path h)
path_decision_complete _ h = absurd h

-- The decision on what the registry answers.
abbrev pub outcome : Result ToolDefinition → ToolCall → ToolPolicyContext → ToolPolicyDecision
outcome (ok d) call context = decision d call context
outcome (raise e) call context = deny

pub decision-evaluate_found :
    (r : Result ToolDefinition) (call : ToolCall) (context : ToolPolicyContext)
    → ((e : Exception) → r ≡ raise e → e ≡ unknown_tool_error)
    → decision_of (evaluate_found r call context) ≡ some (outcome r call context)
unfolding evaluate_found strip is_space
decision-evaluate_found (ok d) call context only = decision-evaluate_registered d call context
decision-evaluate_found (raise e) call context only = rw (only e refl) (made deny _ refl)
