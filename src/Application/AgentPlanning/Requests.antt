-- ===== src/Application/AgentPlanning/Requests.antt =====
-- What a planner is asked: the request that is made of a goal, tools, steps, turns and an observation.
use kelvin_assistant.Prelude.{
  ℕ, ◌≡◌, refl, ◌≤◌, Bool-cases, inl, inr, Option, List, Text, not, ◌||◌, ltb, ltb→le, is_empty,
  strip, length, arith, true, false, none, some, if◌then◌else◌, map, distinct, subst, text_eq,
}
use kelvin_assistant.Prelude.Result.{ok, >>=-eq-ok, raise_if-eq-ok, returned, planner_domain_error}
use kelvin_assistant.Domain.Planner.{
  ClarificationTurn, PlannerRequest, create_request, required_text, validate_tools,
  normalize_observation, max_clarification_turns,
}
use kelvin_assistant.Domain.Agent.Status.{status_eq}
use kelvin_assistant.Domain.Agent.Run.{max_agent_steps, max_agent_goal_length}
use mathlib.Core.Option.{some-injective}
use kelvin_assistant.Domain.Agent.Tools.{ToolDefinition, max_tool_output_length}

-- An observation that is not empty and within the limit.
abbrev pub Fits : Option Text → Type 0
Fits o =
    (text : Text) → o ≡ some text → (is_empty text ≡ false) × (length text ≤ max_tool_output_length)

-- The request that a planner gets is within the limits of the planner's contract.
pub record Bounded (request : PlannerRequest) : Type 0 where
  pub goal : length request.goal ≤ max_agent_goal_length
  pub some_steps : 1 ≤ request.remaining_steps
  pub few_steps : request.remaining_steps ≤ max_agent_steps
  pub few_turns : length request.clarifications ≤ max_clarification_turns
  pub some_tools : is_empty request.tools ≡ false
  pub distinct_tools : distinct (map (λ (tool : ToolDefinition). tool.name) request.tools) ≡ true
  pub observation : Fits request.observation

required_text-short :
    (value : Text) (maximum : ℕ) {t : Text}
    → required_text value maximum ≡ ok t
    → (length t ≤ maximum) × (t ≡ strip value)
unfolding required_text
required_text-short value maximum h =
    let (_, h₁) = raise_if-eq-ok (is_empty (strip value)) planner_domain_error _ h in
    let (short, h₂) =
      raise_if-eq-ok (ltb maximum (length (strip value))) planner_domain_error _ h₁ in
    returned (λ t. (length t ≤ maximum) × (t ≡ strip value)) h₂
      (ltb→le maximum (length (strip value)) short, refl)

-- What the planner sees of a guarded observation: its stripped text, unless that is empty.
abbrev pub seen : Option Text → Option Text
seen none = none
seen (some text) = if is_empty (strip text) then none else some (strip text)

normalized :
    (o : Option Text) {r : Option Text} → normalize_observation o ≡ ok r → (r ≡ seen o) × Fits r
unfolding normalize_observation
normalized none h = returned (λ (x : Option Text). (x ≡ none) × Fits x) h (refl, λ text e. cc)
normalized (some t) h = elim (Bool-cases (is_empty (strip t))) [
  | inl e ↦
      rw e (returned (λ (x : Option Text). (x ≡ none) × Fits x) (rw e at h) (refl, λ text q. cc))
  | inr e ↦ elim (Bool-cases (ltb max_tool_output_length (length (strip t)))) [
    | inl f ↦ cc (rw (e, f) at h)
    | inr f ↦ rw e (
        returned (λ (x : Option Text). (x ≡ some (strip t)) × Fits x) (rw (e, f) at h)
          (
            refl,
            λ text q.
                subst (λ (x : Text). (is_empty x ≡ false) × (length x ≤ max_tool_output_length))
                  (some-injective _ _ q) (e, ltb→le max_tool_output_length (length (strip t)) f),
          ))
  ]
]

tools_of :
    (tools : List ToolDefinition) {r : List ToolDefinition}
    → validate_tools tools ≡ ok r
    → (r ≡ tools)
      × (is_empty r ≡ false)
      × (distinct (map (λ (tool : ToolDefinition). tool.name) r) ≡ true)
unfolding validate_tools
tools_of tools h =
    let (some_tools, h₁) = raise_if-eq-ok (is_empty tools) planner_domain_error _ h in
    let (different, h₂) =
      raise_if-eq-ok (not (distinct (map (λ (tool : ToolDefinition). tool.name) tools)))
        planner_domain_error _ h₁ in
    returned
      (λ (r : List ToolDefinition).
        (r ≡ tools)
        × (is_empty r ≡ false)
        × (distinct (map (λ (tool : ToolDefinition). tool.name) r) ≡ true))
      h₂ (refl, some_tools, ground arith)

-- The request that is made of a goal, tools, steps, turns and an observation.
pub record Asked (wanted : Text) (offered : List ToolDefinition) (left : ℕ)
    (asked_before : List ClarificationTurn) (observed : Option Text) (request : PlannerRequest)
    : Type 0 where
  pub bounded : Bounded request
  pub goal : request.goal ≡ strip wanted
  pub tools : request.tools ≡ offered
  pub steps : request.remaining_steps ≡ left
  pub turns : request.clarifications ≡ asked_before
  pub observation : request.observation ≡ seen observed

pub create_request-Asked :
    (goal : Text) (tools : List ToolDefinition) (steps : ℕ) (turns : List ClarificationTurn)
    (observation : Option Text) {request : PlannerRequest}
    → create_request goal tools steps turns observation ≡ ok request
    → Asked goal tools steps turns observation request
unfolding create_request
create_request-Asked goal tools steps turns observation h =
    let (goal', short, h₁) = >>=-eq-ok (required_text goal max_agent_goal_length) _ h in
    let (tools', valid, h₂) = >>=-eq-ok (validate_tools tools) _ h₁ in
    let (between, h₃) =
      raise_if-eq-ok (ltb steps 1 || ltb max_agent_steps steps) planner_domain_error _ h₂ in
    let (few, h₄) =
      raise_if-eq-ok (ltb max_clarification_turns (length turns)) planner_domain_error _ h₃ in
    let (observation', normal, h₅) = >>=-eq-ok (normalize_observation observation) _ h₄ in
    let (within, stripped) = required_text-short goal max_agent_goal_length short in
    let (same_tools, some_tools, different) = tools_of tools valid in
    let (shown, kept) = normalized observation normal in
    returned (Asked goal tools steps turns observation) h₅ (record {
      bounded = record {
        goal = within;
        some_steps = ground arith;
        few_steps = ground arith;
        few_turns = ground arith;
        some_tools = some_tools;
        distinct_tools = different;
        observation = kept;
      };
      goal = stripped;
      tools = same_tools;
      steps = refl;
      turns = refl;
      observation = shown;
    })
