-- ===== src/Domain/Agent/Run/Valid.antt =====
-- What `__post_init__` guarantees, and that a transition of a valid run is never refused by it.
use kelvin_assistant.Prelude.{
  ℕ, ◌+◌, ◌≤◌, ◌≡◌, refl, true, false, Bool-cases, inl, inr, Option, none, some, Text, strip,
  strip-strip, is_empty, length, if◌then◌else◌, arith, leb, ltb→le, le→ltb, contains, not, ◌==◌,
}
use kelvin_assistant.Prelude.Regex.{fullmatch}
use kelvin_assistant.Prelude.Result.{
  Result, ok, raise, >>=-eq-ok, raise_if-eq-ok, returned, agent_domain_error, step_limit_error,
  invalid_transition_error,
}
use kelvin_assistant.Domain.Agent.Names.{workspace_id_pattern}
use kelvin_assistant.Domain.Agent.Status.{AgentStatus, executing, status_eq, allowed_transitions}
use kelvin_assistant.Domain.Agent.Run.{
  AgentRun, max_agent_steps, max_agent_goal_length, normalize_required_text, normalize_workspace_id,
  or_now, run_post_init, next_step_count, transition_to,
}

abbrev pub ValidWorkspace : Option Text → Type 0
ValidWorkspace none = Unit
ValidWorkspace (some w) = (strip w ≡ w) × (fullmatch workspace_id_pattern w ≡ true)

abbrev pub IsGiven : {A : Type 0} → Option A → Type 0
IsGiven none = ⊥
IsGiven (some a) = Unit

pub record IsValid (run : AgentRun) : Type 0 where
  pub stripped : strip run.goal ≡ run.goal
  pub full : is_empty run.goal ≡ false
  pub short : length run.goal ≤ max_agent_goal_length
  pub some_steps : 1 ≤ run.max_steps
  pub few_steps : run.max_steps ≤ max_agent_steps
  pub steps : run.step_count ≤ run.max_steps
  pub workspace : ValidWorkspace run.workspace_id
  pub created : IsGiven run.created_at
  pub updated : IsGiven run.updated_at

-- What a constructed run satisfies, by the guards of `__post_init__`.
required_text :
    (value : Text) {t : Text}
    → normalize_required_text value ≡ ok t
    → (strip t ≡ t) × (is_empty t ≡ false)
unfolding normalize_required_text
required_text value {t} h = elim (Bool-cases (is_empty (strip value))) [
  | inl e ↦ cc (rw e at h)
  | inr e ↦ let same : strip value ≡ t = cc (rw e at h) in rw (← same) (strip-strip value, e)
]

pub normalize_required_text_fixed :
    (t : Text) → strip t ≡ t → is_empty t ≡ false → normalize_required_text t ≡ ok t
unfolding normalize_required_text
normalize_required_text_fixed t s n = rw (s, n)

workspace_id_sound :
    (w : Option Text) {v : Option Text} → normalize_workspace_id w ≡ ok v → ValidWorkspace v
unfolding normalize_workspace_id
workspace_id_sound none h = returned ValidWorkspace h tt
workspace_id_sound (some w) h = elim (Bool-cases (fullmatch workspace_id_pattern (strip w))) [
  | inl e ↦ returned ValidWorkspace (rw e at h) (strip-strip w, e)
  | inr e ↦ cc (rw e at h)
]

workspace_id_fixed : (w : Option Text) → ValidWorkspace w → normalize_workspace_id w ≡ ok w
unfolding normalize_workspace_id
workspace_id_fixed none h = refl
workspace_id_fixed (some w) h = rw (h.0, h.1)

or_now-IsGiven : (now : ℕ) (t : Option ℕ) → IsGiven (or_now now t)
or_now-IsGiven now none = tt
or_now-IsGiven now (some t) = tt

or_now_fixed : (now : ℕ) (t : Option ℕ) → IsGiven t → or_now now t ≡ t
or_now_fixed now none h = absurd h
or_now_fixed now (some t) h = refl

-- A run that is constructed is valid, and keeps its identifier, its status and its counters.
pub record Constructed (run : AgentRun) (r : AgentRun) : Type 0 where
  pub valid : IsValid r
  pub id : r.id ≡ run.id
  pub status : r.status ≡ run.status
  pub step_count : r.step_count ≡ run.step_count
  pub max_steps : r.max_steps ≡ run.max_steps
  pub version : r.version ≡ run.version

pub run_post_init-Constructed :
    (now : ℕ) (run : AgentRun) {r : AgentRun} → run_post_init now run ≡ ok r → Constructed run r
unfolding run_post_init
run_post_init-Constructed now run h =
    let (goal, g, h₁) = >>=-eq-ok (normalize_required_text run.goal) _ h in
    let (stripped, full) = required_text run.goal g in
    let (short, h₂) = raise_if-eq-ok _ agent_domain_error _ h₁ in
    let (range, h₃) = raise_if-eq-ok _ agent_domain_error _ h₂ in
    let (steps, h₄) = raise_if-eq-ok _ agent_domain_error _ h₃ in
    let (workspace, w, h₅) = >>=-eq-ok (normalize_workspace_id run.workspace_id) _ h₄ in
    returned (Constructed run) h₅ (record {
      id = refl;
      status = refl;
      step_count = refl;
      max_steps = refl;
      version = refl;
      valid = record {
        stripped = stripped;
        full = full;
        short = ltb→le max_agent_goal_length _ short;
        some_steps = ground arith;
        few_steps = ground arith;
        steps = ltb→le run.max_steps _ steps;
        workspace = workspace_id_sound run.workspace_id w;
        created = or_now-IsGiven now run.created_at;
        updated = or_now-IsGiven now run.updated_at;
      };
    })

pub run_post_init_fixed : (now : ℕ) (run : AgentRun) → IsValid run → run_post_init now run ≡ ok run
unfolding run_post_init
run_post_init_fixed now run v = rw (
  normalize_required_text_fixed run.goal v.stripped v.full,
  le→ltb max_agent_goal_length _ v.short,
  le→ltb run.max_steps 1 v.some_steps,
  le→ltb max_agent_steps run.max_steps v.few_steps,
  le→ltb run.max_steps run.step_count v.steps,
  workspace_id_fixed run.workspace_id v.workspace,
  or_now_fixed now run.created_at v.created,
  or_now_fixed now run.updated_at v.updated,
)

-- The run that an allowed transition gives, with the number of steps that it has used.
abbrev pub moved : ℕ → AgentRun → AgentStatus → ℕ → AgentRun
moved now run next_status steps = record run {
  status = next_status;
  step_count = steps;
  version = run.version + 1;
  updated_at = some now;
}

pub moved-IsValid :
    (now : ℕ) (run : AgentRun) (next_status : AgentStatus) (steps : ℕ)
    → IsValid run
    → steps ≤ run.max_steps
    → IsValid (moved now run next_status steps)
moved-IsValid now run next_status steps v fits = record {
  stripped = v.stripped;
  full = v.full;
  short = v.short;
  some_steps = v.some_steps;
  few_steps = v.few_steps;
  steps = fits;
  workspace = v.workspace;
  created = v.created;
  updated = tt;
}

-- What `transition_to` returns.
abbrev pub transition : ℕ → AgentRun → AgentStatus → Result AgentRun
transition now run next_status =
    if not (contains (allowed_transitions run.status) next_status)
    then raise invalid_transition_error
    else if next_status == executing
    then (if leb run.max_steps run.step_count
        then raise step_limit_error
        else ok (moved now run next_status (run.step_count + 1)))
    else ok (moved now run next_status run.step_count)

-- On a valid run the second validation, by `replace`, neither fails nor changes a field.
pub transition_to_lem :
    (now : ℕ) (run : AgentRun) (next_status : AgentStatus)
    → IsValid run
    → transition_to now run next_status ≡ transition now run next_status
unfolding transition_to next_step_count
transition_to_lem now run next_status v =
    elim (Bool-cases (not (contains (allowed_transitions run.status) next_status))) [
      | inl e ↦ rw e
      | inr e ↦ rw e (elim (Bool-cases (next_status == executing)) [
        | inl x ↦ rw x (elim (Bool-cases (leb run.max_steps run.step_count)) [
          | inl full ↦ rw full
          | inr room ↦ rw room (
              run_post_init_fixed now _
                (moved-IsValid now run next_status (run.step_count + 1) v (ground arith)))
        ])
        | inr x ↦
            rw x (
              run_post_init_fixed now _
                (moved-IsValid now run next_status run.step_count v v.steps))
      ])
    ]
