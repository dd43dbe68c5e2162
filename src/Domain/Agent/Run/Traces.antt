-- ===== src/Domain/Agent/Run/Traces.antt =====
-- Sequences of transitions of one run: the counters, the step limit, and terminal states.
use kelvin_assistant.Prelude.{
  ℕ, ◌+◌, ◌≤◌, ◌≡◌, refl, ◌∙◌, true, Bool-cases, inl, inr, List, [], ◌∷◌, length, contains, ◌==◌,
  leb, if◌then◌else◌, arith,
}
use kelvin_assistant.Prelude.Result.{
  Result, ok, raise, ◌>>=◌, >>=-eq-ok, returned, invalid_transition_error,
}
use kelvin_assistant.Domain.Agent.Status.{
  AgentStatus, executing, status_eq, allowed_transitions, is_terminal,
}
use kelvin_assistant.Domain.Agent.Status.Graph.{Edge, no-Edge}
use kelvin_assistant.Domain.Agent.Run.{AgentRun, transition_to, max_agent_steps}
use kelvin_assistant.Domain.Agent.Run.Valid.{
  IsValid, moved, moved-IsValid, transition, transition_to_lem,
}

-- What one transition does to a run: `r` comes from `run` by a move to `next_status`.
pub record Moves (run : AgentRun) (next_status : AgentStatus) (r : AgentRun) : Type 0 where
  pub valid : IsValid r
  pub allowed : Edge run.status next_status
  pub status : r.status ≡ next_status
  pub version : r.version ≡ run.version + 1
  pub steps :
      r.step_count ≡ (if next_status == executing then run.step_count + 1 else run.step_count)
  pub limit : r.max_steps ≡ run.max_steps
  pub id : r.id ≡ run.id
  pub goal : r.goal ≡ run.goal
  pub workspace : r.workspace_id ≡ run.workspace_id

moved-Moves :
    (now : ℕ) (run : AgentRun) (s : AgentStatus) (steps : ℕ)
    → IsValid run
    → Edge run.status s
    → steps ≤ run.max_steps
    → steps ≡ (if s == executing then run.step_count + 1 else run.step_count)
    → Moves run s (moved now run s steps)
moved-Moves now run s steps v e fits counted = record {
  valid = moved-IsValid now run s steps v fits;
  allowed = e;
  status = refl;
  version = refl;
  steps = counted;
  limit = refl;
  id = refl;
  goal = refl;
  workspace = refl;
}

transition-Moves :
    (now : ℕ) (run : AgentRun) (s : AgentStatus) {r : AgentRun}
    → IsValid run
    → transition now run s ≡ ok r
    → Moves run s r
transition-Moves now run s v h = elim (Bool-cases (contains (allowed_transitions run.status) s)) [
  | inr e ↦ cc (rw e at h)
  | inl e ↦ elim (Bool-cases (s == executing)) [
    | inr x ↦
        returned (Moves run s) (rw (e, x) at h)
          (moved-Moves now run s run.step_count v e v.steps (rw x))
    | inl x ↦ elim (Bool-cases (leb run.max_steps run.step_count)) [
      | inl full ↦ cc (rw (e, x, full) at h)
      | inr room ↦
          returned (Moves run s) (rw (e, x, room) at h)
            (moved-Moves now run s (run.step_count + 1) v e (ground arith) (rw x))
    ]
  ]
]

-- An accepted transition of a valid run goes along an edge of the table, gives a valid run, adds
-- one to the version, and one to the step count exactly when it enters the executing state; the
-- identifier, the goal, the workspace and the limit stay.
pub transition_to-Moves :
    (now : ℕ) (run : AgentRun) (s : AgentStatus) {r : AgentRun}
    → IsValid run
    → transition_to now run s ≡ ok r
    → Moves run s r
transition_to-Moves now run s v h =
    transition-Moves now run s v (rw (transition_to_lem now run s v) at h)

-- Transitions one after the other, each with its time; the first that is refused ends them.
unfoldable pub follow : List (ℕ × AgentStatus) → AgentRun → Result AgentRun
follow [] run = ok run
follow ((now, s) ∷ moves) run = transition_to now run s >>= follow moves

-- How often the executing state is entered.
unfoldable pub executions : List (ℕ × AgentStatus) → ℕ
executions [] = 0
executions ((now, s) ∷ moves) = (if s == executing then 1 else 0) + executions moves

pub record Follows (run : AgentRun) (moves : List (ℕ × AgentStatus)) (r : AgentRun) : Type 0 where
  pub steps : r.step_count ≡ run.step_count + executions moves
  pub version : r.version ≡ run.version + length moves
  pub limit : r.max_steps ≡ run.max_steps
  pub valid : IsValid r

follow-Follows :
    (moves : List (ℕ × AgentStatus)) (run : AgentRun) {r : AgentRun}
    → IsValid run
    → follow moves run ≡ ok r
    → Follows run moves r
unfolding follow executions
follow-Follows [] run v h =
    returned (Follows run []) h
      (record { steps = omega arith; version = omega arith; limit = refl; valid = v })
follow-Follows ((now, s) ∷ moves) run v h =
    let (next, p, q) = >>=-eq-ok (transition_to now run s) (follow moves) h in
    let m = transition_to-Moves now run s v p in
    let f = follow-Follows moves next m.valid q in
    record {
      steps = ground (arith, f.steps, m.steps);
      version = omega (arith, f.version, m.version);
      limit = f.limit ∙ m.limit;
      valid = f.valid;
    }

-- In any sequence of accepted transitions of a valid run, the executing state is entered at most
-- as often as the run has steps left, so never more than 100 times, and the version grows by
-- the number of transitions.
pub follow-bounds :
    (moves : List (ℕ × AgentStatus)) (run r : AgentRun)
    → IsValid run
    → follow moves run ≡ ok r
    → (run.step_count + executions moves ≤ run.max_steps)
      × (executions moves ≤ max_agent_steps)
      × (r.version ≡ run.version + length moves)
follow-bounds moves run r v h =
    let f = follow-Follows moves run v h in
    let steps = f.steps in
    let limit = f.limit in
    let fits = f.valid.steps in (omega arith, omega (arith, v.few_steps), f.version)

-- A run in a terminal status refuses every transition, whatever its fields hold.
pub transition_to-terminal :
    (now : ℕ) (run : AgentRun) (s : AgentStatus)
    → is_terminal run.status ≡ true
    → transition_to now run s ≡ raise invalid_transition_error
unfolding transition_to
transition_to-terminal now run s h =
    elim (Bool-cases (contains (allowed_transitions run.status) s)) [
      | inl e ↦ absurd (no-Edge run.status s h e)
      | inr e ↦ rw e
    ]
