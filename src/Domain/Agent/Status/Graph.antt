-- ===== src/Domain/Agent/Status/Graph.antt =====
-- The life cycle as a graph.
use kelvin_assistant.Prelude.{
  true, ◌≡◌, ◌↔◌, contains, ◌==◌, arith, ◌||◌, false, Bool-cases, inl, inr,
}
use kelvin_assistant.Domain.Agent.Status.{
  AgentStatus, planning, awaiting_approval, executing, cancelled, failed, status_eq, is_terminal,
  allowed_transitions,
}

-- One edge of the table.
abbrev pub Edge : AgentStatus → AgentStatus → Type 0
Edge s t = contains (allowed_transitions s) t ≡ true

pub no-Edge : (s t : AgentStatus) → is_terminal s ≡ true → ¬ Edge s t
unfolding is_terminal allowed_transitions
no-Edge s t h e = ground arith

-- From every state that is not terminal, the run can be cancelled and can fail.
stop_edges : (s : AgentStatus) → is_terminal s ≡ false → Edge s cancelled × Edge s failed
unfolding is_terminal allowed_transitions
stop_edges s h = ground arith

-- A status is terminal exactly when no transition leaves it.
pub is_terminal_iff : (s : AgentStatus) → (is_terminal s ≡ true) ↔ ((t : AgentStatus) → ¬ Edge s t)
is_terminal_iff s = (
  λ h t. no-Edge s t h,
  λ none_leaves. elim (Bool-cases (is_terminal s)) [
    | inl e ↦ e
    | inr e ↦ absurd (none_leaves failed (stop_edges s e).1)
  ],
)

-- A tool is executed only from planning or from a pending approval, and an approval is awaited
-- only from planning.
pub executing-gate :
    (s : AgentStatus)
    → (Edge s executing ↔ (((s == planning) || (s == awaiting_approval)) ≡ true))
      × (Edge s awaiting_approval ↔ ((s == planning) ≡ true))
unfolding allowed_transitions
executing-gate s = ground arith
