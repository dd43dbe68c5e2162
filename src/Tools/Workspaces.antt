-- ===== src/Tools/Workspaces.antt =====
-- `StaticWorkspaceAuthorizer` of tools/workspaces.py.
use kelvin_assistant.Prelude.{
  ◌≡◌, ◌↔◌, ◌⊎◌, sym, refl, Bool, true, false, Bool-cases, inl, inr, Option, none, some, List, [],
  ◌∷◌, Text, text_eq, text_beq_iff, ◌==◌, contains, is_empty, strip, if◌then◌else◌, arith,
}

-- The constructor: the stripped identifiers that are not blank.
unfoldable pub allowlist : List Text → List Text
allowlist [] = []
allowlist (w ∷ ws) = let rest = allowlist ws in if is_empty (strip w) then rest else strip w ∷ rest

unfoldable pub is_authorized : List Text → Option Text → Bool
is_authorized workspace_ids none = false
is_authorized workspace_ids (some workspace_id) = contains workspace_ids workspace_id

-- Some configured identifier is `w` when it is stripped.
abbrev pub Configured : Text → List Text → Type 0
Configured w [] = ⊥
Configured w (v ∷ vs) = (strip v ≡ w) ⊎ Configured w vs

contains-allowlist :
    (ws : List Text) (w : Text) → contains (allowlist ws) w ≡ true → Configured w ws
unfolding allowlist
contains-allowlist [] w h = cc
contains-allowlist (v ∷ vs) w h = elim (Bool-cases (is_empty (strip v))) [
  | inl e ↦ inr (contains-allowlist vs w (rw e at h))
  | inr e ↦ elim (Bool-cases (w == strip v)) [
    | inl same ↦ inl (sym ((text_beq_iff w (strip v)).0 same))
    | inr other ↦ inr (contains-allowlist vs w (rw (e, other) at h))
  ]
]

allowlist-contains :
    (ws : List Text) (w : Text)
    → is_empty w ≡ false
    → Configured w ws
    → contains (allowlist ws) w ≡ true
unfolding allowlist
allowlist-contains [] w n h = absurd h
allowlist-contains (v ∷ vs) w n (inl e) = rw (e, n, (text_beq_iff w w).1 refl)
allowlist-contains (v ∷ vs) w n (inr h) = elim (Bool-cases (is_empty (strip v))) [
  | inl e ↦ rw e (allowlist-contains vs w n h)
  | inr e ↦ rw e (ground (arith, allowlist-contains vs w n h))
]

-- A workspace that is not blank is authorized exactly when some configured identifier is equal
-- to it after stripping, and a run without a workspace never is.
pub is_authorized_iff :
    (ws : List Text) (w : Text)
    → is_empty w ≡ false
    → ((is_authorized (allowlist ws) (some w) ≡ true) ↔ Configured w ws)
      × (is_authorized (allowlist ws) none ≡ false)
unfolding is_authorized
is_authorized_iff ws w n = ((contains-allowlist ws w, allowlist-contains ws w n), refl)
