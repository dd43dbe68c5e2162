-- ===== src/Api/AgentRoutes/StoreInvariant.antt =====
-- What holds of the run store between two calls of it, and how it evolves: the versions of a run
-- only grow, and one version of a run is stored once.
use kelvin_assistant.Prelude.{
  ℕ, ◌≤◌, ◌≡◌, refl, sym, ◌∙◌, ap, subst, Bool, true, false, Bool-cases, inl, inr, Option, none,
  some, Text, ◌==◌, nat_eq, nat_beq_iff, if◌then◌else◌, arith,
}
use mathlib.Core.Option.{some-injective}
use kelvin_assistant.Prelude.Dict.{get, get-put, get-pop}
use kelvin_assistant.Prelude.Result.{
  ok, >>=-eq-ok, raise_if-eq-ok, returned, run_not_found_error, run_conflict_error,
  proposal_not_found_error,
}
use kelvin_assistant.Domain.Agent.Status.{
  AgentStatus, received, clarifying, planning, awaiting_approval, executing, observing,
}
use kelvin_assistant.Domain.Agent.Run.{AgentRun}
use kelvin_assistant.Domain.Agent.Run.Valid.{IsValid}
use kelvin_assistant.Domain.Agent.Tools.{ToolProposal, is_given}
use kelvin_assistant.Application.ToolPolicy.{ToolPolicyContext}
use kelvin_assistant.Application.Agent.Open.{IsOpen}
use kelvin_assistant.Adapters.MemoryAgentRuns.{
  RunStore, or_raise, check_version, update_run, cancel_stored, update_proposal, complete_proposal,
}
use kelvin_assistant.Adapters.MemoryAgentRuns.Versions.{
  Write, update, cancel, propose, complete, written, perform, perform-Replaced, get-perform,
}
use kelvin_assistant.Api.AgentRoutes.{Services}

-- The run waits on its proposal.
unfoldable pub is_active : AgentStatus → Bool
is_active awaiting_approval = true
is_active executing = true
is_active _ = false

-- The run is under way and has no proposal.
unfoldable pub is_idle : AgentStatus → Bool
is_idle received = true
is_idle clarifying = true
is_idle planning = true
is_idle observing = true
is_idle _ = false

-- The context of a workspace: its identifier, and whether the host authorizes it.
abbrev pub run_context : Services → Option Text → ToolPolicyContext
run_context services workspace_id = record {
  workspace_authorized = services.is_authorized workspace_id;
  workspace_id = workspace_id;
}

-- The policy's own result for the call, in the context of the workspace of the run, stands in the
-- proposal.
pub record Judged (services : Services) (p : ToolProposal) : Type 0 where
  pub result : services.policy p.call (run_context services p.run.workspace_id) ≡ ok p.policy_result

-- The proposal that stands beside a stored run.
pub record Holds (services : Services) (run : AgentRun) (o : Option ToolProposal) : Type 0 where
  pub open_proposal : (p : ToolProposal) → o ≡ some p → IsOpen (Judged services) run p
  pub proposed : is_active run.status ≡ true → is_given o ≡ true
  pub idle : is_idle run.status ≡ true → o ≡ none

-- What the store holds under one identifier.
abbrev pub Entry : Services → ℕ → Option AgentRun → Option ToolProposal → Type 0
Entry services id none o = o ≡ none
Entry services id (some run) o = (run.id ≡ id) × IsValid run × Holds services run o

-- Every run is valid and stored under its identifier; its proposal, if it has one, is open for the
-- stored run; it has one while it awaits an approval or executes, and none while it is idle.
abbrev pub Inv : Services → RunStore → Type 0
Inv services s = (id : ℕ) → Entry services id (get s.runs id) (get s.proposals id)

pub record Later (run : AgentRun) (o : Option AgentRun) : Type 0 where
  pub stored : AgentRun
  pub held : o ≡ some stored
  pub newer : run.version ≤ stored.version
  pub same : stored.version ≡ run.version → stored ≡ run

-- The store `t` comes after the store `s`.
abbrev pub Evolves : RunStore → RunStore → Type 0
Evolves s t = (id : ℕ) (run : AgentRun) → get s.runs id ≡ some run → Later run (get t.runs id)

pub Evolves-refl : (s : RunStore) → Evolves s s
Evolves-refl s id run h = record { stored = run; held = h; newer = omega arith; same = λ _. refl }

pub Later-Evolves :
    (t u : RunStore) (id : ℕ) (run : AgentRun)
    → Later run (get t.runs id)
    → Evolves t u
    → Later run (get u.runs id)
Later-Evolves t u id run l e =
    let m = e id l.stored l.held in
    record {
      stored = m.stored;
      held = m.held;
      newer = omega (arith, l.newer, m.newer);
      same = λ v.
          let back : m.stored.version ≡ l.stored.version = omega (arith, l.newer, m.newer, v) in
          m.same back ∙ l.same (sym back ∙ v);
    }

pub Evolves-trans : (s t u : RunStore) → Evolves s t → Evolves t u → Evolves s u
Evolves-trans s t u e f id run h = Later-Evolves t u id run (e id run h) f

-- The proposals after a write, seen by a lookup.
abbrev pub proposal_after : Write → Option ToolProposal → Option ToolProposal
proposal_after (update run) o = o
proposal_after (cancel run) o = none
proposal_after (propose p) o = some p
proposal_after (complete run result) o = none

pub get-proposals-perform :
    (s : RunStore) (w : Write) (v : ℕ) {t : RunStore} (id : ℕ)
    → perform s w v ≡ ok t
    → get t.proposals id
      ≡ (if (written w).id == id then proposal_after w (get s.proposals id) else get s.proposals id)
unfolding update_run cancel_stored update_proposal complete_proposal
get-proposals-perform s (update run) v id h =
    let (_, _, q) = >>=-eq-ok (check_version s run v) _ h in
    returned
      (λ (t : RunStore).
        get t.proposals id ≡ (if run.id == id then get s.proposals id else get s.proposals id))
      q (ground arith)
get-proposals-perform s (cancel run) v id h =
    let (_, _, q) = >>=-eq-ok (check_version s run v) _ h in
    returned
      (λ (t : RunStore). get t.proposals id ≡ (if run.id == id then none else get s.proposals id)) q
      (get-pop s.proposals run.id id)
get-proposals-perform s (propose p) v id h =
    let (_, _, q) = >>=-eq-ok (check_version s p.run v) _ h in
    returned
      (λ (t : RunStore).
        get t.proposals id ≡ (if p.run.id == id then some p else get s.proposals id))
      q (get-put s.proposals p.run.id id p)
get-proposals-perform s (complete run result) v id h =
    let (b, _, h₁) = >>=-eq-ok (or_raise run_not_found_error (get s.runs run.id)) _ h in
    let (p, _, h₂) = >>=-eq-ok (or_raise proposal_not_found_error (get s.proposals run.id)) _ h₁ in
    let (_, h₃) = raise_if-eq-ok _ run_conflict_error _ h₂ in
    let (_, q) = raise_if-eq-ok _ run_conflict_error _ h₃ in
    returned
      (λ (t : RunStore). get t.proposals id ≡ (if run.id == id then none else get s.proposals id)) q
      (get-pop s.proposals run.id id)

-- A successful write makes a later store.
pub Evolves-perform : (s t : RunStore) (w : Write) (v : ℕ) → perform s w v ≡ ok t → Evolves s t
Evolves-perform s t w v h id run g = elim (Bool-cases ((written w).id == id)) [
  | inl e ↦
      let r = perform-Replaced s w v h in
      let here : (written w).id ≡ id = (nat_beq_iff (written w).id id).0 e in
      let held : r.before ≡ run =
        some-injective _ _ (sym (subst (λ k. get s.runs k ≡ some r.before) here r.stored) ∙ g) in
      let same : r.before.version ≡ run.version = ap (λ (a : AgentRun). a.version) held in
      record {
        stored = written w;
        held = get-perform s w v id h ∙ rw e;
        newer = omega (arith, r.version, r.next_version, same);
        same = λ q. absurd (omega (arith, r.version, r.next_version, same, q));
      }
  | inr e ↦ record {
    stored = run;
    held = get-perform s w v id h ∙ rw e g;
    newer = omega arith;
    same = λ _. refl;
  }
]

-- A successful write keeps the invariant if the entry that it makes is in order.
pub Inv-perform :
    (services : Services) (s t : RunStore) (w : Write) (v : ℕ)
    → Inv services s
    → perform s w v ≡ ok t
    → Entry services
        (written w).id
        (some (written w))
        (proposal_after w (get s.proposals (written w).id))
    → Inv services t
Inv-perform services s t w v i h new id = elim (Bool-cases ((written w).id == id)) [
  | inl e ↦
      let here : (written w).id ≡ id = (nat_beq_iff (written w).id id).0 e in
      rw (get-perform s w v id h, get-proposals-perform s w v id h, e)
        (subst (λ k. Entry services k (some (written w)) (proposal_after w (get s.proposals k)))
          here new)
  | inr e ↦ rw (get-perform s w v id h, get-proposals-perform s w v id h, e) (i id)
]
