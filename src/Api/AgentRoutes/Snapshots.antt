-- ===== src/Api/AgentRoutes/Snapshots.antt =====
-- What a handler knows of a run that it has read, and the writes that keep the store in order.
use kelvin_assistant.Prelude.{
  ℕ, ◌≡◌, refl, sym, ◌∙◌, ap, subst, true, false, inl, inr, Option, none, some, Option-cases,
  ==_refl, nat_eq,
}
use mathlib.Core.Option.{some-injective}
use kelvin_assistant.Prelude.Dict.{get}
use kelvin_assistant.Prelude.Result.{ok, run_not_found_error, proposal_not_found_error}
use kelvin_assistant.Domain.Agent.Run.{AgentRun}
use kelvin_assistant.Domain.Agent.Run.Valid.{IsValid}
use kelvin_assistant.Domain.Agent.Tools.{ToolProposal, ToolExecutionResult}
use kelvin_assistant.Api.AgentRoutes.{Services}
use kelvin_assistant.Application.Agent.Open.{IsOpen}
use kelvin_assistant.Adapters.MemoryAgentRuns.{RunStore, get_run, get_proposal}
use kelvin_assistant.Adapters.MemoryAgentRuns.Versions.{
  Write, update, cancel, propose, complete, written, perform, perform-Replaced, or_raise-eq-ok,
  get-perform,
}
use kelvin_assistant.Api.AgentRoutes.StoreInvariant.{
  Inv, Entry, Holds, Judged, Later, Evolves, Later-Evolves, Evolves-refl, is_active, is_idle,
  Inv-perform,
}

-- The run was stored at some time, and is still, unless its version has grown.
pub record Snapshot (s : RunStore) (run : AgentRun) : Type 0 where
  pub valid : IsValid run
  pub seen : Later run (get s.runs run.id)

pub Snapshot-later :
    (s t : RunStore) (run : AgentRun) → Evolves s t → Snapshot s run → Snapshot t run
Snapshot-later s t run e h = record {
  valid = h.valid;
  seen = Later-Evolves s t run.id run h.seen e;
}

pub stored-Entry :
    (services : Services) (s : RunStore) (id : ℕ) (run : AgentRun)
    → Inv services s
    → get s.runs id ≡ some run
    → Entry services id (some run) (get s.proposals id)
stored-Entry services s id run i g = subst (λ o. Entry services id o (get s.proposals id)) g (i id)

at_own_id :
    (s : RunStore) (run : AgentRun) (id : ℕ)
    → run.id ≡ id
    → get s.runs id ≡ some run
    → get s.runs run.id ≡ some run
at_own_id s run id e g = subst (λ k. get s.runs k ≡ some run) (sym e) g

pub Snapshot-of :
    (services : Services) (s : RunStore) (id : ℕ) (run : AgentRun)
    → Inv services s
    → get s.runs id ≡ some run
    → Snapshot s run
Snapshot-of services s id run i g =
    let (own, valid, _) = stored-Entry services s id run i g in
    record { valid = valid; seen = Evolves-refl s run.id run (at_own_id s run id own g) }

-- A run that is read is a snapshot.
pub get_run-Snapshot :
    (services : Services) (s : RunStore) (id : ℕ) (run : AgentRun)
    → Inv services s
    → get_run s id ≡ ok run
    → Snapshot s run
unfolding get_run
get_run-Snapshot services s id run i h =
    Snapshot-of services s id run i (or_raise-eq-ok run_not_found_error (get s.runs id) h)

-- A proposal that is read is open, and its run is valid.
pub get_proposal-IsOpen :
    (services : Services) (s : RunStore) (id : ℕ) (p : ToolProposal)
    → Inv services s
    → get_proposal s id ≡ ok p
    → IsValid p.run × IsOpen (Judged services) p.run p
unfolding get_proposal
get_proposal-IsOpen services s id p i h = elim (Option-cases (get s.runs id)) [
  | inl e ↦ cc (rw e at h)
  | inr (run, e) ↦
      let held = or_raise-eq-ok proposal_not_found_error (get s.proposals id) (rw e at h) in
      let (_, valid, holds) = stored-Entry services s id run i e in
      let o = holds.open_proposal p held in
      (
        subst IsValid (sym o.same_run) valid,
        subst (λ r. IsOpen (Judged services) r p) (sym o.same_run) o,
      )
]

-- A snapshot of an idle run, and an update that expects its version: the run has no proposal.
no_proposal :
    (services : Services) (s t u : RunStore) (run new : AgentRun)
    → Snapshot s run
    → is_idle run.status ≡ true
    → Evolves s t
    → Inv services t
    → new.id ≡ run.id
    → perform t (update new) run.version ≡ ok u
    → get t.proposals new.id ≡ none
no_proposal services s t u run new snapshot idle e i same h =
    let r = perform-Replaced t (update new) run.version h in
    let l = Later-Evolves s t run.id run snapshot.seen e in
    let found = subst (λ k. get t.runs k ≡ some r.before) same r.stored in
    let before : l.stored ≡ r.before = some-injective _ _ (sym l.held ∙ found) in
    let current : l.stored ≡ run = l.same (ap (λ (a : AgentRun). a.version) before ∙ r.version) in
    let (_, _, holds) = stored-Entry services t run.id run i (l.held ∙ ap some current) in
    subst (λ k. get t.proposals k ≡ none) (sym same) (holds.idle idle)

module _ (services : Services) (t u : RunStore) (i : Inv services t) where
  without_proposal :
      (new : AgentRun) (o : Option ToolProposal)
      → is_active new.status ≡ false
      → o ≡ none
      → Holds services new o
  without_proposal new o quiet e = record {
    open_proposal = λ p q. cc;
    proposed = λ a. cc;
    idle = λ _. e;
  }

  pub update-Inv :
      (s : RunStore) (run new : AgentRun)
      → Snapshot s run
      → is_idle run.status ≡ true
      → Evolves s t
      → new.id ≡ run.id
      → IsValid new
      → is_active new.status ≡ false
      → perform t (update new) run.version ≡ ok u
      → Inv services u
  update-Inv s run new snapshot idle e same valid quiet h =
      Inv-perform services t u (update new) run.version i h (
        refl,
        valid,
        without_proposal new (get t.proposals new.id) quiet
            (no_proposal services s t u run new snapshot idle e i same h),
      )

  pub cancel-Inv :
      (new : AgentRun) (v : ℕ)
      → IsValid new
      → is_active new.status ≡ false
      → perform t (cancel new) v ≡ ok u
      → Inv services u
  cancel-Inv new v valid quiet h =
      Inv-perform services t u (cancel new) v i h
        (refl, valid, without_proposal new none quiet refl)

  pub complete-Inv :
      (new : AgentRun) (result : ToolExecutionResult) (v : ℕ)
      → IsValid new
      → is_active new.status ≡ false
      → perform t (complete new result) v ≡ ok u
      → Inv services u
  complete-Inv new result v valid quiet h =
      Inv-perform services t u (complete new result) v i h
        (refl, valid, without_proposal new none quiet refl)

  pub propose-Inv :
      (p : ToolProposal) (v : ℕ)
      → IsValid p.run
      → IsOpen (Judged services) p.run p
      → is_idle p.run.status ≡ false
      → perform t (propose p) v ≡ ok u
      → Inv services u
  propose-Inv p v valid o busy h = Inv-perform services t u (propose p) v i h (
    refl,
    valid,
    record {
      open_proposal = λ q e. subst (IsOpen (Judged services) p.run) (some-injective _ _ e) o;
      proposed = λ _. refl;
      idle = λ x. cc;
    },
  )

-- A run that was just written is a snapshot.
pub perform-Snapshot :
    (t u : RunStore) (w : Write) (v : ℕ)
    → IsValid (written w)
    → perform t w v ≡ ok u
    → Snapshot u (written w)
perform-Snapshot t u w v valid h = record {
  valid = valid;
  seen =
      Evolves-refl u (written w).id (written w)
        (get-perform t w v (written w).id h ∙ rw (==_refl (written w).id));
}
