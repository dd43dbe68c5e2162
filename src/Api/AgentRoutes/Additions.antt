-- ===== src/Api/AgentRoutes/Additions.antt =====
-- A run that is added keeps the store in order.
use kelvin_assistant.Prelude.{
  ◌≡◌, refl, subst, false, Bool-cases, inl, inr, Option, none, some, ◌==◌, nat_eq, nat_beq_iff,
  arith,
}
use kelvin_assistant.Prelude.Dict.{get, put, get-put, get-nil}
use kelvin_assistant.Prelude.Result.{ok, raise_if-eq-ok, run_conflict_error}
use kelvin_assistant.Domain.Agent.Run.{AgentRun}
use kelvin_assistant.Domain.Agent.Run.Valid.{IsValid}
use kelvin_assistant.Domain.Agent.Tools.{is_given}
use kelvin_assistant.Api.AgentRoutes.{Services}
use kelvin_assistant.Adapters.MemoryAgentRuns.{RunStore, empty_store, add_run}
use kelvin_assistant.Api.AgentRoutes.StoreInvariant.{Entry, Inv, Evolves, is_active}

-- The store after a run was added.
pub added :
    (s t : RunStore) (run : AgentRun)
    → add_run s run ≡ ok t
    → (get s.runs run.id ≡ none) × (t ≡ record s { runs = put s.runs run.id run })
unfolding add_run
added s t run h =
    let (fresh, q) = raise_if-eq-ok (is_given (get s.runs run.id)) run_conflict_error _ h in
    (not_given (get s.runs run.id) fresh, cc)
  where
    not_given : (o : Option AgentRun) → is_given o ≡ false → o ≡ none
    not_given none e = refl
    not_given (some r) e = cc

pub Inv-add :
    (services : Services) (s t : RunStore) (run : AgentRun)
    → Inv services s
    → add_run s run ≡ ok t
    → IsValid run
    → is_active run.status ≡ false
    → Inv services t
Inv-add services s t run i h v quiet id =
    let (fresh, same) = added s t run h in
    elim (Bool-cases (run.id == id)) [
      | inl e ↦
          let here : run.id ≡ id = (nat_beq_iff run.id id).0 e in
          let none_there : get s.proposals id ≡ none =
            subst (λ o. Entry services id o (get s.proposals id))
              (subst (λ k. get s.runs k ≡ none) here fresh) (i id) in
          rw (same, get-put s.runs run.id id run, e)
            (
              here,
              v,
              record { open_proposal = λ p q. cc; proposed = λ a. cc; idle = λ _. none_there },
            )
      | inr e ↦ rw (same, get-put s.runs run.id id run, e) (i id)
    ]

pub Evolves-add : (s t : RunStore) (run : AgentRun) → add_run s run ≡ ok t → Evolves s t
Evolves-add s t run h id old g =
    let (fresh, same) = added s t run h in
    elim (Bool-cases (run.id == id)) [
      | inl e ↦
          let here : run.id ≡ id = (nat_beq_iff run.id id).0 e in
          let gone : get s.runs id ≡ none = subst (λ k. get s.runs k ≡ none) here fresh in cc
      | inr e ↦ record {
        stored = old;
        held = rw (same, get-put s.runs run.id id run, e) g;
        newer = omega arith;
        same = λ _. refl;
      }
    ]

pub Inv-empty : (services : Services) → Inv services empty_store
Inv-empty services id = rw (get-nil {V = AgentRun} id) (get-nil id)
