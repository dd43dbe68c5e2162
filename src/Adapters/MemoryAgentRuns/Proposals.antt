-- ===== src/Adapters/MemoryAgentRuns/Proposals.antt =====
-- The active proposal of a run and the results of its calls.
use kelvin_assistant.Prelude.{
  ℕ, ◌+◌, ◌≡◌, refl, ◌∙◌, ap, Option, none, some, map, All, List, [], ◌∷◌, ◌++◌, not, ◌||◌, ◌==◌,
  nat_eq, nat_beq_iff, if◌then◌else◌, arith, sym, subst, Bool-cases, inl, inr, ==_refl,
}
use mathlib.Core.List.{Memᴰ}
use mathlib.Core.Option.{some-injective}
use kelvin_assistant.Prelude.Dict.{Dict, get, put, get-put, get-pop}
use kelvin_assistant.Prelude.Result.{
  Result, ok, raise, >>=-eq-ok, raise_if-eq-ok, returned, run_not_found_error, run_conflict_error,
  proposal_not_found_error,
}
use kelvin_assistant.Domain.Agent.Run.{AgentRun}
use kelvin_assistant.Domain.Agent.Tools.{ToolProposal, ToolExecutionResult}
use kelvin_assistant.Adapters.MemoryAgentRuns.{
  RunStore, check_version, or_raise, or_nil, get_run, cancel_stored, update_proposal,
  complete_proposal, get_proposal, get_result, results_by_call, get_run_steps, record_proposal,
  close_proposal, with_run,
}
use kelvin_assistant.Adapters.MemoryAgentRuns.Versions.{or_raise-eq-ok}

-- What a client reads of one run.
pub record Reads (s : RunStore) (run : AgentRun) (proposal : Result ToolProposal) : Type 0 where
  pub run_read : get_run s run.id ≡ ok run
  pub proposal_read : get_proposal s run.id ≡ proposal

-- A key that was written is read back.
get-put_self : {V : Type 0} (d : Dict ℕ V) (k : ℕ) (v : V) → get (put d k v) k ≡ some v
get-put_self d k v = get-put d k k v ∙ rw ((nat_beq_iff k k).1 refl)

reads :
    (s' s : RunStore) (run : AgentRun) (o : Option ToolProposal)
    → s'.runs ≡ put s.runs run.id run
    → get s'.proposals run.id ≡ o
    → Reads s' run (or_raise proposal_not_found_error o)
unfolding get_run get_proposal
reads s' s run o e p =
    let now = ap (λ d. get d run.id) e ∙ get-put_self s.runs run.id run in
    record { run_read = rw now; proposal_read = rw (now, p) }

-- A proposal that was stored is what the next read of the run's proposal returns, with its run.
pub get_proposal-update_proposal :
    (s : RunStore) (p : ToolProposal) (expected : ℕ) {s' : RunStore}
    → update_proposal s p expected ≡ ok s'
    → Reads s' p.run (ok p)
unfolding update_proposal
get_proposal-update_proposal s p expected h =
    let (u, _, q) = >>=-eq-ok (check_version s p.run expected) _ h in
    returned (λ t. Reads t p.run (ok p)) q
      (reads _ s p.run (some p) refl (get-put_self s.proposals p.run.id p))

-- A cancelled run has no active proposal.
pub get_proposal-cancel_stored :
    (s : RunStore) (run : AgentRun) (expected : ℕ) {s' : RunStore}
    → cancel_stored s run expected ≡ ok s'
    → Reads s' run (raise proposal_not_found_error)
unfolding cancel_stored
get_proposal-cancel_stored s run expected h =
    let (u, _, q) = >>=-eq-ok (check_version s run expected) _ h in
    returned (λ t. Reads t run (raise proposal_not_found_error)) q
      (reads _ s run none refl
        (get-pop s.proposals run.id run.id ∙ rw ((nat_beq_iff run.id run.id).1 refl)))

-- The completion of a proposal.
pub record Completed (s : RunStore) (run : AgentRun) (result : ToolExecutionResult) (s' : RunStore)
    : Type 0 where
  pub proposal : ToolProposal
  pub active : get s.proposals run.id ≡ some proposal
  pub same_call : proposal.call.id ≡ result.tool_call_id
  pub closed : Reads s' run (raise proposal_not_found_error)
  pub result_read : get_result s' run.id ≡ ok result

-- A result is accepted only for the call of the active proposal; then the proposal is closed, and
-- reading the result returns this one.
pub complete_proposal-Completed :
    (s : RunStore) (run : AgentRun) (result : ToolExecutionResult) (expected : ℕ) {s' : RunStore}
    → complete_proposal s run result expected ≡ ok s'
    → Completed s run result s'
unfolding complete_proposal get_result
complete_proposal-Completed s run result expected h =
    let (b, _, h₁) = >>=-eq-ok (or_raise run_not_found_error (get s.runs run.id)) _ h in
    let (p, g, h₂) = >>=-eq-ok (or_raise proposal_not_found_error (get s.proposals run.id)) _ h₁ in
    let (c, h₃) = raise_if-eq-ok (not (p.call.id == result.tool_call_id)) run_conflict_error _ h₂ in
    let (_, q) =
      raise_if-eq-ok (not (b.version == expected) || not (run.version == expected + 1))
        run_conflict_error _ h₃ in
    let self = (nat_beq_iff run.id run.id).1 refl in
    returned (Completed s run result) q (record {
      proposal = p;
      active = or_raise-eq-ok proposal_not_found_error (get s.proposals run.id) g;
      same_call = ground arith;
      closed = reads _ s run none refl (get-pop s.proposals run.id run.id ∙ rw self);
      result_read = rw (get-put_self s.runs run.id run, get-put_self s.results run.id result);
    })

-- The result that a run's steps show for a call is the last one that was stored for it.
pub get-results_by_call :
    (rs : List ToolExecutionResult) (r : ToolExecutionResult) (d : Dict ℕ ToolExecutionResult)
    (j : ℕ)
    → get (results_by_call (rs ++ r ∷ []) d) j
      ≡ (if r.tool_call_id == j then some r else get (results_by_call rs d) j)
unfolding results_by_call
get-results_by_call [] r d j = get-put d r.tool_call_id j r
get-results_by_call (x ∷ rs) r d j = get-results_by_call rs r (put d x.tool_call_id x) j

-- What a step of the listing shows for its call.
abbrev pub Shows :
    (ToolProposal → Option ToolExecutionResult) → ToolProposal × Option ToolExecutionResult → Type 0
Shows f (p, o) = o ≡ f p

All-map-Shows :
    (f g : ToolProposal → Option ToolExecutionResult) (ps : List ToolProposal)
    → ((p : ToolProposal) → f p ≡ g p)
    → All (Shows g) (map (λ p. (p, f p)) ps)
All-map-Shows f g [] h = tt
All-map-Shows f g (p ∷ ps) h = (h p, All-map-Shows f g ps h)

-- The new result at its own call, what was stored before at any other.
abbrev pub shown :
    RunStore → AgentRun → ToolExecutionResult → ToolProposal → Option ToolExecutionResult
shown s run result p =
    if result.tool_call_id == p.call.id
    then some result
    else get (results_by_call (or_nil (get s.results_history run.id)) []) p.call.id

-- Every step of the listing shows the new result if it is of the completed call, and else the result
-- that was stored before.
get_run_steps-shown :
    (s : RunStore) (run : AgentRun) (result : ToolExecutionResult) (expected : ℕ) {s' : RunStore}
    → complete_proposal s run result expected ≡ ok s'
    → All (Shows (shown s run result)) (get_run_steps s' run.id)
unfolding complete_proposal get_run_steps
get_run_steps-shown s run result expected {s'} h =
    let (b, _, h₁) = >>=-eq-ok (or_raise run_not_found_error (get s.runs run.id)) _ h in
    let (p, _, h₂) = >>=-eq-ok (or_raise proposal_not_found_error (get s.proposals run.id)) _ h₁ in
    let (_, h₃) = raise_if-eq-ok (not (p.call.id == result.tool_call_id)) run_conflict_error _ h₂ in
    let (_, q) =
      raise_if-eq-ok (not (b.version == expected) || not (run.version == expected + 1))
        run_conflict_error _ h₃ in
    returned (λ t. All (Shows (shown s run result)) (get_run_steps t run.id)) q
      (rw (get-put_self s.results_history run.id _) (
        All-map-Shows _ (shown s run result) _
          (λ p. get-results_by_call (or_nil (get s.results_history run.id)) result [] p.call.id)))

-- The entry of a proposal that is recorded is the one that is closed.
recorded_closed :
    (run : AgentRun) (p : ToolProposal) (ps : List ToolProposal)
    → Memᴰ (with_run run p) (close_proposal run p.call.id (record_proposal p ps))
unfolding record_proposal close_proposal
recorded_closed run p [] = rw (==_refl p.call.id) (Memᴰ.head refl)
recorded_closed run p (q ∷ ps) = elim (Bool-cases (q.call.id == p.call.id)) [
  | inl e ↦ rw e (rw (==_refl p.call.id) (Memᴰ.head refl))
  | inr e ↦ rw e (rw e (Memᴰ.tail (recorded_closed run p ps)))
]

Memᴰ-map : {A B : Type 0} (f : A → B) (x : A) (xs : List A) → Memᴰ x xs → Memᴰ (f x) (map f xs)
Memᴰ-map f x [] h = elim h [ ]
Memᴰ-map f x (y ∷ ys) (Memᴰ.head e) = Memᴰ.head (ap f e)
Memᴰ-map f x (y ∷ ys) (Memᴰ.tail h) = Memᴰ.tail (Memᴰ-map f x ys h)

-- The history of a run with a recorded proposal, after its call is completed.
get_run_steps_has :
    (s : RunStore) (p : ToolProposal) (ps : List ToolProposal) (run : AgentRun)
    (result : ToolExecutionResult) (expected : ℕ) {s' : RunStore}
    → get s.proposals run.id ≡ some p
    → get s.proposals_history run.id ≡ some (record_proposal p ps)
    → complete_proposal s run result expected ≡ ok s'
    → Memᴰ (with_run run p, some result) (get_run_steps s' run.id)
unfolding complete_proposal get_run_steps
get_run_steps_has s p ps run result expected active history h =
    let (b, _, h₁) = >>=-eq-ok (or_raise run_not_found_error (get s.runs run.id)) _ h in
    let (p', g, h₂) = >>=-eq-ok (or_raise proposal_not_found_error (get s.proposals run.id)) _ h₁ in
    let (other, h₃) =
      raise_if-eq-ok (not (p'.call.id == result.tool_call_id)) run_conflict_error _ h₂ in
    let (_, q) =
      raise_if-eq-ok (not (b.version == expected) || not (run.version == expected + 1))
        run_conflict_error _ h₃ in
    let held = or_raise-eq-ok proposal_not_found_error (get s.proposals run.id) g in
    let this : p' ≡ p = some-injective _ _ (sym held ∙ active) in
    let call : p'.call.id ≡ result.tool_call_id =
      (nat_beq_iff p'.call.id result.tool_call_id).0 (ground arith) in
    let same : result.tool_call_id ≡ p.call.id =
      sym call ∙ ap (λ (x : ToolProposal). x.call.id) this in
    let listed =
      get-results_by_call (or_nil (get s.results_history run.id)) result [] p.call.id
      ∙ rw ((nat_beq_iff result.tool_call_id p.call.id).1 same) in
    returned (λ t. Memᴰ (with_run run p, some result) (get_run_steps t run.id)) q
      (rw history (
        rw (get-put_self s.results_history run.id _, get-put_self s.proposals_history run.id _)
          (subst
            (λ o.
              Memᴰ {A = ToolProposal × Option ToolExecutionResult} (with_run run p, o)
                (map
                  (λ (x : ToolProposal). (
                    x,
                    get (results_by_call (or_nil (get s.results_history run.id) ++ result ∷ []) [])
                        x.call.id,
                  ))
                  (close_proposal run result.tool_call_id (record_proposal p ps))))
            listed
            (Memᴰ-map _ (with_run run p) _ (
              subst (λ k. Memᴰ (with_run run p) (close_proposal run k (record_proposal p ps)))
                (sym same) (recorded_closed run p ps))))))

-- After a proposal is stored and then its call is completed, the listing of the run's steps has the
-- proposal with the run as it was completed, and the new result. The listing shows this result at
-- every step of this call, and at every other step the result that was stored before.
pub get_run_steps-complete_proposal :
    (s s' s'' : RunStore) (p : ToolProposal) (run : AgentRun) (result : ToolExecutionResult)
    (expected later : ℕ)
    → p.run.id ≡ run.id
    → update_proposal s p expected ≡ ok s'
    → complete_proposal s' run result later ≡ ok s''
    → Memᴰ (with_run run p, some result) (get_run_steps s'' run.id)
      × All (Shows (shown s' run result)) (get_run_steps s'' run.id)
unfolding update_proposal
get_run_steps-complete_proposal s s' s'' p run result expected later same first second =
    let (_, _, q) = >>=-eq-ok (check_version s p.run expected) _ first in
    let ps = or_nil (get s.proposals_history p.run.id) in
    let (active, history) =
      returned
        (λ (t : RunStore).
          (get t.proposals p.run.id ≡ some p)
          × (get t.proposals_history p.run.id ≡ some (record_proposal p ps)))
        q
        (
          get-put_self s.proposals p.run.id p,
          get-put_self s.proposals_history p.run.id (record_proposal p ps),
        ) in
    (
      get_run_steps_has s' p ps run result later
          (subst (λ k. get s'.proposals k ≡ some p) same active)
          (subst (λ k. get s'.proposals_history k ≡ some (record_proposal p ps)) same history)
          second,
      get_run_steps-shown s' run result later second,
    )
