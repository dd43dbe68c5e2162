-- ===== src/Adapters/MemoryAgentRuns/Versions.antt =====
-- Optimistic concurrency: what a write does to the versions that the store holds.
use kelvin_assistant.Prelude.{
  ℕ, ◌+◌, ◌≤◌, ◌≡◌, refl, sym, ◌∙◌, ap, subst, Bool, true, false, Bool-cases, inl, inr, Option,
  none, some, not, ◌||◌, ◌==◌, nat_eq, nat_beq_iff, if◌then◌else◌, arith,
}
use mathlib.Core.Option.{some-injective}
use kelvin_assistant.Prelude.Dict.{get, put, get-put}
use kelvin_assistant.Prelude.Result.{
  Exception, Result, ok, raise_if, >>=-eq-ok, raise_if-eq-ok, returned, run_not_found_error,
  run_conflict_error, proposal_not_found_error,
}
use kelvin_assistant.Domain.Agent.Run.{AgentRun}
use kelvin_assistant.Domain.Agent.Tools.{ToolProposal, ToolExecutionResult}
use kelvin_assistant.Adapters.MemoryAgentRuns.{
  RunStore, check_version, or_raise, update_run, cancel_stored, update_proposal, complete_proposal,
}

-- A write of a run that the store already holds.
pub data Write : Type 0 where
  update : AgentRun → Write
  cancel : AgentRun → Write
  propose : ToolProposal → Write
  complete : AgentRun → ToolExecutionResult → Write

abbrev pub written : Write → AgentRun
written (update run) = run
written (cancel run) = run
written (propose p) = p.run
written (complete run result) = run

abbrev pub perform : RunStore → Write → ℕ → Result RunStore
perform s (update run) expected = update_run s run expected
perform s (cancel run) expected = cancel_stored s run expected
perform s (propose p) expected = update_proposal s p expected
perform s (complete run result) expected = complete_proposal s run result expected

-- What a successful write found and left: the run was stored with the expected version, the new run
-- has the next one, and it is the only run that changes.
pub record Replaced (s : RunStore) (run : AgentRun) (expected : ℕ) (s' : RunStore) : Type 0 where
  pub before : AgentRun
  pub stored : get s.runs run.id ≡ some before
  pub version : before.version ≡ expected
  pub next_version : run.version ≡ expected + 1
  pub runs : s'.runs ≡ put s.runs run.id run

pub or_raise-eq-ok :
    {A : Type 0} (e : Exception) (o : Option A) {a : A} → or_raise e o ≡ ok a → o ≡ some a
or_raise-eq-ok e none h = cc
or_raise-eq-ok e (some a) h = cc

versions_match : (v w e : ℕ) → (not (v == e) || not (w == e + 1)) ≡ false → (v ≡ e) × (w ≡ e + 1)
versions_match v w e h = ground arith

-- A raise_if that ends a check.
not_raised : (test : Bool) {u : Unit {0}} → raise_if test run_conflict_error ≡ ok u → test ≡ false
not_raised true r = cc
not_raised false r = refl

abbrev stale : AgentRun → AgentRun → ℕ → Bool
stale b run expected = not (b.version == expected) || not (run.version == expected + 1)

replaced :
    (s : RunStore) (run b : AgentRun) (expected : ℕ) (s' : RunStore)
    → get s.runs run.id ≡ some b
    → stale b run expected ≡ false
    → s'.runs ≡ put s.runs run.id run
    → Replaced s run expected s'
replaced s run b expected s' g f e =
    let (v, n) = versions_match b.version run.version expected f in
    record { before = b; stored = g; version = v; next_version = n; runs = e }

checked :
    (s : RunStore) (run : AgentRun) (expected : ℕ) (s' : RunStore) {u : Unit {0}}
    → check_version s run expected ≡ ok u
    → s'.runs ≡ put s.runs run.id run
    → Replaced s run expected s'
unfolding check_version
checked s run expected s' h e =
    let (b, g, h₁) = >>=-eq-ok (or_raise run_not_found_error (get s.runs run.id)) _ h in
    replaced s run b expected s' (or_raise-eq-ok run_not_found_error (get s.runs run.id) g)
      (not_raised (stale b run expected) h₁) e

-- A write succeeds only if the run is stored with the expected version and the new run has the next
-- one; then the new run is stored, and no other run changes.
pub perform-Replaced :
    (s : RunStore) (w : Write) (expected : ℕ) {s' : RunStore}
    → perform s w expected ≡ ok s'
    → Replaced s (written w) expected s'
unfolding update_run cancel_stored update_proposal complete_proposal
perform-Replaced s (update run) expected h =
    let (u, c, q) = >>=-eq-ok (check_version s run expected) _ h in
    returned (Replaced s run expected) q (checked s run expected _ c refl)
perform-Replaced s (cancel run) expected h =
    let (u, c, q) = >>=-eq-ok (check_version s run expected) _ h in
    returned (Replaced s run expected) q (checked s run expected _ c refl)
perform-Replaced s (propose p) expected h =
    let (u, c, q) = >>=-eq-ok (check_version s p.run expected) _ h in
    returned (Replaced s p.run expected) q (checked s p.run expected _ c refl)
perform-Replaced s (complete run result) expected h =
    let (b, g, h₁) = >>=-eq-ok (or_raise run_not_found_error (get s.runs run.id)) _ h in
    let (p, _, h₂) = >>=-eq-ok (or_raise proposal_not_found_error (get s.proposals run.id)) _ h₁ in
    let (_, h₃) = raise_if-eq-ok (not (p.call.id == result.tool_call_id)) run_conflict_error _ h₂ in
    let (f, q) = raise_if-eq-ok (stale b run expected) run_conflict_error _ h₃ in
    returned (Replaced s run expected) q (
      replaced s run b expected _ (or_raise-eq-ok run_not_found_error (get s.runs run.id) g) f refl)

-- What the store holds of each run after a write.
pub get-perform :
    (s : RunStore) (w : Write) (expected : ℕ) {s' : RunStore} (j : ℕ)
    → perform s w expected ≡ ok s'
    → get s'.runs j ≡ (if (written w).id == j then some (written w) else get s.runs j)
get-perform s w expected j h =
    let r = perform-Replaced s w expected h in
    ap (λ d. get d j) r.runs ∙ get-put s.runs (written w).id j (written w)

-- Of two writes that expect one version of one run, at most one succeeds, whatever the writes are
-- and in whichever order: a client never overwrites a change that it has not seen.
pub no_lost_update :
    (s s' s'' : RunStore) (w v : Write) (expected : ℕ)
    → (written w).id ≡ (written v).id
    → perform s w expected ≡ ok s'
    → ¬ (perform s' v expected ≡ ok s'')
no_lost_update s s' s'' w v expected same h k =
    let r = perform-Replaced s w expected h in
    let q = perform-Replaced s' v expected k in
    let now : get s'.runs (written v).id ≡ some (written w) =
      get-perform s w expected (written v).id h
      ∙ rw ((nat_beq_iff (written w).id (written v).id).1 same) in
    let held : q.before ≡ written w = some-injective _ _ (sym q.stored ∙ now) in
    let old = q.version in
    let new = r.next_version in
    let version : q.before.version ≡ (written w).version = ap (λ (t : AgentRun). t.version) held in
    omega arith

stored_at :
    {s s' : RunStore} {new : AgentRun} {expected : ℕ} (r : Replaced s new expected s') {j : ℕ}
    {run : AgentRun}
    → new.id ≡ j
    → get s.runs j ≡ some run
    → run.version ≤ new.version
stored_at {s} r {j} {run} e g =
    let held : r.before ≡ run =
      some-injective _ _ (sym (subst (λ k. get s.runs k ≡ some r.before) e r.stored) ∙ g) in
    let same : r.before.version ≡ run.version = ap (λ (t : AgentRun). t.version) held in
    omega (arith, r.version, r.next_version)

-- No write lowers the version that the store holds of a run, and none drops a run.
pub version-perform :
    (s : RunStore) (w : Write) (expected : ℕ) {s' : RunStore} (j : ℕ) (run : AgentRun)
    → perform s w expected ≡ ok s'
    → get s.runs j ≡ some run
    → (run' : AgentRun) × (get s'.runs j ≡ some run') × (run.version ≤ run'.version)
version-perform s w expected {s'} j run h g =
    let r = perform-Replaced s w expected h in
    let after = get-perform s w expected j h in
    elim (Bool-cases ((written w).id == j)) [
      | inl e ↦ (written w, after ∙ rw e, stored_at r ((nat_beq_iff (written w).id j).0 e) g)
      | inr e ↦ (run, after ∙ rw e g, omega arith)
    ]
