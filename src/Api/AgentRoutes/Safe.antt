-- ===== src/Api/AgentRoutes/Safe.antt =====
-- Programs that keep the store in order, whatever other requests do between two of their steps.
use kelvin_assistant.Prelude.{ℕ, ◌≡◌, refl}
use kelvin_assistant.Prelude.Result.{Exception, Result, ok, raise}
use kelvin_assistant.Domain.Agent.Run.{AgentRun}
use kelvin_assistant.Api.AgentRoutes.{Services}
use kelvin_assistant.Adapters.MemoryAgentRuns.{
  RunStore, add_run, get_run, get_proposal, list_runs, get_run_steps,
}
use kelvin_assistant.Adapters.MemoryAgentRuns.Versions.{Write, perform}
use kelvin_assistant.Api.Program.{
  Program, done, emit, adding, writing, getting, getting_proposal, listing, getting_steps,
  continue_with, on_value, Advanced, advance, answer, stored,
}
use kelvin_assistant.Api.AgentRoutes.StoreInvariant.{
  Inv, Evolves, Evolves-refl, Evolves-trans, Evolves-perform,
}
use kelvin_assistant.Api.AgentRoutes.Additions.{Evolves-add}

-- What is known of the value or the exception that a program ends with, in the store of that time.
abbrev pub Post : Type 0 → Type 1
Post A = Result A → RunStore → Type 0

-- From the store `s` on, each step of the program, made on any later store that is in order,
-- leaves one that is in order, and the program ends with what `Q` says.
unfoldable pub Safe : {A : Type 0} → Services → Post A → RunStore → Program A → Type 0
Safe services Q s (done r) = Q r s
Safe services Q s (emit e p) = Safe services Q s p
Safe services Q s (adding run k) =
    (t : RunStore)
    → Evolves s t
    → Inv services t
    → ((u : RunStore) → add_run t run ≡ ok u → Inv services u × Safe services Q u (k (ok tt)))
      × ((e : Exception) → add_run t run ≡ raise e → Safe services Q t (k (raise e)))
Safe services Q s (writing w v k) =
    (t : RunStore)
    → Evolves s t
    → Inv services t
    → ((u : RunStore) → perform t w v ≡ ok u → Inv services u × Safe services Q u (k (ok tt)))
      × ((e : Exception) → perform t w v ≡ raise e → Safe services Q t (k (raise e)))
Safe services Q s (getting id k) =
    (t : RunStore) → Evolves s t → Inv services t → Safe services Q t (k (get_run t id))
Safe services Q s (getting_proposal id k) =
    (t : RunStore) → Evolves s t → Inv services t → Safe services Q t (k (get_proposal t id))
Safe services Q s (listing k) =
    (t : RunStore) → Evolves s t → Inv services t → Safe services Q t (k (list_runs t))
Safe services Q s (getting_steps id k) =
    (t : RunStore) → Evolves s t → Inv services t → Safe services Q t (k (get_run_steps t id))

-- Nothing is known.
abbrev pub Anything : {A : Type 0} → Post A
Anything r s = Unit

module _ {A : Type 0} (services : Services) (Q : Post A) where
  -- A value that is computed, or the exception, which ends the program.
  pub Safe-value :
      {B : Type 0} (s : RunStore) (r : Result B) (f : B → Program A)
      → ((b : B) → r ≡ ok b → Safe services Q s (f b))
      → ((e : Exception) → r ≡ raise e → Q (raise e) s)
      → Safe services Q s (on_value f r)
  unfolding Safe
  Safe-value s (ok b) f h x = h b refl
  Safe-value s (raise e) f h x = x e refl

  pub Safe-end : (r : Result A) (s : RunStore) → Q r s → Safe services Q s (done r)
  unfolding Safe
  Safe-end r s h = h

  -- A program of which nothing is known after other requests have run is safe to start later.
  pub Safe-later :
      (p : Program A) (s t : RunStore)
      → ((r : Result A) → Q r s → Q r t)
      → Evolves s t
      → Safe services Q s p
      → Safe services Q t p
  unfolding Safe
  Safe-later (done r) s t stable e h = stable r h
  Safe-later (emit x p) s t stable e h = Safe-later p s t stable e h
  Safe-later (adding run k) s t stable e h = λ u f i. h u (Evolves-trans s t u e f) i
  Safe-later (writing w v k) s t stable e h = λ u f i. h u (Evolves-trans s t u e f) i
  Safe-later (getting id k) s t stable e h = λ u f i. h u (Evolves-trans s t u e f) i
  Safe-later (getting_proposal id k) s t stable e h = λ u f i. h u (Evolves-trans s t u e f) i
  Safe-later (listing k) s t stable e h = λ u f i. h u (Evolves-trans s t u e f) i
  Safe-later (getting_steps id k) s t stable e h = λ u f i. h u (Evolves-trans s t u e f) i

  -- A program and what comes after it.
  pub Safe-continue_with :
      {B : Type 0} (R : Post B) (p : Program B) (s : RunStore) (f : Result B → Program A)
      → Safe services R s p
      → ((r : Result B) (t : RunStore) → Evolves s t → R r t → Safe services Q t (f r))
      → Safe services Q s (continue_with p f)
  unfolding Safe continue_with
  Safe-continue_with R (done r) s f h next = next r s (Evolves-refl s) h
  Safe-continue_with R (emit x p) s f h next = Safe-continue_with R p s f h next
  Safe-continue_with R (adding run k) s f h next = λ t e i.
      let (made, failed) = h t e i in
      (
        λ u a.
            let (j, rest) = made u a in
            let later = Evolves-trans s t u e (Evolves-add t u run a) in
            (
              j,
              Safe-continue_with R (k (ok tt)) u f rest
                  (λ r w g. next r w (Evolves-trans s u w later g)),
            ),
        λ x a.
            Safe-continue_with R (k (raise x)) t f (failed x a)
              (λ r w g. next r w (Evolves-trans s t w e g)),
      )
  Safe-continue_with R (writing w v k) s f h next = λ t e i.
      let (made, failed) = h t e i in
      (
        λ u a.
            let (j, rest) = made u a in
            let later = Evolves-trans s t u e (Evolves-perform t u w v a) in
            (
              j,
              Safe-continue_with R (k (ok tt)) u f rest
                  (λ r x g. next r x (Evolves-trans s u x later g)),
            ),
        λ x a.
            Safe-continue_with R (k (raise x)) t f (failed x a)
              (λ r y g. next r y (Evolves-trans s t y e g)),
      )
  Safe-continue_with R (getting id k) s f h next = λ t e i.
      Safe-continue_with R (k (get_run t id)) t f (h t e i)
        (λ r u g. next r u (Evolves-trans s t u e g))
  Safe-continue_with R (getting_proposal id k) s f h next = λ t e i.
      Safe-continue_with R (k (get_proposal t id)) t f (h t e i)
        (λ r u g. next r u (Evolves-trans s t u e g))
  Safe-continue_with R (listing k) s f h next = λ t e i.
      Safe-continue_with R (k (list_runs t)) t f (h t e i)
        (λ r u g. next r u (Evolves-trans s t u e g))
  Safe-continue_with R (getting_steps id k) s f h next = λ t e i.
      Safe-continue_with R (k (get_run_steps t id)) t f (h t e i)
        (λ r u g. next r u (Evolves-trans s t u e g))

  abbrev Kept : RunStore → Advanced A → Type 0
  Kept s a = Inv services a.store × Evolves s a.store × Safe services Q a.store a.rest

  added_step :
      (s : RunStore) (run : AgentRun) (k : Result (Unit {0}) → Program A) (r : Result RunStore)
      → add_run s run ≡ r
      → Inv services s
      → Safe services Q s (adding run k)
      → Inv services (stored s r)
        × Evolves s (stored s r)
        × Safe services Q (stored s r) (k (answer r))
  unfolding Safe
  added_step s run k (ok t) e i h =
      let (j, rest) = (h s (Evolves-refl s) i).0 t e in (j, Evolves-add s t run e, rest)
  added_step s run k (raise x) e i h = (i, Evolves-refl s, (h s (Evolves-refl s) i).1 x e)

  written_step :
      (s : RunStore) (w : Write) (v : ℕ) (k : Result (Unit {0}) → Program A) (r : Result RunStore)
      → perform s w v ≡ r
      → Inv services s
      → Safe services Q s (writing w v k)
      → Inv services (stored s r)
        × Evolves s (stored s r)
        × Safe services Q (stored s r) (k (answer r))
  unfolding Safe
  written_step s w v k (ok t) e i h =
      let (j, rest) = (h s (Evolves-refl s) i).0 t e in (j, Evolves-perform s t w v e, rest)
  written_step s w v k (raise x) e i h = (i, Evolves-refl s, (h s (Evolves-refl s) i).1 x e)

  -- One step of a safe program on a store that is in order.
  pub advance-Safe :
      (p : Program A) (s : RunStore) → Inv services s → Safe services Q s p → Kept s (advance p s)
  unfolding Safe advance
  advance-Safe (done r) s i h = (i, Evolves-refl s, h)
  advance-Safe (emit x p) s i h = (i, Evolves-refl s, h)
  advance-Safe (adding run k) s i h = added_step s run k (add_run s run) refl i h
  advance-Safe (writing w v k) s i h = written_step s w v k (perform s w v) refl i h
  advance-Safe (getting id k) s i h = (i, Evolves-refl s, h s (Evolves-refl s) i)
  advance-Safe (getting_proposal id k) s i h = (i, Evolves-refl s, h s (Evolves-refl s) i)
  advance-Safe (listing k) s i h = (i, Evolves-refl s, h s (Evolves-refl s) i)
  advance-Safe (getting_steps id k) s i h = (i, Evolves-refl s, h s (Evolves-refl s) i)
