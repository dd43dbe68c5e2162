-- ===== src/Api/AgentRoutes/Parts.antt =====
-- The safety of the parts that the handlers are made of.
use kelvin_assistant.Prelude.{ℕ, ◌≡◌, false, List}
use kelvin_assistant.Prelude.Result.{Exception, Result, ok, raise}
use kelvin_assistant.Domain.Agent.Run.{AgentRun}
use kelvin_assistant.Domain.Agent.Run.Valid.{IsValid}
use kelvin_assistant.Domain.Agent.Tools.{ToolProposal}
use kelvin_assistant.Api.AgentRoutes.{Services}
use kelvin_assistant.Adapters.MemoryAgentRuns.{
  RunStore, get_run, get_proposal, list_runs, get_run_steps,
}
use kelvin_assistant.Adapters.MemoryAgentRuns.Versions.{Write, perform}
use kelvin_assistant.Api.Program.{
  Event, Program, done, continue_with, on_value, on_error, ◌>>=◌, try, send, write, fetch,
  fetch_proposal, add, fetch_all, fetch_steps, Steps,
}
use kelvin_assistant.Api.RouteErrors.{raising}
use kelvin_assistant.Api.AgentRoutes.StoreInvariant.{Inv, Evolves, is_active}
use kelvin_assistant.Api.AgentRoutes.Additions.{Inv-add}
use kelvin_assistant.Api.AgentRoutes.Safe.{
  Post, Safe, Anything, Safe-value, Safe-end, Safe-continue_with,
}

module _ {A : Type 0} (services : Services) (Q : Post A) where
  pub Safe-fetch :
      (s : RunStore) (id : ℕ) (f : AgentRun → Program A)
      → ((t : RunStore) (run : AgentRun)
          → Inv services t
          → get_run t id ≡ ok run
          → Safe services Q t (f run))
      → ((t : RunStore) (e : Exception) → Q (raise e) t)
      → Safe services Q s (fetch id >>= f)
  unfolding Safe continue_with
  Safe-fetch s id f h x =
      λ t e i. Safe-value services Q t (get_run t id) f (λ run g. h t run i g) (λ y _. x t y)

  pub Safe-fetch_proposal :
      (s : RunStore) (id : ℕ) (f : ToolProposal → Program A)
      → ((t : RunStore) (p : ToolProposal)
          → Inv services t
          → get_proposal t id ≡ ok p
          → Safe services Q t (f p))
      → ((t : RunStore) (e : Exception) → Q (raise e) t)
      → Safe services Q s (fetch_proposal id >>= f)
  unfolding Safe continue_with
  Safe-fetch_proposal s id f h x =
      λ t e i. Safe-value services Q t (get_proposal t id) f (λ p g. h t p i g) (λ y _. x t y)

  pub Safe-fetch_all :
      (s : RunStore) (f : List AgentRun → Program A)
      → ((t : RunStore) (runs : List AgentRun) → Safe services Q t (f runs))
      → Safe services Q s (fetch_all >>= f)
  unfolding Safe continue_with
  Safe-fetch_all s f h = λ t e i. h t (list_runs t)

  pub Safe-fetch_steps :
      (s : RunStore) (id : ℕ) (f : Steps → Program A)
      → ((t : RunStore) (steps : Steps) → Safe services Q t (f steps))
      → Safe services Q s (fetch_steps id >>= f)
  unfolding Safe continue_with
  Safe-fetch_steps s id f h = λ t e i. h t (get_run_steps t id)

  pub Safe-add :
      (s : RunStore) (run : AgentRun) (f : Unit {0} → Program A)
      → IsValid run
      → is_active run.status ≡ false
      → ((t : RunStore) → Safe services Q t (f tt))
      → ((t : RunStore) (e : Exception) → Q (raise e) t)
      → Safe services Q s (add run >>= f)
  unfolding Safe continue_with
  Safe-add s run f v quiet h x =
      λ t e i. (λ u a. (Inv-add services t u run i a v quiet, h u), λ y a. x t y)

  pub Safe-done :
      {B : Type 0} (s : RunStore) (r : Result B) (f : B → Program A)
      → ((b : B) → r ≡ ok b → Safe services Q s (f b))
      → ((e : Exception) → Q (raise e) s)
      → Safe services Q s (done r >>= f)
  unfolding Safe continue_with
  Safe-done s r f h x = Safe-value services Q s r f h (λ e _. x e)

  pub Safe-write :
      (s : RunStore) (w : Write) (v : ℕ) (f : Unit {0} → Program A)
      → ((t u : RunStore)
          → Evolves s t
          → Inv services t
          → perform t w v ≡ ok u
          → Inv services u × Safe services Q u (f tt))
      → ((t : RunStore) (e : Exception) → Evolves s t → perform t w v ≡ raise e → Q (raise e) t)
      → Safe services Q s (write w v >>= f)
  unfolding Safe continue_with
  Safe-write s w v f h x = λ t e i. (λ u p. h t u e i p, λ y p. x t y e p)

  pub Safe-send :
      (s : RunStore) (x : Event) (f : Unit {0} → Program A)
      → Safe services Q s (f tt)
      → Safe services Q s (send x >>= f)
  unfolding Safe continue_with
  Safe-send s x f h = h

  pub Safe->>= :
      {B : Type 0} (R : Post B) (s : RunStore) (p : Program B) (f : B → Program A)
      → Safe services R s p
      → ((b : B) (t : RunStore) → Evolves s t → R (ok b) t → Safe services Q t (f b))
      → ((e : Exception) (t : RunStore) → R (raise e) t → Q (raise e) t)
      → Safe services Q s (p >>= f)
  unfolding Safe
  Safe->>= {B} R s p f h next x = Safe-continue_with services Q R p s (on_value f) h after
    where
      after : (r : Result B) (t : RunStore) → Evolves s t → R r t → Safe services Q t (on_value f r)
      after (ok b) t e q = next b t e q
      after (raise y) t e q = x y t q

  pub Safe-try :
      (R : Post A) (s : RunStore) (p : Program A) (f : Exception → Program A)
      → Safe services R s p
      → ((a : A) (t : RunStore) → R (ok a) t → Q (ok a) t)
      → ((e : Exception) (t : RunStore) → Evolves s t → R (raise e) t → Safe services Q t (f e))
      → Safe services Q s (try p f)
  unfolding Safe
  Safe-try R s p f h keep handle = Safe-continue_with services Q R p s (on_error f) h after
    where
      after : (r : Result A) (t : RunStore) → Evolves s t → R r t → Safe services Q t (on_error f r)
      after (ok a) t e q = keep a t q
      after (raise y) t e q = handle y t e q

-- A program that ends, when nothing is asked of the end.
pub Safe-any :
    {A : Type 0} (services : Services) (s : RunStore) (r : Result A)
    → Safe services Anything s (done r)
Safe-any services s r = Safe-end services Anything r s tt

-- A program that reads a proposal, when nothing is asked of the end.
pub Safe-reading :
    (services : Services) (s : RunStore) (id : ℕ) → Safe services Anything s (fetch_proposal id)
unfolding Safe
Safe-reading services s id = λ t e i. tt

-- The end of a handler: the exceptions as HTTP errors, and the body.
pub Safe-raising :
    {A : Type 0} (services : Services) (s : RunStore) (p : Program A) (g : Exception → Exception)
    → Safe services Anything s p
    → Safe services Anything s (try p (raising g))
Safe-raising services s p g h =
    Safe-try services Anything Anything s p (raising g) h (λ a t q. tt)
      (λ e t f q. Safe-end services Anything (raise (g e)) t tt)

pub Safe-reply :
    {A B : Type 0} (services : Services) (s : RunStore) (p : Program B) (g : Exception → Exception)
    (f : B → A)
    → Safe services Anything s p
    → Safe services Anything s (try p (raising g) >>= λ b. done (ok (f b)))
Safe-reply services s p g f h =
    Safe->>= services Anything Anything s (try p (raising g)) (λ b. done (ok (f b)))
      (Safe-raising services s p g h) (λ b t e q. Safe-end services Anything (ok (f b)) t tt)
      (λ e t q. tt)
