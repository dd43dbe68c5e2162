-- ===== src/Api/Program.antt =====
-- A request's handler as a program: what it asks of the run store, call by call, and what it sends
-- to the audit log and as notifications. Each call of the store is one step, since the store holds its
-- lock for one call only and other requests run between two of them.
use kelvin_assistant.Prelude.{ℕ, Option, List, [], ◌∷◌, Text}
use kelvin_assistant.Prelude.Result.{Exception, Result, ok, raise}
use kelvin_assistant.Domain.Agent.Run.{AgentRun}
use kelvin_assistant.Domain.Agent.Tools.{ToolProposal, ToolExecutionResult}
use kelvin_assistant.Adapters.MemoryAgentRuns.{
  RunStore, add_run, get_run, get_proposal, list_runs, get_run_steps,
}
use kelvin_assistant.Adapters.MemoryAgentRuns.Versions.{Write, perform}

-- The arguments of `SecurityAuditLogger.log_decision`
pub record AuditDecision : Type 0 where
  pub event_type : Text
  pub decision : Text
  pub masked_content : Text
  pub warnings : List Text
  pub correlation_id : Option ℕ
  pub run_id : Option ℕ

-- The `error_msg` of a notification: a text, or `str(exc)`
pub data Cause : Type 0 where
  message : Text → Cause
  exception : Exception → Cause

pub data Event : Type 0 where
  audited : AuditDecision → Event
  approval_required : ToolProposal → Event
  run_completed : AgentRun → Text → Event
  run_failed : AgentRun → Cause → Event

abbrev pub Steps : Type 0
Steps = List (ToolProposal × Option ToolExecutionResult)

pub data Program (A : Type 0) : Type 0 where
  done : Result A → Program A
  emit : Event → Program A → Program A
  adding : AgentRun → (Result (Unit {0}) → Program A) → Program A
  writing : Write → (expected_version : ℕ) → (Result (Unit {0}) → Program A) → Program A
  getting : ℕ → (Result AgentRun → Program A) → Program A
  getting_proposal : ℕ → (Result ToolProposal → Program A) → Program A
  listing : (List AgentRun → Program A) → Program A
  getting_steps : ℕ → (Steps → Program A) → Program A

-- A program in place of the value or the exception that another one ends with.
unfoldable pub continue_with : {A B : Type 0} → Program A → (Result A → Program B) → Program B
continue_with (done r) f = f r
continue_with (emit e p) f = emit e (continue_with p f)
continue_with (adding run k) f = adding run (λ r. continue_with (k r) f)
continue_with (writing w v k) f = writing w v (λ r. continue_with (k r) f)
continue_with (getting id k) f = getting id (λ r. continue_with (k r) f)
continue_with (getting_proposal id k) f = getting_proposal id (λ r. continue_with (k r) f)
continue_with (listing k) f = listing (λ runs. continue_with (k runs) f)
continue_with (getting_steps id k) f = getting_steps id (λ steps. continue_with (k steps) f)

abbrev pub on_value : {A B : Type 0} → (A → Program B) → Result A → Program B
on_value f (ok a) = f a
on_value f (raise e) = done (raise e)

abbrev pub on_error : {A : Type 0} → (Exception → Program A) → Result A → Program A
on_error h (ok a) = done (ok a)
on_error h (raise e) = h e

infixr 5 ◌>>=◌ ◌>>◌
abbrev pub ◌>>=◌ : {A B : Type 0} → Program A → (A → Program B) → Program B
p >>= f = continue_with p (on_value f)

abbrev pub ◌>>◌ : {B : Type 0} → Program (Unit {0}) → Program B → Program B
p >> q = p >>= λ _. q

-- `try: p, except ...: h`
abbrev pub try : {A : Type 0} → Program A → (Exception → Program A) → Program A
try p h = continue_with p (on_error h)

abbrev pub send : Event → Program (Unit {0})
send e = emit e (done (ok tt))

abbrev pub add : AgentRun → Program (Unit {0})
add run = adding run done

abbrev pub write : Write → ℕ → Program (Unit {0})
write w expected_version = writing w expected_version done

abbrev pub fetch : ℕ → Program AgentRun
fetch run_id = getting run_id done

abbrev pub fetch_proposal : ℕ → Program ToolProposal
fetch_proposal run_id = getting_proposal run_id done

abbrev pub fetch_steps : ℕ → Program Steps
fetch_steps run_id = getting_steps run_id (λ steps. done (ok steps))

abbrev pub fetch_all : Program (List AgentRun)
fetch_all = listing (λ runs. done (ok runs))

-- What a call of the store changes: the new store, or the old one and the exception.
abbrev pub stored : RunStore → Result RunStore → RunStore
stored s (ok s') = s'
stored s (raise e) = s

abbrev pub answer : Result RunStore → Result (Unit {0})
answer (ok s) = ok tt
answer (raise e) = raise e

-- One step of a program on the store.
pub record Advanced (A : Type 0) : Type 0 where
  pub rest : Program A
  pub store : RunStore
  pub events : List Event

unfoldable pub advance : {A : Type 0} → Program A → RunStore → Advanced A
advance (done r) s = record { rest = done r; store = s; events = [] }
advance (emit e p) s = record { rest = p; store = s; events = e ∷ [] }
advance (adding run k) s = record {
  rest = k (answer (add_run s run));
  store = stored s (add_run s run);
  events = [];
}
advance (writing w v k) s = record {
  rest = k (answer (perform s w v));
  store = stored s (perform s w v);
  events = [];
}
advance (getting id k) s = record { rest = k (get_run s id); store = s; events = [] }
advance (getting_proposal id k) s = record { rest = k (get_proposal s id); store = s; events = [] }
advance (listing k) s = record { rest = k (list_runs s); store = s; events = [] }
advance (getting_steps id k) s = record { rest = k (get_run_steps s id); store = s; events = [] }

pub record Outcome (A : Type 0) : Type 0 where
  pub reply : Result A
  pub store : RunStore
  pub events : List Event

abbrev after_event : {A : Type 0} → Event → Outcome A → Outcome A
after_event e o = record { reply = o.reply; store = o.store; events = e ∷ o.events }

-- A program that runs alone, to its end.
unfoldable pub run_alone : {A : Type 0} → Program A → RunStore → Outcome A
run_alone (done r) s = record { reply = r; store = s; events = [] }
run_alone (emit e p) s = after_event e (run_alone p s)
run_alone (adding run k) s = run_alone (k (answer (add_run s run))) (stored s (add_run s run))
run_alone (writing w v k) s = run_alone (k (answer (perform s w v))) (stored s (perform s w v))
run_alone (getting id k) s = run_alone (k (get_run s id)) s
run_alone (getting_proposal id k) s = run_alone (k (get_proposal s id)) s
run_alone (listing k) s = run_alone (k (list_runs s)) s
run_alone (getting_steps id k) s = run_alone (k (get_run_steps s id)) s
