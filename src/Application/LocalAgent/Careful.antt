-- ===== src/Application/LocalAgent/Careful.antt =====
-- What a client makes of the history, whatever the world answers: a rule for each question that is
-- asked, by what came before it, and what is known at the end.
use kelvin_assistant.Prelude.{◌≡◌, refl, List, [], ◌∷◌}
use kelvin_assistant.Prelude.Result.{Exception, Result, ok, raise}
use kelvin_assistant.Ports.AgentClient.{
  Question, Answer, Exchange, exchange, Client, done, asking, continue_with, on_value, on_error,
  ◌>>=◌, try, ask, World, run_client,
}

abbrev pub Rule : Type 1
Rule = List Exchange → Question → Type 0

abbrev pub Post : Type 0 → Type 1
Post A = List Exchange → Result A → Type 0

-- Every question of the history followed the rule.
abbrev pub Followed : Rule → List Exchange → Type 0
Followed rule [] = Unit
Followed rule (exchange question answer ∷ past) = rule past question × Followed rule past

unfoldable pub Careful : {A : Type 0} → Rule → Post A → List Exchange → Client A → Type 0
Careful rule Q past (done r) = Q past r
Careful rule Q past (asking question k) =
    rule past question
    × ((r : Result (Answer question)) → Careful rule Q (exchange question r ∷ past) (k r))

module _ {A : Type 0} (rule : Rule) (Q : Post A) where
  pub run_client-Careful :
      (world : World) (past : List Exchange) (p : Client A)
      → Followed rule past
      → Careful rule Q past p
      → Followed rule (run_client world past p).history
        × Q (run_client world past p).history (run_client world past p).result
  unfolding Careful run_client
  run_client-Careful world past (done r) f h = (f, h)
  run_client-Careful world past (asking question k) f (allowed, h) =
      run_client-Careful world (exchange question (world past question) ∷ past)
        (k (world past question)) (allowed, f) (h (world past question))

  pub Careful-continue_with :
      {B : Type 0} (R : Post B) (past : List Exchange) (p : Client B) (f : Result B → Client A)
      → Careful rule R past p
      → ((now : List Exchange) (r : Result B) → R now r → Careful rule Q now (f r))
      → Careful rule Q past (continue_with p f)
  unfolding Careful continue_with
  Careful-continue_with R past (done r) f h next = next past r h
  Careful-continue_with R past (asking question k) f (allowed, h) next =
      (allowed, λ r. Careful-continue_with R (exchange question r ∷ past) (k r) f (h r) next)

  pub Careful-done : (past : List Exchange) (r : Result A) → Q past r → Careful rule Q past (done r)
  unfolding Careful
  Careful-done past r h = h

  pub Careful->>= :
      {B : Type 0} (R : Post B) (past : List Exchange) (p : Client B) (f : B → Client A)
      → Careful rule R past p
      → ((now : List Exchange) (b : B) → R now (ok b) → Careful rule Q now (f b))
      → ((now : List Exchange) (e : Exception) → R now (raise e) → Q now (raise e))
      → Careful rule Q past (p >>= f)
  Careful->>= {B} R past p f h next failed = Careful-continue_with R past p (on_value f) h after
    where
      after : (now : List Exchange) (r : Result B) → R now r → Careful rule Q now (on_value f r)
      after now (ok b) q = next now b q
      after now (raise e) q = Careful-done now (raise e) (failed now e q)

  pub Careful-try :
      (R : Post A) (past : List Exchange) (p : Client A) (f : Exception → Client A)
      → Careful rule R past p
      → ((now : List Exchange) (a : A) → R now (ok a) → Q now (ok a))
      → ((now : List Exchange) (e : Exception) → R now (raise e) → Careful rule Q now (f e))
      → Careful rule Q past (try p f)
  Careful-try R past p f h keep handle = Careful-continue_with R past p (on_error f) h after
    where
      after : (now : List Exchange) (r : Result A) → R now r → Careful rule Q now (on_error f r)
      after now (ok a) q = Careful-done now (ok a) (keep now a q)
      after now (raise e) q = handle now e q

  -- A question, and what comes after its answer.
  pub Careful-ask :
      (past : List Exchange) (question : Question) (f : Answer question → Client A)
      → rule past question
      → ((a : Answer question) → Careful rule Q (exchange question (ok a) ∷ past) (f a))
      → ((e : Exception) → Q (exchange question (raise e) ∷ past) (raise e))
      → Careful rule Q past (ask question >>= f)
  unfolding Careful continue_with
  Careful-ask past question f allowed next failed = (allowed, answered)
    where
      answered :
          (r : Result (Answer question))
          → Careful rule Q (exchange question r ∷ past) (on_value f r)
      answered (ok a) = next a
      answered (raise e) = Careful-done (exchange question (raise e) ∷ past) (raise e) (failed e)

  -- A test that raises an exception, and what comes after it.
  pub Careful-value :
      {B : Type 0} (past : List Exchange) (r : Result B) (f : B → Client A)
      → ((b : B) → r ≡ ok b → Careful rule Q past (f b))
      → ((e : Exception) → Q past (raise e))
      → Careful rule Q past (done r >>= f)
  unfolding continue_with
  Careful-value past (ok b) f next failed = next b refl
  Careful-value past (raise e) f next failed = Careful-done past (raise e) (failed e)

-- A question at the end.
pub Careful-last :
    (rule : Rule) (question : Question) (Q : Post (Answer question)) (past : List Exchange)
    → rule past question
    → ((r : Result (Answer question)) → Q (exchange question r ∷ past) r)
    → Careful rule Q past (ask question)
unfolding Careful
Careful-last rule question Q past allowed last = (allowed, last)
