-- ===== src/Adapters/MemorySessions.antt =====
-- `InMemorySessionStore` of adapters/memory_sessions.py. Every method holds the store's lock, so it
-- is one step on the dict.
use kelvin_assistant.Prelude.{
  ℕ, ◌+◌, ◌≡◌, refl, Bool, true, false, Option, none, some, not, ◌||◌, ◌==◌, nat_eq, if◌then◌else◌,
  arith,
}
use kelvin_assistant.Prelude.Dict.{Dict, get, put, get-put}
use kelvin_assistant.Prelude.Result.{
  Result, ok, raise, ◌>>=◌, ◌>>◌, raise_if, >>=-eq-ok, raise_if-eq-ok, session_not_found_error,
  session_conflict_error,
}
use kelvin_assistant.Domain.Chat.{ChatSession}
use kelvin_assistant.Domain.Agent.Tools.{is_given}
use kelvin_assistant.Ports.Sessions.{SessionStore}
use kelvin_assistant.Adapters.MemoryAgentRuns.{or_raise}

abbrev pub Sessions : Type 0
Sessions = Dict ℕ ChatSession

unfoldable pub add_session : Sessions → ChatSession → Result Sessions
add_session sessions session = do
  raise_if (is_given (get sessions session.id)) session_conflict_error
  ok (put sessions session.id session)

unfoldable pub get_session : Sessions → ℕ → Result ChatSession
get_session sessions session_id = or_raise session_not_found_error (get sessions session_id)

unfoldable pub update_session : Sessions → ChatSession → (expected_version : ℕ) → Result Sessions
update_session sessions session expected_version = do
  stored ← or_raise session_not_found_error (get sessions session.id)
  raise_if
      (not (stored.version == expected_version) || not (session.version == expected_version + 1))
      session_conflict_error
  ok (put sessions session.id session)

or_raise-if {ℓ} :
    {A : Type ℓ} (test : Bool) (a : A) (o : Option A)
    → or_raise session_not_found_error (if test then some a else o)
      ≡ (if test then ok a else or_raise session_not_found_error o)
or_raise-if true a o = refl
or_raise-if false a o = refl

pub get-stored :
    (s : Sessions) (session : ChatSession) (id : ℕ)
    → get_session (put s session.id session) id
      ≡ (if session.id == id then ok session else get_session s id)
unfolding get_session
get-stored s session id =
    rw (get-put s session.id id session) (or_raise-if (session.id == id) session (get s id))

not_given :
    (o : Option ChatSession)
    → is_given o ≡ false
    → or_raise session_not_found_error o ≡ raise session_not_found_error
not_given none h = refl
not_given (some a) h = cc

pub add-get_session :
    (s s' : Sessions) (session : ChatSession)
    → add_session s session ≡ ok s'
    → (get_session s session.id ≡ raise session_not_found_error) × (s' ≡ put s session.id session)
unfolding add_session get_session
add-get_session s s' session h =
    let (fresh, h₁) = raise_if-eq-ok (is_given (get s session.id)) session_conflict_error _ h in
    (not_given (get s session.id) fresh, cc)

pub update-get_session :
    (s s' : Sessions) (session : ChatSession) (expected : ℕ)
    → update_session s session expected ≡ ok s'
    → ((stored : ChatSession) × (get_session s session.id ≡ ok stored)
        × (stored.version ≡ expected))
      × (session.version ≡ expected + 1)
      × (s' ≡ put s session.id session)
unfolding update_session get_session
update-get_session s s' session expected h =
    let (stored, found, h₁) = >>=-eq-ok (or_raise session_not_found_error (get s session.id)) _ h in
    let (matches, h₂) =
      raise_if-eq-ok (not (stored.version == expected) || not (session.version == expected + 1))
        session_conflict_error _ h₁ in
    ((stored, found, ground arith), ground arith, cc)

-- The store as an implementation of the port.
abbrev pub memory_sessions : SessionStore Sessions
memory_sessions = record {
  add = add_session;
  get = get_session;
  update = update_session;
  add_new = λ s s' session h. (add-get_session s s' session h).0;
  get_add = λ s s' session id h. rw (add-get_session s s' session h).1 (get-stored s session id);
  update_expected = λ s s' session expected h. (update-get_session s s' session expected h).0;
  get_update = λ s s' session expected id h.
      let (_, _, same) = update-get_session s s' session expected h in
      rw same (get-stored s session id);
}
