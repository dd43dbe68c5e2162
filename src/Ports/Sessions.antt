-- ===== src/Ports/Sessions.antt =====
-- `SessionStore` of ports/sessions.py, as operations on a state `S`, with what its comments promise.
use kelvin_assistant.Prelude.{ℕ, ◌≡◌, ◌==◌, nat_eq, if◌then◌else◌}
use kelvin_assistant.Prelude.Result.{Result, ok, raise, session_not_found_error}
use kelvin_assistant.Domain.Chat.{ChatSession}

pub record SessionStore (S : Type 0) : Type 0 where
  pub add : S → ChatSession → Result S
  pub get : S → ℕ → Result ChatSession
  pub update : S → ChatSession → (expected_version : ℕ) → Result S
  -- A session is added only if its identifier is not stored.
  pub add_new :
      (s s' : S) (session : ChatSession)
      → add s session ≡ ok s'
      → get s session.id ≡ raise session_not_found_error
  pub get_add :
      (s s' : S) (session : ChatSession) (id : ℕ)
      → add s session ≡ ok s'
      → get s' id ≡ (if session.id == id then ok session else get s id)
  -- A session is replaced only if its stored version is the expected one.
  pub update_expected :
      (s s' : S) (session : ChatSession) (expected_version : ℕ)
      → update s session expected_version ≡ ok s'
      → (stored : ChatSession) × (get s session.id ≡ ok stored)
        × (stored.version ≡ expected_version)
  pub get_update :
      (s s' : S) (session : ChatSession) (expected_version id : ℕ)
      → update s session expected_version ≡ ok s'
      → get s' id ≡ (if session.id == id then ok session else get s id)
