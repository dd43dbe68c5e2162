-- ===== src/Prelude/Result.antt =====
-- Python's exceptions: the classes that the modelled code raises, and the results of code that may
-- raise one. Of an exception only its class is kept; its message is not modelled.
use Prim.Native.Nat.{ℕ}
use mathlib.Core.Path.{◌≡◌, refl, subst}
use mathlib.Core.Bool.{Bool, true, false}

pub data Exception : Type 0 where
  agent_domain_error invalid_transition_error step_limit_error : Exception
  agent_service_error duplicate_tool_error unknown_tool_error : Exception
  run_not_found_error run_conflict_error proposal_not_found_error result_not_found_error : Exception
  invalid_chat_message_error session_not_found_error session_conflict_error : Exception
  planner_domain_error agent_planning_error tool_arguments_validation_error : Exception
  api_auth_error token_configuration_error knowledge_document_error memory_error : Exception
  local_agent_client_error approval_rejected_error tool_execution_error : Exception
  agent_client_error cancelled_error value_error : Exception
  planner_unavailable_error planner_response_error runtime_error : Exception
  memory_configuration_error memory_unavailable_error : Exception
  -- `HTTPException`, with its status
  http_error : ℕ → Exception

pub data Result {ℓ} (V : Type ℓ) : Type ℓ where
  ok : V → Result V
  raise : (error : Exception) → Result V

infixl 5 ◌>>=◌ ◌>>◌
abbrev pub ◌>>=◌ {ℓ κ} : {V : Type ℓ} {W : Type κ} → Result V → (V → Result W) → Result W
ok v >>= rest = rest v
raise error >>= rest = raise error

abbrev pub ◌>>◌ {ℓ} : {W : Type ℓ} → Result (Unit {0}) → Result W → Result W
guard >> rest = guard >>= λ _. rest

-- `if test: raise error`
abbrev pub raise_if : Bool → Exception → Result (Unit {0})
raise_if true error = raise error
raise_if false error = ok tt

-- A chain that returns went through: its first part returned, and so did the rest.
pub >>=-eq-ok {ℓ κ} :
    {V : Type ℓ} {W : Type κ} (first : Result V) (rest : V → Result W) {w : W}
    → (first >>= rest) ≡ ok w
    → (v : V) × (first ≡ ok v) × (rest v ≡ ok w)
>>=-eq-ok (ok v) rest went = (v, refl, went)
>>=-eq-ok (raise _) rest went = cc

-- A guard in a chain that returns did not raise.
pub raise_if-eq-ok {ℓ} :
    {W : Type ℓ} (test : Bool) (error : Exception) (rest : Result W) {w : W}
    → (raise_if test error >> rest) ≡ ok w
    → (test ≡ false) × (rest ≡ ok w)
raise_if-eq-ok true error rest went = cc
raise_if-eq-ok false error rest went = (refl, went)

-- What holds of the value of one result holds of the value of an equal one.
pub returned {ℓ κ} : {V : Type ℓ} (P : V → Type κ) {v w : V} → ok v ≡ ok w → P v → P w
returned P same = subst P (cc)

-- What holds of one exception holds of an equal one.
pub raised {ℓ κ} :
    {V : Type ℓ} (P : Exception → Type κ) {d e : Exception}
    → ◌≡◌ {A = Result V} (raise d) (raise e)
    → P d
    → P e
raised P same = subst P (cc)
