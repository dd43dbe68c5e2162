-- ===== src/Domain/Auth.antt =====
-- domain/auth.py: scopes, principals and stored tokens. A set of scopes is the list of its members.
use kelvin_assistant.Prelude.{
  ℕ, Bool, true, List, [], ◌∷◌, Text, text_eq, Eq, nat_beq, ◌↔◌, ◌≡◌, ◌||◌, not, ◌==◌, Option, none,
  some, codes, strip, is_empty, contains, if◌then◌else◌, arith,
}
use kelvin_assistant.Prelude.Regex.{Regex, chr, cat, up_to, exactly, range, fullmatch}
use kelvin_assistant.Prelude.Result.{Result, ok, ◌>>◌, raise_if, api_auth_error}

pub data ApiScope : Type 0 where
  system_read chat_use knowledge_read memory_read : ApiScope
  memory_write agent_execute agent_write agent_approve : ApiScope

abbrev pub scope_rank : ApiScope → ℕ
scope_rank system_read = 0
scope_rank chat_use = 1
scope_rank knowledge_read = 2
scope_rank memory_read = 3
scope_rank memory_write = 4
scope_rank agent_execute = 5
scope_rank agent_write = 6
scope_rank agent_approve = 7

pub scope_rank_iff : (s t : ApiScope) → (nat_beq (scope_rank s) (scope_rank t) ≡ true) ↔ (s ≡ t)
scope_rank_iff s t = ground arith

instance abbrev pub scope_eq : Eq ApiScope
scope_eq = record { beq = λ s t. nat_beq (scope_rank s) (scope_rank t); beq_iff = scope_rank_iff }

-- The values of the enumeration
unfoldable pub scope_value : ApiScope → Text
scope_value system_read = codes "system:read"
scope_value chat_use = codes "chat:use"
scope_value knowledge_read = codes "knowledge:read"
scope_value memory_read = codes "memory:read"
scope_value memory_write = codes "memory:write"
scope_value agent_execute = codes "agent:execute"
scope_value agent_write = codes "agent:write"
scope_value agent_approve = codes "agent:approve"

abbrev pub all_scopes : List ApiScope
all_scopes =
    system_read ∷ chat_use ∷ knowledge_read ∷ memory_read ∷ memory_write ∷ agent_execute
    ∷ agent_write ∷ agent_approve ∷ []

-- `ApiScope(value)`, by the members in their order
unfoldable pub find_scope : List ApiScope → Text → Option ApiScope
unfolding scope_value
find_scope [] value = none
find_scope (s ∷ scopes) value = if value == scope_value s then some s else find_scope scopes value

-- `_TOKEN_ID_PATTERN`
abbrev pub token_id_pattern : Regex
token_id_pattern =
    cat (chr (range b'a' b'z'))
      (up_to 63 (chr (λ c. range b'a' b'z' c || range b'0' b'9' c || nat_beq b'-' c)))

-- `_SHA256_PATTERN`
abbrev pub sha256_pattern : Regex
sha256_pattern = exactly 64 (chr (λ c. range b'0' b'9' c || range b'a' b'f' c))

pub record ApiPrincipal : Type 0 where
  pub id : Text
  pub scopes : List ApiScope

unfoldable pub make_principal : Text → List ApiScope → Result ApiPrincipal
make_principal id scopes = do
  raise_if (not (fullmatch token_id_pattern (strip id))) api_auth_error
  raise_if (is_empty scopes) api_auth_error
  ok (record { id = strip id; scopes = scopes })

unfoldable pub has_scope : ApiPrincipal → ApiScope → Bool
has_scope principal scope = contains principal.scopes scope

pub record StoredApiToken : Type 0 where
  pub principal : ApiPrincipal
  pub token_sha256 : Text

unfoldable pub make_stored_token : ApiPrincipal → Text → Result StoredApiToken
make_stored_token principal token_sha256 = do
  raise_if (not (fullmatch sha256_pattern token_sha256)) api_auth_error
  ok (record { principal = principal; token_sha256 = token_sha256 })
