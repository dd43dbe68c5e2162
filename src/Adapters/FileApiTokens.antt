-- ===== src/Adapters/FileApiTokens.antt =====
-- adapters/file_api_tokens.py: the validation of a token configuration, as the JSON value that the
-- file holds, and the authentication by it. `sha256` is `hashlib.sha256(...).hexdigest()` on the
-- characters of an ASCII text.
pub mod Authentication
pub mod Configuration
use kelvin_assistant.Prelude.{
  ℕ, Bool, true, false, Option, none, some, List, [], ◌∷◌, Text, text_eq, nat_eq, codes, not, ◌&&◌,
  ◌||◌, ◌==◌, ltb, length, is_empty, map, distinct, all, contains, if◌then◌else◌,
}
use kelvin_assistant.Prelude.Int.{ℤ, pos, negsuc, Float, nan, ltb_float, dyadic}
use kelvin_assistant.Prelude.Result.{
  Result, ok, raise, ◌>>=◌, ◌>>◌, raise_if, api_auth_error, token_configuration_error, value_error,
}
use kelvin_assistant.Domain.Json.{
  Json, null, bool, int, float, str, arr, obj, Items, nil, cons, Fields, lookup, field_names,
}
use kelvin_assistant.Domain.Auth.{
  ApiScope, scope_eq, all_scopes, find_scope, ApiPrincipal, make_principal, StoredApiToken,
  make_stored_token,
}
use kelvin_assistant.Application.ToolPolicy.{or_null}

abbrev pub max_bearer_token_length : ℕ
max_bearer_token_length = 512

-- `token.isascii()`
unfoldable pub is_ascii : Text → Bool
is_ascii token = all (λ c. ltb c 128) token

-- `__init__` with `_reject_duplicate_records`
unfoldable pub make_authenticator : List StoredApiToken → Result (List StoredApiToken)
make_authenticator tokens = do
  raise_if (is_empty tokens) token_configuration_error
  raise_if (not (distinct (map (λ (t : StoredApiToken). t.principal.id) tokens)))
      token_configuration_error
  raise_if (not (distinct (map (λ (t : StoredApiToken). t.token_sha256) tokens)))
      token_configuration_error
  ok tokens

-- The loop of `authenticate`, with the principal that matched so far: it does not stop at a match.
unfoldable pub match_tokens :
    List StoredApiToken → (digest : Text) → Option ApiPrincipal → Option ApiPrincipal
match_tokens [] digest matched = matched
match_tokens (t ∷ tokens) digest matched =
    match_tokens tokens digest (if digest == t.token_sha256 then some t.principal else matched)

-- The guards of `hash_api_token` are the ones of `authenticate`, which calls it after them.
unfoldable pub authenticate :
    (sha256 : Text → Text) → List StoredApiToken → Text → Option ApiPrincipal
authenticate sha256 tokens token =
    if is_empty token || ltb max_bearer_token_length (length token) || not (is_ascii token)
    then none
    else match_tokens tokens (sha256 token) none

unfoldable pub hash_api_token : (sha256 : Text → Text) → Text → Result Text
hash_api_token sha256 token = do
  raise_if (is_empty token) value_error
  raise_if (ltb max_bearer_token_length (length token)) value_error
  raise_if (not (is_ascii token)) value_error
  ok (sha256 token)

-- `_require_mapping`, `_require_list` and `_require_string`
unfoldable pub require_mapping : Json → Result Fields
require_mapping (obj fs) = ok fs
require_mapping _ = raise token_configuration_error

unfoldable pub require_list : Json → Result Items
require_list (arr xs) = ok xs
require_list _ = raise token_configuration_error

unfoldable pub require_string : Json → Result Text
require_string (str s) = if is_empty s then raise token_configuration_error else ok s
require_string _ = raise token_configuration_error

-- `_reject_unknown_keys`
unfoldable pub reject_unknown_keys : Fields → List Text → Result (Unit {0})
reject_unknown_keys value allowed =
    raise_if (not (all (contains allowed) (field_names value))) token_configuration_error

-- `value == 1`, which also holds of `True` and `1.0`
unfoldable pub equals_one : Json → Bool
equals_one (int (pos n)) = n == 1
equals_one (bool b) = b
equals_one (float nan) = false
equals_one (float x) = not (ltb_float x (dyadic (pos 1) 0)) && not (ltb_float (dyadic (pos 1) 0) x)
equals_one _ = false

-- `ApiScope(text)`
unfoldable pub scope_of : Option ApiScope → Result ApiScope
scope_of none = raise value_error
scope_of (some scope) = ok scope

unfoldable pub parse_scopes : Items → Result (List ApiScope)
parse_scopes nil = ok []
parse_scopes (cons x xs) = do
  value ← require_string x
  scope ← scope_of (find_scope all_scopes value)
  scopes ← parse_scopes xs
  ok (if contains scopes scope then scopes else scope ∷ scopes)

-- The `try` block of `_parse_token_record`
unfoldable pub build_token : Text → Text → Items → Result StoredApiToken
build_token principal_id token_sha256 raw_scopes = do
  scopes ← parse_scopes raw_scopes
  principal ← make_principal principal_id scopes
  make_stored_token principal token_sha256

-- Its `except` clauses: `ApiAuthError` is a `ValueError`.
unfoldable pub converted : Result StoredApiToken → Result StoredApiToken
converted (raise api_auth_error) = raise token_configuration_error
converted (raise value_error) = raise token_configuration_error
converted r = r

unfoldable pub parse_token_record : Json → Result StoredApiToken
parse_token_record value = do
  fields ← require_mapping value
  reject_unknown_keys fields (codes "id" ∷ codes "token_sha256" ∷ codes "scopes" ∷ [])
  principal_id ← require_string (or_null (lookup fields (codes "id")))
  token_sha256 ← require_string (or_null (lookup fields (codes "token_sha256")))
  raw_scopes ← require_list (or_null (lookup fields (codes "scopes")))
  converted (build_token principal_id token_sha256 raw_scopes)

unfoldable pub parse_records : Items → Result (List StoredApiToken)
parse_records nil = ok []
parse_records (cons x xs) = do
  token ← parse_token_record x
  tokens ← parse_records xs
  ok (token ∷ tokens)

abbrev pub no_items : Items → Bool
no_items nil = true
no_items (cons x xs) = false

unfoldable pub parse_configuration : Json → Result (List StoredApiToken)
parse_configuration payload = do
  document ← require_mapping payload
  reject_unknown_keys document (codes "version" ∷ codes "tokens" ∷ [])
  raise_if (not (equals_one (or_null (lookup document (codes "version")))))
      token_configuration_error
  raw_tokens ← require_list (or_null (lookup document (codes "tokens")))
  raise_if (no_items raw_tokens) token_configuration_error
  parse_records raw_tokens

-- `from_file`, on the payload that the file holds
unfoldable pub from_payload : Json → Result (List StoredApiToken)
from_payload payload = do tokens ← parse_configuration payload; make_authenticator tokens
