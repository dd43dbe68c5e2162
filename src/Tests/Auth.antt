-- ===== src/Tests/Auth.antt =====
-- Token configurations and scope checks at small inputs.
use kelvin_assistant.Prelude.{
  Option, false, ◌≡◌, ◌↔◌, refl, true, none, some, List, [], ◌∷◌, ◌++◌, Text, codes, text_eq,
  text_beq, is_space, strip,
}
use kelvin_assistant.Prelude.Regex.{nullable, derivative, fullmatch}
use kelvin_assistant.Prelude.Int.{pos, ltb_float, ltb_ℤ, scale}
use kelvin_assistant.Prelude.Result.{ok, raise, http_error, token_configuration_error}
use kelvin_assistant.Domain.Json.{
  Json, obj, arr, str, int, field, end, cons, nil, lookup, field_names,
}
use kelvin_assistant.Domain.Auth.{
  chat_use, agent_write, ApiPrincipal, StoredApiToken, scope_value, find_scope, make_principal,
  has_scope, make_stored_token,
}
use kelvin_assistant.Adapters.FileApiTokens.{
  is_ascii, make_authenticator, match_tokens, authenticate, require_mapping, require_list,
  require_string, reject_unknown_keys, equals_one, scope_of, parse_scopes, build_token, converted,
  parse_token_record, parse_records, parse_configuration, from_payload,
}
use kelvin_assistant.Adapters.FileApiTokens.Authentication.{Admissible, Matches, authenticate_iff}
use kelvin_assistant.Adapters.FileApiTokens.Configuration.{Configured, from_payload-Configured}
use kelvin_assistant.Api.Dependencies.{
  anon_principal, check_principal, check_credentials, check_scope, check_scope_iff,
}

program : Unit {0}
unfolding text_beq is_space strip nullable derivative fullmatch ltb_float ltb_ℤ scale lookup
    field_names scope_value find_scope make_principal has_scope make_stored_token is_ascii
    make_authenticator match_tokens authenticate require_mapping require_list require_string
    reject_unknown_keys equals_one scope_of parse_scopes build_token converted parse_token_record
    parse_records parse_configuration from_payload check_principal check_credentials check_scope
program = tt

-- A function that gives every token of two characters a digest of its own.
abbrev sha256 : Text → Text
sha256 token = codes "00000000000000000000000000000000000000000000000000000000000000" ++ token

abbrev web : ApiPrincipal
web = record { id = codes "web"; scopes = chat_use ∷ [] }

abbrev tokens : List StoredApiToken
tokens = (record { principal = web; token_sha256 = sha256 (codes "ab") }) ∷ []

abbrev payload : Json
payload = obj (
    field (codes "version") (int (pos 1)) (
      field (codes "tokens")
        (arr (
          cons
            (obj (
              field (codes "id") (str (codes "web")) (
                field (codes "token_sha256") (str (sha256 (codes "ab")))
                  (field (codes "scopes") (arr (cons (str (codes "chat:use")) nil)) end))))
            nil))
        end))

loads : from_payload payload ≡ ok tokens
unfolding program
loads = refl

refuses_empty : from_payload (obj end) ≡ raise token_configuration_error
unfolding program
refuses_empty = refl

from_payload-Configured_example : Configured tokens
from_payload-Configured_example = from_payload-Configured payload loads

constructs : make_authenticator tokens ≡ ok tokens
unfolding program
constructs = refl

authenticate_iff_example :
    (authenticate sha256 tokens (codes "ab") ≡ some web)
    ↔ (Admissible (codes "ab") × Matches tokens (sha256 (codes "ab")) web)
authenticate_iff_example = authenticate_iff sha256 tokens tokens (codes "ab") web constructs

check_scope_iff_example :
    ((check_scope sha256 chat_use (some (codes "ab")) (some tokens) true ≡ ok web) ↔ (
      Admissible (codes "ab")
      × Matches tokens (sha256 (codes "ab")) web
      × (has_scope web chat_use ≡ true)))
    × (check_scope sha256 chat_use none (some tokens) true ≡ raise (http_error 401))
    × ((credentials : Option Text)
        → (check_scope sha256 chat_use credentials none false ≡ ok anon_principal)
          × (check_scope sha256 chat_use credentials none true ≡ raise (http_error 500)))
check_scope_iff_example =
    check_scope_iff sha256 chat_use (codes "ab") tokens tokens true web constructs

-- The right scope passes, another one is forbidden, another token is not authorized, and no
-- configured token is an error of the server.
checks :
    (check_scope sha256 chat_use (some (codes "ab")) (some tokens) true ≡ ok web)
    × (check_scope sha256 agent_write (some (codes "ab")) (some tokens) true
        ≡ raise (http_error 403))
    × (check_scope sha256 chat_use (some (codes "ac")) (some tokens) true ≡ raise (http_error 401))
    × (check_scope sha256 chat_use (some (codes "ab")) none true ≡ raise (http_error 500))
unfolding program
checks = (refl, refl, refl, refl)
