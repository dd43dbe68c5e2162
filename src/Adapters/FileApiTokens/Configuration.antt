-- ===== src/Adapters/FileApiTokens/Configuration.antt =====
-- What holds of the tokens of a configuration that was accepted.
use kelvin_assistant.Prelude.{
  ◌≡◌, true, false, List, [], ◌∷◌, Text, text_eq, not, map, distinct, is_empty, strip, All, arith,
  codes,
}
use kelvin_assistant.Prelude.Regex.{fullmatch}
use kelvin_assistant.Prelude.Result.{
  Result, ok, raise, >>=-eq-ok, raise_if-eq-ok, returned, api_auth_error, value_error,
  token_configuration_error,
}
use kelvin_assistant.Domain.Json.{Json, Items, nil, cons, lookup}
use kelvin_assistant.Domain.Auth.{
  token_id_pattern, sha256_pattern, ApiPrincipal, make_principal, StoredApiToken, make_stored_token,
}
use kelvin_assistant.Application.ToolPolicy.{or_null}
use kelvin_assistant.Adapters.FileApiTokens.{
  make_authenticator, require_mapping, require_list, require_string, reject_unknown_keys,
  equals_one, parse_scopes, build_token, converted, parse_token_record, parse_records, no_items,
  parse_configuration, from_payload,
}

-- A token record as the constructors leave it.
pub record ValidToken (t : StoredApiToken) : Type 0 where
  pub id : fullmatch token_id_pattern t.principal.id ≡ true
  pub scopes : is_empty t.principal.scopes ≡ false
  pub digest : fullmatch sha256_pattern t.token_sha256 ≡ true

build_token-ValidToken :
    (id digest : Text) (scopes : Items) {t : StoredApiToken}
    → build_token id digest scopes ≡ ok t
    → ValidToken t
unfolding build_token make_principal make_stored_token
build_token-ValidToken id digest scopes h =
    let (given, _, h₁) = >>=-eq-ok (parse_scopes scopes) _ h in
    let (principal, made, h₂) = >>=-eq-ok (make_principal id given) _ h₁ in
    let (named, m₁) =
      raise_if-eq-ok (not (fullmatch token_id_pattern (strip id))) api_auth_error _ made in
    let (some_scope, m₂) = raise_if-eq-ok (is_empty given) api_auth_error _ m₁ in
    let (hashed, h₃) = raise_if-eq-ok (not (fullmatch sha256_pattern digest)) api_auth_error _ h₂ in
    returned ValidToken h₃ (record {
      id =
          returned (λ (p : ApiPrincipal). fullmatch token_id_pattern p.id ≡ true) m₂ (ground arith);
      scopes = returned (λ (p : ApiPrincipal). is_empty p.scopes ≡ false) m₂ some_scope;
      digest = ground arith;
    })

converted_ok : (r : Result StoredApiToken) {t : StoredApiToken} → converted r ≡ ok t → r ≡ ok t
unfolding converted
converted_ok (ok t) h = h
converted_ok (raise api_auth_error) h = cc
converted_ok (raise value_error) h = cc
converted_ok (raise _) h = h

parse_token_record-ValidToken :
    (value : Json) {t : StoredApiToken} → parse_token_record value ≡ ok t → ValidToken t
unfolding parse_token_record
parse_token_record-ValidToken value h =
    let (fields, _, h₁) = >>=-eq-ok (require_mapping value) _ h in
    let (_, _, h₂) =
      >>=-eq-ok
        (reject_unknown_keys fields (codes "id" ∷ codes "token_sha256" ∷ codes "scopes" ∷ [])) _
        h₁ in
    let (id, _, h₃) = >>=-eq-ok (require_string (or_null (lookup fields (codes "id")))) _ h₂ in
    let (digest, _, h₄) =
      >>=-eq-ok (require_string (or_null (lookup fields (codes "token_sha256")))) _ h₃ in
    let (scopes, _, h₅) =
      >>=-eq-ok (require_list (or_null (lookup fields (codes "scopes")))) _ h₄ in
    build_token-ValidToken id digest scopes (converted_ok (build_token id digest scopes) h₅)

parse_records-ValidToken :
    (xs : Items) {ts : List StoredApiToken} → parse_records xs ≡ ok ts → All ValidToken ts
unfolding parse_records
parse_records-ValidToken nil h = returned (All ValidToken) h tt
parse_records-ValidToken (cons x xs) h =
    let (t, first, h₁) = >>=-eq-ok (parse_token_record x) _ h in
    let (ts, rest, h₂) = >>=-eq-ok (parse_records xs) _ h₁ in
    returned (All ValidToken) h₂
      (parse_token_record-ValidToken x first, parse_records-ValidToken xs rest)

parse_configuration-ValidToken :
    (payload : Json) {ts : List StoredApiToken}
    → parse_configuration payload ≡ ok ts
    → All ValidToken ts
unfolding parse_configuration
parse_configuration-ValidToken payload h =
    let (document, _, h₁) = >>=-eq-ok (require_mapping payload) _ h in
    let (_, _, h₂) =
      >>=-eq-ok (reject_unknown_keys document (codes "version" ∷ codes "tokens" ∷ [])) _ h₁ in
    let (_, h₃) =
      raise_if-eq-ok (not (equals_one (or_null (lookup document (codes "version")))))
        token_configuration_error _ h₂ in
    let (raw, _, h₄) = >>=-eq-ok (require_list (or_null (lookup document (codes "tokens")))) _ h₃ in
    let (_, h₅) = raise_if-eq-ok (no_items raw) token_configuration_error _ h₄ in
    parse_records-ValidToken raw h₅

-- The tokens of an authenticator from a configuration.
pub record Configured (tokens : List StoredApiToken) : Type 0 where
  pub some_token : is_empty tokens ≡ false
  pub valid : All ValidToken tokens
  pub distinct_ids : distinct (map (λ (t : StoredApiToken). t.principal.id) tokens) ≡ true
  pub distinct_digests : distinct (map (λ (t : StoredApiToken). t.token_sha256) tokens) ≡ true

-- A configuration that is accepted has a token; each has an identifier of the right form, at least
-- one scope and a digest of 64 hexadecimal digits; no two have one identifier or one digest.
pub from_payload-Configured :
    (payload : Json) {tokens : List StoredApiToken}
    → from_payload payload ≡ ok tokens
    → Configured tokens
unfolding from_payload make_authenticator
from_payload-Configured payload h =
    let (given, parsed, h₁) = >>=-eq-ok (parse_configuration payload) _ h in
    let (some_token, h₂) = raise_if-eq-ok (is_empty given) token_configuration_error _ h₁ in
    let (ids, h₃) =
      raise_if-eq-ok (not (distinct (map (λ (t : StoredApiToken). t.principal.id) given)))
        token_configuration_error _ h₂ in
    let (digests, h₄) =
      raise_if-eq-ok (not (distinct (map (λ (t : StoredApiToken). t.token_sha256) given)))
        token_configuration_error _ h₃ in
    returned Configured h₄ (record {
      some_token = some_token;
      valid = parse_configuration-ValidToken payload parsed;
      distinct_ids = ground arith;
      distinct_digests = ground arith;
    })
