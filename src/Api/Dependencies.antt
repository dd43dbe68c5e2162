-- ===== src/Api/Dependencies.antt =====
-- `require_scope` of api/dependencies.py: the check that a request passes before its handler.
-- `credentials` is the token of the Bearer header, `authenticator` the configured tokens.
use kelvin_assistant.Prelude.{
  ◌≡◌, refl, ◌↔◌, Bool, true, false, Option, none, some, List, Text, text_eq, codes, not,
  Bool-cases, inl, inr, if◌then◌else◌,
}
use kelvin_assistant.Prelude.Result.{Result, ok, raise, returned, http_error}
use kelvin_assistant.Domain.Auth.{ApiScope, all_scopes, ApiPrincipal, has_scope, StoredApiToken}
use kelvin_assistant.Adapters.FileApiTokens.{make_authenticator, authenticate}
use kelvin_assistant.Adapters.FileApiTokens.Authentication.{Admissible, Matches, authenticate_iff}

-- `_ANON_PRINCIPAL`
abbrev pub anon_principal : ApiPrincipal
anon_principal = record { id = codes "anonymous"; scopes = all_scopes }

-- `principal is None`, and the test of its scope
unfoldable pub check_principal : ApiScope → Option ApiPrincipal → Result ApiPrincipal
check_principal scope none = raise (http_error 401)
check_principal scope (some principal) =
    if not (has_scope principal scope) then raise (http_error 403) else ok principal

-- The branches on a configured authenticator
unfoldable pub check_credentials :
    (sha256 : Text → Text) → ApiScope → Option Text → List StoredApiToken → Result ApiPrincipal
check_credentials sha256 scope none tokens = raise (http_error 401)
check_credentials sha256 scope (some token) tokens =
    check_principal scope (authenticate sha256 tokens token)

-- `_check`; `required` is `settings.api_auth_mode == "required"`
unfoldable pub check_scope :
    (sha256 : Text → Text)
    → ApiScope
    → Option Text
    → (authenticator : Option (List StoredApiToken)) → (required : Bool) → Result ApiPrincipal
check_scope sha256 scope credentials none required =
    if required then raise (http_error 500) else ok anon_principal
check_scope sha256 scope credentials (some tokens) required =
    check_credentials sha256 scope credentials tokens

principal-ok :
    (scope : ApiScope) (o : Option ApiPrincipal) (p : ApiPrincipal)
    → (check_principal scope o ≡ ok p) ↔ ((o ≡ some p) × (has_scope p scope ≡ true))
unfolding check_principal
principal-ok scope none p = (λ h. cc, λ (e, _). cc)
principal-ok scope (some q) p = (
  λ h. elim (Bool-cases (has_scope q scope)) [
    | inl e ↦ returned (λ p. (some q ≡ some p) × (has_scope p scope ≡ true)) (rw e at h) (refl, e)
    | inr e ↦ cc (rw e at h)
  ],
  λ (e, s). let t : has_scope q scope ≡ true = cc in rw t (cc),
)

-- With an authenticator, and in either mode, a request passes the check of a scope as a principal
-- exactly when it has a token that is admissible, a configured record binds the principal to the
-- digest of the token, and the scope is one of the principal's; a request without a token is refused
-- with the status 401. Without an authenticator, every request is the anonymous principal if the mode
-- is disabled, and an error with the status 500 if it is required.
pub check_scope_iff :
    (sha256 : Text → Text) (scope : ApiScope) (token : Text) (given tokens : List StoredApiToken)
    (required : Bool) (p : ApiPrincipal)
    → make_authenticator given ≡ ok tokens
    → ((check_scope sha256 scope (some token) (some tokens) required ≡ ok p)
        ↔ (Admissible token × Matches given (sha256 token) p × (has_scope p scope ≡ true)))
      × (check_scope sha256 scope none (some tokens) required ≡ raise (http_error 401))
      × ((credentials : Option Text)
          → (check_scope sha256 scope credentials none false ≡ ok anon_principal)
            × (check_scope sha256 scope credentials none true ≡ raise (http_error 500)))
unfolding check_scope check_credentials
check_scope_iff sha256 scope token given tokens required p made =
    let (to, from) = principal-ok scope (authenticate sha256 tokens token) p in
    let (known, knows) = authenticate_iff sha256 given tokens token p made in
    (
      (
        λ h. let (found, has) = to h in let (a, m) = known found in (a, m, has),
        λ (a, m, has). from (knows (a, m), has),
      ),
      refl,
      λ credentials. (refl, refl),
    )
