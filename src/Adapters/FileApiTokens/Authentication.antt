-- ===== src/Adapters/FileApiTokens/Authentication.antt =====
-- Which tokens are authenticated, and as whom.
use kelvin_assistant.Prelude.{
  ==_refl, subst, ap, ◌≤◌, ◌≡◌, refl, sym, ◌∙◌, ◌↔◌, ◌⊎◌, inl, inr, true, false, Bool-cases, Option,
  none, some, List, [], ◌∷◌, Text, text_eq, not, ◌||◌, ◌==◌, ltb, length, is_empty, map, distinct,
  contains, arith,
}
use kelvin_assistant.Prelude.Result.{ok, raise_if-eq-ok, token_configuration_error}
use kelvin_assistant.Domain.Auth.{ApiPrincipal, StoredApiToken}
use kelvin_assistant.Adapters.FileApiTokens.{
  max_bearer_token_length, is_ascii, make_authenticator, match_tokens, authenticate,
}

-- The token is in the list.
abbrev pub Stored : StoredApiToken → List StoredApiToken → Type 0
Stored t [] = ⊥
Stored t (u ∷ us) = (t ≡ u) ⊎ Stored t us

pub record Matches (tokens : List StoredApiToken) (digest : Text) (p : ApiPrincipal) : Type 0 where
  pub token : StoredApiToken
  pub stored : Stored token tokens
  pub digest_same : token.token_sha256 ≡ digest
  pub principal : token.principal ≡ p

match_tokens-found :
    (tokens : List StoredApiToken) (digest : Text) (acc : Option ApiPrincipal) (p : ApiPrincipal)
    → match_tokens tokens digest acc ≡ some p
    → (acc ≡ some p) ⊎ Matches tokens digest p
unfolding match_tokens
match_tokens-found [] digest acc p h = inl h
match_tokens-found (t ∷ tokens) digest acc p h = elim (Bool-cases (digest == t.token_sha256)) [
  | inl e ↦ elim (match_tokens-found tokens digest (some t.principal) p (rw e at h)) [
    | inl own ↦ inr (record {
      token = t;
      stored = inl refl;
      digest_same = sym ((text_eq.beq_iff digest t.token_sha256).0 e);
      principal = cc;
    })
    | inr m ↦ inr (later m)
  ]
  | inr e ↦ elim (match_tokens-found tokens digest acc p (rw e at h)) [
    | inl own ↦ inl own
    | inr m ↦ inr (later m)
  ]
]
  where
    later : Matches tokens digest p → Matches (t ∷ tokens) digest p
    later m = record {
      token = m.token;
      stored = inr m.stored;
      digest_same = m.digest_same;
      principal = m.principal;
    }

abbrev digests : List StoredApiToken → List Text
digests = map (λ (t : StoredApiToken). t.token_sha256)

match_tokens-absent :
    (tokens : List StoredApiToken) (digest : Text) (acc : Option ApiPrincipal)
    → contains (digests tokens) digest ≡ false
    → match_tokens tokens digest acc ≡ acc
unfolding match_tokens
match_tokens-absent [] digest acc h = refl
match_tokens-absent (t ∷ tokens) digest acc h = elim (Bool-cases (digest == t.token_sha256)) [
  | inl e ↦ cc (rw e at h)
  | inr e ↦ rw e (match_tokens-absent tokens digest acc (rw e at h))
]

match_tokens-Stored :
    (tokens : List StoredApiToken) (t : StoredApiToken) (acc : Option ApiPrincipal)
    → distinct (digests tokens) ≡ true
    → Stored t tokens
    → match_tokens tokens t.token_sha256 acc ≡ some t.principal
unfolding match_tokens
match_tokens-Stored [] t acc d h = elim h [ ]
match_tokens-Stored (u ∷ tokens) t acc d (inl same) =
    elim (Bool-cases (contains (digests tokens) u.token_sha256)) [
      | inl e ↦ cc (rw e at d)
      | inr e ↦
          rw (same, ==_refl u.token_sha256)
            (match_tokens-absent tokens u.token_sha256 (some u.principal) e)
    ]
match_tokens-Stored (u ∷ tokens) t acc d (inr later) =
    elim (Bool-cases (contains (digests tokens) u.token_sha256)) [
      | inl e ↦ cc (rw e at d)
      | inr e ↦ match_tokens-Stored tokens t _ (rw e at d) later
    ]

-- A token that is looked up at all.
pub record Admissible (token : Text) : Type 0 where
  pub full : is_empty token ≡ false
  pub short : length token ≤ max_bearer_token_length
  pub ascii : is_ascii token ≡ true

make_authenticator-same :
    (given tokens : List StoredApiToken)
    → make_authenticator given ≡ ok tokens
    → (tokens ≡ given) × (distinct (digests given) ≡ true)
unfolding make_authenticator
make_authenticator-same given tokens h =
    let (_, h₁) = raise_if-eq-ok (is_empty given) token_configuration_error _ h in
    let (_, h₂) =
      raise_if-eq-ok (not (distinct (map (λ (t : StoredApiToken). t.principal.id) given)))
        token_configuration_error _ h₁ in
    let (once, h₃) =
      raise_if-eq-ok (not (distinct (digests given))) token_configuration_error _ h₂ in
    (cc, ground arith)

-- In an authenticator that was constructed, a token is authenticated as a principal exactly when
-- it is not empty, has at most 512 characters, all of them ASCII, and some configured record binds
-- this principal to the digest of the token.
pub authenticate_iff :
    (sha256 : Text → Text) (given tokens : List StoredApiToken) (token : Text) (p : ApiPrincipal)
    → make_authenticator given ≡ ok tokens
    → (authenticate sha256 tokens token ≡ some p)
      ↔ (Admissible token × Matches given (sha256 token) p)
unfolding authenticate
authenticate_iff sha256 given tokens token p made =
    let (same, once) = make_authenticator-same given tokens made in
    (
      λ h.
          elim (Bool-cases (
            is_empty token || ltb max_bearer_token_length (length token) || not (is_ascii token))) [
              | inl e ↦ cc (rw e at h)
              | inr e ↦ elim (match_tokens-found given (sha256 token) none p (rw (e, same) at h)) [
                | inl impossible ↦ cc
                | inr m ↦
                    (record { full = ground arith; short = ground arith; ascii = ground arith }, m)
              ]
            ],
      λ (a, m).
          let passes : (is_empty token
                || ltb max_bearer_token_length (length token)
                || not (is_ascii token))
              ≡ false =
            ground (arith, a.full, a.short, a.ascii) in
          rw (passes, same)
            (subst (λ d. match_tokens given d none ≡ some p) m.digest_same
              (match_tokens-Stored given m.token none once m.stored ∙ ap some m.principal)),
    )
