-- ===== src/Dependencies/Failures.antt =====
-- When the resolution of the caller fails inside the server.
use jarvis_ai_coo.Prelude.{
  Text, ◌≡◌, ◌↔◌, ◌⊎◌, inl, inr, refl, sym, subst, ◌&&◌, ◌||◌, ◌==◌, text_eq, Option, none, some,
  find, arith, Bool-cases,
}
use jarvis_ai_coo.Models.{Organization, Membership}
use jarvis_ai_coo.Errors.{Error, missing_identity, unknown_organization, encode_error, status_code}
use jarvis_ai_coo.Strings.{is_empty, strip}
use jarvis_ai_coo.Tokens.{TokenClaims, unicode_error, Verdict, valid, failed, verify_token}
use jarvis_ai_coo.Tokens.Laws.{IsUnencodable, verify_token-IsUnencodable, verify_token-unicode}
use jarvis_ai_coo.Database.{Env, Session, Result, ok, raised, pure, raise, raise_if, ◌>>=◌}
use jarvis_ai_coo.Dependencies.Context.{
  Headers, AuthConfig, bearer, or_empty, token_identity, header_identity, identity, set_tenant,
  get_organization, get_membership, resolve, get_tenant_context,
}
use jarvis_ai_coo.Dependencies.Identity.{get_tenant_context-failed}

resolve_fails :
    (organization_id user_id : Text) (s t : Session) (e : Error)
    → resolve organization_id user_id s ≡ (raised e, t)
    → e ≡ unknown_organization
unfolding resolve get_organization get_membership set_tenant ◌>>=◌
resolve_fails organization_id user_id s t e h =
    by_rows (find (λ o. o.id == organization_id) s.working.organizations)
      (find (λ m. m.organization_id == organization_id && m.user_id == user_id)
        s.working.memberships)
      refl refl
  where
    by_rows :
        (o : Option Organization) (m : Option Membership)
        → find (λ x. x.id == organization_id) s.working.organizations ≡ o
        → find
            (λ x. x.organization_id == organization_id && x.user_id == user_id)
            s.working.memberships
          ≡ m
        → e ≡ unknown_organization
    by_rows none m eo em = ground (arith, eo)
    by_rows (some o) none eo em = ground (arith, eo, em)
    by_rows (some o) (some m) eo em = absurd (ground (arith, eo, em))

same_error :
    {A : Type 0} {a b : Error} {s t : Session}
    → ◌≡◌ {A = Result A × Session} (raised a, s) (raised b, t)
    → a ≡ b
same_error h = ground arith

-- The errors that name a caller who is not let in.
abbrev Refused : Error → Type 0
Refused e = (e ≡ missing_identity) ⊎ (e ≡ unknown_organization)

header_fails :
    (headers : Headers) (s t : Session) (e : Error)
    → header_identity headers s ≡ (raised e, t)
    → Refused e
unfolding header_identity ◌>>=◌ raise_if raise pure
header_fails headers s t e h =
    elim (Bool-cases (
      is_empty (strip (or_empty headers.x_organization_id))
      || is_empty (strip (or_empty headers.x_user_id)))) [
        | inl missing ↦ inl (ground arith)
        | inr given ↦ absurd (ground arith)
      ]

token_fails :
    (v : Verdict TokenClaims) (s t : Session) (e : Error)
    → token_identity v s ≡ (raised e, t)
    → Refused e ⊎ (v ≡ failed unicode_error)
unfolding token_identity ◌>>=◌ raise pure
token_fails (valid c) s t e h = absurd (ground arith)
token_fails (failed unicode_error) s t e h = inr refl
token_fails (failed _) s t e h = inl (inr (ground arith))

Refused-status_code : (e : Error) → status_code e ≡ 500 → Refused e → ⊥
unfolding status_code
Refused-status_code e h (inl is) = ground arith
Refused-status_code e h (inr is) = ground arith

-- The request bears a token that `verify_token` cannot encode.
abbrev pub BearsUnencodable : Env → AuthConfig → Headers → Type 0
BearsUnencodable env config headers =
    (token : Text) × (bearer env headers.authorization ≡ some token)
    × IsUnencodable token config.auth_signing_key

identity_fails :
    (config : AuthConfig) (headers : Headers) (token : Option Text) (s t : Session) (e : Error)
    → identity config headers token s ≡ (raised e, t)
    → status_code e ≡ 500
    → (given : Text) × (token ≡ some given) × IsUnencodable given config.auth_signing_key
unfolding identity
identity_fails config headers none s t e h server_error =
    absurd (Refused-status_code e server_error (header_fails headers s t e h))
identity_fails config headers (some token) s t e h server_error =
    elim (token_fails (verify_token config.library token config.auth_signing_key config.now) s t e
      h) [
        | inl refused ↦ absurd (Refused-status_code e server_error refused)
        | inr unicode ↦ (
          token,
          refl,
          verify_token-IsUnencodable config.library token config.auth_signing_key config.now
              unicode,
        )
      ]

fails_inside :
    (env : Env) (config : AuthConfig) (headers : Headers) (s t : Session) (e : Error)
    → get_tenant_context env config headers s ≡ (raised e, t)
    → status_code e ≡ 500
    → BearsUnencodable env config headers
unfolding get_tenant_context ◌>>=◌
fails_inside env config headers s t e h server_error =
    by_identity (identity config headers (bearer env headers.authorization) s).0 _ refl
  where
    by_identity :
        (r : Result (Text × Text)) (u : Session)
        → identity config headers (bearer env headers.authorization) s ≡ (r, u)
        → BearsUnencodable env config headers
    by_identity (raised f) u is =
        identity_fails config headers (bearer env headers.authorization) s u f is
          (subst (λ g. status_code g ≡ 500) (sym (same_error (rw is at h))) server_error)
    by_identity (ok (organization_id, user_id)) u is = absurd (
        Refused-status_code e server_error
          (inr (resolve_fails organization_id user_id u t e (rw is at h))))

-- The resolution of the caller ends with an error of status 500 in exactly one case: the request
-- presents a bearer token, a signing key is configured, and the token is split at its first dot into a
-- payload part that is not ASCII and another. Any other failure has
-- another status.
pub get_tenant_context-unicode :
    (env : Env) (config : AuthConfig) (headers : Headers) (s : Session)
    → ((e : Error) × (t : Session) × (get_tenant_context env config headers s ≡ (raised e, t))
        × (status_code e ≡ 500))
      ↔ BearsUnencodable env config headers
unfolding status_code
get_tenant_context-unicode env config headers s = (
  λ (e, t, h, server_error). fails_inside env config headers s t e h server_error,
  λ (token, presented, bad). (
    encode_error,
    s,
    get_tenant_context-failed env config headers s token unicode_error presented (
        verify_token-unicode config.library token config.auth_signing_key config.now bad.payload
          bad.signature bad.key_given bad.parts bad.wide),
    refl,
  ),
)
