-- ===== src/Dependencies/Context.antt =====
-- `get_tenant_context`: who is calling, and in which role.
use jarvis_ai_coo.Prelude.{
  ℕ, Text, codes, ◌&&◌, ◌||◌, ◌==◌, text_eq, nat_eq, Option, none, some, [], ◌∷◌, find,
  if◌then◌else◌,
}
use jarvis_ai_coo.Models.{Organization, Membership}
use jarvis_ai_coo.Tenant.{TenantContext}
use jarvis_ai_coo.Errors.{missing_identity, unknown_organization, encode_error}
use jarvis_ai_coo.Strings.{strip, is_empty, starts_with}
use jarvis_ai_coo.Tokens.{
  TokenLibrary, TokenClaims, unicode_error, Verdict, valid, failed, verify_token,
}
use jarvis_ai_coo.Database.{Env, ok, Action, pure, raise, raise_if, or_raise, gets, ◌>>=◌, ◌>>◌}

-- The headers that the dependency reads.
pub record Headers : Type 0 where
  pub x_organization_id : Option Text
  pub x_user_id : Option Text
  pub x_user_role : Option Text
  pub authorization : Option Text

-- `get_settings().auth_signing_key`, the clock in seconds, and the libraries of app/tokens.py
pub record AuthConfig : Type 0 where
  pub library : TokenLibrary
  pub auth_signing_key : Text
  pub now : ℕ

-- `value or ""`
abbrev pub or_empty : Option Text → Text
or_empty none = []
or_empty (some t) = t

-- `authorization.split(" ", 1)[1]`
after_space : Text → Text
after_space [] = []
after_space (c ∷ s) = let rest = after_space s in if c == 32 then s else rest

-- The bearer token of the request, if it presents one.
unfoldable pub bearer : Env → Option Text → Option Text
unfolding starts_with after_space
bearer env none = none
bearer env (some authorization) =
    if starts_with (codes "bearer ") (env.lower authorization)
    then some (strip (after_space authorization))
    else none

-- The answer to a token that does not verify: `except TokenError` catches all but the encoding error.
unfoldable pub token_identity : Verdict TokenClaims → Action (Text × Text)
token_identity (valid claims) = pure (claims.organization_id, claims.user_id)
token_identity (failed unicode_error) = raise encode_error
token_identity (failed _) = raise unknown_organization

unfoldable pub header_identity : Headers → Action (Text × Text)
header_identity headers =
    let organization_id = strip (or_empty headers.x_organization_id) in
    let user_id = strip (or_empty headers.x_user_id) in
    raise_if (is_empty organization_id || is_empty user_id) missing_identity
    >> pure (organization_id, user_id)

unfoldable pub identity : AuthConfig → Headers → Option Text → Action (Text × Text)
unfolding token_identity header_identity verify_token
identity config headers (some token) =
    token_identity (verify_token config.library token config.auth_signing_key config.now)
identity config headers none = header_identity headers

-- `tenant_context_var.set(context)`
unfoldable pub set_tenant : TenantContext → Action Unit
set_tenant context s = (ok tt, record s { tenant = some context })

-- `db.get(Organization, id)` and `db.get(Membership, (organization_id, user_id))`
unfoldable pub get_organization : Text → Action (Option Organization)
get_organization id = gets (λ s. find (λ o. o.id == id) s.working.organizations)

unfoldable pub get_membership : Text → Text → Action (Option Membership)
get_membership organization_id user_id = gets (λ s.
    find (λ m. m.organization_id == organization_id && m.user_id == user_id) s.working.memberships)

-- what follows the identity
unfoldable pub resolve : Text → Text → Action TenantContext
resolve organization_id user_id = do
  organization ← get_organization organization_id
  or_raise organization unknown_organization
  row ← get_membership organization_id user_id
  membership ← or_raise row unknown_organization
  let context : TenantContext = record {
    organization_id = organization_id;
    user_id = user_id;
    role = membership.role;
  }
  set_tenant context
  pure context

unfoldable pub get_tenant_context : Env → AuthConfig → Headers → Action TenantContext
unfolding identity bearer resolve
get_tenant_context env config headers = do
  caller ← identity config headers (bearer env headers.authorization)
  resolve caller.0 caller.1
