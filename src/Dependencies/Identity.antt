-- ===== src/Dependencies/Identity.antt =====
-- Who a request acts as.
use jarvis_ai_coo.Prelude.{
  Text, ◌≡◌, refl, sym, ap, ◌∙◌, subst, true, ◌&&◌, ◌==◌, text_eq, Option, none, some, find, In,
  find-In, arith,
}
use jarvis_ai_coo.Models.{Organization, Membership}
use jarvis_ai_coo.Tenant.{TenantContext}
use jarvis_ai_coo.Errors.{Error, unknown_organization, encode_error}
use jarvis_ai_coo.Tokens.{
  TokenClaims, TokenFailure, unicode_error, Verdict, valid, failed, verify_token,
}
use jarvis_ai_coo.Database.{Env, Session, Result, ok, raised, ◌>>=◌}
use jarvis_ai_coo.Dependencies.Context.{
  Headers, AuthConfig, bearer, token_identity, header_identity, identity, set_tenant,
  get_organization, get_membership, resolve, get_tenant_context,
}

-- A context that the database vouches for.
pub record IsMember (s : Session) (context : TenantContext) : Type 0 where
  pub organization : Organization
  pub membership : Membership
  pub known : In organization s.working.organizations
  pub organization_id : organization.id ≡ context.organization_id
  pub listed : In membership s.working.memberships
  pub member_of : membership.organization_id ≡ context.organization_id
  pub member : membership.user_id ≡ context.user_id
  pub role : membership.role ≡ context.role

both : {a b : Text} {c d : Text} → (a == b && c == d) ≡ true → (a ≡ b) × (c ≡ d)
both h = ground arith

same_text : {a b : Text} → (a == b) ≡ true → a ≡ b
same_text h = ground arith

resolved :
    (organization_id user_id : Text) (s t : Session) (context : TenantContext)
    → resolve organization_id user_id s ≡ (ok context, t)
    → IsMember s context × (t ≡ record s { tenant = some context })
unfolding resolve get_organization get_membership set_tenant ◌>>=◌
resolved organization_id user_id s t context h =
    by_rows (find (λ o. o.id == organization_id) s.working.organizations)
      (find (λ m. m.organization_id == organization_id && m.user_id == user_id)
        s.working.memberships)
      refl refl
  where
    by_rows :
        (o : Option Organization) (m : Option Membership)
        → find (λ x. x.id == organization_id) s.working.organizations ≡ o
        → find
            (λ x. x.organization_id == organization_id && x.user_id == user_id)
            s.working.memberships
          ≡ m
        → IsMember s context × (t ≡ record s { tenant = some context })
    by_rows none m eo em = absurd (ground (arith, eo))
    by_rows (some o) none eo em = absurd (ground (arith, eo, em))
    by_rows (some o) (some m) eo em =
        let is : context
            ≡ record { organization_id = organization_id; user_id = user_id; role = m.role } =
          ground (arith, eo, em) in
        let (known, same_org) =
          find-In (λ x. x.id == organization_id) o s.working.organizations eo in
        let (listed, same_member) =
          find-In (λ x. x.organization_id == organization_id && x.user_id == user_id) m
            s.working.memberships em in
        let (org, user) = both same_member in
        (
          record {
            organization = o;
            membership = m;
            known = known;
            organization_id =
                same_text same_org ∙ sym (ap (λ (c : TenantContext). c.organization_id) is);
            listed = listed;
            member_of = org ∙ sym (ap (λ (c : TenantContext). c.organization_id) is);
            member = user ∙ sym (ap (λ (c : TenantContext). c.user_id) is);
            role = sym (ap (λ (c : TenantContext). c.role) is);
          },
          ground (arith, eo, em),
        )

token_unchanged : (v : Verdict TokenClaims) (s : Session) → (token_identity v s).1 ≡ s
unfolding token_identity ◌>>=◌
token_unchanged (valid c) s = refl
token_unchanged (failed unicode_error) s = refl
token_unchanged (failed f) s = refl

pub identity_unchanged :
    (config : AuthConfig) (headers : Headers) (token : Option Text) (s : Session)
    → (identity config headers token s).1 ≡ s
unfolding identity header_identity ◌>>=◌
identity_unchanged config headers (some token) s = token_unchanged _ s
identity_unchanged config headers none s = ground arith

-- Whoever a request acts as, by headers or by a token, is a member that the database lists: the
-- organization exists, and the role of the context is the role of the membership row of that user in
-- it, whatever role the request claims. Nothing of the session changes but its tenant.
pub get_tenant_context-IsMember :
    (env : Env) (config : AuthConfig) (headers : Headers) (s t : Session) (context : TenantContext)
    → get_tenant_context env config headers s ≡ (ok context, t)
    → IsMember s context × (t ≡ record s { tenant = some context })
unfolding get_tenant_context ◌>>=◌
get_tenant_context-IsMember env config headers s t context h =
    by_identity (identity config headers (bearer env headers.authorization) s).0 _ refl
      (identity_unchanged config headers (bearer env headers.authorization) s)
  where
    by_identity :
        (r : Result (Text × Text)) (u : Session)
        → identity config headers (bearer env headers.authorization) s ≡ (r, u)
        → u ≡ s
        → IsMember s context × (t ≡ record s { tenant = some context })
    by_identity (raised e) u is same = absurd (cc (is, h))
    by_identity (ok (organization_id, user_id)) u is same =
        resolved organization_id user_id s t context
          (subst (λ v. resolve organization_id user_id v ≡ (ok context, t)) same (rw is at h))

-- What a request is answered whose bearer token fails.
abbrev pub failure_of : TokenFailure → Error
failure_of unicode_error = encode_error
failure_of _ = unknown_organization

token_refused :
    (f : TokenFailure) (s : Session) → token_identity (failed f) s ≡ (raised (failure_of f), s)
unfolding token_identity ◌>>=◌
token_refused unicode_error s = refl
token_refused _ s = refl

-- A request with a bearer token that does not verify is refused, whatever its identity headers say,
-- and leaves the session as it was. The answer is one for every `TokenError`; only the encoding error
-- has another.
pub get_tenant_context-failed :
    (env : Env) (config : AuthConfig) (headers : Headers) (s : Session) (token : Text)
    (f : TokenFailure)
    → bearer env headers.authorization ≡ some token
    → verify_token config.library token config.auth_signing_key config.now ≡ failed f
    → get_tenant_context env config headers s ≡ (raised (failure_of f), s)
unfolding get_tenant_context identity ◌>>=◌
get_tenant_context-failed env config headers s token f presented refused =
    rw (presented, identity) (rw refused (ground (arith, token_refused f s)))
