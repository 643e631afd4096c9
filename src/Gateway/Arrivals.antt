-- ===== src/Gateway/Arrivals.antt =====
-- A run of arriving requests is a run of requests of listed members, less those that are refused.
use jarvis_ai_coo.Prelude.{
  Text, ◌≡◌, refl, ap, ◌∙◌, subst, Option, none, some, List, [], ◌∷◌, In, ◌⊎◌, inl, inr, arith,
  find, ◌==◌, text_eq, ◌&&◌,
}
use jarvis_ai_coo.Models.{Organization, Membership}
use jarvis_ai_coo.Errors.{Error, validation_error}
use jarvis_ai_coo.Tenant.{TenantContext}
use jarvis_ai_coo.Database.{
  Env, Session, Server, Result, ok, raised, ◌>>=◌, get_db, open_session, or_raise,
}
use jarvis_ai_coo.Dependencies.{
  Headers, AuthConfig, bearer, identity, resolve, get_tenant_context, get_organization,
  get_membership, set_tenant,
}
use jarvis_ai_coo.Dependencies.Identity.{IsMember, get_tenant_context-IsMember, identity_unchanged}
use jarvis_ai_coo.Requests.{Request, Response, handle, serve, serve_all}
use jarvis_ai_coo.Requests.History.{serve-Later}
use jarvis_ai_coo.Gateway.{Submission, validate, receive, Arrival, receive_all}

resolve_refused :
    (organization_id user_id : Text) (s t : Session) (e : Error)
    → resolve organization_id user_id s ≡ (raised e, t)
    → t ≡ s
unfolding resolve get_organization get_membership set_tenant ◌>>=◌
resolve_refused organization_id user_id s t e h =
    by_rows (find (λ o. o.id == organization_id) s.working.organizations)
      (find (λ m. m.organization_id == organization_id && m.user_id == user_id)
        s.working.memberships)
      refl refl
  where
    by_rows :
        (o : Option Organization) (m : Option Membership)
        → find (λ x. x.id == organization_id) s.working.organizations ≡ o
        → find
            (λ x. x.organization_id == organization_id && x.user_id == user_id)
            s.working.memberships
          ≡ m
        → t ≡ s
    by_rows none m eo em = ground (arith, eo)
    by_rows (some o) none eo em = ground (arith, eo, em)
    by_rows (some o) (some m) eo em = absurd (ground (arith, eo, em))

get_tenant_context_refused :
    (env : Env) (config : AuthConfig) (headers : Headers) (s t : Session) (e : Error)
    → get_tenant_context env config headers s ≡ (raised e, t)
    → t ≡ s
unfolding get_tenant_context ◌>>=◌
get_tenant_context_refused env config headers s t e h =
    by_identity (identity config headers (bearer env headers.authorization) s).0 _ refl
      (identity_unchanged config headers (bearer env headers.authorization) s)
  where
    by_identity :
        (r : Result (Text × Text)) (u : Session)
        → identity config headers (bearer env headers.authorization) s ≡ (r, u)
        → u ≡ s
        → t ≡ s
    by_identity (raised f) u is same = cc (is, h, same)
    by_identity (ok (organization_id, user_id)) u is same =
        resolve_refused organization_id user_id s t e
          (subst (λ v. resolve organization_id user_id v ≡ (raised e, t)) same (rw is at h))

-- How a request may be received: refused with nothing changed, or served as the request that its body
-- validates to, for a member that the tables list.
abbrev pub Received : Env → Submission → Server → Result Response × Server → Type 0
Received env submission server answer =
    ((e : Error) × (answer ≡ (raised e, server)))
    ⊎ ((context : TenantContext) × (request : Request) × IsMember (open_session server) context
        × (validate env submission ≡ some request)
        × (answer ≡ serve env context request server))

-- The request behind a resolved context. `set_tenant` is all that the resolution does.
module _ (env : Env) (config : AuthConfig) (headers : Headers) (submission : Submission)
    (server : Server) where
  pub receive-Received :
      Received env submission server (receive env config headers submission server)
  unfolding receive serve get_db ◌>>=◌ set_tenant or_raise open_session
  receive-Received =
      by_context (get_tenant_context env config headers (open_session server)).0 _ refl
        (validate env submission) refl
    where
      closed : Session → Server
      closed u = record { database = u.stored; draws = u.draws }

      by_context :
          (r : Result TenantContext) (t : Session)
          → get_tenant_context env config headers (open_session server) ≡ (r, t)
          → (o : Option Request) → validate env submission ≡ o
          → Received env submission server (receive env config headers submission server)
      by_context (raised e) t is o body = inl (
        e,
        rw is (
            ap (λ (u : Session). (raised e, closed u))
              (get_tenant_context_refused env config headers (open_session server) t e is)),
      )
      by_context (ok context) t is none body =
          let (_, same) =
            get_tenant_context-IsMember env config headers (open_session server) t context is in
          inl (
            validation_error,
            rw (is, body) (ap (λ (u : Session). (raised validation_error, closed u)) same),
          )
      by_context (ok context) t is (some request) body =
          let (member, same) =
            get_tenant_context-IsMember env config headers (open_session server) t context is in
          inr (
            context,
            request,
            member,
            body,
            rw (is, body)
                (ap (λ (u : Session). let (r, v) = handle env context request u in (r, closed v))
                  same),
          )

-- Of the arrivals some are turned away. The others are requests of members that the tables of the
-- server list, in the order in which they arrive, each with the payload that its body validates to.
pub data Admits (env : Env) (server : Server)
    : List Arrival → List (TenantContext × Request) → Type 0 where
  none_left : Admits env server [] []
  turned_away :
      {arrival : Arrival} {arrivals : List Arrival} {requests : List (TenantContext × Request)}
      → Admits env server arrivals requests
      → Admits env server (arrival ∷ arrivals) requests
  admitted :
      {arrival : Arrival} {arrivals : List Arrival} {requests : List (TenantContext × Request)}
      (context : TenantContext) (request : Request)
      → IsMember (open_session server) context
      → validate env arrival.submission ≡ some request
      → Admits env server arrivals requests
      → Admits env server (arrival ∷ arrivals) ((context, request) ∷ requests)

-- The same members are listed.
record SameMembers (a b : Server) : Type 0 where
  organizations : b.database.organizations ≡ a.database.organizations
  memberships : b.database.memberships ≡ a.database.memberships

IsMember-same :
    (a b : Server) (context : TenantContext)
    → SameMembers a b
    → IsMember (open_session b) context
    → IsMember (open_session a) context
unfolding open_session
IsMember-same a b context same m = record {
  organization = m.organization;
  membership = m.membership;
  known = subst (In m.organization) same.organizations m.known;
  organization_id = m.organization_id;
  listed = subst (In m.membership) same.memberships m.listed;
  member_of = m.member_of;
  member = m.member;
  role = m.role;
}

module _ (env : Env) (first : Server) where
  receive_all-from :
      (arrivals : List Arrival) (server : Server)
      → SameMembers first server
      → (requests : List (TenantContext × Request)) × Admits env first arrivals requests
        × (receive_all env arrivals server ≡ serve_all env requests server)
  unfolding receive_all serve_all
  receive_all-from [] server same = ([], none_left, refl)
  receive_all-from (arrival ∷ arrivals) server same =
      by_answer (receive env arrival.config arrival.headers arrival.submission server)
        (receive-Received env arrival.config arrival.headers arrival.submission server)
        (receive_all-from arrivals server same) (λ s k. receive_all-from arrivals s k)
    where
      by_answer :
          (answer : Result Response × Server)
          → Received env arrival.submission server answer
          → ((requests : List (TenantContext × Request)) × Admits env first arrivals requests
              × (receive_all env arrivals server ≡ serve_all env requests server))
          → ((s : Server)
              → SameMembers first s
              → (requests : List (TenantContext × Request)) × Admits env first arrivals requests
                × (receive_all env arrivals s ≡ serve_all env requests s))
          → (requests : List (TenantContext × Request)) × Admits env first
              (arrival ∷ arrivals)
              requests
            × (receive_all env arrivals answer.1 ≡ serve_all env requests server)
      by_answer answer (inl (e, is)) (requests, a, run) onward =
          (requests, turned_away a, rw is run)
      by_answer answer (inr (context, request, member, body, is)) here onward =
          let later = serve-Later env context request server in
          let (requests, a, run) = onward (serve env context request server).1 (record {
            organizations = later.organizations ∙ same.organizations;
            memberships = later.memberships ∙ same.memberships;
          }) in
          (
            (context, request) ∷ requests,
            admitted context request (IsMember-same first server context same member) body a,
            rw is run,
          )

-- Whatever arrives, the server ends as it does behind a run of requests of listed members: each
-- arrival either changes nothing, or is the request that its body validates to, served for an
-- organization and a user with the role that the membership row gives, whatever its headers claim.
pub receive_all-Admits :
    (env : Env) (arrivals : List Arrival) (server : Server)
    → (requests : List (TenantContext × Request)) × Admits env server arrivals requests
      × (receive_all env arrivals server ≡ serve_all env requests server)
receive_all-Admits env arrivals server =
    receive_all-from env server arrivals server
      (record { organizations = refl; memberships = refl })
