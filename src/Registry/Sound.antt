-- ===== src/Registry/Sound.antt =====
-- The invariant of the stored tables, over any requests.
mod Defs
mod Keeps
mod Rows
mod Steps
pub use Defs.*
use jarvis_ai_coo.Prelude.{Text, ◌≡◌, refl, sym, subst, none, some, List, [], ◌∷◌}
use jarvis_ai_coo.Models.{Database}
use jarvis_ai_coo.Tenant.{TenantContext}
use jarvis_ai_coo.Database.{Env, Server, Result, ok, raised}
use jarvis_ai_coo.Requests.{Request, Response, serve, serve_all}
use jarvis_ai_coo.Registry.Refines.{Refines, serve-Refines}
use Steps.{Step-IsSound}

Refines-IsSound :
    (env : Env) (context : TenantContext) (request : Request) (db db' : Database)
    (r : Result Response)
    → IsSound env db
    → Refines env context request db r db'
    → IsSound env db'
Refines-IsSound env context request db db' (ok _) s step =
    Step-IsSound env context request db db' s step
Refines-IsSound env context request db db' (raised _) s same = subst (IsSound env) (sym same) s

-- From sound tables, any requests of any tenants, answered or refused, lead to sound tables. So in
-- every reachable state: the ids of skills, the ids of versions, the numbers of the versions of one
-- skill and the tools approved for one version are unique; a version belongs to a released skill of
-- its organization, has a positive number and the hash of its own columns; a draft points to no
-- version, an active skill to one of its own, a disabled one to none or one of its own; and an
-- approval is for a tool that its version requests, in the version's organization.
pub serve_all-IsSound :
    (env : Env) (requests : List (TenantContext × Request)) (server : Server)
    → IsSound env server.database
    → IsSound env (serve_all env requests server).database
unfolding serve_all
serve_all-IsSound env [] server s = s
serve_all-IsSound env ((context, request) ∷ rest) server s =
    let (r, next) = serve env context request server in
    serve_all-IsSound env rest next (
      Refines-IsSound env context request server.database next.database r s
        (serve-Refines env context request server))
