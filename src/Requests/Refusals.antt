-- ===== src/Requests/Refusals.antt =====
-- The owner-only routes, as others meet them.
use jarvis_ai_coo.Prelude.{◌≡◌, Bool, true, false, arith}
use jarvis_ai_coo.Tenant.{TenantContext, is_owner}
use jarvis_ai_coo.Errors.{owner_only}
use jarvis_ai_coo.Dependencies.{require_owner}
use jarvis_ai_coo.Database.{Env, Server, raised, ◌>>=◌}
use jarvis_ai_coo.Skills.{activate_skill, disable_skill, approve_tool}
use jarvis_ai_coo.Requests.Defs.{
  Request, create_draft, update_draft, create_version, approve, activate, disable, handle, serve,
}

-- The requests of the owner-only routes.
unfoldable pub needs_owner : Request → Bool
needs_owner (approve _ _ _) = true
needs_owner (activate _ _) = true
needs_owner (disable _) = true
needs_owner _ = false

-- A request for an owner-only route by anyone but the owner is refused as an owner-only action, and
-- leaves the server as it was.
pub owner_required :
    (env : Env) (context : TenantContext) (request : Request) (server : Server)
    → needs_owner request ≡ true
    → is_owner context ≡ false
    → serve env context request server ≡ (raised owner_only, server)
unfolding needs_owner serve handle activate_skill disable_skill approve_tool require_owner ◌>>=◌
owner_required env context (approve i v t) server n h = ground arith
owner_required env context (activate i p) server n h = ground arith
owner_required env context (disable i) server n h = ground arith
owner_required env context (create_draft p) server n h = ground arith
owner_required env context (update_draft i p) server n h = ground arith
owner_required env context (create_version i p) server n h = ground arith
