-- ===== src/Requests/History.antt =====
-- What no request undoes: versions, approvals and audit rows are only ever added, and the tenants'
-- own tables stay as they are.
mod Table
mod Writes
mod Handlers
pub use Table.{Grows, same, more}
pub use Writes.{Later}
use jarvis_ai_coo.Prelude.{some, List, [], ◌∷◌}
use jarvis_ai_coo.Models.{Database}
use jarvis_ai_coo.Tenant.{TenantContext}
use jarvis_ai_coo.Database.{Env, Session, Server, ◌>>=◌, get_db, open_session}
use jarvis_ai_coo.Requests.Defs.{
  Request, create_draft, update_draft, create_version, approve, activate, disable, Response, detail,
  version, approval, serve, serve_all, handle,
}
use jarvis_ai_coo.Requests.Follows.{Follows, follows_rules}
use Writes.{Adds, Adds-order, Later-refl, Later-trans}
use Handlers.{handler_laws}

module _ (env : Env) (context : TenantContext) where
  handle-Adds : (request : Request) → Follows Adds (handle env context request)
  unfolding handle
  handle-Adds (create_draft payload) = search (Adds-order, follows_rules, handler_laws)
  handle-Adds (update_draft id payload) = search (Adds-order, follows_rules, handler_laws)
  handle-Adds (create_version id payload) = search (Adds-order, follows_rules, handler_laws)
  handle-Adds (approve id version_id tool) = search (Adds-order, follows_rules, handler_laws)
  handle-Adds (activate id payload) = search (Adds-order, follows_rules, handler_laws)
  handle-Adds (disable id) = search (Adds-order, follows_rules, handler_laws)

  pub serve-Later :
      (request : Request) (server : Server)
      → Later server.database (serve env context request server).1.database
  unfolding serve ◌>>=◌
  serve-Later request server = (((handle-Adds request).at s).stored (Later-refl server.database)).1
    where
      s : Session
      s = record (open_session server) { tenant = some context }

-- After any requests, of any tenants, answered or refused, every version, tool approval and audit
-- row that was stored is still there, unchanged and in its place: the three tables have at most rows
-- added. The organizations and memberships are what they were.
pub serve_all-Later :
    (env : Env) (requests : List (TenantContext × Request)) (server : Server)
    → Later server.database (serve_all env requests server).database
unfolding serve_all
serve_all-Later env [] server = Later-refl server.database
serve_all-Later env ((context, request) ∷ rest) server =
    Later-trans (serve-Later env context request server)
      (serve_all-Later env rest (serve env context request server).1)
