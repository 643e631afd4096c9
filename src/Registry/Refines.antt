-- ===== src/Registry/Refines.antt =====
-- The refinement: a request that is answered makes a step of the registry, and one that is refused
-- leaves the stored tables as they were.
mod Shared
mod Drafts
mod Owner
mod Versions
mod Activation
use jarvis_ai_coo.Prelude.{◌≡◌, refl, sym, some}
use jarvis_ai_coo.Models.{Database}
use jarvis_ai_coo.Tenant.{TenantContext}
use jarvis_ai_coo.Database.{Env, Session, Server, Result, ok, raised, ◌>>=◌, get_db, open_session}
use jarvis_ai_coo.Requests.{
  Request, create_draft, update_draft, create_version, approve, activate, disable, Response, handle,
  serve,
}
use jarvis_ai_coo.Registry.Step.{Step}
use jarvis_ai_coo.Registry.Ends.{Ends, EndsAt, Ends-map, bind-Ends, pure-Ends, Open, Same}
use Shared.{Steps}
use Drafts.{create_skill_draft-Steps, update_skill_draft-Steps}
use Versions.{create_skill_version-Steps, approve_tool-Steps}
use Activation.{activate_skill-Steps, disable_skill-Steps}

module _ (env : Env) (context : TenantContext) (db : Database) (s : Session)
    (h : Open context db db s) where
  handle-Steps : (request : Request) → Steps env context request db (handle env context request) s
  unfolding handle
  handle-Steps (create_draft payload) =
      bind-Ends _ _ (create_skill_draft-Steps env context db s h payload)
        λ out t step. pure-Ends _ step
  handle-Steps (update_draft id payload) =
      bind-Ends _ _ (update_skill_draft-Steps env context db s h id payload)
        λ out t step. pure-Ends _ step
  handle-Steps (create_version id payload) =
      bind-Ends _ _ (create_skill_version-Steps env context db s h id payload)
        λ out t step. pure-Ends _ step
  handle-Steps (approve id version_id tool) =
      bind-Ends _ _ (approve_tool-Steps env context db s h id version_id tool)
        λ out t step. pure-Ends _ step
  handle-Steps (activate id payload) =
      bind-Ends _ _ (activate_skill-Steps env context db s h id payload)
        λ out t step. pure-Ends _ step
  handle-Steps (disable id) =
      bind-Ends _ _ (disable_skill-Steps env context db s h id) λ out t step. pure-Ends _ step

-- How a request may end: answered, with a step, or refused, with none.
abbrev pub Refines : Env → TenantContext → Request → Database → Result Response → Database → Type 0
Refines env context request db (ok _) db' = Step env context request db db'
Refines env context request db (raised _) db' = db' ≡ db

-- Every request of the six mutating routes, on every branch, refines the registry's specification:
-- where it is answered the stored tables make one step of `Step` that this request of this
-- tenant may make, its audit rows included, and where it is refused or fails the stored tables are what
-- they were. A replay is a step only where the tables hold the effect of the request already, and a
-- draft's row stays as it is only where the edit changes none of its columns.
pub serve-Refines :
    (env : Env) (context : TenantContext) (request : Request) (server : Server)
    → let (r, server') = serve env context request server in
      Refines env context request server.database r server'.database
unfolding serve ◌>>=◌
serve-Refines env context request server =
    ended (handle env context request s).0 (handle env context request s).1
      (handle-Steps env context server.database s begun request).at
  where
    s : Session
    s = record (open_session server) { tenant = some context }

    begun : Open context server.database server.database s
    begun = record { tenant = refl; stored = refl; working = refl }

    ended :
        (r : Result Response) (t : Session)
        → EndsAt
            (λ _ u. Step env context request server.database u.stored)
            (Same server.database)
            r
            t
        → Refines env context request server.database r t.stored
    ended (ok a) t step = step
    ended (raised e) t same = same
