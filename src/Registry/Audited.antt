-- ===== src/Registry/Audited.antt =====
-- The audit rows of a step.
use jarvis_ai_coo.Prelude.{◌≡◌, refl, List, [], ◌∷◌, ◌++◌, All, ◌⊎◌, inl, inr}
use jarvis_ai_coo.Models.{Database, AuditLog}
use jarvis_ai_coo.Tenant.{TenantContext}
use jarvis_ai_coo.Database.{Env, Server, Result, ok, raised}
use jarvis_ai_coo.Audit.{entry_of}
use jarvis_ai_coo.Requests.{Request, Response, serve}
use jarvis_ai_coo.Registry.Step.{Step}
use jarvis_ai_coo.Registry.Refines.{Refines, serve-Refines}

-- An audit row names its actor: the tenant, the user and the role of the context.
abbrev pub NamesActor : TenantContext → AuditLog → Type 0
NamesActor context row =
    (row.organization_id ≡ context.organization_id)
    × ((row.actor_id ≡ context.user_id) × (row.actor_role ≡ context.role))

-- The audit log has new rows, at least one, and all of them name the actor.
pub record Accounted (context : TenantContext) (db db' : Database) : Type 0 where
  pub first : AuditLog
  pub rest : List AuditLog
  pub log : db'.audit_logs ≡ first ∷ rest ++ db.audit_logs
  pub actor : All (NamesActor context) (first ∷ rest)

one_row :
    (context : TenantContext) (db db' : Database) (row : AuditLog)
    → db'.audit_logs ≡ row ∷ db.audit_logs
    → NamesActor context row
    → Accounted context db db'
one_row context db db' row log actor = record {
  first = row;
  rest = [];
  log = log;
  actor = (actor, tt);
}

Step-Accounted :
    {env : Env} {context : TenantContext} {request : Request} {db db' : Database}
    → Step env context request db db'
    → (db' ≡ db) ⊎ Accounted context db db'
unfolding entry_of
Step-Accounted {context = context} {db = db}
      (Step.drafted payload id log_id created updated now detail free asked) =
    inr (one_row context db _ _ refl (refl, (refl, refl)))
Step-Accounted {context = context} {db = db}
      (Step.edited payload old log_id updated now detail found is_draft given differ asked) =
    inr (one_row context db _ _ refl (refl, (refl, refl)))
Step-Accounted {context = context} {db = db}
      (Step.edited_alike payload old log_id now detail found is_draft given alike asked) =
    inr (one_row context db _ _ refl (refl, (refl, refl)))
Step-Accounted (Step.nothing_given payload old found is_draft none_given asked) = inl refl
Step-Accounted {context = context} {db = db}
      (Step.versioned payload skill number id log_id created now detail v found is_active n is free
        asked) =
    inr (one_row context db _ _ refl (refl, (refl, refl)))
Step-Accounted {context = context} {db = db}
      (Step.replayed event log_id now skill_id version_id hash detail again owner) =
    inr (one_row context db _ _ refl (refl, (refl, refl)))
Step-Accounted {context = context} {db = db}
      (Step.approved version tool id log_id created now detail owner found requested new asked) =
    inr (one_row context db _ _ refl (refl, (refl, refl)))
Step-Accounted {context = context} {db = db}
      (Step.first_activated skill id log_id log_id' created updated now now' detail detail' v owner
        found is_draft is free asked) =
    inr (record {
      first = _;
      rest = _ ∷ [];
      log = refl;
      actor = ((refl, (refl, refl)), ((refl, (refl, refl)), tt));
    })
Step-Accounted {context = context} {db = db}
      (Step.activated skill version log_id updated now detail owner found not_disabled there of
        differ asked) =
    inr (one_row context db _ _ refl (refl, (refl, refl)))
Step-Accounted {context = context} {db = db}
      (Step.retired skill log_id updated now detail owner found not_disabled asked) =
    inr (one_row context db _ _ refl (refl, (refl, refl)))

-- A request of one of the six writing routes either leaves every stored table as it was or stores
-- with its change at least one new audit row, and every new audit row names the organization, the
-- user and the role of the caller.
pub serve-Accounted :
    (env : Env) (context : TenantContext) (request : Request) (server : Server)
    → let server' = (serve env context request server).1 in
      (server'.database ≡ server.database) ⊎ Accounted context server.database server'.database
serve-Accounted env context request server =
    by_answer (serve env context request server).0 _ (serve-Refines env context request server)
  where
    by_answer :
        (r : Result Response) (db' : Database)
        → Refines env context request server.database r db'
        → (db' ≡ server.database) ⊎ Accounted context server.database db'
    by_answer (ok response) db' step = Step-Accounted step
    by_answer (raised error) db' same = inl same
