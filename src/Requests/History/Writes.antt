-- ===== src/Requests/History/Writes.antt =====
-- The relation between a session before and after an action that only adds to the tables of record,
-- and that the writes of app/database.py and app/audit.py follow it.
use jarvis_ai_coo.Prelude.{Text, ◌≡◌, refl, ◌∙◌, Option, List, ◌∷◌}
use jarvis_ai_coo.Models.{Database, SkillVersion, ToolApproval, AuditLog, Event, Value, Skill}
use jarvis_ai_coo.Tenant.{TenantContext}
use jarvis_ai_coo.Database.{
  Env, Session, modify, commit, new_uuid, utcnow, insert_skill, insert_version, insert_approval,
  insert_audit_log, flush_skill,
}
use jarvis_ai_coo.Audit.{record_audit}
use jarvis_ai_coo.Requests.Follows.{IsOrder, Follows, follows_rules}
use jarvis_ai_coo.Requests.History.Table.{Grows, same, more, Grows-trans}

-- `b` is `a` with rows added to the tables that are append-only, the tenants' tables unchanged.
pub record Later (a b : Database) : Type 0 where
  pub organizations : b.organizations ≡ a.organizations
  pub memberships : b.memberships ≡ a.memberships
  pub skill_versions : Grows a.skill_versions b.skill_versions
  pub tool_approvals : Grows a.tool_approvals b.tool_approvals
  pub audit_logs : Grows a.audit_logs b.audit_logs

pub Later-refl : (a : Database) → Later a a
Later-refl a = record {
  organizations = refl;
  memberships = refl;
  skill_versions = same;
  tool_approvals = same;
  audit_logs = same;
}

pub Later-trans : {a b c : Database} → Later a b → Later b c → Later a c
Later-trans p q = record {
  organizations = q.organizations ∙ p.organizations;
  memberships = q.memberships ∙ p.memberships;
  skill_versions = Grows-trans p.skill_versions q.skill_versions;
  tool_approvals = Grows-trans p.tool_approvals q.tool_approvals;
  audit_logs = Grows-trans p.audit_logs q.audit_logs;
}

-- What a request does to the tables that it works on, and to those that are stored.
pub record Adds (s t : Session) : Type 0 where
  pub working : Later s.working t.working
  pub stored : Later s.stored s.working → Later t.stored t.working × Later s.stored t.stored

pub Adds-order : IsOrder Adds
Adds-order = record {
  rel_refl = λ s. record { working = Later-refl s.working; stored = λ h. (h, Later-refl s.stored) };
  rel_trans = λ s t u p q. record {
    working = Later-trans p.working q.working;
    stored =
        λ h. let (ht, st) = p.stored h in let (hu, tu) = q.stored ht in (hu, Later-trans st tu);
  };
}

pub modify-Adds :
    (f : Database → Database) → ((db : Database) → Later db (f db)) → Follows Adds (modify f)
unfolding modify
modify-Adds f grows = record {
  at = λ s. record {
    working = grows s.working;
    stored = λ h. (Later-trans h (grows s.working), Later-refl s.stored);
  };
}

pub commit-Adds : Follows Adds commit
unfolding commit
commit-Adds = record {
  at = λ s. record { working = Later-refl s.working; stored = λ h. (Later-refl s.working, h) };
}

pub new_uuid-Adds : (env : Env) → Follows Adds (new_uuid env)
unfolding new_uuid
new_uuid-Adds env = record {
  at = λ s. record { working = Later-refl s.working; stored = λ h. (h, Later-refl s.stored) };
}

pub utcnow-Adds : (env : Env) → Follows Adds (utcnow env)
unfolding utcnow
utcnow-Adds env = record {
  at = λ s. record { working = Later-refl s.working; stored = λ h. (h, Later-refl s.stored) };
}

pub ruleset adds_basics =
    (Adds-order, follows_rules, commit-Adds, new_uuid-Adds, utcnow-Adds, modify-Adds)

-- A write to the skills alone.
keeps_history : (db : Database) (skills : List Skill) → Later db (record db { skills = skills })
keeps_history db skills = record {
  organizations = refl;
  memberships = refl;
  skill_versions = same;
  tool_approvals = same;
  audit_logs = same;
}

pub insert_skill-Adds : (row : Skill) → Follows Adds (insert_skill row)
unfolding insert_skill
insert_skill-Adds row = search (adds_basics, keeps_history)

pub flush_skill-Adds : (env : Env) (old new : Skill) → Follows Adds (flush_skill env old new)
unfolding flush_skill
flush_skill-Adds env old new = search (adds_basics, keeps_history)

add_version :
    (row : SkillVersion) (db : Database)
    → Later db (record db { skill_versions = row ∷ db.skill_versions })
add_version row db = record {
  organizations = refl;
  memberships = refl;
  skill_versions = more row same;
  tool_approvals = same;
  audit_logs = same;
}

pub insert_version-Adds : (row : SkillVersion) → Follows Adds (insert_version row)
unfolding insert_version
insert_version-Adds row = search (adds_basics, add_version)

add_approval :
    (row : ToolApproval) (db : Database)
    → Later db (record db { tool_approvals = row ∷ db.tool_approvals })
add_approval row db = record {
  organizations = refl;
  memberships = refl;
  skill_versions = same;
  tool_approvals = more row same;
  audit_logs = same;
}

pub insert_approval-Adds : (row : ToolApproval) → Follows Adds (insert_approval row)
unfolding insert_approval
insert_approval-Adds row = search (adds_basics, add_approval)

add_audit_log :
    (row : AuditLog) (db : Database) → Later db (record db { audit_logs = row ∷ db.audit_logs })
add_audit_log row db = record {
  organizations = refl;
  memberships = refl;
  skill_versions = same;
  tool_approvals = same;
  audit_logs = more row same;
}

pub record_audit-Adds :
    (env : Env) (context : TenantContext) (event : Event) (skill_id version_id hash : Option Text)
    (detail : List (Text × Value))
    → Follows Adds (record_audit env context event skill_id version_id hash detail)
unfolding record_audit insert_audit_log
record_audit-Adds env context event skill_id version_id hash detail =
    search (adds_basics, add_audit_log) depth 9

pub ruleset adds_rules = (
  adds_basics, insert_skill-Adds, flush_skill-Adds, insert_version-Adds, insert_approval-Adds,
  record_audit-Adds,
)
