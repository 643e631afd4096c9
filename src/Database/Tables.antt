-- ===== src/Database/Tables.antt =====
-- Reads, filtered by tenant, and writes, under the uniqueness constraints of app/models.py.
use jarvis_ai_coo.Prelude.{
  Text, List, ◌∷◌, Option, none, some, Bool, true, false, ◌&&◌, ◌||◌, ◌==◌, nat_eq, text_eq,
  texts_eq, option_eq, find, where_, update, order_by, if◌then◌else◌,
}
use jarvis_ai_coo.Models.{Skill, SkillVersion, ToolApproval, AuditLog}
use jarvis_ai_coo.Tenant.{TenantContext}
use jarvis_ai_coo.Lifecycle.{status_eq}
use jarvis_ai_coo.Errors.{integrity_error, stale_row}
use jarvis_ai_coo.Database.Monad.{
  Env, Session, Action, pure, raise_if, or_raise, gets, modify, ◌>>=◌, ◌>>◌, utcnow,
}

-- `_apply_tenant_isolation`: the criteria that every SELECT gets while a tenant is set.
unfoldable pub owned_by : Option TenantContext → Text → Bool
owned_by none organization_id = true
owned_by (some tenant) organization_id = organization_id == tenant.organization_id

unfoldable pub exists : {A : Type 0} → (A → Bool) → List A → Bool
exists p xs = elim (find p xs) [ none ↦ false | some _ ↦ true ]

-- `SkillVersion.skill.has(Skill.organization_id == …)`
unfoldable pub sees_version : Option TenantContext → List Skill → SkillVersion → Bool
unfolding exists
sees_version none skills v = true
sees_version (some tenant) skills v =
    exists (λ s. s.id == v.skill_id && s.organization_id == tenant.organization_id) skills

-- `select(Skill)`
unfoldable pub select_skills : Session → List Skill
select_skills s = where_ (λ k. owned_by s.tenant k.organization_id) s.working.skills

unfoldable pub select_versions : Session → List SkillVersion
select_versions s = where_ (sees_version s.tenant s.working.skills) s.working.skill_versions

unfoldable pub select_approvals : Session → List ToolApproval
select_approvals s = where_ (λ a. owned_by s.tenant a.organization_id) s.working.tool_approvals

unfoldable pub select_audit_logs : Session → List AuditLog
select_audit_logs s = where_ (λ a. owned_by s.tenant a.organization_id) s.working.audit_logs

-- `db.get(Skill, id)` and `db.get(SkillVersion, id)`
unfoldable pub get_skill_row : Text → Action (Option Skill)
get_skill_row id = gets (λ s. find (λ k. k.id == id) (select_skills s))

unfoldable pub get_version_row : Text → Action (Option SkillVersion)
get_version_row id = gets (λ s. find (λ v. v.id == id) (select_versions s))

-- `Skill.versions`: the versions of a skill by number
unfoldable pub versions_of : Text → Action (List SkillVersion)
versions_of skill_id = gets (λ s.
    order_by (λ v. v.version_number) (where_ (λ v. v.skill_id == skill_id) (select_versions s)))

-- `await db.refresh(skill)`, which fails if the row is gone or hidden
unfoldable pub refresh_skill : Text → Action Skill
refresh_skill id = do row ← get_skill_row id; or_raise row stale_row

unfoldable pub refresh_version : Text → Action SkillVersion
refresh_version id = do row ← get_version_row id; or_raise row stale_row

unfoldable pub refresh_approval : Text → Action ToolApproval
refresh_approval id = do
  row ← gets (λ s. find (λ a. a.id == id) (select_approvals s))
  or_raise row stale_row

-- `db.add(row)` and the flush that inserts it: a primary key or a unique constraint that is taken
-- raises.
unfoldable pub insert_skill : Skill → Action Unit
unfolding exists
insert_skill row = do
  raise_if (← gets (λ s. exists (λ k. k.id == row.id) s.working.skills)) integrity_error
  modify (λ db. record db { skills = row ∷ db.skills })

-- the primary key, and `uq_skill_versions_number`
unfoldable pub insert_version : SkillVersion → Action Unit
unfolding exists
insert_version row = do
  raise_if
      (← gets (λ s.
        exists
          (λ v.
            v.id == row.id || v.skill_id == row.skill_id && v.version_number == row.version_number)
          s.working.skill_versions))
      integrity_error
  modify (λ db. record db { skill_versions = row ∷ db.skill_versions })

-- the primary key, and `uq_tool_approvals_tool`
unfoldable pub insert_approval : ToolApproval → Action Unit
unfolding exists
insert_approval row = do
  raise_if
      (← gets (λ s.
        exists (λ a. a.id == row.id || a.version_id == row.version_id && a.tool == row.tool)
          s.working.tool_approvals))
      integrity_error
  modify (λ db. record db { tool_approvals = row ∷ db.tool_approvals })

unfoldable pub insert_audit_log : AuditLog → Action Unit
unfolding exists
insert_audit_log row = do
  raise_if (← gets (λ s. exists (λ a. a.id == row.id) s.working.audit_logs)) integrity_error
  modify (λ db. record db { audit_logs = row ∷ db.audit_logs })

-- No column of the row that the routers assign has another value.
unfoldable pub same_columns : Skill → Skill → Bool
same_columns old new =
    old.name == new.name
    && old.description == new.description
    && old.department == new.department
    && old.content == new.content
    && old.requested_tools == new.requested_tools
    && old.status == new.status
    && old.active_version_id == new.active_version_id

-- The flush of a skill whose attributes were assigned: an UPDATE by primary key, which sets
-- `updated_at` (`onupdate=utcnow`), and none if no column has another value.
unfoldable pub flush_skill : Env → Skill → Skill → Action Unit
flush_skill env old new = if same_columns old new then pure tt else do
  now ← utcnow env
  modify (λ db. record db {
    skills = update (λ k. k.id == new.id) (λ _. record new { updated_at = now }) db.skills;
  })
