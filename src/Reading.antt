-- ===== src/Reading.antt =====
-- The four routes that only read, each in a session of its own with the tenant context that
-- `get_tenant_context` has resolved.
pub mod View
pub mod Unobserved
use jarvis_ai_coo.Prelude.{ℕ, Text, Option}
use jarvis_ai_coo.Models.{SkillStatus}
use jarvis_ai_coo.Tenant.{TenantContext}
use jarvis_ai_coo.Dependencies.{set_tenant}
use jarvis_ai_coo.Database.{Server, Result, Action, ◌>>=◌, ◌>>◌, pure, get_db}
use jarvis_ai_coo.Schemas.Responses.{
  SkillSummaryOut, SkillDetailOut, DepartmentSkillOut, AuditLogOut,
}
use jarvis_ai_coo.Skills.{
  Page, list_skills, get_active_skills_for_department, get_skill, get_skill_audit_trail,
}

-- the filter, the department or the id, and then the limit and the offset
pub data Query : Type 0 where
  list : Option SkillStatus → ℕ → ℕ → Query
  in_department : Text → ℕ → ℕ → Query
  one : Text → Query
  trail : Text → ℕ → ℕ → Query

pub data Answer : Type 0 where
  summaries : Page SkillSummaryOut → Answer
  runnable : Page DepartmentSkillOut → Answer
  detail : SkillDetailOut → Answer
  entries : Page AuditLogOut → Answer

-- The route of a query.
unfoldable pub look_up : Query → Action Answer
look_up (list skill_status limit offset) = do
  page ← list_skills skill_status limit offset
  pure (summaries page)
look_up (in_department department limit offset) = do
  page ← get_active_skills_for_department department limit offset
  pure (runnable page)
look_up (one skill_id) = do out ← get_skill skill_id; pure (detail out)
look_up (trail skill_id limit offset) = do
  page ← get_skill_audit_trail skill_id limit offset
  pure (entries page)

unfoldable pub query : TenantContext → Query → Server → Result Answer × Server
unfolding set_tenant get_db look_up
query context q = get_db (set_tenant context >> look_up q)
