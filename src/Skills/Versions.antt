-- ===== src/Skills/Versions.antt =====
-- `create_skill_version` and `approve_tool`.
use jarvis_ai_coo.Prelude.{
  ℕ, ◌+◌, Text, codes, Option, none, some, List, [], ◌∷◌, not, ◌&&◌, ◌==◌, text_eq, contains, find,
  where_, leb, if◌then◌else◌,
}
use jarvis_ai_coo.Models.{
  active, disabled, Skill, SkillVersion, ToolApproval, str, int, skill_version_created,
  tool_approved, tool_approval_replayed,
}
use jarvis_ai_coo.Tenant.{TenantContext}
use jarvis_ai_coo.Lifecycle.{status_eq}
use jarvis_ai_coo.Errors.{disabled_takes_no_version, only_active_takes_versions, tool_not_requested}
use jarvis_ai_coo.Strings.{strip}
use jarvis_ai_coo.Dependencies.{require_owner}
use jarvis_ai_coo.Database.{
  Env, Session, Action, pure, raise_if, gets, ◌>>=◌, ◌>>◌, commit, new_uuid, utcnow,
  select_versions, select_approvals, insert_version, insert_approval, refresh_version,
  refresh_approval,
}
use jarvis_ai_coo.Audit.{record_audit}
use jarvis_ai_coo.Schemas.Payloads.{SkillVersionCreateIn}
use jarvis_ai_coo.Schemas.Responses.{SkillVersionOut, version_out, ToolApprovalOut, approval_out}
use jarvis_ai_coo.Skills.Common.{
  compute_version_hash, snapshot, get_skill_or_404, get_version_or_404,
}

-- `func.max(SkillVersion.version_number)`, and `or 0` where there is no row
unfoldable pub max_number : List SkillVersion → ℕ
max_number [] = 0
max_number (v ∷ vs) =
    let rest = max_number vs in if leb v.version_number rest then rest else v.version_number

unfoldable pub max_version : Text → Session → ℕ
unfolding max_number
max_version skill_id s = max_number (where_ (λ v. v.skill_id == skill_id) (select_versions s))

-- The row that `create_skill_version` adds.
unfoldable pub version_of :
    Env → Text → ℕ → Skill → ℕ → SkillVersionCreateIn → TenantContext → SkillVersion
unfolding compute_version_hash snapshot
version_of env id now skill version_number payload context = record {
  id = id;
  organization_id = skill.organization_id;
  skill_id = skill.id;
  version_number = version_number;
  name = payload.name;
  description = payload.description;
  department = payload.department;
  content = payload.content;
  requested_tools = payload.requested_tools;
  version_hash = compute_version_hash env (
      snapshot skill.organization_id skill.id version_number payload.name payload.description
        payload.department payload.content payload.requested_tools);
  created_by = context.user_id;
  created_at = now;
}

unfoldable pub create_skill_version :
    Env → Text → SkillVersionCreateIn → TenantContext → Action SkillVersionOut
create_skill_version env skill_id payload context = do
  skill ← get_skill_or_404 skill_id
  raise_if (not (skill.status == active))
      (if skill.status == disabled then disabled_takes_no_version else only_active_takes_versions)
  highest ← gets (max_version skill.id)
  id ← new_uuid env
  now ← utcnow env
  let version = version_of env id now skill (highest + 1) payload context
  insert_version version
  record_audit env context skill_version_created (some skill.id) (some version.id)
      (some version.version_hash) ((codes "version_number", int version.version_number) ∷ [])
  commit
  stored ← refresh_version version.id
  pure (version_out stored)

-- The row that `approve_tool` adds.
unfoldable pub approval_of : Text → ℕ → SkillVersion → Text → TenantContext → ToolApproval
approval_of id now version tool context = record {
  id = id;
  organization_id = context.organization_id;
  skill_id = version.skill_id;
  version_id = version.id;
  tool = tool;
  approved_by = context.user_id;
  created_at = now;
}

unfoldable pub grant :
    Env → SkillVersion → Text → TenantContext → Option ToolApproval → Action ToolApprovalOut
unfolding approval_of
grant env version tool context (some existing) = do
  record_audit env context tool_approval_replayed (some version.skill_id) (some version.id) none (
      (codes "tool", str tool)
      ∷ (codes "note", str (codes "idempotent replay; no state change"))
      ∷ [])
  commit
  stored ← refresh_approval existing.id
  pure (approval_out stored)
grant env version tool context none = do
  id ← new_uuid env
  now ← utcnow env
  let approval = approval_of id now version tool context
  insert_approval approval
  record_audit env context tool_approved (some version.skill_id) (some version.id) none
      ((codes "tool", str tool) ∷ (codes "version_number", int version.version_number) ∷ [])
  commit
  stored ← refresh_approval approval.id
  pure (approval_out stored)

-- the approval of a tool for a version, if there is one
unfoldable pub find_approval : Text → Text → Session → Option ToolApproval
find_approval version_id tool s =
    find (λ a. a.version_id == version_id && a.tool == tool) (select_approvals s)

unfoldable pub approve_tool : Env → Text → Text → Text → TenantContext → Action ToolApprovalOut
unfolding grant
approve_tool env skill_id version_id tool context = do
  require_owner context
  version ← get_version_or_404 version_id skill_id
  let cleaned_tool = env.lower (strip tool)
  raise_if (not (contains version.requested_tools cleaned_tool)) tool_not_requested
  existing ← gets (find_approval version.id cleaned_tool)
  grant env version cleaned_tool context existing
