-- ===== src/Schemas/Responses.antt =====
-- app/schemas.py, "Outbound payloads". `from_attributes` copies the columns of the row.
use jarvis_ai_coo.Prelude.{ℕ, Text, Option, List}
use jarvis_ai_coo.Models.{SkillStatus, Skill, SkillVersion, ToolApproval, AuditLog, Event, Value}

pub record SkillVersionOut : Type 0 where
  pub id : Text
  pub organization_id : Text
  pub skill_id : Text
  pub version_number : ℕ
  pub name : Text
  pub description : Text
  pub department : Text
  pub content : Text
  pub requested_tools : List Text
  pub version_hash : Text
  pub created_by : Text
  pub created_at : ℕ

-- `SkillVersionOut.model_validate(version)`
unfoldable pub version_out : SkillVersion → SkillVersionOut
version_out v = record {
  id = v.id;
  organization_id = v.organization_id;
  skill_id = v.skill_id;
  version_number = v.version_number;
  name = v.name;
  description = v.description;
  department = v.department;
  content = v.content;
  requested_tools = v.requested_tools;
  version_hash = v.version_hash;
  created_by = v.created_by;
  created_at = v.created_at;
}

pub record SkillSummaryOut : Type 0 where
  pub id : Text
  pub organization_id : Text
  pub name : Text
  pub description : Text
  pub department : Text
  pub requested_tools : List Text
  pub status : SkillStatus
  pub active_version_id : Option Text
  pub created_by : Text
  pub created_at : ℕ
  pub updated_at : ℕ

-- `SkillSummaryOut.model_validate(skill)`
unfoldable pub summary_out : Skill → SkillSummaryOut
summary_out s = record {
  id = s.id;
  organization_id = s.organization_id;
  name = s.name;
  description = s.description;
  department = s.department;
  requested_tools = s.requested_tools;
  status = s.status;
  active_version_id = s.active_version_id;
  created_by = s.created_by;
  created_at = s.created_at;
  updated_at = s.updated_at;
}

pub record SkillDetailOut : Type 0 where
  pub summary : SkillSummaryOut
  pub open summary use *
  pub content : Text
  pub versions : List SkillVersionOut

pub record DepartmentSkillOut : Type 0 where
  pub skill_id : Text
  pub name : Text
  pub department : Text
  pub version : SkillVersionOut
  pub approved_tools : List Text

pub record ToolApprovalOut : Type 0 where
  pub id : Text
  pub organization_id : Text
  pub skill_id : Text
  pub version_id : Text
  pub tool : Text
  pub approved_by : Text
  pub created_at : ℕ

-- `ToolApprovalOut.model_validate(approval)`
unfoldable pub approval_out : ToolApproval → ToolApprovalOut
approval_out a = record {
  id = a.id;
  organization_id = a.organization_id;
  skill_id = a.skill_id;
  version_id = a.version_id;
  tool = a.tool;
  approved_by = a.approved_by;
  created_at = a.created_at;
}

pub record AuditLogOut : Type 0 where
  pub id : Text
  pub organization_id : Text
  pub skill_id : Option Text
  pub version_id : Option Text
  pub actor_id : Text
  pub actor_role : Text
  pub event : Event
  pub version_hash : Option Text
  pub detail : List (Text × Value)
  pub created_at : ℕ

-- `AuditLogOut.model_validate(row)`
unfoldable pub audit_out : AuditLog → AuditLogOut
audit_out a = record {
  id = a.id;
  organization_id = a.organization_id;
  skill_id = a.skill_id;
  version_id = a.version_id;
  actor_id = a.actor_id;
  actor_role = a.actor_role;
  event = a.event;
  version_hash = a.version_hash;
  detail = a.detail;
  created_at = a.created_at;
}
