-- ===== src/Models.antt =====
-- app/models.py: one record for each table, with its columns, and the database as its tables.
-- A timestamp is a number. A table lists its rows, the last inserted first; SQL gives them no order
-- but by `ORDER BY`.
use jarvis_ai_coo.Prelude.{ℕ, Text, Option, List, Bool}

-- `SkillStatus`
pub data SkillStatus : Type 0 where
  draft active disabled : SkillStatus

-- `Organization`
pub record Organization : Type 0 where
  pub id : Text
  pub name : Text
  pub created_at : ℕ

-- `Membership`, whose primary key is the pair of the organization and the user
pub record Membership : Type 0 where
  pub organization_id : Text
  pub user_id : Text
  pub role : Text
  pub created_at : ℕ

-- `Skill`
pub record Skill : Type 0 where
  pub id : Text
  pub organization_id : Text
  pub name : Text
  pub description : Text
  pub department : Text
  pub content : Text
  pub requested_tools : List Text
  pub status : SkillStatus
  pub active_version_id : Option Text
  pub created_by : Text
  pub created_at : ℕ
  pub updated_at : ℕ

-- `SkillVersion`
pub record SkillVersion : Type 0 where
  pub id : Text
  pub organization_id : Text
  pub skill_id : Text
  pub version_number : ℕ
  pub name : Text
  pub description : Text
  pub department : Text
  pub content : Text
  pub requested_tools : List Text
  pub version_hash : Text
  pub created_by : Text
  pub created_at : ℕ

-- `ToolApproval`
pub record ToolApproval : Type 0 where
  pub id : Text
  pub organization_id : Text
  pub skill_id : Text
  pub version_id : Text
  pub tool : Text
  pub approved_by : Text
  pub created_at : ℕ

-- The `event` strings that the routers pass to `record_audit`.
pub data Event : Type 0 where
  skill_draft_created skill_draft_updated skill_version_created : Event
  tool_approved tool_approval_replayed : Event
  skill_activated skill_activation_replayed : Event
  skill_disabled skill_disable_replayed : Event

-- The values that the `detail` dictionaries and the hashed snapshots hold.
pub data Value : Type 0 where
  str : Text → Value
  int : ℕ → Value
  bool : Bool → Value
  strs : List Text → Value
  null : Value

-- `AuditLog`
pub record AuditLog : Type 0 where
  pub id : Text
  pub organization_id : Text
  pub skill_id : Option Text
  pub version_id : Option Text
  pub actor_id : Text
  pub actor_role : Text
  pub event : Event
  pub version_hash : Option Text
  pub detail : List (Text × Value)
  pub created_at : ℕ

-- The tables.
pub record Database : Type 0 where
  pub organizations : List Organization
  pub memberships : List Membership
  pub skills : List Skill
  pub skill_versions : List SkillVersion
  pub tool_approvals : List ToolApproval
  pub audit_logs : List AuditLog
