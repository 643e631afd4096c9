-- ===== src/Audit.antt =====
-- app/audit.py
use jarvis_ai_coo.Prelude.{ℕ, Text, Option, List}
use jarvis_ai_coo.Models.{Event, Value, AuditLog}
use jarvis_ai_coo.Tenant.{TenantContext}
use jarvis_ai_coo.Database.{Env, Action, ◌>>=◌, ◌>>◌, pure, new_uuid, utcnow, insert_audit_log}

-- The row that `record_audit` adds.
unfoldable pub entry_of :
    Text
    → ℕ
    → TenantContext
    → Event
    → Option Text
    → Option Text
    → Option Text
    → List (Text × Value)
    → AuditLog
entry_of id now tenant event skill_id version_id version_hash detail = record {
  id = id;
  organization_id = tenant.organization_id;
  skill_id = skill_id;
  version_id = version_id;
  actor_id = tenant.user_id;
  actor_role = tenant.role;
  event = event;
  version_hash = version_hash;
  detail = detail;
  created_at = now;
}

-- `record_audit`. The two columns with a default get theirs at the flush.
unfoldable pub record_audit :
    Env
    → TenantContext
    → Event
    → Option Text
    → Option Text
    → Option Text
    → List (Text × Value)
    → Action AuditLog
unfolding insert_audit_log entry_of
record_audit env tenant event skill_id version_id version_hash detail = do
  id ← new_uuid env
  now ← utcnow env
  let entry = entry_of id now tenant event skill_id version_id version_hash detail
  insert_audit_log entry
  pure entry
