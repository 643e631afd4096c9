-- ===== src/Skills/Activation.antt =====
-- `activate_skill` and `disable_skill`.
use jarvis_ai_coo.Prelude.{
  ℕ, Text, codes, Option, none, some, List, [], ◌∷◌, Bool, true, not, ◌&&◌, ◌||◌, ◌==◌, text_eq,
  option_eq, if◌then◌else◌,
}
use jarvis_ai_coo.Models.{
  SkillStatus, draft, active, disabled, Skill, SkillVersion, Event, Value, str, int, bool, null,
  skill_version_created, skill_activated, skill_activation_replayed, skill_disabled,
  skill_disable_replayed,
}
use jarvis_ai_coo.Tenant.{TenantContext}
use jarvis_ai_coo.Lifecycle.{status_eq, can_transition}
use jarvis_ai_coo.Errors.{
  version_not_found, disabled_not_reactivated, cannot_activate, cannot_disable,
}
use jarvis_ai_coo.Strings.{is_empty}
use jarvis_ai_coo.Dependencies.{require_owner}
use jarvis_ai_coo.Database.{
  Env, Action, pure, raise, raise_if, ◌>>=◌, ◌>>◌, commit, new_uuid, utcnow, get_version_row,
  insert_version, flush_skill, refresh_skill,
}
use jarvis_ai_coo.Audit.{record_audit}
use jarvis_ai_coo.Schemas.Payloads.{SkillActivateIn}
use jarvis_ai_coo.Schemas.Responses.{SkillDetailOut}
use jarvis_ai_coo.Skills.Common.{
  compute_version_hash, snapshot, get_skill_or_404, get_version_or_404, skill_to_detail,
}

-- `await db.get(SkillVersion, id) if id else None`
unfoldable pub active_version_row : Option Text → Action (Option SkillVersion)
active_version_row none = pure none
active_version_row (some id) = if is_empty id then pure none else get_version_row id

unfoldable pub hash_of : Option SkillVersion → Option Text
hash_of none = none
hash_of (some v) = some v.version_hash

-- The replay branches of both handlers: an audit row and no change.
unfoldable pub replay : Env → Event → Skill → TenantContext → Action SkillDetailOut
unfolding active_version_row hash_of
replay env event skill context = do
  active_version ← active_version_row skill.active_version_id
  record_audit env context event (some skill.id) skill.active_version_id (hash_of active_version)
      ((codes "note", str (codes "idempotent replay; no state change")) ∷ [])
  commit
  stored ← refresh_skill skill.id
  skill_to_detail stored

-- The snapshot of a draft as version 1.
unfoldable pub first_version : Env → Text → ℕ → Skill → TenantContext → SkillVersion
unfolding compute_version_hash snapshot
first_version env id now skill context = record {
  id = id;
  organization_id = skill.organization_id;
  skill_id = skill.id;
  version_number = 1;
  name = skill.name;
  description = skill.description;
  department = skill.department;
  content = skill.content;
  requested_tools = skill.requested_tools;
  version_hash = compute_version_hash env (
      snapshot skill.organization_id skill.id 1 skill.name skill.description skill.department
        skill.content skill.requested_tools);
  created_by = context.user_id;
  created_at = now;
}

-- The version that a draft is activated with: the one asked for, or a snapshot.
unfoldable pub version_for_draft :
    Env → Skill → SkillActivateIn → TenantContext → Option Text → Action SkillVersion
unfolding first_version
version_for_draft env skill payload context (some version_id) =
    get_version_or_404 version_id skill.id
version_for_draft env skill payload context none = do
  id ← new_uuid env
  now ← utcnow env
  let version = first_version env id now skill context
  insert_version version
  record_audit env context skill_version_created (some skill.id) (some version.id)
      (some version.version_hash)
      ((codes "version_number", int 1) ∷ (codes "source", str (codes "draft_activation")) ∷ [])
  pure version

unfoldable pub id_or_null : Option Text → Value
id_or_null none = null
id_or_null (some id) = str id

unfoldable pub draft_detail : SkillVersion → List (Text × Value)
draft_detail version =
    (codes "version_number", int version.version_number)
    ∷ (codes "previous_status", str (codes "draft"))
    ∷ []

unfoldable pub switch_detail : Skill → SkillVersion → List (Text × Value)
unfolding id_or_null
switch_detail skill version =
    (codes "version_number", int version.version_number)
    ∷ (codes "previous_status", str (codes "active"))
    ∷ (codes "version_switch", bool true)
    ∷ (codes "previous_version_id", id_or_null skill.active_version_id)
    ∷ []

-- `_get_version_or_404` of the payload's id, which the replay branch has found to be given
unfoldable pub version_to_switch_to : Skill → Option Text → Action SkillVersion
version_to_switch_to skill none = raise version_not_found
version_to_switch_to skill (some version_id) = get_version_or_404 version_id skill.id

-- The end of `activate_skill`, for both ways to choose the version.
unfoldable pub make_active :
    Env → Skill → TenantContext → SkillVersion → List (Text × Value) → Action SkillDetailOut
make_active env skill context version audit_detail = do
  let new : Skill = record skill { status = active; active_version_id = some version.id }
  flush_skill env skill new
  record_audit env context skill_activated (some skill.id) (some version.id)
      (some version.version_hash) audit_detail
  commit
  stored ← refresh_skill skill.id
  skill_to_detail stored

unfoldable pub activate_draft :
    Env → Skill → SkillActivateIn → TenantContext → Action SkillDetailOut
unfolding version_for_draft draft_detail make_active
activate_draft env skill payload context = do
  raise_if (not (can_transition skill.status active)) cannot_activate
  version ← version_for_draft env skill payload context payload.version_id
  make_active env skill context version (draft_detail version)

unfoldable pub switch_version :
    Env → Skill → SkillActivateIn → TenantContext → Action SkillDetailOut
unfolding version_to_switch_to switch_detail make_active
switch_version env skill payload context = do
  version ← version_to_switch_to skill payload.version_id
  make_active env skill context version (switch_detail skill version)

-- `payload.version_id is None or payload.version_id == skill.active_version_id`
unfoldable pub asks_for_current : SkillActivateIn → Skill → Bool
asks_for_current payload skill =
    payload.version_id == none || payload.version_id == skill.active_version_id

unfoldable pub activate_skill : Env → Text → SkillActivateIn → TenantContext → Action SkillDetailOut
unfolding activate_draft switch_version
activate_skill env skill_id payload context = do
  require_owner context
  skill ← get_skill_or_404 skill_id
  if skill.status == active && asks_for_current payload skill
      then replay env skill_activation_replayed skill context
      else do
        raise_if (skill.status == disabled) disabled_not_reactivated
        if skill.status == draft
            then activate_draft env skill payload context
            else switch_version env skill payload context

-- `previous_status`, in the JSON of the audit row
unfoldable pub status_value : SkillStatus → Text
status_value draft = codes "draft"
status_value active = codes "active"
status_value disabled = codes "disabled"

unfoldable pub disable_skill : Env → Text → TenantContext → Action SkillDetailOut
unfolding status_value
disable_skill env skill_id context = do
  require_owner context
  skill ← get_skill_or_404 skill_id
  if skill.status == disabled then replay env skill_disable_replayed skill context else do
    raise_if (not (can_transition skill.status disabled)) cannot_disable
    let new : Skill = record skill { status = disabled }
    flush_skill env skill new
    record_audit env context skill_disabled (some skill.id) skill.active_version_id none
        ((codes "previous_status", str (status_value skill.status)) ∷ [])
    commit
    stored ← refresh_skill skill.id
    skill_to_detail stored
