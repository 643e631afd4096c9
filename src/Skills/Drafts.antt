-- ===== src/Skills/Drafts.antt =====
-- `create_skill_draft` and `update_skill_draft`.
use jarvis_ai_coo.Prelude.{ℕ, Text, codes, Option, none, some, List, [], ◌∷◌, ◌++◌, ◌==◌}
use jarvis_ai_coo.Models.{
  draft, active, disabled, Skill, str, strs, skill_draft_created, skill_draft_updated,
}
use jarvis_ai_coo.Tenant.{TenantContext}
use jarvis_ai_coo.Lifecycle.{status_eq}
use jarvis_ai_coo.Errors.{active_immutable, disabled_immutable}
use jarvis_ai_coo.Database.{
  Env, Action, pure, raise_if, ◌>>=◌, ◌>>◌, commit, new_uuid, utcnow, insert_skill, flush_skill,
  refresh_skill,
}
use jarvis_ai_coo.Audit.{record_audit}
use jarvis_ai_coo.Schemas.Payloads.{SkillDraftCreateIn, SkillDraftUpdateIn}
use jarvis_ai_coo.Schemas.Responses.{SkillDetailOut}
use jarvis_ai_coo.Skills.Common.{get_skill_or_404, skill_to_detail}

-- The row that `create_skill_draft` adds, with its defaults.
unfoldable pub draft_of : Text → ℕ → ℕ → SkillDraftCreateIn → TenantContext → Skill
draft_of id created updated payload context = record {
  id = id;
  organization_id = context.organization_id;
  name = payload.name;
  description = payload.description;
  department = payload.department;
  content = payload.content;
  requested_tools = payload.requested_tools;
  status = draft;
  active_version_id = none;
  created_by = context.user_id;
  created_at = created;
  updated_at = updated;
}

unfoldable pub create_skill_draft : Env → SkillDraftCreateIn → TenantContext → Action SkillDetailOut
unfolding draft_of
create_skill_draft env payload context = do
  id ← new_uuid env
  created ← utcnow env
  updated ← utcnow env
  let skill = draft_of id created updated payload context
  insert_skill skill
  record_audit env context skill_draft_created (some skill.id) none none
      ((codes "name", str skill.name) ∷ (codes "department", str skill.department) ∷ [])
  commit
  stored ← refresh_skill skill.id
  skill_to_detail stored

-- `setattr` of a field whose value is given
abbrev pub given : {A : Type 0} → Option A → A → A
given none old = old
given (some new) old = new

abbrev changed : {A : Type 0} → Text → Option A → List Text
changed field none = []
changed field (some _) = field ∷ []

unfoldable pub apply_changes : SkillDraftUpdateIn → Skill → Skill
apply_changes payload skill = record skill {
  name = given payload.name skill.name;
  description = given payload.description skill.description;
  department = given payload.department skill.department;
  content = given payload.content skill.content;
  requested_tools = given payload.requested_tools skill.requested_tools;
}

-- `sorted(changes)`: the keys in alphabetical order
unfoldable pub changed_fields : SkillDraftUpdateIn → List Text
changed_fields payload =
    changed (codes "content") payload.content
    ++ (changed (codes "department") payload.department
        ++ (changed (codes "description") payload.description
            ++ (changed (codes "name") payload.name
                ++ changed (codes "requested_tools") payload.requested_tools)))

-- `if changes:`
unfoldable pub save_changes : Env → TenantContext → Skill → Skill → List Text → Action Unit
save_changes env context old new [] = pure tt
save_changes env context old new (field ∷ fields) = do
  flush_skill env old new
  record_audit env context skill_draft_updated (some new.id) none none
      ((codes "changed_fields", strs (field ∷ fields)) ∷ [])
  commit

unfoldable pub update_skill_draft :
    Env → Text → SkillDraftUpdateIn → TenantContext → Action SkillDetailOut
unfolding save_changes
update_skill_draft env skill_id payload context = do
  skill ← get_skill_or_404 skill_id
  raise_if (skill.status == active) active_immutable
  raise_if (skill.status == disabled) disabled_immutable
  save_changes env context skill (apply_changes payload skill) (changed_fields payload)
  stored ← refresh_skill skill.id
  skill_to_detail stored
