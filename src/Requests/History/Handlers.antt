-- ===== src/Requests/History/Handlers.antt =====
-- Each handler of app/routers/skills.py only adds to the tables of record.
use jarvis_ai_coo.Prelude.{Text, Option, none, some, List, [], ◌∷◌}
use jarvis_ai_coo.Models.{SkillVersion, ToolApproval, Event, Value, Skill}
use jarvis_ai_coo.Tenant.{TenantContext}
use jarvis_ai_coo.Database.{
  Env, get_skill_row, get_version_row, versions_of, refresh_skill, refresh_version,
  refresh_approval,
}
use jarvis_ai_coo.Schemas.Payloads.{
  SkillDraftCreateIn, SkillDraftUpdateIn, SkillVersionCreateIn, SkillActivateIn,
}
use jarvis_ai_coo.Skills.{
  create_skill_draft, update_skill_draft, save_changes, create_skill_version, grant, approve_tool,
  active_version_row, replay, make_active, version_for_draft, version_to_switch_to, activate_draft,
  switch_version, activate_skill, disable_skill, get_skill_or_404, of_skill, get_version_or_404,
  skill_to_detail,
}
use jarvis_ai_coo.Dependencies.{require_owner}
use jarvis_ai_coo.Requests.Follows.{Follows}
use jarvis_ai_coo.Requests.History.Writes.{Adds, adds_rules}

-- the reads of the handlers, which write nothing
get_skill_or_404-Adds : (id : Text) → Follows Adds (get_skill_or_404 id)
unfolding get_skill_or_404 get_skill_row
get_skill_or_404-Adds id = search adds_rules

of_skill-Adds : (id : Text) (row : Option SkillVersion) → Follows Adds (of_skill id row)
unfolding of_skill
of_skill-Adds id none = search adds_rules
of_skill-Adds id (some v) = search adds_rules

get_version_or_404-Adds :
    (version_id skill_id : Text) → Follows Adds (get_version_or_404 version_id skill_id)
unfolding get_version_or_404 get_version_row
get_version_or_404-Adds version_id skill_id = search (adds_rules, of_skill-Adds)

refresh_skill-Adds : (id : Text) → Follows Adds (refresh_skill id)
unfolding refresh_skill get_skill_row
refresh_skill-Adds id = search adds_rules

refresh_version-Adds : (id : Text) → Follows Adds (refresh_version id)
unfolding refresh_version get_version_row
refresh_version-Adds id = search adds_rules

refresh_approval-Adds : (id : Text) → Follows Adds (refresh_approval id)
unfolding refresh_approval
refresh_approval-Adds id = search adds_rules

skill_to_detail-Adds : (skill : Skill) → Follows Adds (skill_to_detail skill)
unfolding skill_to_detail versions_of
skill_to_detail-Adds skill = search adds_rules

require_owner-Adds : (context : TenantContext) → Follows Adds (require_owner context)
unfolding require_owner
require_owner-Adds context = search adds_rules

ruleset handler_rules = (
  adds_rules, get_skill_or_404-Adds, get_version_or_404-Adds, refresh_skill-Adds,
  refresh_version-Adds, refresh_approval-Adds, skill_to_detail-Adds, require_owner-Adds,
)

module _ (env : Env) (context : TenantContext) where
  pub create_skill_draft-Adds :
      (payload : SkillDraftCreateIn) → Follows Adds (create_skill_draft env payload context)
  unfolding create_skill_draft
  create_skill_draft-Adds payload = search handler_rules depth 12

  save_changes-Adds :
      (old new : Skill) (fields : List Text)
      → Follows Adds (save_changes env context old new fields)
  unfolding save_changes
  save_changes-Adds old new [] = search handler_rules
  save_changes-Adds old new (f ∷ fs) = search handler_rules depth 8

  pub update_skill_draft-Adds :
      (id : Text) (payload : SkillDraftUpdateIn)
      → Follows Adds (update_skill_draft env id payload context)
  unfolding update_skill_draft
  update_skill_draft-Adds id payload = search (handler_rules, save_changes-Adds) depth 12

  pub create_skill_version-Adds :
      (id : Text) (payload : SkillVersionCreateIn)
      → Follows Adds (create_skill_version env id payload context)
  unfolding create_skill_version
  create_skill_version-Adds id payload = search handler_rules depth 16

  grant-Adds :
      (v : SkillVersion) (tool : Text) (existing : Option ToolApproval)
      → Follows Adds (grant env v tool context existing)
  unfolding grant
  grant-Adds v tool none = search handler_rules depth 12
  grant-Adds v tool (some a) = search handler_rules depth 12

  pub approve_tool-Adds :
      (id version_id tool : Text) → Follows Adds (approve_tool env id version_id tool context)
  unfolding approve_tool
  approve_tool-Adds id version_id tool = search (handler_rules, grant-Adds) depth 12

  active_version_row-Adds : (id : Option Text) → Follows Adds (active_version_row id)
  unfolding active_version_row get_version_row
  active_version_row-Adds none = search handler_rules
  active_version_row-Adds (some id) = search handler_rules

  replay-Adds : (event : Event) (skill : Skill) → Follows Adds (replay env event skill context)
  unfolding replay
  replay-Adds event skill = search (handler_rules, active_version_row-Adds) depth 12

  make_active-Adds :
      (skill : Skill) (v : SkillVersion) (detail : List (Text × Value))
      → Follows Adds (make_active env skill context v detail)
  unfolding make_active
  make_active-Adds skill v detail = search handler_rules depth 12

  version_for_draft-Adds :
      (skill : Skill) (payload : SkillActivateIn) (id : Option Text)
      → Follows Adds (version_for_draft env skill payload context id)
  unfolding version_for_draft
  version_for_draft-Adds skill payload none = search handler_rules depth 12
  version_for_draft-Adds skill payload (some id) = search handler_rules

  version_to_switch_to-Adds :
      (skill : Skill) (id : Option Text) → Follows Adds (version_to_switch_to skill id)
  unfolding version_to_switch_to
  version_to_switch_to-Adds skill none = search handler_rules
  version_to_switch_to-Adds skill (some id) = search handler_rules

  activate_draft-Adds :
      (skill : Skill) (payload : SkillActivateIn)
      → Follows Adds (activate_draft env skill payload context)
  unfolding activate_draft
  activate_draft-Adds skill payload =
      search (handler_rules, version_for_draft-Adds, make_active-Adds) depth 9

  switch_version-Adds :
      (skill : Skill) (payload : SkillActivateIn)
      → Follows Adds (switch_version env skill payload context)
  unfolding switch_version
  switch_version-Adds skill payload =
      search (handler_rules, version_to_switch_to-Adds, make_active-Adds) depth 9

  pub activate_skill-Adds :
      (id : Text) (payload : SkillActivateIn) → Follows Adds (activate_skill env id payload context)
  unfolding activate_skill
  activate_skill-Adds id payload =
      search (handler_rules, replay-Adds, activate_draft-Adds, switch_version-Adds) depth 12

  pub disable_skill-Adds : (id : Text) → Follows Adds (disable_skill env id context)
  unfolding disable_skill
  disable_skill-Adds id = search (handler_rules, replay-Adds) depth 16

pub ruleset handler_laws = (
  create_skill_draft-Adds, update_skill_draft-Adds, create_skill_version-Adds, approve_tool-Adds,
  activate_skill-Adds, disable_skill-Adds,
)
