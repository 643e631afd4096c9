-- ===== src/Registry/Step.antt =====
-- The changes of the stored tables, one constructor for each kind. A change stores its audit rows
-- together with the rows that it is about. The ids, the times and the details of the audit rows are
-- any, as is the hash that a replay records.
use jarvis_ai_coo.Prelude.{
  ℕ, ◌+◌, Text, ◌≡◌, ◌≢◌, Option, none, some, List, [], ◌∷◌, true, false, ◌&&◌, ◌||◌, ◌==◌, text_eq,
  nat_eq, find, where_, update, contains,
}
use jarvis_ai_coo.Models.{
  draft, active, disabled, Database, Skill, SkillVersion, ToolApproval, Event, Value,
  skill_draft_created, skill_draft_updated, skill_version_created, tool_approved,
  tool_approval_replayed, skill_activated, skill_activation_replayed, skill_disabled,
  skill_disable_replayed,
}
use jarvis_ai_coo.Tenant.{TenantContext, is_owner}
use jarvis_ai_coo.Database.{Env, exists, owned_by, sees_version, same_columns}
use jarvis_ai_coo.Audit.{entry_of}
use jarvis_ai_coo.Schemas.Payloads.{
  SkillDraftCreateIn, SkillDraftUpdateIn, SkillVersionCreateIn, SkillActivateIn,
}
use jarvis_ai_coo.Requests.{
  Request, create_draft, update_draft, create_version, approve, activate, disable,
}
use jarvis_ai_coo.Strings.{strip}
use jarvis_ai_coo.Skills.{
  asks_for_current, changed_fields, draft_of, apply_changes, version_of, max_number, approval_of,
  first_version,
}

-- The rows that a tenant sees.
abbrev pub own_skill : TenantContext → Text → Database → Option Skill
own_skill context id db =
    find (λ k. k.id == id) (where_ (λ k. owned_by (some context) k.organization_id) db.skills)

abbrev pub own_versions : TenantContext → Database → List SkillVersion
own_versions context db = where_ (sees_version (some context) db.skills) db.skill_versions

abbrev pub own_version : TenantContext → Text → Database → Option SkillVersion
own_version context id db = find (λ v. v.id == id) (own_versions context db)

abbrev pub own_approval : TenantContext → Text → Text → Database → Option ToolApproval
own_approval context version_id tool db =
    find (λ a. a.version_id == version_id && a.tool == tool)
      (where_ (λ a. owned_by (some context) a.organization_id) db.tool_approvals)

-- A skill's row is replaced.
abbrev pub put_skill : Skill → List Skill → List Skill
put_skill new = update (λ k. k.id == new.id) (λ _. new)

-- The requests whose effect the tables hold already, and what is recorded of them: the event, and the
-- skill and the version that it is about.
pub data IsReplay (env : Env) (context : TenantContext) (db : Database)
    : Request → Event → Option Text → Option Text → Type 0 where
  approval_again :
      (version : SkillVersion) (given : Text) (old : ToolApproval)
      → own_version context version.id db ≡ some version
      → contains version.requested_tools (env.lower (strip given)) ≡ true
      → own_approval context version.id (env.lower (strip given)) db ≡ some old
      → IsReplay env context db
          (approve version.skill_id version.id given)
          tool_approval_replayed
          (some version.skill_id)
          (some version.id)
  activation_again :
      (skill : Skill) (payload : SkillActivateIn)
      → own_skill context skill.id db ≡ some skill
      → skill.status ≡ active
      → asks_for_current payload skill ≡ true
      → IsReplay env context db
          (activate skill.id payload)
          skill_activation_replayed
          (some skill.id)
          skill.active_version_id
  disable_again :
      (skill : Skill)
      → own_skill context skill.id db ≡ some skill
      → skill.status ≡ disabled
      → IsReplay env context db
          (disable skill.id)
          skill_disable_replayed
          (some skill.id)
          skill.active_version_id

module _ (env : Env) (context : TenantContext) (request : Request) where
  -- `Step db db'`: the request of the tenant, answered, takes the stored tables from `db` to `db'`.
  pub data Step (db : Database) : Database → Type 0 where
    drafted :
        (payload : SkillDraftCreateIn) (id log_id : Text) (created updated now : ℕ)
        (detail : List (Text × Value))
        → exists (λ k. k.id == id) db.skills ≡ false
        → request ≡ create_draft payload
        → Step db (record db {
          skills = draft_of id created updated payload context ∷ db.skills;
          audit_logs =
              entry_of log_id now context skill_draft_created (some id) none none detail
              ∷ db.audit_logs;
        })
    edited :
        (payload : SkillDraftUpdateIn) (old : Skill) (log_id : Text) (updated now : ℕ)
        (detail : List (Text × Value))
        → own_skill context old.id db ≡ some old
        → old.status ≡ draft
        → changed_fields payload ≢ []
        → same_columns old (apply_changes payload old) ≡ false
        → request ≡ update_draft old.id payload
        → Step db (record db {
          skills =
              put_skill (record (apply_changes payload old) { updated_at = updated }) db.skills;
          audit_logs =
              entry_of log_id now context skill_draft_updated (some old.id) none none detail
              ∷ db.audit_logs;
        })
    edited_alike :
        (payload : SkillDraftUpdateIn) (old : Skill) (log_id : Text) (now : ℕ)
        (detail : List (Text × Value))
        → own_skill context old.id db ≡ some old
        → old.status ≡ draft
        → changed_fields payload ≢ []
        → same_columns old (apply_changes payload old) ≡ true
        → request ≡ update_draft old.id payload
        → Step db (record db {
          audit_logs =
              entry_of log_id now context skill_draft_updated (some old.id) none none detail
              ∷ db.audit_logs;
        })
    nothing_given :
        (payload : SkillDraftUpdateIn) (old : Skill)
        → own_skill context old.id db ≡ some old
        → old.status ≡ draft
        → changed_fields payload ≡ []
        → request ≡ update_draft old.id payload
        → Step db db
    versioned :
        (payload : SkillVersionCreateIn) (skill : Skill) (number : ℕ) (id log_id : Text)
        (created now : ℕ) (detail : List (Text × Value)) (v : SkillVersion)
        → own_skill context skill.id db ≡ some skill
        → skill.status ≡ active
        → number ≡ max_number (where_ (λ v. v.skill_id == skill.id) (own_versions context db)) + 1
        → v ≡ version_of env id created skill number payload context
        → exists
            (λ w. w.id == v.id || w.skill_id == v.skill_id && w.version_number == v.version_number)
            db.skill_versions
          ≡ false
        → request ≡ create_version skill.id payload
        → Step db (record db {
          skill_versions = v ∷ db.skill_versions;
          audit_logs =
              entry_of log_id now context skill_version_created
                (some skill.id)
                (some id)
                (some v.version_hash)
                detail
              ∷ db.audit_logs;
        })
    replayed :
        (event : Event) (log_id : Text) (now : ℕ) (skill_id version_id hash : Option Text)
        (detail : List (Text × Value))
        → IsReplay env context db request event skill_id version_id
        → is_owner context ≡ true
        → Step db (record db {
          audit_logs =
              entry_of log_id now context event skill_id version_id hash detail ∷ db.audit_logs;
        })
    approved :
        (version : SkillVersion) (given id log_id : Text) (created now : ℕ)
        (detail : List (Text × Value))
        → is_owner context ≡ true
        → own_version context version.id db ≡ some version
        → contains version.requested_tools (env.lower (strip given)) ≡ true
        → own_approval context version.id (env.lower (strip given)) db ≡ none
        → request ≡ approve version.skill_id version.id given
        → Step db (record db {
          tool_approvals =
              approval_of id created version (env.lower (strip given)) context ∷ db.tool_approvals;
          audit_logs =
              entry_of log_id now context tool_approved
                (some version.skill_id)
                (some version.id)
                none
                detail
              ∷ db.audit_logs;
        })
    first_activated :
        (skill : Skill) (id log_id log_id' : Text) (created updated now now' : ℕ)
        (detail detail' : List (Text × Value)) (v : SkillVersion)
        → is_owner context ≡ true
        → own_skill context skill.id db ≡ some skill
        → skill.status ≡ draft
        → v ≡ first_version env id created skill context
        → exists
            (λ w. w.id == v.id || w.skill_id == v.skill_id && w.version_number == v.version_number)
            db.skill_versions
          ≡ false
        → request ≡ activate skill.id (record { version_id = none })
        → Step db (record db {
          skill_versions = v ∷ db.skill_versions;
          skills =
              put_skill
                (record skill {
                  status = active;
                  active_version_id = some id;
                  updated_at = updated;
                })
                db.skills;
          audit_logs =
              entry_of log_id' now' context skill_activated
                (some skill.id)
                (some id)
                (some v.version_hash)
                detail'
              ∷ entry_of log_id now context skill_version_created
                  (some skill.id)
                  (some id)
                  (some v.version_hash)
                  detail
              ∷ db.audit_logs;
        })
    activated :
        (skill : Skill) (version : SkillVersion) (log_id : Text) (updated now : ℕ)
        (detail : List (Text × Value))
        → is_owner context ≡ true
        → own_skill context skill.id db ≡ some skill
        → skill.status ≢ disabled
        → own_version context version.id db ≡ some version
        → version.skill_id ≡ skill.id
        → same_columns skill (record skill { status = active; active_version_id = some version.id })
          ≡ false
        → request ≡ activate skill.id (record { version_id = some version.id })
        → Step db (record db {
          skills =
              put_skill
                (record skill {
                  status = active;
                  active_version_id = some version.id;
                  updated_at = updated;
                })
                db.skills;
          audit_logs =
              entry_of log_id now context skill_activated
                (some skill.id)
                (some version.id)
                (some version.version_hash)
                detail
              ∷ db.audit_logs;
        })
    retired :
        (skill : Skill) (log_id : Text) (updated now : ℕ) (detail : List (Text × Value))
        → is_owner context ≡ true
        → own_skill context skill.id db ≡ some skill
        → skill.status ≢ disabled
        → request ≡ disable skill.id
        → Step db (record db {
          skills = put_skill (record skill { status = disabled; updated_at = updated }) db.skills;
          audit_logs =
              entry_of log_id now context skill_disabled
                (some skill.id)
                skill.active_version_id
                none
                detail
              ∷ db.audit_logs;
        })
