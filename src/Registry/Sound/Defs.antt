-- ===== src/Registry/Sound/Defs.antt =====
-- What the tables of the registry keep true of one another.
use jarvis_ai_coo.Prelude.{
  ◌≤◌, Text, ◌≡◌, ◌≢◌, Option, none, some, List, [], ◌∷◌, All, false, true, ◌||◌, ◌&&◌, ◌==◌,
  text_eq, nat_eq, find, contains, ◌⊎◌,
}
use jarvis_ai_coo.Models.{
  SkillStatus, draft, active, disabled, Skill, SkillVersion, ToolApproval, Database,
}
use jarvis_ai_coo.Database.{Env, exists}
use jarvis_ai_coo.Skills.{compute_version_hash, snapshot}
use jarvis_ai_coo.Registry.Rows.{skill_at, UniqueIds}

-- The row of an id, whoever owns it.
abbrev pub version_at : Text → List SkillVersion → Option SkillVersion
version_at id = find (λ v. v.id == id)

-- No id twice, and no number twice for one skill.
abbrev pub UniqueVersions : List SkillVersion → Type 0
UniqueVersions [] = Unit
UniqueVersions (v ∷ vs) =
    (exists (λ w. w.id == v.id || w.skill_id == v.skill_id && w.version_number == v.version_number)
        vs
      ≡ false)
    × UniqueVersions vs

-- No tool twice for one version.
abbrev pub UniqueApprovals : List ToolApproval → Type 0
UniqueApprovals [] = Unit
UniqueApprovals (a ∷ rest) =
    (find (λ b. b.version_id == a.version_id && b.tool == a.tool) rest ≡ none)
    × UniqueApprovals rest

-- A version belongs to a skill of its organization that has left the draft state, and its hash is the
-- one of its own columns.
pub record IsSnapshot (env : Env) (skills : List Skill) (v : SkillVersion) : Type 0 where
  pub owner : Skill
  pub found : skill_at v.skill_id skills ≡ some owner
  pub organization_id : owner.organization_id ≡ v.organization_id
  pub released : owner.status ≢ draft
  pub numbered : 1 ≤ v.version_number
  pub hash :
      v.version_hash
      ≡ compute_version_hash env (
          snapshot v.organization_id v.skill_id v.version_number v.name v.description v.department
            v.content v.requested_tools)

-- The id is the one of a version of the skill.
abbrev pub Names : List SkillVersion → Text → Option Text → Type 0
Names versions skill_id id =
    (v : SkillVersion) × (version_at v.id versions ≡ some v)
    × (id ≡ some v.id)
    × (v.skill_id ≡ skill_id)

-- What `active_version_id` may be in a status: nothing in a draft, a version of the skill in an active
-- skill, and either in a disabled one.
abbrev pub Points : List SkillVersion → Text → Option Text → SkillStatus → Type 0
Points versions skill_id id draft = id ≡ none
Points versions skill_id id active = Names versions skill_id id
Points versions skill_id id disabled = (id ≡ none) ⊎ Names versions skill_id id

abbrev pub PointsToVersion : List SkillVersion → Skill → Type 0
PointsToVersion versions k = Points versions k.id k.active_version_id k.status

-- An approval is for a tool that a version requests, of the version's skill and organization.
pub record IsRequested (versions : List SkillVersion) (a : ToolApproval) : Type 0 where
  pub version : SkillVersion
  pub found : version_at a.version_id versions ≡ some version
  pub requested : contains version.requested_tools a.tool ≡ true
  pub skill_id : a.skill_id ≡ version.skill_id
  pub organization_id : a.organization_id ≡ version.organization_id

pub record IsSound (env : Env) (db : Database) : Type 0 where
  pub skill_ids : UniqueIds db.skills
  pub version_ids : UniqueVersions db.skill_versions
  pub approval_tools : UniqueApprovals db.tool_approvals
  pub versions : All (IsSnapshot env db.skills) db.skill_versions
  pub pointers : All (PointsToVersion db.skill_versions) db.skills
  pub approvals : All (IsRequested db.skill_versions) db.tool_approvals
