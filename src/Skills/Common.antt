-- ===== src/Skills/Common.antt =====
-- The helpers of app/routers/skills.py.
use jarvis_ai_coo.Prelude.{
  ℕ, Text, codes, Option, none, some, List, [], ◌∷◌, map, ◌==◌, text_eq, if◌then◌else◌,
}
use jarvis_ai_coo.Models.{Skill, SkillVersion, Value, str, int, strs}
use jarvis_ai_coo.Errors.{skill_not_found, version_not_found}
use jarvis_ai_coo.Database.{
  Env, Action, pure, raise, or_raise, ◌>>=◌, get_skill_row, get_version_row, versions_of,
}
use jarvis_ai_coo.Json.{dumps}
use jarvis_ai_coo.Schemas.Responses.{SkillDetailOut, summary_out, version_out}

-- `compute_version_hash`
unfoldable pub compute_version_hash : Env → List (Text × Value) → Text
compute_version_hash env payload = env.sha256_hex (dumps payload)

-- The dictionary that both callers hash.
unfoldable pub snapshot :
    Text → Text → ℕ → Text → Text → Text → Text → List Text → List (Text × Value)
snapshot organization_id skill_id version_number name description department content
      requested_tools =
    (codes "organization_id", str organization_id)
    ∷ (codes "skill_id", str skill_id)
    ∷ (codes "version_number", int version_number)
    ∷ (codes "name", str name)
    ∷ (codes "description", str description)
    ∷ (codes "department", str department)
    ∷ (codes "content", str content)
    ∷ (codes "requested_tools", strs requested_tools)
    ∷ []

-- `_get_skill_or_404`
unfoldable pub get_skill_or_404 : Text → Action Skill
get_skill_or_404 skill_id = do row ← get_skill_row skill_id; or_raise row skill_not_found

unfoldable pub of_skill : Text → Option SkillVersion → Action SkillVersion
of_skill skill_id none = raise version_not_found
of_skill skill_id (some version) =
    if version.skill_id == skill_id then pure version else raise version_not_found

-- `_get_version_or_404`
unfoldable pub get_version_or_404 : Text → Text → Action SkillVersion
unfolding of_skill
get_version_or_404 version_id skill_id = do row ← get_version_row version_id; of_skill skill_id row

-- `_skill_to_detail`
unfoldable pub skill_to_detail : Skill → Action SkillDetailOut
skill_to_detail skill = do
  versions ← versions_of skill.id
  pure (record {
    summary = summary_out skill;
    content = skill.content;
    versions = map version_out versions;
  })
