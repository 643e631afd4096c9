-- ===== src/Migrations/Backfill.antt =====
-- What 0003_skill_versions_organization_id does to the rows of `skill_versions`.
use jarvis_ai_coo.Prelude.{
  ℕ, Text, ◌≡◌, ◌≢◌, refl, ap, ◌∙◌, ◌==◌, text_eq, nat_eq, Option, none, some, List, [], ◌∷◌, map,
  All, find, inl, inr, Option-cases,
}
use jarvis_ai_coo.Models.{Skill, SkillVersion}
use jarvis_ai_coo.Tenant.{TenantContext}
use jarvis_ai_coo.Database.{sees_version}
use jarvis_ai_coo.Registry.Rows.{UniqueIds, skill_at, owner_decides}

-- A row with the columns of 0001.
pub record VersionRow : Type 0 where
  pub id : Text
  pub skill_id : Text
  pub version_number : ℕ
  pub name : Text
  pub description : Text
  pub department : Text
  pub content : Text
  pub requested_tools : List Text
  pub version_hash : Text
  pub created_by : Text
  pub created_at : ℕ

-- `ADD COLUMN organization_id` leaves NULL in every row, and the UPDATE puts the organization of the
-- row's skill there, if there is one.
unfoldable pub backfill : List Skill → VersionRow → Option Text
unfolding find
backfill skills row = elim (skill_at row.skill_id skills) [
  | none ↦ none
  | some skill ↦ some skill.organization_id
]

unfoldable pub with_organization : VersionRow → Text → SkillVersion
with_organization row organization_id = record {
  id = row.id;
  organization_id = organization_id;
  skill_id = row.skill_id;
  version_number = row.version_number;
  name = row.name;
  description = row.description;
  department = row.department;
  content = row.content;
  requested_tools = row.requested_tools;
  version_hash = row.version_hash;
  created_by = row.created_by;
  created_at = row.created_at;
}

-- `SET NOT NULL` fails if a row still has none.
unfoldable pub upgrade_rows : List Skill → List VersionRow → Option (List SkillVersion)
unfolding backfill with_organization
upgrade_rows skills [] = some []
upgrade_rows skills (row ∷ rows) =
    let rest = upgrade_rows skills rows in
    elim (backfill skills row) [
      | none ↦ none
      | some organization_id ↦ elim rest [
        | none ↦ none
        | some versions ↦ some (with_organization row organization_id ∷ versions)
      ]
    ]

-- `DROP COLUMN organization_id`
unfoldable pub downgrade_row : SkillVersion → VersionRow
downgrade_row v = record {
  id = v.id;
  skill_id = v.skill_id;
  version_number = v.version_number;
  name = v.name;
  description = v.description;
  department = v.department;
  content = v.content;
  requested_tools = v.requested_tools;
  version_hash = v.version_hash;
  created_by = v.created_by;
  created_at = v.created_at;
}

-- The foreign key of 0001: the row's skill is there.
abbrev pub HasSkill : List Skill → VersionRow → Type 0
HasSkill skills row = skill_at row.skill_id skills ≢ none

-- The row's own organization decides who sees it through its skill.
abbrev pub IsOwned : List Skill → SkillVersion → Type 0
IsOwned skills v =
    (tenant : TenantContext)
    → sees_version (some tenant) skills v ≡ (v.organization_id == tenant.organization_id)

-- the row that a skill gives its organization
with_organization-IsOwned :
    (skills : List Skill) (row : VersionRow) (k : Skill)
    → UniqueIds skills
    → skill_at row.skill_id skills ≡ some k
    → IsOwned skills (with_organization row k.organization_id)
unfolding sees_version with_organization
with_organization-IsOwned skills row k unique h tenant =
    owner_decides skills row.skill_id k tenant unique h

backfilled :
    (skills : List Skill) (row : VersionRow) (k : Skill)
    → skill_at row.skill_id skills ≡ some k
    → backfill skills row ≡ some k.organization_id
unfolding backfill
backfilled skills row k found =
    ap (λ (o : Option Skill). elim o [ none ↦ none | some skill ↦ some skill.organization_id ])
      found

upgraded_row :
    (skills : List Skill) (row : VersionRow) (rows : List VersionRow) (k : Skill)
    (versions : List SkillVersion)
    → skill_at row.skill_id skills ≡ some k
    → upgrade_rows skills rows ≡ some versions
    → upgrade_rows skills (row ∷ rows) ≡ some (with_organization row k.organization_id ∷ versions)
unfolding upgrade_rows
upgraded_row skills row rows k versions found done =
    ap
      (λ (o : Option Text). elim o [
        | none ↦ none
        | some organization_id ↦ elim (upgrade_rows skills rows) [
          | none ↦ none
          | some vs ↦ some (with_organization row organization_id ∷ vs)
        ]
      ])
      (backfilled skills row k found)
    ∙ ap
        (λ (o : Option (List SkillVersion)). elim o [
          | none ↦ none
          | some vs ↦ some (with_organization row k.organization_id ∷ vs)
        ])
        done

-- Where every version row refers to a skill that is there, and the ids of skills differ, the upgrade of
-- the rows succeeds. No row is lost or changed but for its new column, so that dropping it leads back;
-- and a tenant sees a version through its skill exactly if the version's own column names its
-- organization.
pub upgrade_rows-IsOwned :
    (skills : List Skill) (rows : List VersionRow)
    → UniqueIds skills
    → All (HasSkill skills) rows
    → (versions : List SkillVersion) × (upgrade_rows skills rows ≡ some versions)
      × (map downgrade_row versions ≡ rows)
      × All (IsOwned skills) versions
unfolding upgrade_rows downgrade_row
upgrade_rows-IsOwned skills [] unique there = ([], refl, refl, tt)
upgrade_rows-IsOwned skills (row ∷ rows) unique (has, there) =
    let (versions, done, back, owned) = upgrade_rows-IsOwned skills rows unique there in
    elim (Option-cases (skill_at row.skill_id skills)) [
      | inl missing ↦ absurd (has missing)
      | inr (k, found) ↦ (
        with_organization row k.organization_id ∷ versions,
        upgraded_row skills row rows k versions found done,
        ap (λ rs. row ∷ rs) back,
        (with_organization-IsOwned skills row k unique found, owned),
      )
    ]
