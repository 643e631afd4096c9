-- ===== src/Registry/Sound/Rows.antt =====
-- Single rows of sound tables, before and after a step.
use jarvis_ai_coo.Prelude.{
  ℕ, ◌+◌, Text, ◌≡◌, refl, sym, ap, ◌∙◌, subst, Option, none, some, List, [], ◌∷◌, All, All-map,
  All-find, All-update, ◌&&◌, ◌==◌, text_eq, nat_eq, find, where_, inl, inr, arith, Bool-cases,
}
use jarvis_ai_coo.Models.{
  SkillStatus, draft, active, disabled, Skill, SkillVersion, ToolApproval, Database,
}
use jarvis_ai_coo.Schemas.Payloads.{SkillVersionCreateIn}
use jarvis_ai_coo.Tenant.{TenantContext}
use jarvis_ai_coo.Database.{Env, owned_by, sees_version}
use jarvis_ai_coo.Skills.{version_of, first_version}
use jarvis_ai_coo.Registry.Rows.{skill_at, skill_at-where, skill_at-put}
use jarvis_ai_coo.Registry.Step.{put_skill, own_skill, own_version}
use jarvis_ai_coo.Registry.Lookup.{find_where_passes}
use jarvis_ai_coo.Registry.Evolution.{Later}
use jarvis_ai_coo.Registry.Sound.Defs.{
  version_at, IsSnapshot, Names, Points, PointsToVersion, IsRequested, IsSound,
}
use jarvis_ai_coo.Registry.Sound.Keeps.{IsSnapshot-Later, version_at-where, seen_version}

-- With the approvals in order, a tool that has no approval that the tenant sees has none.
pub approval_absent :
    (context : TenantContext) (vs : List SkillVersion) (v : SkillVersion) (tool : Text)
    (rows : List ToolApproval)
    → version_at v.id vs ≡ some v
    → v.organization_id ≡ context.organization_id
    → All (IsRequested vs) rows
    → find
        (λ a. a.version_id == v.id && a.tool == tool)
        (where_ (λ a. owned_by (some context) a.organization_id) rows)
      ≡ none
    → find (λ a. a.version_id == v.id && a.tool == tool) rows ≡ none
unfolding find where_ owned_by
approval_absent context vs v tool [] there own all h = refl
approval_absent context vs v tool (a ∷ rows) there own (r, all) h =
    elim (Bool-cases (a.version_id == v.id)) [
      | inl same ↦
          let id : a.version_id ≡ v.id = ground arith in
          let is : r.version ≡ v =
            cc (subst (λ j. version_at j vs ≡ some r.version) id r.found, there) in
          let org : a.organization_id ≡ context.organization_id =
            r.organization_id ∙ (ap (λ (x : SkillVersion). x.organization_id) is ∙ own) in
          ground (arith, approval_absent context vs v tool rows there own all)
      | inr other ↦ ground (arith, approval_absent context vs v tool rows there own all)
    ]

module _ (env : Env) (db : Database) (s : IsSound env db) where
  -- the versions, after a step that adds none
  pub snapshots : (ks : List Skill) → Later db.skills ks → All (IsSnapshot env ks) db.skill_versions
  snapshots ks later =
      All-map (IsSnapshot env db.skills) (IsSnapshot env ks) db.skill_versions
        (λ v. IsSnapshot-Later env db.skills ks v later) s.versions

  -- a row of a skill is replaced
  pub replaced :
      (new : Skill)
      → PointsToVersion db.skill_versions new
      → All (PointsToVersion db.skill_versions) (put_skill new db.skills)
  replaced new p =
      All-update (PointsToVersion db.skill_versions) (PointsToVersion db.skill_versions)
        (λ k. k.id == new.id) new db.skills (λ k q. q) p s.pointers

  module _ (context : TenantContext) where
    -- the tenant's skill is the row of its id, and points to its version
    pub own_row :
        (id : Text) (k : Skill) → own_skill context id db ≡ some k → skill_at id db.skills ≡ some k
    own_row id k found =
        skill_at-where (λ j. owned_by (some context) j.organization_id) id db.skills k s.skill_ids
          found

    pub pointer :
        (id : Text) (k : Skill)
        → own_skill context id db ≡ some k
        → PointsToVersion db.skill_versions k
    pointer id k found =
        All-find (PointsToVersion db.skill_versions) (λ j. j.id == id) db.skills k s.pointers
          (own_row id k found)

    pub own_version_row :
        (v : SkillVersion)
        → own_version context v.id db ≡ some v
        → version_at v.id db.skill_versions ≡ some v
    own_version_row v found =
        version_at-where (sees_version (some context) db.skills) v.id db.skill_versions v
          s.version_ids found

    pub own_version_organization :
        (v : SkillVersion)
        → own_version context v.id db ≡ some v
        → v.organization_id ≡ context.organization_id
    own_version_organization v found =
        seen_version env context db.skills v s.skill_ids
          (All-find (IsSnapshot env db.skills) (λ w. w.id == v.id) db.skill_versions v s.versions
            (own_version_row v found))
          (find_where_passes (λ w. w.id == v.id) (sees_version (some context) db.skills)
            db.skill_versions v found)

pub put_row :
    (new old : Skill) (ks : List Skill)
    → skill_at new.id ks ≡ some old
    → skill_at new.id (put_skill new ks) ≡ some new
put_row new old ks h = ground (arith, skill_at-put new new.id ks old)

version_at_self : (v : SkillVersion) (vs : List SkillVersion) → version_at v.id (v ∷ vs) ≡ some v
unfolding find
version_at_self v vs = ground arith

-- a disabled skill keeps what it pointed to
pub disabled-Points :
    (vs : List SkillVersion) (skill_id : Text) (id : Option Text) (status : SkillStatus)
    → Points vs skill_id id status
    → Points vs skill_id id disabled
disabled-Points vs skill_id id draft p = inl p
disabled-Points vs skill_id id active p = inr p
disabled-Points vs skill_id id disabled p = p

-- the two new versions
pub versioned-IsSnapshot :
    (env : Env) (context : TenantContext) (skills : List Skill) (payload : SkillVersionCreateIn)
    (skill : Skill) (number highest : ℕ) (id : Text) (created : ℕ) (v : SkillVersion)
    → skill_at skill.id skills ≡ some skill
    → skill.status ≡ active
    → number ≡ highest + 1
    → v ≡ version_of env id created skill number payload context
    → IsSnapshot env skills v
unfolding version_of
versioned-IsSnapshot env context skills payload skill number highest id created v found is_active n
      is =
    subst (IsSnapshot env skills) (sym is) (record {
      owner = skill;
      found = found;
      organization_id = refl;
      released = λ e. cc (e, is_active);
      numbered = omega (arith, n);
      hash = refl;
    })

pub first-IsSnapshot :
    (env : Env) (context : TenantContext) (skills : List Skill) (skill owner : Skill) (id : Text)
    (created : ℕ) (v : SkillVersion)
    → skill_at skill.id skills ≡ some owner
    → owner.organization_id ≡ skill.organization_id
    → owner.status ≡ active
    → v ≡ first_version env id created skill context
    → IsSnapshot env skills v
unfolding first_version
first-IsSnapshot env context skills skill owner id created v found same is_active is =
    subst (IsSnapshot env skills) (sym is) (record {
      owner = owner;
      found = found;
      organization_id = same;
      released = λ e. cc (e, is_active);
      numbered = omega arith;
      hash = refl;
    })

pub first_named :
    (env : Env) (context : TenantContext) (vs : List SkillVersion) (skill : Skill) (id : Text)
    (created : ℕ) (v : SkillVersion)
    → v ≡ first_version env id created skill context
    → Names (v ∷ vs) skill.id (some id)
unfolding first_version
first_named env context vs skill id created v is = (
  v,
  version_at_self v vs,
  sym (ap (λ (x : SkillVersion). some x.id) is),
  ap (λ (x : SkillVersion). x.skill_id) is,
)
