-- ===== src/Registry/Sound/Keeps.antt =====
-- What a new version and a new row of a skill leave as it was.
use jarvis_ai_coo.Prelude.{
  Text, ◌≡◌, ◌≢◌, refl, sym, ◌∙◌, Bool, Option, none, some, List, [], ◌∷◌, false, true, ◌||◌, ◌&&◌,
  ◌==◌, text_eq, nat_eq, find, where_, ◌⊎◌, inl, inr, arith,
}
use jarvis_ai_coo.Models.{SkillStatus, draft, active, disabled, Skill, SkillVersion, ToolApproval}
use jarvis_ai_coo.Tenant.{TenantContext}
use jarvis_ai_coo.Database.{Env, exists, sees_version}
use jarvis_ai_coo.Lifecycle.{can_transition, can_transition-eq-stage}
use jarvis_ai_coo.Registry.Rows.{skill_at, UniqueIds}
use jarvis_ai_coo.Registry.Evolution.{Evolves, Later}
use jarvis_ai_coo.Registry.Sound.Defs.{
  version_at, UniqueVersions, IsSnapshot, Names, Points, PointsToVersion, IsRequested,
}

-- A skill that evolves does not return to the draft state.
released : (k k' : Skill) → Evolves k k' → k.status ≢ draft → k'.status ≢ draft
released k k' e n = still k.status k'.status e.status n
  where
    still : (a b : SkillStatus) → (b ≡ a) ⊎ (can_transition a b ≡ true) → a ≢ draft → b ≢ draft
    still a b p n = ground (arith, can_transition-eq-stage a b)

pub IsSnapshot-Later :
    (env : Env) (ks ks' : List Skill) (v : SkillVersion)
    → Later ks ks'
    → IsSnapshot env ks v
    → IsSnapshot env ks' v
IsSnapshot-Later env ks ks' v (_, later) s =
    let (k', found, e) = later v.skill_id s.owner s.found in
    record {
      owner = k';
      found = found;
      organization_id = e.organization_id ∙ s.organization_id;
      released = released s.owner k' e s.released;
      numbered = s.numbered;
      hash = s.hash;
    }

-- the id of a new version is new
fresh_id :
    (v : SkillVersion) (vs : List SkillVersion)
    → exists
        (λ w. w.id == v.id || w.skill_id == v.skill_id && w.version_number == v.version_number)
        vs
      ≡ false
    → version_at v.id vs ≡ none
unfolding exists find
fresh_id v [] h = refl
fresh_id v (w ∷ vs) h = ground (arith, fresh_id v vs)

pub version_at-add :
    (v w : SkillVersion) (id : Text) (vs : List SkillVersion)
    → exists
        (λ w. w.id == v.id || w.skill_id == v.skill_id && w.version_number == v.version_number)
        vs
      ≡ false
    → version_at id vs ≡ some w
    → version_at id (v ∷ vs) ≡ some w
unfolding find
version_at-add v w id vs free h = ground (arith, fresh_id v vs free)

-- A row of the versions that is found by a tenant is the row of its id.
pub version_at-where :
    (q : SkillVersion → Bool) (id : Text) (vs : List SkillVersion) (v : SkillVersion)
    → UniqueVersions vs
    → find (λ v. v.id == id) (where_ q vs) ≡ some v
    → version_at id vs ≡ some v
unfolding find where_
version_at-where q id [] v u h = cc
version_at-where q id (w ∷ vs) v u h =
    ground (arith, version_at-where q id vs v u.1, nowhere q id vs v, fresh_id w vs u.0)
  where
    nowhere :
        (q : SkillVersion → Bool) (id : Text) (vs : List SkillVersion) (v : SkillVersion)
        → version_at id vs ≡ none
        → find (λ v. v.id == id) (where_ q vs) ≢ some v
    nowhere q id [] v h = λ e. cc
    nowhere q id (x ∷ xs) v h = ground (arith, nowhere q id xs v)

-- What one version more leaves true.
module _ (v : SkillVersion) (vs : List SkillVersion)
    (free : exists
        (λ w. w.id == v.id || w.skill_id == v.skill_id && w.version_number == v.version_number)
        vs
      ≡ false) where
  Names-add :
      (skill_id : Text) (id : Option Text) → Names vs skill_id id → Names (v ∷ vs) skill_id id
  Names-add skill_id id (w, there, named, of) =
      (w, version_at-add v w w.id vs free there, named, of)

  pub PointsToVersion-add : (k : Skill) → PointsToVersion vs k → PointsToVersion (v ∷ vs) k
  PointsToVersion-add k p = by_status k.status p
    where
      by_status :
          (s : SkillStatus)
          → Points vs k.id k.active_version_id s
          → Points (v ∷ vs) k.id k.active_version_id s
      by_status draft p = p
      by_status active p = Names-add k.id k.active_version_id p
      by_status disabled (inl n) = inl n
      by_status disabled (inr n) = inr (Names-add k.id k.active_version_id n)

  pub IsRequested-add : (a : ToolApproval) → IsRequested vs a → IsRequested (v ∷ vs) a
  IsRequested-add a r = record {
    version = r.version;
    found = version_at-add v r.version a.version_id vs free r.found;
    requested = r.requested;
    skill_id = r.skill_id;
    organization_id = r.organization_id;
  }

nobody :
    (id org : Text) (ks : List Skill)
    → skill_at id ks ≡ none
    → exists (λ k. k.id == id && k.organization_id == org) ks ≡ false
unfolding find exists
nobody id org [] h = refl
nobody id org (k ∷ ks) h = ground (arith, nobody id org ks)

owner-organization :
    (id org : Text) (ks : List Skill) (k : Skill)
    → UniqueIds ks
    → skill_at id ks ≡ some k
    → exists (λ k. k.id == id && k.organization_id == org) ks ≡ true
    → k.organization_id ≡ org
unfolding find exists
owner-organization id org [] k u h e = cc
owner-organization id org (j ∷ ks) k u h e =
    ground (arith, owner-organization id org ks k u.1, nobody id org ks)

-- The organization of a version that a tenant sees is the tenant's.
pub seen_version :
    (env : Env) (context : TenantContext) (skills : List Skill) (v : SkillVersion)
    → UniqueIds skills
    → IsSnapshot env skills v
    → sees_version (some context) skills v ≡ true
    → v.organization_id ≡ context.organization_id
unfolding sees_version
seen_version env context skills v u s h =
    sym s.organization_id
    ∙ owner-organization v.skill_id context.organization_id skills s.owner u s.found h
