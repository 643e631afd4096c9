-- ===== src/Registry/Clean.antt =====
-- What the registry keeps of the payloads that have passed the validation of app/schemas.py.
use jarvis_ai_coo.Prelude.{
  ◌≡◌, sym, subst, Text, Option, none, some, List, [], ◌∷◌, All, All-In, All-update, In-where,
  find-In, contains, text_eq, true, update, ◌==◌,
}
use jarvis_ai_coo.Strings.{strip}
use jarvis_ai_coo.Models.{Database, Skill, SkillVersion, ToolApproval, active, disabled}
use jarvis_ai_coo.Tenant.{TenantContext}
use jarvis_ai_coo.Database.{Env, Server, Result, ok, raised, owned_by, sees_version}
use jarvis_ai_coo.Skills.{draft_of, apply_changes, given, version_of, first_version, approval_of}
use jarvis_ai_coo.Schemas.Payloads.{SkillDraftUpdateIn}
use jarvis_ai_coo.Schemas.Sanitize.{allowed_tools}
use jarvis_ai_coo.Schemas.Bodies.Fields.{IsText, IsCatalogued, IsClean, Every}
use jarvis_ai_coo.Schemas.Bodies.Validated.{IsCleanDraft, IsCleanUpdate, IsCleanVersion}
use jarvis_ai_coo.Requests.{
  Request, create_draft, update_draft, create_version, Response, serve, serve_all,
}
use jarvis_ai_coo.Registry.Step.{Step, own_skill, own_version}
use jarvis_ai_coo.Registry.Refines.{Refines, serve-Refines}

module _ (env : Env) where
  abbrev pub IsCleanSkill : Skill → Type 0
  IsCleanSkill k = IsClean env k.name k.description k.department k.content k.requested_tools

  abbrev pub IsCleanRow : SkillVersion → Type 0
  IsCleanRow v = IsClean env v.name v.description v.department v.content v.requested_tools

abbrev pub IsAllowed : ToolApproval → Type 0
IsAllowed a = contains allowed_tools a.tool ≡ true

-- Every definition in the tables is as it may be stored, and only tools of the catalogue are approved.
pub record AllClean (env : Env) (db : Database) : Type 0 where
  pub skills : All (IsCleanSkill env) db.skills
  pub versions : All (IsCleanRow env) db.skill_versions
  pub approvals : All IsAllowed db.tool_approvals

-- The payload of the request has passed.
abbrev pub IsValidated : Env → Request → Type 0
IsValidated env (create_draft payload) = IsCleanDraft env payload
IsValidated env (update_draft id payload) = IsCleanUpdate env payload
IsValidated env (create_version id payload) = IsCleanVersion env payload
IsValidated env _ = Unit

given-Every :
    {A : Type 0} (P : A → Type 0) (o : Option A) (old : A) → Every P o → P old → P (given o old)
given-Every P none old h k = k
given-Every P (some new) old h k = h

edited-IsClean :
    (env : Env) (payload : SkillDraftUpdateIn) (old : Skill)
    → IsCleanUpdate env payload
    → IsCleanSkill env old
    → IsCleanSkill env (apply_changes payload old)
unfolding apply_changes
edited-IsClean env payload old u k = record {
  name_text = given-Every (IsText env 1 255) payload.name old.name u.name_text k.name_text;
  description_text =
      given-Every (IsText env 0 4000) payload.description old.description u.description_text
        k.description_text;
  department_text =
      given-Every (IsText env 1 128) payload.department old.department u.department_text
        k.department_text;
  content_text =
      given-Every (IsText env 1 50000) payload.content old.content u.content_text k.content_text;
  catalogued =
      given-Every IsCatalogued payload.requested_tools old.requested_tools u.catalogued
        k.catalogued;
}

module _ (env : Env) (context : TenantContext) (db : Database) (c : AllClean env db) where
  own_skill-IsClean :
      (id : Text) (k : Skill) → own_skill context id db ≡ some k → IsCleanSkill env k
  own_skill-IsClean id k found =
      let (m, _) = find-In (λ j. j.id == id) k _ found in
      All-In (IsCleanSkill env) k db.skills c.skills
        (In-where (λ j. owned_by (some context) j.organization_id) k db.skills m).0

  own_version-IsClean :
      (id : Text) (v : SkillVersion) → own_version context id db ≡ some v → IsCleanRow env v
  own_version-IsClean id v found =
      let (m, _) = find-In (λ j. j.id == id) v _ found in
      All-In (IsCleanRow env) v db.skill_versions c.versions
        (In-where (sees_version (some context) db.skills) v db.skill_versions m).0

  put-IsClean :
      (new : Skill)
      → IsCleanSkill env new
      → All (IsCleanSkill env) (update (λ k. k.id == new.id) (λ _. new) db.skills)
  put-IsClean new h =
      All-update (IsCleanSkill env) (IsCleanSkill env) (λ k. k.id == new.id) new db.skills
        (λ k n. n) h c.skills

  Step-AllClean :
      (request : Request) (db' : Database)
      → IsValidated env request
      → Step env context request db db'
      → AllClean env db'
  unfolding draft_of version_of first_version approval_of
  Step-AllClean request _ valid
        (Step.drafted payload id log_id created updated now detail free asked) =
      record {
        skills = (subst (IsValidated env) asked valid, c.skills);
        versions = c.versions;
        approvals = c.approvals;
      }
  Step-AllClean request _ valid
        (Step.edited payload old log_id updated now detail found is_draft given differ asked) =
      record {
        skills =
            put-IsClean (record (apply_changes payload old) { updated_at = updated })
              (edited-IsClean env payload old (subst (IsValidated env) asked valid)
                (own_skill-IsClean old.id old found));
        versions = c.versions;
        approvals = c.approvals;
      }
  Step-AllClean request _ valid
        (Step.edited_alike payload old log_id now detail found is_draft given alike asked) =
      record { skills = c.skills; versions = c.versions; approvals = c.approvals }
  Step-AllClean request _ valid (Step.nothing_given payload old found is_draft none_given asked) = c
  Step-AllClean request _ valid
        (Step.versioned payload skill number id log_id created now detail v found is_active is_next
          is free asked) =
      record {
        skills = c.skills;
        versions =
            (subst (IsCleanRow env) (sym is) (subst (IsValidated env) asked valid), c.versions);
        approvals = c.approvals;
      }
  Step-AllClean request _ valid
        (Step.replayed event log_id now skill_id version_id hash detail again owner) =
      record { skills = c.skills; versions = c.versions; approvals = c.approvals }
  Step-AllClean request _ valid
        (Step.approved version tool id log_id created now detail owner found requested new asked) =
      record {
        skills = c.skills;
        versions = c.versions;
        approvals = (
          (own_version-IsClean version.id version found).catalogued.known (env.lower (strip tool))
              requested,
          c.approvals,
        );
      }
  Step-AllClean request _ valid
        (Step.first_activated skill id log_id log_id' created updated now now' detail detail' v
          owner found is_draft is free asked) =
      record {
        skills =
            put-IsClean
              (record skill { status = active; active_version_id = some id; updated_at = updated })
              (own_skill-IsClean skill.id skill found);
        versions =
            (subst (IsCleanRow env) (sym is) (own_skill-IsClean skill.id skill found), c.versions);
        approvals = c.approvals;
      }
  Step-AllClean request _ valid
        (Step.activated skill version log_id updated now detail owner found not_disabled there of
          differ asked) =
      record {
        skills =
            put-IsClean
              (record skill {
                status = active;
                active_version_id = some version.id;
                updated_at = updated;
              })
              (own_skill-IsClean skill.id skill found);
        versions = c.versions;
        approvals = c.approvals;
      }
  Step-AllClean request _ valid
        (Step.retired skill log_id updated now detail owner found not_disabled asked) =
      record {
        skills =
            put-IsClean (record skill { status = disabled; updated_at = updated })
              (own_skill-IsClean skill.id skill found);
        versions = c.versions;
        approvals = c.approvals;
      }

Refines-AllClean :
    (env : Env) (context : TenantContext) (request : Request) (db db' : Database)
    (r : Result Response)
    → IsValidated env request
    → AllClean env db
    → Refines env context request db r db'
    → AllClean env db'
Refines-AllClean env context request db db' (ok _) valid c step =
    Step-AllClean env context db c request db' valid step
Refines-AllClean env context request db db' (raised _) valid c same =
    subst (AllClean env) (sym same) c

pub serve_all-AllClean :
    (env : Env) (requests : List (TenantContext × Request)) (server : Server)
    → All (λ (x : TenantContext × Request). IsValidated env x.1) requests
    → AllClean env server.database
    → AllClean env (serve_all env requests server).database
unfolding serve_all
serve_all-AllClean env [] server valid c = c
serve_all-AllClean env ((context, request) ∷ rest) server (valid, valid_rest) c =
    let (r, next) = serve env context request server in
    serve_all-AllClean env rest next valid_rest (
      Refines-AllClean env context request server.database next.database r valid c
        (serve-Refines env context request server))
