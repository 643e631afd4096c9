-- ===== src/Registry/Isolation.antt =====
-- The requests of one tenant and the rows of the others.
use jarvis_ai_coo.Prelude.{
  Text, ◌≡◌, ◌≢◌, refl, sym, ap, ◌∙◌, subst, Bool, false, some, List, [], ◌∷◌, where_, ◌==◌,
  text_eq, arith,
}
use jarvis_ai_coo.Models.{Database, Skill, SkillVersion, ToolApproval, AuditLog}
use jarvis_ai_coo.Tenant.{TenantContext}
use jarvis_ai_coo.Database.{Env, Server, Result, ok, raised, owned_by}
use jarvis_ai_coo.Skills.{apply_changes, draft_of, version_of, first_version, approval_of}
use jarvis_ai_coo.Audit.{entry_of}
use jarvis_ai_coo.Requests.{Request, Response, serve, serve_all}
use jarvis_ai_coo.Registry.Step.{Step, put_skill}
use jarvis_ai_coo.Registry.Lookup.{find_where_passes}
use jarvis_ai_coo.Registry.Rows.{skill_at, UniqueIds, skill_at-where, where-put}
use jarvis_ai_coo.Registry.Refines.{Refines, serve-Refines}
use jarvis_ai_coo.Registry.Evolution.{Refines-Later}

-- The rows of an organization.
abbrev pub skills_of : Text → Database → List Skill
skills_of org db = where_ (λ k. k.organization_id == org) db.skills

abbrev pub versions_of_org : Text → Database → List SkillVersion
versions_of_org org db = where_ (λ v. v.organization_id == org) db.skill_versions

abbrev pub approvals_of : Text → Database → List ToolApproval
approvals_of org db = where_ (λ a. a.organization_id == org) db.tool_approvals

abbrev pub audit_logs_of : Text → Database → List AuditLog
audit_logs_of org db = where_ (λ a. a.organization_id == org) db.audit_logs

-- Two databases hold the same rows of an organization, in every tenant-scoped table.
pub record SameFor (org : Text) (db db' : Database) : Type 0 where
  pub skills : skills_of org db' ≡ skills_of org db
  pub versions : versions_of_org org db' ≡ versions_of_org org db
  pub approvals : approvals_of org db' ≡ approvals_of org db
  pub audit_logs : audit_logs_of org db' ≡ audit_logs_of org db

SameFor-trans :
    {org : Text} {a b c : Database} → SameFor org a b → SameFor org b c → SameFor org a c
SameFor-trans p q = record {
  skills = q.skills ∙ p.skills;
  versions = q.versions ∙ p.versions;
  approvals = q.approvals ∙ p.approvals;
  audit_logs = q.audit_logs ∙ p.audit_logs;
}

-- a row that another tenant adds is not seen
where-skip :
    {A : Type 0} (q : A → Bool) (x : A) (xs : List A)
    → q x ≡ false
    → where_ q (x ∷ xs) ≡ where_ q xs
unfolding where_
where-skip q x xs h = rw h

module _ (context : TenantContext) (org : Text) (other : context.organization_id ≢ org) where
  foreign : (owner : Text) → owner ≡ context.organization_id → (owner == org) ≡ false
  foreign owner e = ground arith

  found_owner :
      (skills : List Skill) (id : Text) (k : Skill)
      → skill_at id (where_ (λ j. owned_by (some context) j.organization_id) skills) ≡ some k
      → k.organization_id ≡ context.organization_id
  unfolding owned_by
  found_owner skills id k h = ground (
    arith,
    find_where_passes (λ j. j.id == id) (λ j. owned_by (some context) j.organization_id) skills k h,
  )

  put_foreign :
      (old new : Skill) (skills : List Skill)
      → UniqueIds skills
      → skill_at old.id (where_ (λ k. owned_by (some context) k.organization_id) skills) ≡ some old
      → new.id ≡ old.id
      → new.organization_id ≡ old.organization_id
      → where_ (λ k. k.organization_id == org) (put_skill new skills)
        ≡ where_ (λ k. k.organization_id == org) skills
  put_foreign old new skills u found same_id same_owner =
      where-put (λ k. k.organization_id == org) new old skills u
        (subst (λ j. skill_at j skills ≡ some old) (sym same_id)
          (skill_at-where (λ k. owned_by (some context) k.organization_id) old.id skills old u
            found))
        (foreign old.organization_id (found_owner skills old.id old found))
        (foreign new.organization_id (same_owner ∙ found_owner skills old.id old found))

  log_skip :
      (a : AuditLog) (logs : List AuditLog)
      → a.organization_id ≡ context.organization_id
      → where_ (λ b. b.organization_id == org) (a ∷ logs)
        ≡ where_ (λ b. b.organization_id == org) logs
  log_skip a logs e =
      where-skip (λ b. b.organization_id == org) a logs (foreign a.organization_id e)

  Step-SameFor :
      {env : Env} {request : Request} {db db' : Database}
      → UniqueIds db.skills
      → Step env context request db db'
      → SameFor org db db'
  unfolding draft_of apply_changes version_of first_version approval_of entry_of
  Step-SameFor {db = db} u (Step.drafted payload id log_id created updated now detail free asked) =
      record {
        skills = where-skip (λ k. k.organization_id == org) _ db.skills (foreign _ refl);
        versions = refl;
        approvals = refl;
        audit_logs = log_skip _ db.audit_logs refl;
      }
  Step-SameFor {db = db} u
        (Step.edited payload old log_id updated now detail found is_draft given differ asked) =
      record {
        skills = put_foreign old _ db.skills u found refl refl;
        versions = refl;
        approvals = refl;
        audit_logs = log_skip _ db.audit_logs refl;
      }
  Step-SameFor {db = db} u
        (Step.edited_alike payload old log_id now detail found is_draft given alike asked) =
      record {
        skills = refl;
        versions = refl;
        approvals = refl;
        audit_logs = log_skip _ db.audit_logs refl;
      }
  Step-SameFor u (Step.nothing_given payload old found is_draft none_given asked) = record {
    skills = refl;
    versions = refl;
    approvals = refl;
    audit_logs = refl;
  }
  Step-SameFor {db = db} u
        (Step.versioned payload skill number id log_id created now detail v found is_active n is
          free asked) =
      record {
        skills = refl;
        versions =
            where-skip (λ w. w.organization_id == org) v db.skill_versions
              (foreign _ (
                ap (λ (x : SkillVersion). x.organization_id) is
                ∙ found_owner db.skills skill.id skill found));
        approvals = refl;
        audit_logs = log_skip _ db.audit_logs refl;
      }
  Step-SameFor {db = db} u
        (Step.replayed event log_id now skill_id version_id hash detail again owner) =
      record {
        skills = refl;
        versions = refl;
        approvals = refl;
        audit_logs = log_skip _ db.audit_logs refl;
      }
  Step-SameFor {db = db} u
        (Step.approved version tool id log_id created now detail owner found requested new asked) =
      record {
        skills = refl;
        versions = refl;
        approvals = where-skip (λ a. a.organization_id == org) _ db.tool_approvals (foreign _ refl);
        audit_logs = log_skip _ db.audit_logs refl;
      }
  Step-SameFor {db = db} u
        (Step.first_activated skill id log_id log_id' created updated now now' detail detail' v
          owner found is_draft is free asked) =
      record {
        skills = put_foreign skill _ db.skills u found refl refl;
        versions =
            where-skip (λ w. w.organization_id == org) v db.skill_versions
              (foreign _ (
                ap (λ (x : SkillVersion). x.organization_id) is
                ∙ found_owner db.skills skill.id skill found));
        approvals = refl;
        audit_logs = log_skip _ _ refl ∙ log_skip _ db.audit_logs refl;
      }
  Step-SameFor {db = db} u
        (Step.activated skill version log_id updated now detail owner found not_disabled there of
          differ asked) =
      record {
        skills = put_foreign skill _ db.skills u found refl refl;
        versions = refl;
        approvals = refl;
        audit_logs = log_skip _ db.audit_logs refl;
      }
  Step-SameFor {db = db} u
        (Step.retired skill log_id updated now detail owner found not_disabled asked) =
      record {
        skills = put_foreign skill _ db.skills u found refl refl;
        versions = refl;
        approvals = refl;
        audit_logs = log_skip _ db.audit_logs refl;
      }

  Refines-SameFor :
      (env : Env) (request : Request) (db db' : Database) (r : Result Response)
      → UniqueIds db.skills
      → Refines env context request db r db'
      → SameFor org db db'
  Refines-SameFor env request db db' (ok _) u step = Step-SameFor u step
  Refines-SameFor env request db db' (raised _) u same =
      subst (SameFor org db) (sym same)
        (record { skills = refl; versions = refl; approvals = refl; audit_logs = refl })

-- No request of the list comes from the organization.
abbrev pub NoneFrom : Text → List (TenantContext × Request) → Type 0
NoneFrom org [] = Unit
NoneFrom org ((context, _) ∷ rest) = (context.organization_id ≢ org) × NoneFrom org rest

-- Whatever the tenants of other organizations request, in any order, with any ids: the skills,
-- versions, approvals and audit rows of an organization stay exactly what they were. The tables are
-- ones in which no skill id stands twice.
pub serve_all-SameFor :
    (env : Env) (org : Text) (requests : List (TenantContext × Request)) (server : Server)
    → UniqueIds server.database.skills
    → NoneFrom org requests
    → SameFor org server.database (serve_all env requests server).database
unfolding serve_all
serve_all-SameFor env org [] server u n = record {
  skills = refl;
  versions = refl;
  approvals = refl;
  audit_logs = refl;
}
serve_all-SameFor env org ((context, request) ∷ rest) server u (other, n) =
    let (r, next) = serve env context request server in
    SameFor-trans
      (Refines-SameFor context org other env request _ _ r u
        (serve-Refines env context request server))
      (serve_all-SameFor env org rest next
        (Refines-Later env context request _ _ r u (serve-Refines env context request server)).0 n)
