-- ===== src/Registry/Members.antt =====
-- What members who own nothing can do to a skill's standing.
use jarvis_ai_coo.Prelude.{
  Text, ◌≡◌, refl, sym, ◌∙◌, subst, false, none, some, List, [], ◌∷◌, find, where_, ◌==◌, text_eq,
  arith, inl, inr, Bool-cases,
}
use jarvis_ai_coo.Models.{Database, Skill}
use jarvis_ai_coo.Tenant.{TenantContext, is_owner}
use jarvis_ai_coo.Database.{Env, Server, Result, ok, raised, owned_by}
use jarvis_ai_coo.Skills.{apply_changes, draft_of}
use jarvis_ai_coo.Requests.{Request, Response, serve, serve_all}
use jarvis_ai_coo.Registry.Step.{Step, put_skill}
use jarvis_ai_coo.Registry.Rows.{skill_at, UniqueIds, absent, skill_at-put, skill_at-where}
use jarvis_ai_coo.Registry.Reads.{same_id}
use jarvis_ai_coo.Registry.Refines.{Refines, serve-Refines}
use jarvis_ai_coo.Registry.Evolution.{Refines-Later}

-- No caller of the list is an owner.
abbrev pub NoOwner : List (TenantContext × Request) → Type 0
NoOwner [] = Unit
NoOwner ((context, _) ∷ rest) = (is_owner context ≡ false) × NoOwner rest

-- A skill's status and active version are the same in two rows.
pub record SameStanding (k k' : Skill) : Type 0 where
  pub status : k'.status ≡ k.status
  pub active_version_id : k'.active_version_id ≡ k.active_version_id

pub SameStanding-trans : {k l m : Skill} → SameStanding k l → SameStanding l m → SameStanding k m
SameStanding-trans p q = record {
  status = q.status ∙ p.status;
  active_version_id = q.active_version_id ∙ p.active_version_id;
}

abbrev Kept : List Skill → List Skill → Type 0
Kept ks ks' =
    (id : Text) (k : Skill)
    → skill_at id ks ≡ some k
    → (k' : Skill) × (skill_at id ks' ≡ some k') × SameStanding k k'

same_rows : (ks : List Skill) → Kept ks ks
same_rows ks id k h = (k, h, record { status = refl; active_version_id = refl })

added : (new : Skill) (ks : List Skill) → skill_at new.id ks ≡ none → Kept ks (new ∷ ks)
unfolding find
added new ks free id k h = (k, ground arith, record { status = refl; active_version_id = refl })

edited_row :
    (context : TenantContext) (old new : Skill) (ks : List Skill)
    → UniqueIds ks
    → skill_at old.id (where_ (λ k. owned_by (some context) k.organization_id) ks) ≡ some old
    → new.id ≡ old.id
    → SameStanding old new
    → Kept ks (put_skill new ks)
edited_row context old new ks u found same e id k h = elim (Bool-cases (new.id == id)) [
  | inl hit ↦
      let moved : skill_at old.id ks ≡ some k =
        subst (λ j. skill_at j ks ≡ some k) (sym (same_id hit) ∙ same) h in
      let there : skill_at old.id ks ≡ some old =
        skill_at-where (λ j. owned_by (some context) j.organization_id) old.id ks old u found in
      let is_old : old ≡ k = cc (moved, there) in
      (new, rw hit at (skill_at-put new id ks k h), subst (λ j. SameStanding j new) is_old e)
  | inr miss ↦ (
    k,
    rw miss at (skill_at-put new id ks k h),
    record { status = refl; active_version_id = refl },
  )
]

Step-Kept :
    {env : Env} {context : TenantContext} {request : Request} {db db' : Database}
    → is_owner context ≡ false
    → UniqueIds db.skills
    → Step env context request db db'
    → Kept db.skills db'.skills × (db'.tool_approvals ≡ db.tool_approvals)
unfolding draft_of apply_changes
Step-Kept {db = db} member u
      (Step.drafted payload id log_id created updated now detail free asked) =
    (added _ db.skills (absent id db.skills free), refl)
Step-Kept {context = context} {db = db} member u
      (Step.edited payload old log_id updated now detail found is_draft given differ asked) =
    (
      edited_row context old _ db.skills u found refl
          (record { status = refl; active_version_id = refl }),
      refl,
    )
Step-Kept {db = db} member u
      (Step.edited_alike payload old log_id now detail found is_draft given alike asked) =
    (same_rows db.skills, refl)
Step-Kept {db = db} member u (Step.nothing_given payload old found is_draft none_given asked) =
    (same_rows db.skills, refl)
Step-Kept {db = db} member u
      (Step.versioned payload skill number id log_id created now detail v found is_active n is free
        asked) =
    (same_rows db.skills, refl)
Step-Kept member u (Step.replayed event log_id now skill_id version_id hash detail again owner) =
    cc (member, owner)
Step-Kept member u
      (Step.approved version tool id log_id created now detail owner found requested new asked) =
    cc (member, owner)
Step-Kept member u
      (Step.first_activated skill id log_id log_id' created updated now now' detail detail' v owner
        found is_draft is free asked) =
    cc (member, owner)
Step-Kept member u
      (Step.activated skill version log_id updated now detail owner found not_disabled there of
        differ asked) =
    cc (member, owner)
Step-Kept member u (Step.retired skill log_id updated now detail owner found not_disabled asked) =
    cc (member, owner)

Refines-Kept :
    (env : Env) (context : TenantContext) (request : Request) (db db' : Database)
    (r : Result Response)
    → is_owner context ≡ false
    → UniqueIds db.skills
    → Refines env context request db r db'
    → Kept db.skills db'.skills × (db'.tool_approvals ≡ db.tool_approvals)
Refines-Kept env context request db db' (ok _) member u step = Step-Kept member u step
Refines-Kept env context request db db' (raised _) member u same =
    subst (λ (d : Database). Kept db.skills d.skills × (d.tool_approvals ≡ db.tool_approvals))
      (sym same) (same_rows db.skills, refl)

-- Over any requests of callers who are not owners, of any organizations, from tables in which no skill
-- id stands twice: a skill keeps its status and its active version, and no tool approval is added.
pub serve_all-SameStanding :
    (env : Env) (requests : List (TenantContext × Request)) (server : Server) (id : Text)
    (k : Skill)
    → NoOwner requests
    → UniqueIds server.database.skills
    → skill_at id server.database.skills ≡ some k
    → ((k' : Skill) × (skill_at id (serve_all env requests server).database.skills ≡ some k')
        × SameStanding k k')
      × ((serve_all env requests server).database.tool_approvals ≡ server.database.tool_approvals)
unfolding serve_all
serve_all-SameStanding env [] server id k n u h =
    ((k, h, record { status = refl; active_version_id = refl }), refl)
serve_all-SameStanding env ((context, request) ∷ rest) server id k (member, n) u h =
    let (r, next) = serve env context request server in
    let step : Refines env context request server.database r next.database =
      serve-Refines env context request server in
    let (kept, approvals) =
      Refines-Kept env context request server.database next.database r member u step in
    let (l, at_l, kl) = kept id k h in
    let ((m, at_m, lm), later) =
      serve_all-SameStanding env rest next id l n
        (Refines-Later env context request server.database next.database r u step).0 at_l in
    ((m, at_m, SameStanding-trans kl lm), later ∙ approvals)
