-- ===== src/Registry/Refines/Versions.antt =====
-- `create_skill_version` and `approve_tool` refine the registry's steps.
use jarvis_ai_coo.Prelude.{
  ◌+◌, Text, ◌≡◌, ◌≢◌, refl, sym, ap, subst, Bool, true, false, not, Option, none, some, List, ◌∷◌,
  find, where_, contains, ◌==◌, text_eq, nat_eq, arith,
}
use jarvis_ai_coo.Models.{
  SkillStatus, draft, active, disabled, Database, Skill, SkillVersion, ToolApproval,
  tool_approval_replayed,
}
use jarvis_ai_coo.Tenant.{TenantContext, is_owner}
use jarvis_ai_coo.Lifecycle.{status_eq}
use jarvis_ai_coo.Database.{Env, Session, owned_by, sees_version}
use jarvis_ai_coo.Strings.{strip}
use jarvis_ai_coo.Schemas.Payloads.{SkillVersionCreateIn}
use jarvis_ai_coo.Skills.{
  max_number, max_version, version_of, find_approval, approval_of, grant, approve_tool,
  create_skill_version,
}
use jarvis_ai_coo.Requests.{create_version, approve}
use jarvis_ai_coo.Registry.Step.{Step, own_version, own_versions, own_approval, IsReplay}
use jarvis_ai_coo.Registry.Lookup.{find_where_passes, find_of_find, exists_of_find}
use jarvis_ai_coo.Registry.Ends.{
  bind-Ends, pure-Ends, gets-Ends, raise_if-Ends, Open, new_uuid-Ends, utcnow-Ends, commit-Ends,
}
use jarvis_ai_coo.Registry.Writes.{insert_version-Ends, insert_approval-Ends, record_audit-Ends}
use jarvis_ai_coo.Registry.Reads.{
  get_skill_or_404-Ends, get_version_or_404-Ends, refresh_version-Ends, refresh_approval-Ends,
  select_own_versions, select_own_approvals,
}
use jarvis_ai_coo.Registry.Refines.Shared.{eq_self, owned, Steps}
use jarvis_ai_coo.Registry.Refines.Owner.{require_owner-Ends}

is_active : (status : SkillStatus) → not (status == active) ≡ false → status ≡ active
unfolding status_eq
is_active draft e = cc
is_active active e = refl
is_active disabled e = cc

holds : {b : Bool} → not b ≡ false → b ≡ true
holds h = ground arith

-- A version of a skill that the tenant sees is one that the tenant sees.
sees_own_version :
    (context : TenantContext) (skill : Skill) (skills : List Skill) (v : SkillVersion)
    → find (λ k. k.id == skill.id) (where_ (owned context) skills) ≡ some skill
    → v.skill_id ≡ skill.id
    → sees_version (some context) skills v ≡ true
unfolding sees_version owned_by
sees_own_version context skill skills v found same =
    exists_of_find (λ k. k.id == skill.id) (owned context) _ skills skill found
      (ground (arith, find_where_passes (λ k. k.id == skill.id) (owned context) skills skill found))

own_version-add :
    (context : TenantContext) (skills : List Skill) (v : SkillVersion)
    (versions : List SkillVersion)
    → sees_version (some context) skills v ≡ true
    → find (λ w. w.id == v.id) (where_ (sees_version (some context) skills) (v ∷ versions)) ≢ none
unfolding find where_
own_version-add context skills v versions seen = ground arith

max_version-own :
    {context : TenantContext} {db : Database} (id : Text) (t : Session)
    → t.tenant ≡ some context
    → t.working ≡ db
    → max_version id t ≡ max_number (where_ (λ v. v.skill_id == id) (own_versions context db))
unfolding max_version
max_version-own id t e f = rw (select_own_versions t e f)

module _ (env : Env) (context : TenantContext) (db : Database) (s : Session)
    (h : Open context db db s) where
  pub create_skill_version-Steps :
      (id : Text) (payload : SkillVersionCreateIn)
      → Steps env context
          (create_version id payload)
          db
          (create_skill_version env id payload context)
          s
  unfolding create_skill_version version_of
  create_skill_version-Steps id payload =
      bind-Ends _ _ (get_skill_or_404-Ends h id) λ skill t (o, found, same).
        bind-Ends _ _ (raise_if-Ends {P = Open context db db} _ _ o.stored o) λ _ t (o, checked).
          bind-Ends _ _
            (gets-Ends
              {Q = λ n u.
                Open context db db u
                × (n ≡ max_number (where_ (λ v. v.skill_id == skill.id) (own_versions context db)))}
              _ (o, max_version-own skill.id t o.tenant o.working))
            λ highest t (o, is_max). bind-Ends _ _ (new_uuid-Ends o env) λ new_id t o.
              bind-Ends _ _ (utcnow-Ends o env) λ created t o.
                let v = version_of env new_id created skill (highest + 1) payload context in
                bind-Ends _ _ (insert_version-Ends o v) λ _ t (o, fresh).
                  bind-Ends _ _ (record_audit-Ends o env _ _ _ _ _) λ _ t (log_id, now, o).
                    bind-Ends _ _ (commit-Ends o) λ _ t c.
                      bind-Ends _ _
                        (refresh_version-Ends c v.id (
                          own_version-add context db.skills v db.skill_versions
                            (sees_own_version context skill db.skills v found refl)))
                        λ row t c. pure-Ends _ (
                          subst (Step env context (create_version id payload) db) (sym c.stored) (
                            Step.versioned payload skill (highest + 1) new_id log_id created now _ v
                              found (is_active skill.status checked) (ap (λ n. n + 1) is_max) refl
                              fresh (ap (λ i. create_version i payload) (sym same))))

-- The approvals that the tenant sees.
abbrev own_approvals : TenantContext → Database → List ToolApproval
own_approvals context db = where_ (λ a. owned_by (some context) a.organization_id) db.tool_approvals

own_approval-add :
    (context : TenantContext) (a : ToolApproval) (approvals : List ToolApproval)
    → a.organization_id ≡ context.organization_id
    → find
        (λ b. b.id == a.id)
        (where_ (λ b. owned_by (some context) b.organization_id) (a ∷ approvals))
      ≢ none
unfolding find where_ owned_by
own_approval-add context a approvals e = ground arith

find_approval-own :
    {context : TenantContext} {db : Database} (version_id tool : Text) (t : Session)
    → t.tenant ≡ some context
    → t.working ≡ db
    → find_approval version_id tool t ≡ own_approval context version_id tool db
unfolding find_approval
find_approval-own version_id tool t e f = rw (select_own_approvals t e f)

module _ {env : Env} {context : TenantContext} {db : Database} {s : Session}
    (h : Open context db db s) where
  grant-Steps :
      (version : SkillVersion) (id given : Text) (existing : Option ToolApproval)
      → is_owner context ≡ true
      → own_version context version.id db ≡ some version
      → contains version.requested_tools (env.lower (strip given)) ≡ true
      → existing ≡ own_approval context version.id (env.lower (strip given)) db
      → version.skill_id ≡ id
      → Steps env context
          (approve id version.id given)
          db
          (grant env version (env.lower (strip given)) context existing)
          s
  unfolding grant
  grant-Steps version id given (some old) owner found requested is_old of =
      bind-Ends _ _ (record_audit-Ends h env _ _ _ _ _) λ _ t (log_id, now, o).
        bind-Ends _ _ (commit-Ends o) λ _ t c.
          bind-Ends _ _
            (refresh_approval-Ends c old.id (
              find_of_find _ (λ a. a.id == old.id) (own_approvals context db) old (sym is_old)
                (eq_self old.id)))
            λ row t c. pure-Ends _ (
              subst (Step env context (approve id version.id given) db) (sym c.stored) (
                Step.replayed _ log_id now _ _ _ _
                  (subst
                    (λ i.
                      IsReplay env context db (approve i version.id given) tool_approval_replayed
                        (some version.skill_id) (some version.id))
                    of (IsReplay.approval_again version given old found requested (sym is_old)))
                  owner))
  grant-Steps version id given none owner found requested is_new of =
      bind-Ends _ _ (new_uuid-Ends h env) λ new_id t o.
        bind-Ends _ _ (utcnow-Ends o env) λ created t o.
          bind-Ends _ _ (insert_approval-Ends o _) λ _ t o.
            bind-Ends _ _ (record_audit-Ends o env _ _ _ _ _) λ _ t (log_id, now, o).
              bind-Ends _ _ (commit-Ends o) λ _ t c.
                bind-Ends _ _
                  (refresh_approval-Ends c new_id (
                    own_approval-add context
                      (approval_of new_id created version (env.lower (strip given)) context)
                      db.tool_approvals refl))
                  λ row t c. pure-Ends _ (
                    subst (Step env context (approve id version.id given) db) (sym c.stored) (
                      Step.approved version given new_id log_id created now _ owner found requested
                        (sym is_new) (ap (λ i. approve i version.id given) (sym of))))

module _ (env : Env) (context : TenantContext) (db : Database) (s : Session)
    (h : Open context db db s) where
  pub approve_tool-Steps :
      (id version_id tool : Text)
      → Steps env context
          (approve id version_id tool)
          db
          (approve_tool env id version_id tool context)
          s
  unfolding approve_tool
  approve_tool-Steps id version_id tool = bind-Ends _ _ (require_owner-Ends h) λ _ t (o, owner).
      bind-Ends _ _ (get_version_or_404-Ends o version_id id) λ version t (o, found, same, of).
        bind-Ends _ _ (raise_if-Ends {P = Open context db db} _ _ o.stored o) λ _ t (o, requested).
          bind-Ends _ _
            (gets-Ends
              {Q = λ a u.
                Open context db db u
                × (a ≡ own_approval context version.id (env.lower (strip tool)) db)}
              _ (o, find_approval-own version.id _ t o.tenant o.working))
            λ existing t (o, is).
              subst
                (λ i.
                  Steps env context (approve id i tool) db
                    (grant env version (env.lower (strip tool)) context existing) t)
                same (grant-Steps o version id tool existing owner found (holds requested) is of)
