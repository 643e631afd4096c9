-- ===== src/Reading/Unobserved.antt =====
-- What a tenant reads does not depend on the others.
use jarvis_ai_coo.Prelude.{
  ◌≡◌, refl, sym, ap, ◌∙◌, Bool, some, List, [], ◌∷◌, where_, All, ◌==◌, text_eq, arith,
}
use jarvis_ai_coo.Models.{Skill, SkillVersion}
use jarvis_ai_coo.Tenant.{TenantContext}
use jarvis_ai_coo.Dependencies.{set_tenant}
use jarvis_ai_coo.Database.{
  Env, Session, Server, ◌>>=◌, get_db, open_session, owned_by, sees_version, select_skills,
  select_versions, select_approvals, select_audit_logs,
}
use jarvis_ai_coo.Requests.{Request, serve_all}
use jarvis_ai_coo.Registry.Rows.{UniqueIds, owner_decides}
use jarvis_ai_coo.Registry.Sound.{IsSound, IsSnapshot, serve_all-IsSound}
use jarvis_ai_coo.Registry.Isolation.{SameFor, NoneFrom, serve_all-SameFor}
use jarvis_ai_coo.Reading.{Query, query}
use jarvis_ai_coo.Reading.View.{SameView, look_up-Reads}

-- the session of a query
abbrev asking : TenantContext → Server → Session
asking context server = record {
  tenant = some context;
  stored = server.database;
  working = server.database;
  draws = server.draws;
}

where_alike :
    {A : Type 0} (P : A → Type 0) (p q : A → Bool) (xs : List A)
    → ((x : A) → P x → p x ≡ q x)
    → All P xs
    → where_ p xs ≡ where_ q xs
unfolding where_
where_alike P p q [] k a = refl
where_alike P p q (x ∷ xs) k (h, a) = ground (arith, k x, where_alike P p q xs k a)

-- In sound tables a version is seen through its skill exactly if it is of the organization itself.
seen_own :
    (env : Env) (context : TenantContext) (skills : List Skill) (v : SkillVersion)
    → UniqueIds skills
    → IsSnapshot env skills v
    → sees_version (some context) skills v ≡ (v.organization_id == context.organization_id)
unfolding sees_version
seen_own env context skills v unique snap =
    owner_decides skills v.skill_id snap.owner context unique snap.found
    ∙ ap (λ o. o == context.organization_id) snap.organization_id

module _ (env : Env) (context : TenantContext) (a b : Server) (sound_a : IsSound env a.database)
    (sound_b : IsSound env b.database)
    (same : SameFor context.organization_id a.database b.database) where
  same_view : SameView (asking context a) (asking context b)
  unfolding select_skills select_versions select_approvals select_audit_logs owned_by
  same_view = record {
    skills = same.skills;
    versions =
        where_alike (IsSnapshot env b.database.skills) _
          (λ v. v.organization_id == context.organization_id) b.database.skill_versions
          (λ v snap. seen_own env context b.database.skills v sound_b.skill_ids snap)
          sound_b.versions
        ∙ (same.versions
            ∙ sym (
                where_alike (IsSnapshot env a.database.skills) _
                  (λ v. v.organization_id == context.organization_id) a.database.skill_versions
                  (λ v snap. seen_own env context a.database.skills v sound_a.skill_ids snap)
                  sound_a.versions));
    approvals = same.approvals;
    audit_logs = same.audit_logs;
  }

-- From sound tables: whatever the tenants of other organizations request, in any order and with any
-- ids, answered or refused, every read of a tenant is answered as it was before. Lists, details, the
-- runtime payload and audit trails show nothing of what others do, not even by an error or a count.
pub query-unobserved :
    (env : Env) (context : TenantContext) (requests : List (TenantContext × Request))
    (server : Server) (q : Query)
    → IsSound env server.database
    → NoneFrom context.organization_id requests
    → (query context q (serve_all env requests server)).0 ≡ (query context q server).0
unfolding query get_db set_tenant open_session ◌>>=◌
query-unobserved env context requests server q sound none_from =
    (look_up-Reads q).same (asking context server) (asking context (serve_all env requests server))
      (same_view env context server (serve_all env requests server) sound
        (serve_all-IsSound env requests server sound)
        (serve_all-SameFor env context.organization_id requests server sound.skill_ids none_from))
