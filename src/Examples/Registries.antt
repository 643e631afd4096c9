-- ===== src/Examples/Registries.antt =====
-- Requests to the registry.
use jarvis_ai_coo.Prelude.{
  codes, ◌≡◌, ◌≢◌, refl, some, List, [], ◌∷◌, inl, find, text_eq, nat_eq, where_, order_by,
}
use mathlib.Core.Logic.{◌⊎◌}
use native.Mathlib.Decide.{ℕ_discrete}
use jarvis_ai_coo.Lifecycle.{status_eq}
use jarvis_ai_coo.Strings.{is_empty, strip, is_space, lstrip, rstrip, text_lt}
use jarvis_ai_coo.Models.{Skill}
use jarvis_ai_coo.Tenant.{TenantContext, is_owner}
use jarvis_ai_coo.Errors.{owner_only}
use jarvis_ai_coo.Database.{
  raised, ◌>>=◌, select_skills, owned_by, versions_of, gets, pure, raise_if, exists, sees_version,
  select_approvals, select_versions,
}
use jarvis_ai_coo.Schemas.Responses.{DepartmentSkillOut, version_out}
use jarvis_ai_coo.Skills.{
  Page, get_active_skills_for_department, department_payload, runs_in, slice, active_version,
  approved_tools, check_limit, department_skill, insert_text, sorted_set, usable_tools,
}
use jarvis_ai_coo.Skills.Runtime.{IsRunnable, get_active_skills_for_department-IsRunnable}
use jarvis_ai_coo.Requests.{Request, create_draft, disable, serve, serve_all}
use jarvis_ai_coo.Requests.History.{Later, serve_all-Later}
use jarvis_ai_coo.Requests.Refusals.{needs_owner, owner_required}
use jarvis_ai_coo.Registry.Rows.{skill_at}
use jarvis_ai_coo.Registry.Refines.{Refines, serve-Refines}
use jarvis_ai_coo.Registry.Isolation.{SameFor, serve_all-SameFor}
use jarvis_ai_coo.Registry.Audited.{Accounted, serve-Accounted}
use jarvis_ai_coo.Registry.Members.{SameStanding, serve_all-SameStanding}
use jarvis_ai_coo.Registry.Evolution.{Outlives, serve_all-Outlives}
use jarvis_ai_coo.Examples.Data.{
  env, acme, globex, skill_id, email, alice, bob, carol, triage, triage_one, tables, server,
  bob_session, proposal,
}

abbrev pub run : List (TenantContext × Request)
run = (bob, create_draft proposal) ∷ (carol, disable skill_id) ∷ (alice, disable skill_id) ∷ []

serve-Refines_example :
    Refines env alice
      (disable skill_id)
      tables
      (serve env alice (disable skill_id) server).0
      (serve env alice (disable skill_id) server).1.database
serve-Refines_example = serve-Refines env alice (disable skill_id) server

serve_all-SameFor_example :
    SameFor globex tables
      (serve_all env
        ((bob, create_draft proposal) ∷ (alice, disable skill_id) ∷ [])
        server).database
unfolding find
serve_all-SameFor_example =
    serve_all-SameFor env globex ((bob, create_draft proposal) ∷ (alice, disable skill_id) ∷ [])
      server (refl, tt) (elsewhere, (elsewhere, tt))
  where
    elsewhere : acme ≢ globex
    elsewhere = λ e. cc

serve_all-Outlives_example :
    (k : Skill) × (skill_at skill_id (serve_all env run server).database.skills ≡ some k)
    × Outlives triage k
unfolding find text_eq ℕ_discrete
serve_all-Outlives_example = serve_all-Outlives env run server skill_id triage (refl, tt) refl

serve_all-Later_example : Later tables (serve_all env run server).database
serve_all-Later_example = serve_all-Later env run server

owner_required_example : serve env bob (disable skill_id) server ≡ (raised owner_only, server)
unfolding needs_owner is_owner text_eq ℕ_discrete
owner_required_example = owner_required env bob (disable skill_id) server refl refl

abbrev entry : DepartmentSkillOut
entry = record {
  skill_id = skill_id;
  name = codes "Triage";
  department = codes "ops";
  version = version_out triage_one;
  approved_tools = email ∷ [];
}

abbrev pub page : Page DepartmentSkillOut
page = record { items = entry ∷ []; total = 1 }

get_active_skills_for_department-IsRunnable_example : IsRunnable bob_session (codes "ops") entry
unfolding get_active_skills_for_department ◌>>=◌ is_empty strip nat_eq ℕ_discrete department_payload
    order_by where_ select_skills owned_by text_eq runs_in status_eq versions_of slice find gets
    pure raise_if exists sees_version select_approvals select_versions version_out active_version
    approved_tools check_limit department_skill insert_text sorted_set usable_tools is_space lstrip
    rstrip text_lt
get_active_skills_for_department-IsRunnable_example =
    get_active_skills_for_department-IsRunnable bob_session bob_session (codes "ops") 50 0 page
      entry refl (inl refl)

serve-Accounted_example :
    let server' = (serve env alice (disable skill_id) server).1 in
    (server'.database ≡ tables) ⊎ Accounted alice tables server'.database
serve-Accounted_example = serve-Accounted env alice (disable skill_id) server

abbrev by_members : List (TenantContext × Request)
by_members = (bob, create_draft proposal) ∷ (bob, disable skill_id) ∷ []

serve_all-SameStanding_example :
    ((k : Skill) × (skill_at skill_id (serve_all env by_members server).database.skills ≡ some k)
      × SameStanding triage k)
    × ((serve_all env by_members server).database.tool_approvals ≡ tables.tool_approvals)
unfolding find is_owner text_eq ℕ_discrete
serve_all-SameStanding_example =
    serve_all-SameStanding env by_members server skill_id triage (refl, (refl, tt)) (refl, tt) refl
