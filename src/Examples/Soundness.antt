-- ===== src/Examples/Soundness.antt =====
-- Tables that are sound, and what is known of them.
use jarvis_ai_coo.Prelude.{codes, ◌≡◌, refl, length, where_, find, text_eq, nat_eq, order_by, arith}
use native.Mathlib.Decide.{ℕ_discrete}
use jarvis_ai_coo.Strings.{is_empty, strip, is_space, lstrip, rstrip, text_lt}
use jarvis_ai_coo.Lifecycle.{status_eq}
use jarvis_ai_coo.Schemas.Responses.{version_out}
use jarvis_ai_coo.Database.{
  ◌>>=◌, select_skills, owned_by, versions_of, gets, pure, raise_if, exists, sees_version,
  select_approvals, select_versions,
}
use jarvis_ai_coo.Skills.{
  get_active_skills_for_department, department_payload, runs_in, slice, active_version,
  approved_tools, check_limit, department_skill, insert_text, sorted_set, usable_tools,
}
use jarvis_ai_coo.Requests.{serve_all}
use jarvis_ai_coo.Registry.Sound.{IsSound, serve_all-IsSound}
use jarvis_ai_coo.Registry.Complete.{get_active_skills_for_department_total}
use jarvis_ai_coo.Examples.Data.{env, triage, triage_one, tables, server, bob, bob_session}
use jarvis_ai_coo.Examples.Registries.{run, page}

pub tables-IsSound : IsSound env tables
unfolding find exists text_eq ℕ_discrete nat_eq
tables-IsSound = record {
  skill_ids = (refl, tt);
  version_ids = (refl, tt);
  approval_tools = (refl, tt);
  versions = (
    record {
      owner = triage;
      found = refl;
      organization_id = refl;
      released = λ e. cc;
      numbered = omega arith;
      hash = refl;
    },
    tt,
  );
  pointers = ((triage_one, refl, refl, refl), tt);
  approvals = (
    record {
      version = triage_one;
      found = refl;
      requested = refl;
      skill_id = refl;
      organization_id = refl;
    },
    tt,
  );
}

serve_all-IsSound_example : IsSound env (serve_all env run server).database
serve_all-IsSound_example = serve_all-IsSound env run server tables-IsSound

get_active_skills_for_department_total_example :
    page.total ≡ length (where_ (runs_in (strip (codes "ops"))) (select_skills bob_session))
unfolding get_active_skills_for_department ◌>>=◌ is_empty strip nat_eq ℕ_discrete department_payload
    order_by where_ select_skills owned_by text_eq runs_in status_eq versions_of slice find gets
    pure raise_if exists sees_version select_approvals select_versions version_out active_version
    approved_tools check_limit department_skill insert_text sorted_set usable_tools is_space lstrip
    rstrip text_lt
get_active_skills_for_department_total_example =
    get_active_skills_for_department_total env bob bob_session refl tables-IsSound refl bob_session
      (codes "ops") 50 0 page refl
