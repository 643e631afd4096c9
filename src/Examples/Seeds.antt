-- ===== src/Examples/Seeds.antt =====
-- Seeding, from a database with one organization and one of the memberships.
use jarvis_ai_coo.Prelude.{Text, codes, ◌≡◌, refl, [], ◌∷◌, find, text_eq}
use native.Mathlib.Decide.{ℕ_discrete}
use jarvis_ai_coo.Tenant.{member_role}
use jarvis_ai_coo.Database.{Server, ok, get_db, open_session, ◌>>=◌, utcnow, commit, exists}
use jarvis_ai_coo.Seeding.{
  seed_fixture_organizations, add_organizations, add_memberships, has_organization, has_member,
  insert_organization, insert_membership,
}
use jarvis_ai_coo.Seeding.Again.{seed_again}
use jarvis_ai_coo.Examples.Data.{env}

abbrev abc : Text
abc = codes "abc"

abbrev xyz : Text
xyz = codes "xyz"

abbrev installed : Server
installed = record {
  database = record {
    organizations = record { id = abc; name = codes "ABC Construction"; created_at = 0 } ∷ [];
    memberships =
        record {
          organization_id = abc;
          user_id = codes "alice";
          role = member_role;
          created_at = 0;
        }
        ∷ [];
    skills = [];
    skill_versions = [];
    tool_approvals = [];
    audit_logs = [];
  };
  draws = 0;
}

seed_again_example :
    get_db
      (seed_fixture_organizations env abc xyz)
      (get_db (seed_fixture_organizations env abc xyz) installed).1
    ≡ (ok tt, (get_db (seed_fixture_organizations env abc xyz) installed).1)
unfolding get_db open_session seed_fixture_organizations add_organizations add_memberships
    has_organization has_member insert_organization insert_membership ◌>>=◌ utcnow commit exists
    find text_eq ℕ_discrete
seed_again_example =
    seed_again env abc xyz installed (get_db (seed_fixture_organizations env abc xyz) installed).1
      refl
