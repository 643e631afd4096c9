-- ===== src/Examples/Data.antt =====
-- Two organizations, their members and a skill of the first.
use jarvis_ai_coo.Prelude.{Text, codes, none, some, [], ◌∷◌, ◌+◌, leb, ◌&&◌, ◌||◌}
use jarvis_ai_coo.Models.{active, Skill, SkillVersion, ToolApproval, Database}
use jarvis_ai_coo.Tenant.{TenantContext, owner_role, member_role}
use jarvis_ai_coo.Database.{Env, Session, Server}
use jarvis_ai_coo.Skills.{compute_version_hash, snapshot}
use jarvis_ai_coo.Schemas.Payloads.{SkillDraftCreateIn}

-- a clock that ticks with each draw, ids that are one code point, a hash that is the text
-- itself, and the letters and digits of ASCII
abbrev pub env : Env
env = record {
  uuid4 = λ n. (1000 + n) ∷ [];
  now = λ n. 100 + n;
  sha256_hex = λ t. t;
  lower = λ t. t;
  is_alnum = λ c. leb b'A' c && leb c b'Z' || leb b'a' c && leb c b'z' || leb b'0' c && leb c b'9';
}

abbrev pub acme : Text
acme = codes "acme"

abbrev pub globex : Text
globex = codes "globex"

abbrev pub skill_id : Text
skill_id = codes "s1"

abbrev pub version_id : Text
version_id = codes "v1"

abbrev pub email : Text
email = codes "email.read"

abbrev pub alice : TenantContext
alice = record { organization_id = acme; user_id = codes "alice"; role = owner_role }

abbrev pub bob : TenantContext
bob = record { organization_id = acme; user_id = codes "bob"; role = member_role }

abbrev pub carol : TenantContext
carol = record { organization_id = globex; user_id = codes "carol"; role = owner_role }

abbrev pub triage : Skill
triage = record {
  id = skill_id;
  organization_id = acme;
  name = codes "Triage";
  description = [];
  department = codes "ops";
  content = codes "Read.";
  requested_tools = email ∷ codes "crm.read" ∷ [];
  status = active;
  active_version_id = some version_id;
  created_by = codes "bob";
  created_at = 3;
  updated_at = 4;
}

abbrev pub triage_one : SkillVersion
triage_one = record {
  id = version_id;
  organization_id = acme;
  skill_id = skill_id;
  version_number = 1;
  name = codes "Triage";
  description = [];
  department = codes "ops";
  content = codes "Read.";
  requested_tools = email ∷ codes "crm.read" ∷ [];
  version_hash = compute_version_hash env (
      snapshot acme skill_id 1 (codes "Triage") [] (codes "ops") (codes "Read.")
        (email ∷ codes "crm.read" ∷ []));
  created_by = codes "bob";
  created_at = 4;
}

abbrev pub granted : ToolApproval
granted = record {
  id = codes "a1";
  organization_id = acme;
  skill_id = skill_id;
  version_id = version_id;
  tool = email;
  approved_by = codes "alice";
  created_at = 5;
}

abbrev pub tables : Database
tables = record {
  organizations =
      record { id = acme; name = codes "Acme"; created_at = 0 }
      ∷ record { id = globex; name = codes "Globex"; created_at = 0 }
      ∷ [];
  memberships =
      record { organization_id = acme; user_id = codes "alice"; role = owner_role; created_at = 1 }
      ∷ record { organization_id = acme; user_id = codes "bob"; role = member_role; created_at = 1 }
      ∷ record {
        organization_id = globex;
        user_id = codes "carol";
        role = owner_role;
        created_at = 1;
      }
      ∷ [];
  skills = triage ∷ [];
  skill_versions = triage_one ∷ [];
  tool_approvals = granted ∷ [];
  audit_logs = [];
}

abbrev pub server : Server
server = record { database = tables; draws = 0 }

-- a session that has not resolved its tenant, and one of Bob's
abbrev pub session : Session
session = record { tenant = none; stored = tables; working = tables; draws = 0 }

abbrev pub bob_session : Session
bob_session = record { tenant = some bob; stored = tables; working = tables; draws = 0 }

abbrev pub proposal : SkillDraftCreateIn
proposal = record {
  name = codes "Digest";
  description = [];
  department = codes "ops";
  content = codes "Sum up.";
  requested_tools = email ∷ [];
}
