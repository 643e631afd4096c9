-- ===== src/Examples/Ownerless.antt =====
-- The first organization after its owner has left.
use jarvis_ai_coo.Prelude.{codes, refl, [], ◌∷◌, find, text_eq}
use native.Mathlib.Decide.{ℕ_discrete}
use jarvis_ai_coo.Models.{Database}
use jarvis_ai_coo.Tenant.{owner_role, member_role}
use jarvis_ai_coo.Database.{Server}
use jarvis_ai_coo.Registry.Sound.{IsSound}
use jarvis_ai_coo.Gateway.{receive_all}
use jarvis_ai_coo.Gateway.Ownerless.{Unmoved, receive_all-Unmoved}
use jarvis_ai_coo.Examples.Data.{env, acme, globex, skill_id, triage, tables}
use jarvis_ai_coo.Examples.Soundness.{tables-IsSound}
use jarvis_ai_coo.Examples.Arrivals.{arrivals}

abbrev ownerless : Database
ownerless = record tables {
  memberships =
      record { organization_id = acme; user_id = codes "bob"; role = member_role; created_at = 1 }
      ∷ record {
        organization_id = globex;
        user_id = codes "carol";
        role = owner_role;
        created_at = 1;
      }
      ∷ [];
}

ownerless-IsSound : IsSound env ownerless
ownerless-IsSound = record {
  skill_ids = tables-IsSound.skill_ids;
  version_ids = tables-IsSound.version_ids;
  approval_tools = tables-IsSound.approval_tools;
  versions = tables-IsSound.versions;
  pointers = tables-IsSound.pointers;
  approvals = tables-IsSound.approvals;
}

abbrev orphaned : Server
orphaned = record { database = ownerless; draws = 0 }

receive_all-Unmoved_example :
    Unmoved acme skill_id triage ownerless (receive_all env arrivals orphaned).database
unfolding find text_eq ℕ_discrete
receive_all-Unmoved_example =
    receive_all-Unmoved env arrivals orphaned acme skill_id triage ownerless-IsSound
      (λ e r. cc, (λ e r. cc, tt)) refl refl
