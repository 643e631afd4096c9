-- ===== src/Registry/Sound/Steps.antt =====
-- Each step of the registry keeps the invariant.
use jarvis_ai_coo.Requests.{Request}
use jarvis_ai_coo.Strings.{strip}
use jarvis_ai_coo.Prelude.{refl, sym, some, ◌∷◌, All-map, All-update, ◌==◌, text_eq, nat_eq}
use jarvis_ai_coo.Models.{active, Database}
use jarvis_ai_coo.Tenant.{TenantContext}
use jarvis_ai_coo.Database.{Env}
use jarvis_ai_coo.Skills.{draft_of, apply_changes, approval_of}
use jarvis_ai_coo.Registry.Step.{Step}
use jarvis_ai_coo.Registry.Evolution.{Later, Step-Later}
use jarvis_ai_coo.Registry.Sound.Defs.{PointsToVersion, IsRequested, IsSound}
use jarvis_ai_coo.Registry.Sound.Keeps.{PointsToVersion-add, IsRequested-add}
use jarvis_ai_coo.Registry.Sound.Rows.{
  approval_absent, snapshots, replaced, own_row, pointer, own_version_row, own_version_organization,
  put_row, disabled-Points, versioned-IsSnapshot, first-IsSnapshot, first_named,
}

-- One step.
pub Step-IsSound :
    (env : Env) (context : TenantContext) (request : Request) (db db' : Database)
    → IsSound env db
    → Step env context request db db'
    → IsSound env db'
unfolding draft_of apply_changes approval_of
Step-IsSound env context request db db' s step = go db' step (Step-Later s.skill_ids step)
  where
    go :
        (db' : Database)
        → Step env context request db db'
        → Later db.skills db'.skills
        → IsSound env db'
    go _ (Step.drafted payload id log_id created updated now detail free asked) later = record {
      skill_ids = later.0;
      version_ids = s.version_ids;
      approval_tools = s.approval_tools;
      versions = snapshots env db s _ later;
      pointers = (refl, s.pointers);
      approvals = s.approvals;
    }
    go _ (Step.edited payload old log_id updated now detail found is_draft given differ asked)
          later =
        record {
          skill_ids = later.0;
          version_ids = s.version_ids;
          approval_tools = s.approval_tools;
          versions = snapshots env db s _ later;
          pointers = replaced env db s _ (pointer env db s context old.id old found);
          approvals = s.approvals;
        }
    go _ (Step.edited_alike payload old log_id now detail found is_draft given alike asked) later =
        record {
          skill_ids = s.skill_ids;
          version_ids = s.version_ids;
          approval_tools = s.approval_tools;
          versions = s.versions;
          pointers = s.pointers;
          approvals = s.approvals;
        }
    go _ (Step.nothing_given payload old found is_draft none_given asked) later = s
    go _
          (Step.versioned payload skill number id log_id created now detail v found is_active n is
            free asked)
          later =
        record {
          skill_ids = s.skill_ids;
          version_ids = (free, s.version_ids);
          approval_tools = s.approval_tools;
          versions = (
            versioned-IsSnapshot env context db.skills payload skill number _ id created v
                (own_row env db s context skill.id skill found) is_active n is,
            s.versions,
          );
          pointers =
              All-map (PointsToVersion db.skill_versions) (PointsToVersion (v ∷ db.skill_versions))
                db.skills (PointsToVersion-add v db.skill_versions free) s.pointers;
          approvals =
              All-map (IsRequested db.skill_versions) (IsRequested (v ∷ db.skill_versions))
                db.tool_approvals (IsRequested-add v db.skill_versions free) s.approvals;
        }
    go _ (Step.replayed event log_id now skill_id version_id hash detail again owner) later =
        record {
          skill_ids = s.skill_ids;
          version_ids = s.version_ids;
          approval_tools = s.approval_tools;
          versions = s.versions;
          pointers = s.pointers;
          approvals = s.approvals;
        }
    go _ (Step.approved version tool id log_id created now detail owner found requested new asked)
          later =
        record {
          skill_ids = s.skill_ids;
          version_ids = s.version_ids;
          approval_tools = (
            approval_absent context db.skill_versions version (env.lower (strip tool))
                db.tool_approvals (own_version_row env db s context version found)
                (own_version_organization env db s context version found) s.approvals new,
            s.approval_tools,
          );
          versions = s.versions;
          pointers = s.pointers;
          approvals = (
            record {
              version = version;
              found = own_version_row env db s context version found;
              requested = requested;
              skill_id = refl;
              organization_id = sym (own_version_organization env db s context version found);
            },
            s.approvals,
          );
        }
    go _
          (Step.first_activated skill id log_id log_id' created updated now now' detail detail' v
            owner found is_draft is free asked)
          later =
        record {
          skill_ids = later.0;
          version_ids = (free, s.version_ids);
          approval_tools = s.approval_tools;
          versions = (
            first-IsSnapshot env context _ skill
                (record skill {
                  status = active;
                  active_version_id = some id;
                  updated_at = updated;
                })
                id created v
                (put_row _ skill db.skills (own_row env db s context skill.id skill found)) refl
                refl is,
            snapshots env db s _ later,
          );
          pointers =
              All-update (PointsToVersion db.skill_versions)
                (PointsToVersion (v ∷ db.skill_versions)) (λ k. k.id == skill.id) _ db.skills
                (PointsToVersion-add v db.skill_versions free)
                (first_named env context db.skill_versions skill id created v is) s.pointers;
          approvals =
              All-map (IsRequested db.skill_versions) (IsRequested (v ∷ db.skill_versions))
                db.tool_approvals (IsRequested-add v db.skill_versions free) s.approvals;
        }
    go _
          (Step.activated skill version log_id updated now detail owner found not_disabled there of
            differ asked)
          later =
        record {
          skill_ids = later.0;
          version_ids = s.version_ids;
          approval_tools = s.approval_tools;
          versions = snapshots env db s _ later;
          pointers =
              replaced env db s _
                (version, own_version_row env db s context version there, refl, of);
          approvals = s.approvals;
        }
    go _ (Step.retired skill log_id updated now detail owner found not_disabled asked) later =
        record {
          skill_ids = later.0;
          version_ids = s.version_ids;
          approval_tools = s.approval_tools;
          versions = snapshots env db s _ later;
          pointers = replaced env db s _ (
              disabled-Points db.skill_versions skill.id skill.active_version_id skill.status
                (pointer env db s context skill.id skill found));
          approvals = s.approvals;
        }
