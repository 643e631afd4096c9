-- ===== src/Registry/Refines/Owner.antt =====
-- The parts that the owner-only handlers share: the check of the role, and the replays.
use jarvis_ai_coo.Prelude.{Text, ◌≡◌, true, not, Option, none, some, text_eq, nat_eq, arith}
use jarvis_ai_coo.Models.{Database, Skill, Event}
use jarvis_ai_coo.Tenant.{TenantContext, is_owner}
use jarvis_ai_coo.Lifecycle.{status_eq}
use jarvis_ai_coo.Dependencies.{require_owner}
use jarvis_ai_coo.Database.{Env, Session, get_version_row}
use jarvis_ai_coo.Strings.{is_empty}
use jarvis_ai_coo.Skills.{replay, active_version_row}
use jarvis_ai_coo.Requests.{Request}
use jarvis_ai_coo.Registry.Step.{Step, own_skill, IsReplay}
use jarvis_ai_coo.Registry.Ends.{
  Ends, Ends-map, bind-Ends, pure-Ends, gets-Ends, raise_if-Ends, if-Ends, Open, Same,
}
use jarvis_ai_coo.Registry.Writes.{record_audit-Ends}
use jarvis_ai_coo.Registry.Refines.Shared.{some_ne_none, Steps, close_skill}

module _ {context : TenantContext} {db : Database} {s : Session} (h : Open context db db s) where
  pub require_owner-Ends :
      Ends
        (λ _ t. Open context db db t × (is_owner context ≡ true))
        (Same db)
        (require_owner context)
        s
  unfolding require_owner
  require_owner-Ends =
      Ends-map (λ _ t (o, e). (o, ground arith))
        (raise_if-Ends {P = Open context db db} (not (is_owner context)) _ h.stored h)

  active_version_row-Ends :
      (id : Option Text) → Ends (λ _ t. Open context db db t) (Same db) (active_version_row id) s
  unfolding active_version_row get_version_row
  active_version_row-Ends none = pure-Ends _ h
  active_version_row-Ends (some id) =
      if-Ends (is_empty id) _ _ (λ _. pure-Ends _ h) (λ _. gets-Ends _ h)

module _ (env : Env) {context : TenantContext} {request : Request} {db : Database} {s : Session}
    (h : Open context db db s) where
  pub replay-Steps :
      (event : Event) (skill : Skill)
      → IsReplay env context db request event (some skill.id) skill.active_version_id
      → is_owner context ≡ true
      → own_skill context skill.id db ≡ some skill
      → Steps env context request db (replay env event skill context) s
  unfolding replay
  replay-Steps event skill again owner found =
      bind-Ends _ _ (active_version_row-Ends h skill.active_version_id) λ row t o.
        bind-Ends _ _ (record_audit-Ends o env _ _ _ _ _) λ _ t (log_id, now, o).
          close_skill skill.id o (some_ne_none found)
            (Step.replayed event log_id now _ _ _ _ again owner)
