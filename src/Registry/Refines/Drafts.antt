-- ===== src/Registry/Refines/Drafts.antt =====
-- `create_skill_draft` and `update_skill_draft` refine the registry's steps.
use jarvis_ai_coo.Prelude.{
  Text, ◌≡◌, ◌≢◌, refl, sym, ap, false, none, some, List, [], ◌∷◌, ◌==◌, text_eq, nat_eq, inl, inr,
}
use jarvis_ai_coo.Models.{SkillStatus, draft, active, disabled, Database, Skill}
use jarvis_ai_coo.Tenant.{TenantContext}
use jarvis_ai_coo.Lifecycle.{status_eq}
use jarvis_ai_coo.Database.{Env, Session}
use jarvis_ai_coo.Schemas.Payloads.{SkillDraftCreateIn, SkillDraftUpdateIn}
use jarvis_ai_coo.Skills.{
  create_skill_draft, draft_of, save_changes, update_skill_draft, apply_changes, changed_fields,
}
use jarvis_ai_coo.Requests.{Request, create_draft, update_draft}
use jarvis_ai_coo.Registry.Step.{Step, own_skill}
use jarvis_ai_coo.Registry.Ends.{
  Ends, Ends-map, bind-Ends, pure-Ends, raise_if-Ends, Open, Closed, Same, new_uuid-Ends,
  utcnow-Ends, commit-Ends,
}
use jarvis_ai_coo.Registry.Writes.{insert_skill-Ends, record_audit-Ends, flush_skill-Ends}
use jarvis_ai_coo.Registry.Reads.{get_skill_or_404-Ends}
use jarvis_ai_coo.Registry.Refines.Shared.{
  some_ne_none, own_skill-put, own_skill-add, Steps, respond, close_skill,
}

module _ (env : Env) (context : TenantContext) (db : Database) (s : Session)
    (h : Open context db db s) where
  pub create_skill_draft-Steps :
      (payload : SkillDraftCreateIn)
      → Steps env context (create_draft payload) db (create_skill_draft env payload context) s
  unfolding create_skill_draft
  create_skill_draft-Steps payload = bind-Ends _ _ (new_uuid-Ends h env) λ id t o.
      bind-Ends _ _ (utcnow-Ends o env) λ created t o.
        bind-Ends _ _ (utcnow-Ends o env) λ updated t o.
          bind-Ends _ _ (insert_skill-Ends o _) λ _ t (o, fresh).
            bind-Ends _ _ (record_audit-Ends o env _ _ _ _ _) λ _ t (log_id, now, o).
              close_skill id o
                (own_skill-add context (draft_of id created updated payload context) db.skills refl)
                (Step.drafted payload id log_id created updated now _ fresh refl)

non_empty : {x : Text} {xs ys : List Text} → x ∷ xs ≡ ys → ys ≢ []
non_empty is none_given = cc (is, none_given)

-- What `save_changes` leaves behind: tables that are committed and hold the skill.
abbrev Saved : Env → TenantContext → Request → Database → Text → Session → Type 0
Saved env context request db id t =
    (w : Database) × Closed context w t
    × Step env context request db w
    × (own_skill context id w ≢ none)

module _ {env : Env} {context : TenantContext} {request : Request} {db : Database} {s : Session}
    (h : Open context db db s) where
  save_changes-Ends :
      (payload : SkillDraftUpdateIn) (skill : Skill) (fields : List Text)
      → own_skill context skill.id db ≡ some skill
      → skill.status ≡ draft
      → fields ≡ changed_fields payload
      → request ≡ update_draft skill.id payload
      → Ends
          (λ _ t. Saved env context request db skill.id t)
          (Same db)
          (save_changes env context skill (apply_changes payload skill) fields)
          s
  unfolding save_changes apply_changes
  save_changes-Ends payload skill [] found is_draft is asked = pure-Ends _ (
    db,
    record { tenant = h.tenant; stored = h.stored; working = h.working },
    Step.nothing_given payload skill found is_draft (sym is) asked,
    some_ne_none found,
  )
  save_changes-Ends payload skill (field ∷ fields) found is_draft is asked =
      bind-Ends _ _ (flush_skill-Ends h env skill (apply_changes payload skill)) λ _ t flushed.
        elim flushed [
          | inl (o, alike) ↦
              bind-Ends _ _ (record_audit-Ends o env _ _ _ _ _) λ _ t (log_id, now, o).
                Ends-map
                  (λ _ u c. (
                    _,
                    c,
                    Step.edited_alike payload skill log_id now _ found is_draft (non_empty is) alike
                        asked,
                    some_ne_none found,
                  ))
                  (commit-Ends o)
          | inr (updated, o, differ) ↦
              bind-Ends _ _ (record_audit-Ends o env _ _ _ _ _) λ _ t (log_id, now, o).
                Ends-map
                  (λ _ u c. (
                    _,
                    c,
                    Step.edited payload skill log_id updated now _ found is_draft (non_empty is)
                        differ asked,
                    own_skill-put context skill _ db.skills found refl refl,
                  ))
                  (commit-Ends o)
        ]

draft_left :
    (status : SkillStatus)
    → (status == active) ≡ false
    → (status == disabled) ≡ false
    → status ≡ draft
unfolding status_eq
draft_left draft a b = refl
draft_left active a b = cc
draft_left disabled a b = cc

module _ (env : Env) (context : TenantContext) (db : Database) (s : Session)
    (h : Open context db db s) where
  pub update_skill_draft-Steps :
      (id : Text) (payload : SkillDraftUpdateIn)
      → Steps env context (update_draft id payload) db (update_skill_draft env id payload context) s
  unfolding update_skill_draft
  update_skill_draft-Steps id payload =
      bind-Ends _ _ (get_skill_or_404-Ends h id) λ skill t (o, found, same).
        bind-Ends _ _ (raise_if-Ends {P = Open context db db} _ _ o.stored o) λ _ t (o, not_active).
          bind-Ends _ _ (raise_if-Ends {P = Open context db db} _ _ o.stored o)
            λ _ t (o, not_disabled).
              bind-Ends _ _
                (save_changes-Ends o payload skill _ found
                  (draft_left skill.status not_active not_disabled) refl
                  (ap (λ i. update_draft i payload) (sym same)))
                λ _ t (w, c, step, present). respond skill.id c present step
