-- ===== src/Registry/Refines/Activation.antt =====
-- `activate_skill` and `disable_skill` refine the registry's steps.
use jarvis_ai_coo.Prelude.{
  ℕ, Text, ◌≡◌, ◌≢◌, refl, ◌∙◌, sym, ap, subst, Bool, true, false, Option, none, some, List, ◌∷◌,
  ◌==◌, ◌&&◌, ◌||◌, text_eq, nat_eq, option_eq, texts_eq, arith, inl, inr,
}
use jarvis_ai_coo.Models.{
  SkillStatus, draft, active, disabled, Database, Skill, SkillVersion, Value, skill_activated,
  skill_version_created, skill_activation_replayed, skill_disable_replayed,
}
use jarvis_ai_coo.Tenant.{TenantContext, is_owner}
use jarvis_ai_coo.Lifecycle.{status_eq}
use jarvis_ai_coo.Database.{Env, Session, ◌>>=◌, exists, same_columns}
use jarvis_ai_coo.Audit.{entry_of}
use jarvis_ai_coo.Schemas.Payloads.{SkillActivateIn}
use jarvis_ai_coo.Skills.{
  make_active, first_version, version_for_draft, version_to_switch_to, activate_draft,
  switch_version, asks_for_current, draft_detail, switch_detail, disable_skill, activate_skill,
}
use jarvis_ai_coo.Requests.{Request, activate, disable}
use jarvis_ai_coo.Registry.Step.{Step, own_skill, put_skill, IsReplay}
use jarvis_ai_coo.Registry.Ends.{
  bind-Ends, pure-Ends, raise-Ends, raise_if-Ends, if-Ends, Open, new_uuid-Ends, utcnow-Ends,
}
use jarvis_ai_coo.Registry.Writes.{insert_version-Ends, record_audit-Ends, flush_skill-Ends}
use jarvis_ai_coo.Registry.Reads.{get_skill_or_404-Ends, get_version_or_404-Ends}
use jarvis_ai_coo.Registry.Refines.Shared.{own_skill-put, Steps, close_skill}
use jarvis_ai_coo.Registry.Refines.Owner.{require_owner-Ends, replay-Steps}

module _ {env : Env} {context : TenantContext} {request : Request} {db w : Database} {s : Session}
    (h : Open context db w s) where
  -- The end of an activation, from tables that hold the skill. `Step` is asked for where the row has changed.
  make_active-Steps :
      (skill : Skill) (version : SkillVersion) (detail : List (Text × Value))
      → own_skill context skill.id w ≡ some skill
      → same_columns skill (record skill { status = active; active_version_id = some version.id })
        ≡ false
      → ((updated now : ℕ) (log_id : Text)
          → Step env context request db (record w {
            skills =
                put_skill
                  (record skill {
                    status = active;
                    active_version_id = some version.id;
                    updated_at = updated;
                  })
                  w.skills;
            audit_logs =
                entry_of log_id now context skill_activated
                  (some skill.id)
                  (some version.id)
                  (some version.version_hash)
                  detail
                ∷ w.audit_logs;
          }))
      → Steps env context request db (make_active env skill context version detail) s
  unfolding make_active
  make_active-Steps skill version detail found differ step =
      bind-Ends _ _ (flush_skill-Ends h env skill _) λ _ t flushed. elim flushed [
        | inl (o, alike) ↦ absurd (cc (alike, differ))
        | inr (updated, o, _) ↦
            bind-Ends _ _ (record_audit-Ends o env _ _ _ _ _) λ _ t (log_id, now, o).
              close_skill skill.id o (own_skill-put context skill _ w.skills found refl refl)
                (step updated now log_id)
      ]

-- A draft differs from its activated row, and so does a skill that switches versions.
draft_differs :
    (skill : Skill) (id : Option Text)
    → skill.status ≡ draft
    → same_columns skill (record skill { status = active; active_version_id = id }) ≡ false
unfolding same_columns status_eq
draft_differs skill id e = ground arith

switch_differs :
    (skill : Skill) (id : Option Text)
    → (id == skill.active_version_id) ≡ false
    → same_columns skill (record skill { status = active; active_version_id = id }) ≡ false
unfolding same_columns
switch_differs skill id e = ground arith

retired_differs :
    (skill : Skill)
    → (skill.status == disabled) ≡ false
    → same_columns skill (record skill { status = disabled }) ≡ false
unfolding same_columns
retired_differs skill e = ground arith

same_status : {a b : SkillStatus} → (a == b) ≡ true → a ≡ b
same_status h = ground arith

not_same : {a b : SkillStatus} → (a == b) ≡ false → a ≢ b
not_same h e = ground arith

active_left :
    (status : SkillStatus)
    → (status == draft) ≡ false
    → (status == disabled) ≡ false
    → status ≡ active
unfolding status_eq
active_left draft a b = cc
active_left active a b = refl
active_left disabled a b = cc

status_self : {a b : SkillStatus} → a ≡ b → (a == b) ≡ true
status_self e = ground arith

both : (a b : Bool) → (a && b) ≡ true → (a ≡ true) × (b ≡ true)
both a b h = ground arith

right_false : (a b : Bool) → (a || b) ≡ false → b ≡ false
right_false a b h = ground arith

rest_false : (a b : Bool) → a ≡ true → (a && b) ≡ false → b ≡ false
rest_false a b t h = ground arith

asks_for_other :
    (payload : SkillActivateIn) (skill : Skill)
    → skill.status ≡ active
    → (skill.status == active && asks_for_current payload skill) ≡ false
    → (payload.version_id == skill.active_version_id) ≡ false
unfolding asks_for_current
asks_for_other payload skill a h = right_false _ _ (rest_false _ _ (status_self a) h)

-- What a draft's snapshot leaves behind, in tables that are not committed.
abbrev Snapshot : Env → TenantContext → Database → Skill → SkillVersion → Session → Type 0
Snapshot env context db skill v t =
    (id : Text) × (created : ℕ) × (log_id : Text) × (now : ℕ) × (detail : List (Text × Value)) × (v
      ≡ first_version env id created skill context)
    × (exists
          (λ w. w.id == v.id || w.skill_id == v.skill_id && w.version_number == v.version_number)
          db.skill_versions
        ≡ false)
    × Open context db
        (record db {
          skill_versions = v ∷ db.skill_versions;
          audit_logs =
              entry_of log_id now context skill_version_created (some skill.id) (some v.id)
                (some v.version_hash) detail
              ∷ db.audit_logs;
        })
        t

module _ {env : Env} {context : TenantContext} {request : Request} {db : Database} {s : Session}
    (h : Open context db db s) where
  chosen_for_draft-Steps :
      (skill : Skill) (payload : SkillActivateIn) (id : Option Text)
      → is_owner context ≡ true
      → own_skill context skill.id db ≡ some skill
      → skill.status ≡ draft
      → request ≡ activate skill.id (record { version_id = id })
      → Steps env context request db
          (version_for_draft env skill payload context id >>= λ v.
            make_active env skill context v (draft_detail v))
          s
  unfolding version_for_draft
  chosen_for_draft-Steps skill payload (some version_id) owner found is_draft asked =
      bind-Ends _ _ (get_version_or_404-Ends h version_id skill.id) λ v t (o, there, same, of).
        make_active-Steps o skill v _ found (draft_differs skill _ is_draft) (λ updated now log_id.
          Step.activated skill v log_id updated now _ owner found (ground arith) there of
            (draft_differs skill _ is_draft)
            (asked ∙ ap (λ i. activate skill.id (record { version_id = some i })) (sym same)))
  chosen_for_draft-Steps skill payload none owner found is_draft asked =
      bind-Ends _ _
        (bind-Ends _ _ (new_uuid-Ends h env) λ id t o.
          bind-Ends _ _ (utcnow-Ends o env) λ created t o.
            let v = first_version env id created skill context in
            bind-Ends _ _ (insert_version-Ends o v) λ _ t (o, fresh).
              bind-Ends _ _ (record_audit-Ends o env _ _ _ _ _) λ _ t (log_id, now, o).
                pure-Ends {Q = λ w u. Snapshot env context db skill w u} v
                  (id, created, log_id, now, _, refl, fresh, o))
        λ v t (id, created, log_id, now, detail, is, fresh, o).
          make_active-Steps o skill v _ found (draft_differs skill _ is_draft)
            (λ updated now' log_id'.
              subst
                (λ j. Step env context request db (record db {
                  skill_versions = v ∷ db.skill_versions;
                  skills =
                      put_skill
                        (record skill {
                          status = active;
                          active_version_id = some j;
                          updated_at = updated;
                        })
                        db.skills;
                  audit_logs =
                      entry_of log_id' now' context skill_activated (some skill.id) (some j)
                        (some v.version_hash) (draft_detail v)
                      ∷ entry_of log_id now context skill_version_created (some skill.id) (some j)
                          (some v.version_hash) detail
                      ∷ db.audit_logs;
                }))
                (sym (ap (λ (x : SkillVersion). x.id) is))
                (Step.first_activated skill id log_id log_id' created updated now now' detail _ v
                  owner found is_draft is fresh asked))

  switched-Steps :
      (skill : Skill) (id : Option Text)
      → is_owner context ≡ true
      → own_skill context skill.id db ≡ some skill
      → skill.status ≡ active
      → (id == skill.active_version_id) ≡ false
      → request ≡ activate skill.id (record { version_id = id })
      → Steps env context request db
          (version_to_switch_to skill id >>= λ v.
            make_active env skill context v (switch_detail skill v))
          s
  unfolding version_to_switch_to
  switched-Steps skill none owner found is_active other asked =
      bind-Ends _ _ (raise-Ends {Q = λ _ _. ⊥} _ h.stored) λ v t never. absurd never
  switched-Steps skill (some version_id) owner found is_active other asked =
      bind-Ends _ _ (get_version_or_404-Ends h version_id skill.id) λ v t (o, there, same, of).
        let differ =
          switch_differs skill (some v.id)
            (subst (λ j. (some j == skill.active_version_id) ≡ false) (sym same) other) in
        make_active-Steps o skill v _ found differ (λ updated now log_id.
          Step.activated skill v log_id updated now _ owner found (ground arith) there of differ
            (asked ∙ ap (λ i. activate skill.id (record { version_id = some i })) (sym same)))

module _ (env : Env) (context : TenantContext) (db : Database) (s : Session)
    (h : Open context db db s) where
  pub activate_skill-Steps :
      (id : Text) (payload : SkillActivateIn)
      → Steps env context (activate id payload) db (activate_skill env id payload context) s
  unfolding activate_skill activate_draft switch_version
  activate_skill-Steps id payload = bind-Ends _ _ (require_owner-Ends h) λ _ t (o, owner).
      bind-Ends _ _ (get_skill_or_404-Ends o id) λ skill t (o, found, same).
        if-Ends (skill.status == active && asks_for_current payload skill) _ _
          (λ again.
            let (is_active, current) = both _ _ again in
            replay-Steps env o _ skill
              (subst
                (λ i.
                  IsReplay env context db (activate i payload) skill_activation_replayed
                    (some skill.id) skill.active_version_id)
                same
                (IsReplay.activation_again skill payload found (same_status is_active) current))
              owner found)
          λ fresh.
            bind-Ends _ _ (raise_if-Ends {P = Open context db db} _ _ o.stored o)
              λ _ t (o, not_disabled).
                if-Ends (skill.status == draft) _ _
                  (λ is_draft.
                    bind-Ends _ _ (raise_if-Ends {P = Open context db db} _ _ o.stored o)
                      λ _ t (o, _).
                        chosen_for_draft-Steps o skill payload payload.version_id owner found
                          (same_status is_draft) (ap (λ i. activate i payload) (sym same)))
                  λ not_draft.
                    switched-Steps o skill payload.version_id owner found
                      (active_left skill.status not_draft not_disabled)
                      (asks_for_other payload skill
                        (active_left skill.status not_draft not_disabled) fresh)
                      (ap (λ i. activate i payload) (sym same))

  pub disable_skill-Steps :
      (id : Text) → Steps env context (disable id) db (disable_skill env id context) s
  unfolding disable_skill
  disable_skill-Steps id = bind-Ends _ _ (require_owner-Ends h) λ _ t (o, owner).
      bind-Ends _ _ (get_skill_or_404-Ends o id) λ skill t (o, found, same).
        if-Ends (skill.status == disabled) _ _
          (λ is_disabled.
            replay-Steps env o _ skill
              (subst
                (λ i.
                  IsReplay env context db (disable i) skill_disable_replayed (some skill.id)
                    skill.active_version_id)
                same (IsReplay.disable_again skill found (same_status is_disabled)))
              owner found)
          λ not_disabled.
            bind-Ends _ _ (raise_if-Ends {P = Open context db db} _ _ o.stored o) λ _ t (o, _).
              bind-Ends _ _ (flush_skill-Ends o env skill _) λ _ t flushed. elim flushed [
                | inl (o, alike) ↦ absurd (cc (alike, retired_differs skill not_disabled))
                | inr (updated, o, _) ↦
                    bind-Ends _ _ (record_audit-Ends o env _ _ _ _ _) λ _ t (log_id, now, o).
                      close_skill skill.id o
                        (own_skill-put context skill _ db.skills found refl refl)
                        (Step.retired skill log_id updated now _ owner found (not_same not_disabled)
                          (ap disable (sym same)))
              ]
