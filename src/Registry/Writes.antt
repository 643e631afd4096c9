-- ===== src/Registry/Writes.antt =====
-- The database's primitives, by what they leave behind in a tenant's session.
use jarvis_ai_coo.Prelude.{
  ℕ, Text, ◌≡◌, sym, ap, ◌∙◌, Bool, true, false, Option, List, ◌∷◌, ◌==◌, ◌&&◌, ◌||◌, text_eq,
  nat_eq, ◌⊎◌, inl, inr,
}
use jarvis_ai_coo.Models.{Database, Skill, SkillVersion, ToolApproval, AuditLog, Event, Value}
use jarvis_ai_coo.Tenant.{TenantContext}
use jarvis_ai_coo.Errors.{Error, integrity_error}
use jarvis_ai_coo.Database.{
  Env, Session, ◌>>=◌, raise_if, gets, modify, exists, insert_audit_log, insert_skill,
  insert_version, insert_approval, flush_skill, same_columns,
}
use jarvis_ai_coo.Audit.{record_audit, entry_of}
use jarvis_ai_coo.Registry.Step.{put_skill}
use jarvis_ai_coo.Registry.Ends.{
  Ends, Ends-map, bind-Ends, pure-Ends, gets-Ends, raise_if-Ends, if-Ends, Open, Same,
  new_uuid-Ends, utcnow-Ends, modify-Ends,
}

-- a write that a uniqueness constraint guards
module _ {context : TenantContext} {db w : Database} {s : Session} (h : Open context db w s) where
  guarded :
      (taken : Database → Bool) (e : Error) (f : Database → Database)
      → Ends
          (λ _ t. Open context db (f w) t × (taken w ≡ false))
          (Same db)
          (gets (λ t. taken t.working) >>= λ b. raise_if b e >>= λ _. modify f)
          s
  guarded taken e f =
      bind-Ends _ _
        (gets-Ends {Q = λ b t. Open context db w t × (b ≡ taken w)} _ (h, ap taken h.working))
        λ b t (o, same).
          bind-Ends _ _ (raise_if-Ends {P = Open context db w} b e o.stored o)
            λ _ u (o', passed). Ends-map (λ _ v o''. (o'', sym same ∙ passed)) (modify-Ends o' f)

  pub insert_skill-Ends :
      (row : Skill)
      → Ends
          (λ _ t.
            Open context db (record w { skills = row ∷ w.skills }) t
            × (exists (λ k. k.id == row.id) w.skills ≡ false))
          (Same db)
          (insert_skill row)
          s
  unfolding insert_skill
  insert_skill-Ends row =
      guarded (λ d. exists (λ k. k.id == row.id) d.skills) integrity_error
        (λ d. record d { skills = row ∷ d.skills })

  pub insert_version-Ends :
      (row : SkillVersion)
      → Ends
          (λ _ t.
            Open context db (record w { skill_versions = row ∷ w.skill_versions }) t
            × (exists
                  (λ v.
                    v.id == row.id
                    || v.skill_id == row.skill_id && v.version_number == row.version_number)
                  w.skill_versions
                ≡ false))
          (Same db)
          (insert_version row)
          s
  unfolding insert_version
  insert_version-Ends row =
      guarded
        (λ d.
          exists
            (λ v.
              v.id == row.id
              || v.skill_id == row.skill_id && v.version_number == row.version_number)
            d.skill_versions)
        integrity_error (λ d. record d { skill_versions = row ∷ d.skill_versions })

  pub insert_approval-Ends :
      (row : ToolApproval)
      → Ends
          (λ _ t. Open context db (record w { tool_approvals = row ∷ w.tool_approvals }) t)
          (Same db)
          (insert_approval row)
          s
  unfolding insert_approval
  insert_approval-Ends row =
      Ends-map (λ _ t p. p.0)
        (guarded
          (λ d.
            exists (λ a. a.id == row.id || a.version_id == row.version_id && a.tool == row.tool)
              d.tool_approvals)
          integrity_error (λ d. record d { tool_approvals = row ∷ d.tool_approvals }))

  insert_audit_log-Ends :
      (row : AuditLog)
      → Ends
          (λ _ t. Open context db (record w { audit_logs = row ∷ w.audit_logs }) t)
          (Same db)
          (insert_audit_log row)
          s
  unfolding insert_audit_log
  insert_audit_log-Ends row =
      Ends-map (λ _ t p. p.0)
        (guarded (λ d. exists (λ a. a.id == row.id) d.audit_logs) integrity_error
          (λ d. record d { audit_logs = row ∷ d.audit_logs }))

-- `w` with one audit row of the tenant
abbrev pub Logged :
    TenantContext
    → Database
    → Database
    → Event
    → Option Text
    → Option Text
    → Option Text
    → List (Text × Value)
    → Session
    → Type 0
Logged context db w event skill_id version_id hash detail t =
    (id : Text) × (now : ℕ) × Open context db
      (record w {
        audit_logs = entry_of id now context event skill_id version_id hash detail ∷ w.audit_logs;
      })
      t

module _ {context : TenantContext} {db w : Database} {s : Session} (h : Open context db w s) where
  pub record_audit-Ends :
      (env : Env) (event : Event) (skill_id version_id hash : Option Text)
      (detail : List (Text × Value))
      → Ends
          (λ _ t. Logged context db w event skill_id version_id hash detail t)
          (Same db)
          (record_audit env context event skill_id version_id hash detail)
          s
  unfolding record_audit
  record_audit-Ends env event skill_id version_id hash detail =
      bind-Ends _ _ (new_uuid-Ends h env) λ id t o.
        bind-Ends _ _ (utcnow-Ends o env) λ now u o'.
          bind-Ends _ _ (insert_audit_log-Ends o' _) λ _ v o''. pure-Ends _ (id, now, o'')

  -- An UPDATE, or nothing where the columns are alike.
  pub flush_skill-Ends :
      (env : Env) (old new : Skill)
      → Ends
          (λ _ t.
            (Open context db w t × (same_columns old new ≡ true))
            ⊎ ((updated : ℕ) × Open context db
                  (record w { skills = put_skill (record new { updated_at = updated }) w.skills })
                  t
                × (same_columns old new ≡ false)))
          (Same db)
          (flush_skill env old new)
          s
  unfolding flush_skill
  flush_skill-Ends env old new =
      if-Ends (same_columns old new) _ _ (λ alike. pure-Ends _ (inl (h, alike)))
        λ differ.
          bind-Ends _ _ (utcnow-Ends h env)
            λ now t o. Ends-map (λ _ u o'. inr (now, o', differ)) (modify-Ends o _)
