-- ===== src/Registry/Reads.antt =====
-- The lookups of the handlers in a tenant's session, and the reads of a response after the commit,
-- which find their row.
use jarvis_ai_coo.Prelude.{
  Text, ◌≡◌, ◌≢◌, refl, sym, ◌∙◌, subst, true, Option, none, some, find, where_, ◌==◌, text_eq,
  arith,
}
use jarvis_ai_coo.Models.{Database, Skill, SkillVersion}
use jarvis_ai_coo.Tenant.{TenantContext}
use jarvis_ai_coo.Errors.{Error}
use jarvis_ai_coo.Database.{
  Session, ◌>>=◌, gets, or_raise, select_skills, select_versions, select_approvals, get_skill_row,
  get_version_row, refresh_skill, refresh_version, refresh_approval, owned_by, versions_of,
}
use jarvis_ai_coo.Skills.{get_skill_or_404, of_skill, get_version_or_404, skill_to_detail}
use jarvis_ai_coo.Registry.Step.{own_skill, own_version, own_versions}
use jarvis_ai_coo.Registry.Lookup.{find_passes}
use jarvis_ai_coo.Registry.Ends.{
  Ends, Ends-map, bind-Ends, pure-Ends, raise-Ends, gets-Ends, or_raise-Ends, if-Ends, Open, Closed,
  Same,
}

pub same_id : {a b : Text} → (a == b) ≡ true → a ≡ b
same_id h = ground arith

module _ {context : TenantContext} {w : Database} (s : Session) (t : s.tenant ≡ some context)
    (h : s.working ≡ w) where
  own_skills : (id : Text) → find (λ k. k.id == id) (select_skills s) ≡ own_skill context id w
  unfolding select_skills
  own_skills id = rw (t, h)

  pub select_own_versions : select_versions s ≡ own_versions context w
  unfolding select_versions
  select_own_versions = rw (t, h)

  pub select_own_approvals :
      select_approvals s ≡ where_ (λ a. owned_by (some context) a.organization_id) w.tool_approvals
  unfolding select_approvals
  select_own_approvals = rw (t, h)

module _ {context : TenantContext} {db w : Database} {s : Session} (h : Open context db w s) where
  pub get_skill_or_404-Ends :
      (id : Text)
      → Ends
          (λ skill t.
            Open context db w t × (own_skill context skill.id w ≡ some skill) × (skill.id ≡ id))
          (Same db)
          (get_skill_or_404 id)
          s
  unfolding get_skill_or_404 get_skill_row
  get_skill_or_404-Ends id =
      bind-Ends _ _
        (gets-Ends {Q = λ row t. Open context db w t × (row ≡ own_skill context id w)} _
          (h, own_skills s h.tenant h.working id))
        λ row t (o, e).
          Ends-map
            (λ skill u (o', f).
              let found : own_skill context id w ≡ some skill = sym e ∙ f in
              let same : skill.id ≡ id = same_id (find_passes (λ k. k.id == id) _ skill found) in
              (o', subst (λ j. own_skill context j w ≡ some skill) (sym same) found, same))
            (or_raise-Ends {P = Open context db w} row _ o.stored o)

  of_skill-Ends :
      (skill_id : Text) (row : Option SkillVersion)
      → Ends
          (λ v t. Open context db w t × (row ≡ some v) × (v.skill_id ≡ skill_id))
          (Same db)
          (of_skill skill_id row)
          s
  unfolding of_skill
  of_skill-Ends skill_id none = raise-Ends _ h.stored
  of_skill-Ends skill_id (some v) =
      if-Ends (v.skill_id == skill_id) _ _ (λ e. pure-Ends _ (h, refl, same_id e))
        λ _. raise-Ends _ h.stored

module _ {context : TenantContext} {db w : Database} {s : Session} (h : Open context db w s) where
  pub get_version_or_404-Ends :
      (version_id skill_id : Text)
      → Ends
          (λ v t.
            Open context db w t
            × (own_version context v.id w ≡ some v)
            × (v.id ≡ version_id)
            × (v.skill_id ≡ skill_id))
          (Same db)
          (get_version_or_404 version_id skill_id)
          s
  unfolding get_version_or_404 get_version_row
  get_version_or_404-Ends version_id skill_id =
      bind-Ends _ _
        (gets-Ends {Q = λ row t. Open context db w t × (row ≡ own_version context version_id w)} _
          (h, rw (select_own_versions s h.tenant h.working)))
        λ row t (o, e).
          Ends-map
            (λ v u (o', f, g).
              let found : own_version context version_id w ≡ some v = sym e ∙ f in
              let same : v.id ≡ version_id =
                same_id (find_passes (λ k. k.id == version_id) _ v found) in
              (o', subst (λ j. own_version context j w ≡ some v) (sym same) found, same, g))
            (of_skill-Ends o skill_id row)

module _ {E : Session → Type 0} {context : TenantContext} {w : Database} {s : Session}
    (h : Closed context w s) where
  -- a read after the commit that finds its row
  refreshed :
      {A : Type 0} (read : Session → Option A) (e : Error)
      → read s ≢ none
      → Ends (λ _ t. Closed context w t) E (gets read >>= λ row. or_raise row e) s
  unfolding or_raise
  refreshed {A} read e present =
      bind-Ends _ _ (gets-Ends {Q = λ row t. Closed context w t × (row ≢ none)} read (h, present))
        λ row t (c, p). found row t c p
    where
      found :
          (row : Option A) (t : Session)
          → Closed context w t
          → row ≢ none
          → Ends (λ _ u. Closed context w u) E (or_raise row e) t
      found none t c p = absurd (p refl)
      found (some a) t c p = record { at = c }

  pub refresh_skill-Ends :
      (id : Text)
      → own_skill context id w ≢ none
      → Ends (λ _ t. Closed context w t) E (refresh_skill id) s
  unfolding refresh_skill get_skill_row
  refresh_skill-Ends id present =
      refreshed _ _ (λ e. present (sym (own_skills s h.tenant h.working id) ∙ e))

  pub refresh_version-Ends :
      (id : Text)
      → own_version context id w ≢ none
      → Ends (λ _ t. Closed context w t) E (refresh_version id) s
  unfolding refresh_version get_version_row
  refresh_version-Ends id present =
      refreshed _ _ (rw (select_own_versions s h.tenant h.working) present)

  pub refresh_approval-Ends :
      (id : Text)
      → find
          (λ a. a.id == id)
          (where_ (λ a. owned_by (some context) a.organization_id) w.tool_approvals)
        ≢ none
      → Ends (λ _ t. Closed context w t) E (refresh_approval id) s
  unfolding refresh_approval
  refresh_approval-Ends id present =
      refreshed _ _ (rw (select_own_approvals s h.tenant h.working) present)

  pub skill_to_detail-Ends :
      (skill : Skill) → Ends (λ _ t. Closed context w t) E (skill_to_detail skill) s
  unfolding skill_to_detail versions_of
  skill_to_detail-Ends skill =
      bind-Ends _ _ (gets-Ends {Q = λ _ t. Closed context w t} _ h) λ vs t c. pure-Ends _ c
