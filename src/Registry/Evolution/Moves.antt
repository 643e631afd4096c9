-- ===== src/Registry/Evolution/Moves.antt =====
-- What the steps of the registry do to one skill.
use jarvis_ai_coo.Prelude.{
  Text, ◌≡◌, ◌≢◌, refl, sym, ap, ◌∙◌, subst, true, none, some, List, ◌∷◌, find, where_, ◌==◌,
  text_eq, arith, ◌⊎◌, inl, inr, Bool-cases,
}
use jarvis_ai_coo.Models.{SkillStatus, draft, active, disabled, Database, Skill}
use jarvis_ai_coo.Tenant.{TenantContext}
use jarvis_ai_coo.Lifecycle.{can_transition, can_transition-eq-stage}
use jarvis_ai_coo.Database.{Env, Result, ok, raised, owned_by}
use jarvis_ai_coo.Skills.{apply_changes, draft_of}
use jarvis_ai_coo.Requests.{Request, Response}
use jarvis_ai_coo.Registry.Step.{Step, put_skill}
use jarvis_ai_coo.Registry.Rows.{
  skill_at, UniqueIds, absent, skill_at-put, put-UniqueIds, skill_at-where,
}
use jarvis_ai_coo.Registry.Reads.{same_id}
use jarvis_ai_coo.Registry.Refines.{Refines}

-- What may happen to a skill between two moments.
pub record Evolves (k k' : Skill) : Type 0 where
  pub id : k'.id ≡ k.id
  pub organization_id : k'.organization_id ≡ k.organization_id
  pub created_by : k'.created_by ≡ k.created_by
  pub created_at : k'.created_at ≡ k.created_at
  pub status : (k'.status ≡ k.status) ⊎ (can_transition k.status k'.status ≡ true)
  -- only a draft is edited
  pub name : k.status ≢ draft → k'.name ≡ k.name
  pub description : k.status ≢ draft → k'.description ≡ k.description
  pub department : k.status ≢ draft → k'.department ≡ k.department
  pub content : k.status ≢ draft → k'.content ≡ k.content
  pub requested_tools : k.status ≢ draft → k'.requested_tools ≡ k.requested_tools
  -- a disabled skill is final
  pub final : k.status ≡ disabled → k' ≡ k

pub Evolves-refl : (k : Skill) → Evolves k k
Evolves-refl k = record {
  id = refl;
  organization_id = refl;
  created_by = refl;
  created_at = refl;
  status = inl refl;
  name = λ _. refl;
  description = λ _. refl;
  department = λ _. refl;
  content = λ _. refl;
  requested_tools = λ _. refl;
  final = λ _. refl;
}

-- The rows of `ks` are those of `ks'` at a later time, some added.
abbrev pub Later : List Skill → List Skill → Type 0
Later ks ks' =
    UniqueIds ks'
    × ((id : Text) (k : Skill)
        → skill_at id ks ≡ some k
        → (k' : Skill) × (skill_at id ks' ≡ some k') × Evolves k k')

pub same_rows : (ks : List Skill) → UniqueIds ks → Later ks ks
same_rows ks u = (u, λ id k h. (k, h, Evolves-refl k))

added :
    (new : Skill) (ks : List Skill) → UniqueIds ks → skill_at new.id ks ≡ none → Later ks (new ∷ ks)
unfolding find
added new ks u free = ((free, u), λ id k h. (k, ground arith, Evolves-refl k))

evolved :
    (context : TenantContext) (old new : Skill) (ks : List Skill)
    → UniqueIds ks
    → skill_at old.id (where_ (λ k. owned_by (some context) k.organization_id) ks) ≡ some old
    → new.id ≡ old.id
    → Evolves old new
    → Later ks (put_skill new ks)
evolved context old new ks u found same e = (put-UniqueIds new ks u, λ id k h. at id k h)
  where
    there : skill_at old.id ks ≡ some old
    there = skill_at-where (λ k. owned_by (some context) k.organization_id) old.id ks old u found

    at :
        (id : Text) (k : Skill)
        → skill_at id ks ≡ some k
        → (k' : Skill) × (skill_at id (put_skill new ks) ≡ some k') × Evolves k k'
    at id k h = elim (Bool-cases (new.id == id)) [
      | inl hit ↦
          let moved : skill_at old.id ks ≡ some k =
            subst (λ j. skill_at j ks ≡ some k) (sym (same_id hit) ∙ same) h in
          let is_old : old ≡ k = cc (moved, there) in
          (new, rw hit at (skill_at-put new id ks k h), subst (λ j. Evolves j new) is_old e)
      | inr miss ↦ (k, rw miss at (skill_at-put new id ks k h), Evolves-refl k)
    ]

to_active :
    (status : SkillStatus)
    → status ≢ disabled
    → (active ≡ status) ⊎ (can_transition status active ≡ true)
to_active draft n = inr (can_transition-eq-stage draft active)
to_active active n = inl refl
to_active disabled n = absurd (n refl)

to_disabled : (status : SkillStatus) → status ≢ disabled → can_transition status disabled ≡ true
to_disabled draft n = can_transition-eq-stage draft disabled
to_disabled active n = can_transition-eq-stage active disabled
to_disabled disabled n = absurd (n refl)

-- One step.
pub Step-Later :
    {env : Env} {context : TenantContext} {request : Request} {db db' : Database}
    → UniqueIds db.skills
    → Step env context request db db'
    → Later db.skills db'.skills
unfolding draft_of apply_changes
Step-Later {db = db} u (Step.drafted payload id log_id created updated now detail free asked) =
    added _ db.skills u (absent id db.skills free)
Step-Later {context = context} {db = db} u
      (Step.edited payload old log_id updated now detail found is_draft given differ asked) =
    evolved context old _ db.skills u found refl (record {
      id = refl;
      organization_id = refl;
      created_by = refl;
      created_at = refl;
      status = inl refl;
      name = λ n. absurd (n is_draft);
      description = λ n. absurd (n is_draft);
      department = λ n. absurd (n is_draft);
      content = λ n. absurd (n is_draft);
      requested_tools = λ n. absurd (n is_draft);
      final = λ e. cc (is_draft, e);
    })
Step-Later {db = db} u
      (Step.edited_alike payload old log_id now detail found is_draft given alike asked) =
    same_rows db.skills u
Step-Later {db = db} u (Step.nothing_given payload old found is_draft none_given asked) =
    same_rows db.skills u
Step-Later {db = db} u
      (Step.versioned payload skill number id log_id created now detail v found is_active n is free
        asked) =
    same_rows db.skills u
Step-Later {db = db} u
      (Step.replayed event log_id now skill_id version_id hash detail again owner) =
    same_rows db.skills u
Step-Later {db = db} u
      (Step.approved version tool id log_id created now detail owner found requested new asked) =
    same_rows db.skills u
Step-Later {context = context} {db = db} u
      (Step.first_activated skill id log_id log_id' created updated now now' detail detail' v owner
        found is_draft is free asked) =
    evolved context skill _ db.skills u found refl (record {
      id = refl;
      organization_id = refl;
      created_by = refl;
      created_at = refl;
      status = inr (rw is_draft (can_transition-eq-stage draft active));
      name = λ _. refl;
      description = λ _. refl;
      department = λ _. refl;
      content = λ _. refl;
      requested_tools = λ _. refl;
      final = λ e. cc (is_draft, e);
    })
Step-Later {context = context} {db = db} u
      (Step.activated skill version log_id updated now detail owner found not_disabled there of
        differ asked) =
    evolved context skill _ db.skills u found refl (record {
      id = refl;
      organization_id = refl;
      created_by = refl;
      created_at = refl;
      status = to_active skill.status not_disabled;
      name = λ _. refl;
      description = λ _. refl;
      department = λ _. refl;
      content = λ _. refl;
      requested_tools = λ _. refl;
      final = λ e. absurd (not_disabled e);
    })
Step-Later {context = context} {db = db} u
      (Step.retired skill log_id updated now detail owner found not_disabled asked) =
    evolved context skill _ db.skills u found refl (record {
      id = refl;
      organization_id = refl;
      created_by = refl;
      created_at = refl;
      status = inr (to_disabled skill.status not_disabled);
      name = λ _. refl;
      description = λ _. refl;
      department = λ _. refl;
      content = λ _. refl;
      requested_tools = λ _. refl;
      final = λ e. absurd (not_disabled e);
    })

not_draft_again :
    (a b : SkillStatus) → (b ≡ a) ⊎ (can_transition a b ≡ true) → a ≢ draft → b ≢ draft
not_draft_again a b p n = ground (arith, can_transition-eq-stage a b)

status_trans :
    (a b c : SkillStatus)
    → (b ≡ a) ⊎ (can_transition a b ≡ true)
    → (c ≡ b) ⊎ (can_transition b c ≡ true)
    → (c ≡ a) ⊎ (can_transition a c ≡ true)
status_trans a b c p q =
    ground
      (arith, can_transition-eq-stage a b, can_transition-eq-stage b c, can_transition-eq-stage a c)

Evolves-trans : {k l m : Skill} → Evolves k l → Evolves l m → Evolves k m
Evolves-trans {k} {l} {m} p q = record {
  id = q.id ∙ p.id;
  organization_id = q.organization_id ∙ p.organization_id;
  created_by = q.created_by ∙ p.created_by;
  created_at = q.created_at ∙ p.created_at;
  status = status_trans k.status l.status m.status p.status q.status;
  name = λ n. q.name (still n) ∙ p.name n;
  description = λ n. q.description (still n) ∙ p.description n;
  department = λ n. q.department (still n) ∙ p.department n;
  content = λ n. q.content (still n) ∙ p.content n;
  requested_tools = λ n. q.requested_tools (still n) ∙ p.requested_tools n;
  final = λ e. q.final (ap (λ (x : Skill). x.status) (p.final e) ∙ e) ∙ p.final e;
}
  where
    still : k.status ≢ draft → l.status ≢ draft
    still = not_draft_again k.status l.status p.status

pub Later-trans : (ks ls ms : List Skill) → Later ks ls → Later ls ms → Later ks ms
Later-trans ks ls ms p q = (
  q.0,
  λ id k h.
      let (l, at_l, kl) = p.1 id k h in
      let (m, at_m, lm) = q.1 id l at_l in (m, at_m, Evolves-trans kl lm),
)

pub Refines-Later :
    (env : Env) (context : TenantContext) (request : Request) (db db' : Database)
    (r : Result Response)
    → UniqueIds db.skills
    → Refines env context request db r db'
    → Later db.skills db'.skills
Refines-Later env context request db db' (ok _) u step = Step-Later u step
Refines-Later env context request db db' (raised _) u same =
    subst (λ (d : Database). Later db.skills d.skills) (sym same) (same_rows db.skills u)
