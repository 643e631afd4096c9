-- ===== src/Registry/Evolution.antt =====
-- The life of a skill under the registry's steps.
mod Moves
pub use Moves.{Evolves, Later, Step-Later, Refines-Later}
use Moves.{same_rows, Later-trans}
use jarvis_ai_coo.Prelude.{
  Text, ◌≡◌, ◌≢◌, refl, sym, ap, ◌∙◌, subst, true, none, some, List, [], ◌∷◌, find, where_, ◌==◌,
  text_eq, arith, ◌⊎◌, inl, inr, Bool-cases,
}
use jarvis_ai_coo.Models.{SkillStatus, draft, active, disabled, Database, Skill}
use jarvis_ai_coo.Tenant.{TenantContext}
use jarvis_ai_coo.Lifecycle.{can_transition, can_transition-eq-stage}
use jarvis_ai_coo.Database.{Env, Server, Result, ok, raised, owned_by}
use jarvis_ai_coo.Skills.{apply_changes, draft_of}
use jarvis_ai_coo.Requests.{Request, Response, serve, serve_all}
use jarvis_ai_coo.Registry.Step.{Step, put_skill}
use jarvis_ai_coo.Registry.Rows.{
  skill_at, UniqueIds, absent, skill_at-put, put-UniqueIds, skill_at-where,
}
use jarvis_ai_coo.Registry.Reads.{same_id}
use jarvis_ai_coo.Registry.Refines.{Refines, serve-Refines}

serve_all-rows :
    (env : Env) (requests : List (TenantContext × Request)) (server : Server)
    → UniqueIds server.database.skills
    → Later server.database.skills (serve_all env requests server).database.skills
unfolding serve_all
serve_all-rows env [] server u = same_rows server.database.skills u
serve_all-rows env ((context, request) ∷ rest) server u =
    let (r, next) = serve env context request server in
    let one : Later server.database.skills next.database.skills =
      Refines-Later env context request _ _ r u (serve-Refines env context request server) in
    Later-trans _ _ _ one (serve_all-rows env rest next one.0)

-- Two rows have the same definition of the skill.
pub record SameDefinition (k k' : Skill) : Type 0 where
  pub name : k'.name ≡ k.name
  pub description : k'.description ≡ k.description
  pub department : k'.department ≡ k.department
  pub content : k'.content ≡ k.content
  pub requested_tools : k'.requested_tools ≡ k.requested_tools

-- A skill at two moments, as its life cycle allows.
pub record Outlives (k k' : Skill) : Type 0 where
  pub id : k'.id ≡ k.id
  pub organization_id : k'.organization_id ≡ k.organization_id
  pub created_by : k'.created_by ≡ k.created_by
  pub created_at : k'.created_at ≡ k.created_at
  pub status : (k'.status ≡ k.status) ⊎ (can_transition k.status k'.status ≡ true)
  pub frozen : (k.status ≡ draft) ⊎ SameDefinition k k'
  pub final : (k.status ≢ disabled) ⊎ (k' ≡ k)

draft_or_not : (s : SkillStatus) → (s ≡ draft) ⊎ (s ≢ draft)
draft_or_not draft = inl refl
draft_or_not active = inr (λ e. cc)
draft_or_not disabled = inr (λ e. cc)

disabled_or_not : (s : SkillStatus) → (s ≡ disabled) ⊎ (s ≢ disabled)
disabled_or_not draft = inr (λ e. cc)
disabled_or_not active = inr (λ e. cc)
disabled_or_not disabled = inl refl

Evolves-Outlives : (k k' : Skill) → Evolves k k' → Outlives k k'
Evolves-Outlives k k' e = record {
  id = e.id;
  organization_id = e.organization_id;
  created_by = e.created_by;
  created_at = e.created_at;
  status = e.status;
  frozen = elim (draft_or_not k.status) [
    | inl is_draft ↦ inl is_draft
    | inr n ↦ inr (record {
      name = e.name n;
      description = e.description n;
      department = e.department n;
      content = e.content n;
      requested_tools = e.requested_tools n;
    })
  ];
  final = elim (disabled_or_not k.status) [
    | inl is_disabled ↦ inr (e.final is_disabled)
    | inr n ↦ inl n
  ];
}

-- Over any requests of any tenants, from tables in which no skill id stands twice, every skill stays,
-- under its id, organization, creator and creation time. Its status is what it was or one that
-- `can_transition` allows from it. Its name, description, department, content and requested tools are
-- what they were unless it was a draft. A skill that was disabled has not changed in any column.
pub serve_all-Outlives :
    (env : Env) (requests : List (TenantContext × Request)) (server : Server) (id : Text)
    (k : Skill)
    → UniqueIds server.database.skills
    → skill_at id server.database.skills ≡ some k
    → (k' : Skill) × (skill_at id (serve_all env requests server).database.skills ≡ some k')
      × Outlives k k'
serve_all-Outlives env requests server id k u h =
    let (k', found, e) = (serve_all-rows env requests server u).1 id k h in
    (k', found, Evolves-Outlives k k' e)
