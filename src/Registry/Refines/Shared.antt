-- ===== src/Registry/Refines/Shared.antt =====
-- What the refinement proofs of the handlers share: rows that are still found after a write, and the
-- common ends of the handlers.
use jarvis_ai_coo.Prelude.{
  Text, ◌≡◌, ◌≢◌, sym, subst, Bool, true, Option, none, some, List, ◌∷◌, find, where_, update, ◌==◌,
  text_eq, nat_eq, arith,
}
use jarvis_ai_coo.Models.{Database, Skill}
use jarvis_ai_coo.Tenant.{TenantContext}
use jarvis_ai_coo.Lifecycle.{status_eq}
use jarvis_ai_coo.Database.{Env, Session, Action, ◌>>=◌, commit, refresh_skill, owned_by}
use jarvis_ai_coo.Skills.{skill_to_detail}
use jarvis_ai_coo.Requests.{Request}
use jarvis_ai_coo.Registry.Step.{Step, own_skill, put_skill}
use jarvis_ai_coo.Registry.Lookup.{find_where_passes, find_where-update}
use jarvis_ai_coo.Registry.Ends.{Ends, Ends-map, bind-Ends, Open, Closed, Same, commit-Ends}
use jarvis_ai_coo.Registry.Reads.{refresh_skill-Ends, skill_to_detail-Ends}

pub eq_self : (a : Text) → (a == a) ≡ true
eq_self a = ground arith

pub some_ne_none : {A : Type 0} {x : Option A} {a : A} → x ≡ some a → x ≢ none
some_ne_none e n = cc

module _ (context : TenantContext) where
  abbrev pub owned : Skill → Bool
  owned k = owned_by (some context) k.organization_id

  -- the row of a tenant's skill is still found when a row of the same skill has replaced it
  pub own_skill-put :
      (old new : Skill) (skills : List Skill)
      → find (λ k. k.id == old.id) (where_ owned skills) ≡ some old
      → new.id ≡ old.id
      → new.organization_id ≡ old.organization_id
      → find (λ k. k.id == old.id) (where_ owned (put_skill new skills)) ≢ none
  own_skill-put old new skills found same_skill same_owner = some_ne_none (there same_skill)
    where
      there :
          new.id ≡ old.id
          → find (λ k. k.id == old.id) (where_ owned (put_skill new skills)) ≡ some new
      there e =
          subst
            (λ j.
              find (λ k. k.id == old.id) (where_ owned (update (λ k. k.id == j) (λ _. new) skills))
              ≡ some new)
            (sym e)
            (find_where-update (λ k. k.id == old.id) owned new skills old found
              (subst (λ j. (j == old.id) ≡ true) (sym e) (eq_self old.id))
              (subst (λ j. owned_by (some context) j ≡ true) (sym same_owner)
                (find_where_passes (λ k. k.id == old.id) owned skills old found)))

  pub own_skill-add :
      (new : Skill) (skills : List Skill)
      → new.organization_id ≡ context.organization_id
      → find (λ k. k.id == new.id) (where_ owned (new ∷ skills)) ≢ none
  unfolding find where_ owned_by
  own_skill-add new skills e = ground arith

-- What a handler comes to: a step of the stored tables, or after a raise none.
abbrev pub Steps :
    {A : Type 0} → Env → TenantContext → Request → Database → Action A → Session → Type 0
Steps env context request db m s = Ends (λ _ t. Step env context request db t.stored) (Same db) m s

module _ {env : Env} {context : TenantContext} {request : Request} {db w : Database} where
  -- the end of the handlers that respond with a skill
  pub respond :
      {s : Session} (id : Text)
      → Closed context w s
      → own_skill context id w ≢ none
      → Step env context request db w
      → Steps env context request db (refresh_skill id >>= skill_to_detail) s
  respond id c present step = bind-Ends _ _ (refresh_skill-Ends c id present) λ k u c'.
      Ends-map (λ _ v c''. subst (Step env context request db) (sym c''.stored) step)
        (skill_to_detail-Ends c' k)

  pub close_skill :
      {s : Session} (id : Text)
      → Open context db w s
      → own_skill context id w ≢ none
      → Step env context request db w
      → Steps env context request db (commit >>= λ _. refresh_skill id >>= skill_to_detail) s
  close_skill id h present step = bind-Ends _ _ (commit-Ends h) λ _ t c. respond id c present step
