-- ===== src/Registry/Rows.antt =====
-- The rows of the skill table by id: no id twice, and what a replaced row does to lookups and to
-- the rows that another tenant sees.
use jarvis_ai_coo.Prelude.{
  Text, ◌≡◌, ◌≢◌, refl, subst, Bool, false, ◌&&◌, inl, inr, Bool-cases, Option, none, some, List,
  [], ◌∷◌, find, where_, update, ◌==◌, text_eq, arith, if◌then◌else◌,
}
use jarvis_ai_coo.Models.{Skill}
use jarvis_ai_coo.Tenant.{TenantContext}
use jarvis_ai_coo.Database.{exists}
use jarvis_ai_coo.Registry.Step.{put_skill}

-- The row of an id, whoever owns it.
abbrev pub skill_at : Text → List Skill → Option Skill
skill_at id = find (λ k. k.id == id)

abbrev pub UniqueIds : List Skill → Type 0
UniqueIds [] = Unit
UniqueIds (k ∷ ks) = (skill_at k.id ks ≡ none) × UniqueIds ks

pub absent :
    (id : Text) (ks : List Skill) → exists (λ k. k.id == id) ks ≡ false → skill_at id ks ≡ none
unfolding exists
absent id ks h = ground arith

pub skill_at-put :
    (new : Skill) (id : Text) (ks : List Skill) (old : Skill)
    → skill_at id ks ≡ some old
    → skill_at id (put_skill new ks) ≡ some (if new.id == id then new else old)
unfolding find update
skill_at-put new id [] old h = cc
skill_at-put new id (k ∷ ks) old h = ground (arith, skill_at-put new id ks old)

skill_at-put_none :
    (new : Skill) (id : Text) (ks : List Skill)
    → skill_at id ks ≡ none
    → skill_at id (put_skill new ks) ≡ none
unfolding find update
skill_at-put_none new id [] h = refl
skill_at-put_none new id (k ∷ ks) h = ground (arith, skill_at-put_none new id ks)

pub put-UniqueIds : (new : Skill) (ks : List Skill) → UniqueIds ks → UniqueIds (put_skill new ks)
unfolding update
put-UniqueIds new [] u = tt
put-UniqueIds new (k ∷ ks) u = ground (
  arith,
  put-UniqueIds new ks u.1,
  skill_at-put_none new k.id ks,
  skill_at-put_none new new.id ks,
)

found_somewhere :
    (q : Skill → Bool) (id : Text) (ks : List Skill) (k : Skill)
    → skill_at id (where_ q ks) ≡ some k
    → skill_at id ks ≢ none
unfolding find where_
found_somewhere q id [] k h = cc
found_somewhere q id (j ∷ ks) k h = ground (arith, found_somewhere q id ks k)

-- With no id twice, the row that a tenant finds is the row of the id.
pub skill_at-where :
    (q : Skill → Bool) (id : Text) (ks : List Skill) (k : Skill)
    → UniqueIds ks
    → skill_at id (where_ q ks) ≡ some k
    → skill_at id ks ≡ some k
unfolding find where_
skill_at-where q id [] k u h = cc
skill_at-where q id (j ∷ ks) k u h =
    ground (arith, skill_at-where q id ks k u.1, found_somewhere q id ks k)

-- Replacing a row that `q` rejects by another that it rejects leaves the rows that pass.
pub where-put :
    (q : Skill → Bool) (new old : Skill) (ks : List Skill)
    → UniqueIds ks
    → skill_at new.id ks ≡ some old
    → q old ≡ false
    → q new ≡ false
    → where_ q (put_skill new ks) ≡ where_ q ks
unfolding find where_ update
where-put q new old [] u h f g = refl
where-put q new old (k ∷ ks) u h f g = ground (arith, where-put q new old ks u.1, put_absent new ks)
  where
    put_absent : (m : Skill) (l : List Skill) → skill_at m.id l ≡ none → put_skill m l ≡ l
    put_absent m [] e = refl
    put_absent m (j ∷ l) e = ground (arith, put_absent m l)

-- rows of which no one has the id
none_seen :
    (skills : List Skill) (id : Text) (tenant : TenantContext)
    → skill_at id skills ≡ none
    → exists (λ s. s.id == id && s.organization_id == tenant.organization_id) skills ≡ false
unfolding exists find
none_seen [] id tenant h = refl
none_seen (s ∷ skills) id tenant h = ground (arith, none_seen skills id tenant)

-- Of rows with different ids, the one that is found is the only one of its id
pub owner_decides :
    (skills : List Skill) (id : Text) (k : Skill) (tenant : TenantContext)
    → UniqueIds skills
    → skill_at id skills ≡ some k
    → exists (λ s. s.id == id && s.organization_id == tenant.organization_id) skills
      ≡ (k.organization_id == tenant.organization_id)
unfolding exists find
owner_decides [] id k tenant unique h = cc
owner_decides (s ∷ skills) id k tenant (new, unique) h = elim (Bool-cases (s.id == id)) [
  | inl same ↦
      let is : s ≡ k = ground arith in
      let gone : skill_at id skills ≡ none =
        subst (λ i. skill_at i skills ≡ none) (ground arith) new in
      subst
        (λ j.
          exists (λ x. x.id == id && x.organization_id == tenant.organization_id) (s ∷ skills)
          ≡ (j.organization_id == tenant.organization_id))
        is (ground (arith, none_seen skills id tenant gone))
  | inr other ↦ ground (arith, owner_decides skills id k tenant unique)
]
