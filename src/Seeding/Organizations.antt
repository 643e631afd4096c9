-- ===== src/Seeding/Organizations.antt =====
-- The loop over the organizations.
use jarvis_ai_coo.Prelude.{
  suc, Text, ◌≡◌, refl, sym, ◌∙◌, subst, true, false, text_eq, List, [], ◌∷◌, All, arith,
  Bool-cases, inl, inr,
}
use jarvis_ai_coo.Models.{Organization}
use jarvis_ai_coo.Database.{Env, Session, ok, ◌>>=◌, utcnow}
use jarvis_ai_coo.Seeding.{insert_organization, has_organization, add_organizations}

has_more :
    (id : Text) (o : Organization) (os : List Organization)
    → has_organization id os ≡ true
    → has_organization id (o ∷ os) ≡ true
unfolding has_organization
has_more id o os h = ground arith

has_first : (o : Organization) (os : List Organization) → has_organization o.id (o ∷ os) ≡ true
unfolding has_organization
has_first o os = ground arith

no_organization :
    (env : Env) (existing : List Organization) (s t : Session)
    → add_organizations env existing [] s ≡ (ok tt, t)
    → t ≡ s
unfolding add_organizations ◌>>=◌
no_organization env existing s t h = ground arith

-- the session with one organization more
with_organization : Env → Text → Text → Session → Session
with_organization env id name s = record s {
  working = record s.working {
    organizations =
        record { id = id; name = name; created_at = env.now s.draws } ∷ s.working.organizations;
  };
  draws = suc s.draws;
}

skip_organization :
    (env : Env) (existing : List Organization) (id name : Text) (rest : List (Text × Text))
    (s : Session)
    → has_organization id existing ≡ true
    → add_organizations env existing ((id, name) ∷ rest) s ≡ add_organizations env existing rest s
unfolding add_organizations
skip_organization env existing id name rest s h = rw h

add_organization :
    (env : Env) (existing : List Organization) (id name : Text) (rest : List (Text × Text))
    (s t : Session)
    → has_organization id existing ≡ false
    → add_organizations env existing ((id, name) ∷ rest) s ≡ (ok tt, t)
    → add_organizations env existing rest (with_organization env id name s) ≡ (ok tt, t)
unfolding add_organizations insert_organization utcnow ◌>>=◌ with_organization
add_organization env existing id name rest s t h k = ground arith

-- A loop that has ended well has left every organization, and kept those that were there.
pub organizations_there :
    (env : Env) (existing : List Organization) (list : List (Text × Text)) (s t : Session)
    → ((id : Text)
        → has_organization id existing ≡ true
        → has_organization id s.working.organizations ≡ true)
    → add_organizations env existing list s ≡ (ok tt, t)
    → ((id : Text)
        → has_organization id s.working.organizations ≡ true
        → has_organization id t.working.organizations ≡ true)
      × All (λ (o : Text × Text). has_organization o.0 t.working.organizations ≡ true) list
unfolding with_organization
organizations_there env existing [] s t sub h = (
  subst
      (λ (u : Session).
        (id : Text)
        → has_organization id s.working.organizations ≡ true
        → has_organization id u.working.organizations ≡ true)
      (sym (no_organization env existing s t h)) (λ id k. k),
  tt,
)
organizations_there env existing ((id, name) ∷ rest) s t sub h =
    elim (Bool-cases (has_organization id existing)) [
      | inl old ↦
          let (keep, all) =
            organizations_there env existing rest s t sub
              (sym (skip_organization env existing id name rest s old) ∙ h) in
          (keep, (keep id (sub id old), all))
      | inr new ↦
          let row : Organization = record { id = id; name = name; created_at = env.now s.draws } in
          let (keep, all) =
            organizations_there env existing rest (with_organization env id name s) t
              (λ j k. has_more j row s.working.organizations (sub j k))
              (add_organization env existing id name rest s t new h) in
          (
            (λ j k. keep j (has_more j row s.working.organizations k)),
            (keep id (has_first row s.working.organizations), all),
          )
    ]

-- A loop over organizations that are there does nothing.
pub nothing_to_add :
    (env : Env) (existing : List Organization) (list : List (Text × Text)) (s : Session)
    → All (λ (o : Text × Text). has_organization o.0 existing ≡ true) list
    → add_organizations env existing list s ≡ (ok tt, s)
unfolding add_organizations ◌>>=◌
nothing_to_add env existing [] s all = refl
nothing_to_add env existing ((id, name) ∷ rest) s all =
    rw all.0 (nothing_to_add env existing rest s all.1)
