-- ===== src/Seeding/Memberships.antt =====
-- The loop over the memberships.
use jarvis_ai_coo.Prelude.{
  suc, Text, ◌≡◌, refl, sym, ap, ◌∙◌, subst, true, false, text_eq, List, [], ◌∷◌, arith, Bool-cases,
  inl, inr,
}
use jarvis_ai_coo.Models.{Membership}
use jarvis_ai_coo.Database.{Env, Session, ok, ◌>>=◌, utcnow}
use jarvis_ai_coo.Seeding.{insert_membership, has_member, add_memberships}

has_more :
    (id user : Text) (m : Membership) (ms : List Membership)
    → has_member id user ms ≡ true
    → has_member id user (m ∷ ms) ≡ true
unfolding has_member
has_more id user m ms h = ground arith

has_first :
    (m : Membership) (ms : List Membership) → has_member m.organization_id m.user_id (m ∷ ms) ≡ true
unfolding has_member
has_first m ms = ground arith

no_member :
    (env : Env) (existing : List Membership) (s t : Session)
    → add_memberships env existing [] s ≡ (ok tt, t)
    → t ≡ s
unfolding add_memberships ◌>>=◌
no_member env existing s t h = ground arith

-- the session with one membership more
with_member : Env → Text → Text → Text → Session → Session
with_member env id user role s = record s {
  working = record s.working {
    memberships =
        record { organization_id = id; user_id = user; role = role; created_at = env.now s.draws }
        ∷ s.working.memberships;
  };
  draws = suc s.draws;
}

skip_member :
    (env : Env) (existing : List Membership) (id user role : Text)
    (rest : List (Text × Text × Text)) (s : Session)
    → has_member id user existing ≡ true
    → add_memberships env existing ((id, user, role) ∷ rest) s ≡ add_memberships env existing rest s
unfolding add_memberships
skip_member env existing id user role rest s h = rw h

add_member :
    (env : Env) (existing : List Membership) (id user role : Text)
    (rest : List (Text × Text × Text)) (s t : Session)
    → has_member id user existing ≡ false
    → add_memberships env existing ((id, user, role) ∷ rest) s ≡ (ok tt, t)
    → add_memberships env existing rest (with_member env id user role s) ≡ (ok tt, t)
unfolding add_memberships insert_membership utcnow ◌>>=◌ with_member
add_member env existing id user role rest s t h k = ground arith

-- The rows have a membership for every entry of the list.
abbrev pub AllMembers : List Membership → List (Text × Text × Text) → Type 0
AllMembers rows [] = Unit
AllMembers rows ((id, user, role) ∷ rest) = (has_member id user rows ≡ true) × AllMembers rows rest

-- A loop that has ended well has left every membership, kept those that were there, and left the
-- organizations.
pub memberships_there :
    (env : Env) (existing : List Membership) (list : List (Text × Text × Text)) (s t : Session)
    → ((id user : Text)
        → has_member id user existing ≡ true
        → has_member id user s.working.memberships ≡ true)
    → add_memberships env existing list s ≡ (ok tt, t)
    → ((id user : Text)
        → has_member id user s.working.memberships ≡ true
        → has_member id user t.working.memberships ≡ true)
      × AllMembers t.working.memberships list
      × (t.working.organizations ≡ s.working.organizations)
unfolding with_member
memberships_there env existing [] s t sub h = (
  subst
      (λ (u : Session).
        (id user : Text)
        → has_member id user s.working.memberships ≡ true
        → has_member id user u.working.memberships ≡ true)
      (sym (no_member env existing s t h)) (λ id user k. k),
  tt,
  ap (λ (u : Session). u.working.organizations) (no_member env existing s t h),
)
memberships_there env existing ((id, user, role) ∷ rest) s t sub h =
    elim (Bool-cases (has_member id user existing)) [
      | inl old ↦
          let (keep, all, same) =
            memberships_there env existing rest s t sub
              (sym (skip_member env existing id user role rest s old) ∙ h) in
          (keep, (keep id user (sub id user old), all), same)
      | inr new ↦
          let row : Membership = record {
            organization_id = id;
            user_id = user;
            role = role;
            created_at = env.now s.draws;
          } in
          let (keep, all, same) =
            memberships_there env existing rest (with_member env id user role s) t
              (λ j u k. has_more j u row s.working.memberships (sub j u k))
              (add_member env existing id user role rest s t new h) in
          (
            (λ j u k. keep j u (has_more j u row s.working.memberships k)),
            (keep id user (has_first row s.working.memberships), all),
            same,
          )
    ]

-- A loop over memberships that are there does nothing.
pub no_more_members :
    (env : Env) (existing : List Membership) (list : List (Text × Text × Text)) (s : Session)
    → AllMembers existing list
    → add_memberships env existing list s ≡ (ok tt, s)
unfolding add_memberships ◌>>=◌
no_more_members env existing [] s all = refl
no_more_members env existing ((id, user, role) ∷ rest) s all =
    rw all.0 (no_more_members env existing rest s all.1)
