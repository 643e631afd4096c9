-- ===== src/Seeding.antt =====
-- `seed_fixture_organizations` of app/main.py.
mod Organizations
mod Memberships
pub mod Again
use jarvis_ai_coo.Prelude.{
  ℕ, Text, codes, ◌≡◌, refl, Bool, true, false, ◌&&◌, ◌||◌, ◌==◌, text_eq, List, [], ◌∷◌, map,
  contains, if◌then◌else◌,
}
use jarvis_ai_coo.Models.{Database, Organization, Membership}
use jarvis_ai_coo.Tenant.{owner_role, member_role}
use jarvis_ai_coo.Errors.{integrity_error}
use jarvis_ai_coo.Database.{
  Env, Session, Action, pure, raise_if, gets, modify, ◌>>=◌, ◌>>◌, utcnow, commit, exists,
}

-- `FIXTURE_ORGANIZATIONS` and `FIXTURE_MEMBERSHIPS`, by the two ids that `uuid.uuid5` derives
abbrev pub fixture_organizations : Text → Text → List (Text × Text)
fixture_organizations abc xyz = (abc, codes "ABC Construction") ∷ (xyz, codes "XYZ Builders") ∷ []

abbrev pub fixture_memberships : Text → Text → List (Text × Text × Text)
fixture_memberships abc xyz =
    (abc, codes "alice", owner_role)
    ∷ (abc, codes "bob", member_role)
    ∷ (xyz, codes "carol", owner_role)
    ∷ (xyz, codes "dave", member_role)
    ∷ []

-- the primary key, and the unique name
unfoldable pub insert_organization : Organization → Action Unit
unfolding exists
insert_organization row = do
  raise_if
      (← gets (λ s. exists (λ o. o.id == row.id || o.name == row.name) s.working.organizations))
      integrity_error
  modify (λ db. record db { organizations = row ∷ db.organizations })

-- the primary key
unfoldable pub insert_membership : Membership → Action Unit
unfolding exists
insert_membership row = do
  raise_if
      (← gets (λ s.
        exists (λ m. m.organization_id == row.organization_id && m.user_id == row.user_id)
          s.working.memberships))
      integrity_error
  modify (λ db. record db { memberships = row ∷ db.memberships })

-- `org_id in existing`, and the pair in `existing_members`
unfoldable pub has_organization : Text → List Organization → Bool
has_organization id rows = contains (map (λ o. o.id) rows) id

unfoldable pub has_member : Text → Text → List Membership → Bool
has_member id user [] = false
has_member id user (m ∷ rows) =
    m.organization_id == id && m.user_id == user || has_member id user rows

-- the two loops
unfoldable pub add_organizations : Env → List Organization → List (Text × Text) → Action Unit
unfolding has_organization insert_organization
add_organizations env existing [] = pure tt
add_organizations env existing ((id, name) ∷ rest) =
    let more = add_organizations env existing rest in
    if has_organization id existing then more else do
      now ← utcnow env
      insert_organization (record { id = id; name = name; created_at = now })
      more

unfoldable pub add_memberships : Env → List Membership → List (Text × Text × Text) → Action Unit
unfolding has_member insert_membership
add_memberships env existing [] = pure tt
add_memberships env existing ((id, user, role) ∷ rest) =
    let more = add_memberships env existing rest in
    if has_member id user existing then more else do
      now ← utcnow env
      insert_membership
          (record { organization_id = id; user_id = user; role = role; created_at = now })
      more

unfoldable pub seed_fixture_organizations : Env → Text → Text → Action Unit
unfolding add_organizations add_memberships
seed_fixture_organizations env abc xyz = do
  existing ← gets (λ s. s.working.organizations)
  add_organizations env existing (fixture_organizations abc xyz)
  existing_members ← gets (λ s. s.working.memberships)
  add_memberships env existing_members (fixture_memberships abc xyz)
  commit
