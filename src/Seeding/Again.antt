-- ===== src/Seeding/Again.antt =====
-- Seeding, a second time.
use jarvis_ai_coo.Prelude.{Text, ◌≡◌, refl, sym, subst, true, text_eq, All}
use jarvis_ai_coo.Errors.{Error}
use jarvis_ai_coo.Database.{
  Env, Session, Result, ok, raised, Server, ◌>>=◌, commit, get_db, open_session,
}
use jarvis_ai_coo.Seeding.{
  fixture_organizations, fixture_memberships, has_organization, add_organizations, add_memberships,
  seed_fixture_organizations,
}
use jarvis_ai_coo.Seeding.Organizations.{organizations_there, nothing_to_add}
use jarvis_ai_coo.Seeding.Memberships.{AllMembers, memberships_there, no_more_members}

-- Both loops and the commit, on tables that have all fixtures.
seeded :
    (env : Env) (abc xyz : Text) (s : Session)
    → All
        (λ (o : Text × Text). has_organization o.0 s.working.organizations ≡ true)
        (fixture_organizations abc xyz)
    → AllMembers s.working.memberships (fixture_memberships abc xyz)
    → seed_fixture_organizations env abc xyz s ≡ (ok tt, record s { stored = s.working })
unfolding seed_fixture_organizations commit ◌>>=◌
seeded env abc xyz s o m =
    rw (nothing_to_add env s.working.organizations (fixture_organizations abc xyz) s o)
      (rw (no_more_members env s.working.memberships (fixture_memberships abc xyz) s m))

module _ (env : Env) (abc xyz : Text) (s u : Session) where
  first_fails :
      (e : Error)
      → add_organizations env s.working.organizations (fixture_organizations abc xyz) s
        ≡ (raised e, u)
      → seed_fixture_organizations env abc xyz s ≡ (raised e, u)
  unfolding seed_fixture_organizations ◌>>=◌
  first_fails e h = rw h

  module _ (v : Session)
      (first : add_organizations env s.working.organizations (fixture_organizations abc xyz) s
        ≡ (ok tt, u)) where
    second_fails :
        (e : Error)
        → add_memberships env u.working.memberships (fixture_memberships abc xyz) u ≡ (raised e, v)
        → seed_fixture_organizations env abc xyz s ≡ (raised e, v)
    unfolding seed_fixture_organizations ◌>>=◌
    second_fails e h = rw first (rw h)

    both_end :
        add_memberships env u.working.memberships (fixture_memberships abc xyz) u ≡ (ok tt, v)
        → seed_fixture_organizations env abc xyz s ≡ (ok tt, record v { stored = v.working })
    unfolding seed_fixture_organizations commit ◌>>=◌
    both_end h = rw first (rw h)

    tables_full :
        add_memberships env u.working.memberships (fixture_memberships abc xyz) u ≡ (ok tt, v)
        → All
            (λ (o : Text × Text). has_organization o.0 v.working.organizations ≡ true)
            (fixture_organizations abc xyz)
          × AllMembers v.working.memberships (fixture_memberships abc xyz)
    tables_full h =
        let (_, o) =
          organizations_there env s.working.organizations (fixture_organizations abc xyz) s u
            (λ id k. k) first in
        let (_, m, same) =
          memberships_there env u.working.memberships (fixture_memberships abc xyz) u v
            (λ id user k. k) h in
        (
          subst
              (λ rows.
                All (λ (o : Text × Text). has_organization o.0 rows ≡ true)
                  (fixture_organizations abc xyz))
              (sym same) o,
          m,
        )

-- If seeding ends well, then seeding again ends well and leaves the server as it was, whatever
-- organizations and memberships there were before the first time.
pub seed_again :
    (env : Env) (abc xyz : Text) (server server' : Server)
    → get_db (seed_fixture_organizations env abc xyz) server ≡ (ok tt, server')
    → get_db (seed_fixture_organizations env abc xyz) server' ≡ (ok tt, server')
unfolding get_db open_session
seed_again env abc xyz server server' h =
    by_loops (add_organizations env s.working.organizations (fixture_organizations abc xyz) s).0 _
      refl _ _ refl
  where
    s : Session
    s = open_session server

    by_loops :
        (r : Result {0} Unit) (u : Session)
        → add_organizations env s.working.organizations (fixture_organizations abc xyz) s ≡ (r, u)
        → (q : Result {0} Unit) (v : Session)
        → add_memberships env u.working.memberships (fixture_memberships abc xyz) u ≡ (q, v)
        → get_db (seed_fixture_organizations env abc xyz) server' ≡ (ok tt, server')
    by_loops (raised e) u eo q v em = absurd (cc (rw (first_fails env abc xyz s u e eo) at h))
    by_loops (ok _) u eo (raised e) v em =
        absurd (cc (rw (second_fails env abc xyz s u v eo e em) at h))
    by_loops (ok _) u eo (ok _) v em =
        let is : server' ≡ record { database = v.working; draws = v.draws } =
          cc (rw (both_end env abc xyz s u v eo em) at h) in
        let (o, m) = tables_full env abc xyz s u v eo em in
        subst (λ x. get_db (seed_fixture_organizations env abc xyz) x ≡ (ok tt, x)) (sym is)
          (rw (
            seeded env abc xyz (open_session (record { database = v.working; draws = v.draws })) o
              m))
