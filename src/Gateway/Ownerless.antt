-- ===== src/Gateway/Ownerless.antt =====
-- An organization without an owner.
use jarvis_ai_coo.Prelude.{
  Text, ◌≡◌, ◌≢◌, refl, sym, ap, ◌∙◌, subst, false, some, List, [], ◌∷◌, find, where_, All, All-In,
  ◌⊎◌, inl, inr, ◌==◌, text_eq, arith, Bool-cases,
}
use jarvis_ai_coo.Models.{Database, Skill, Membership}
use jarvis_ai_coo.Tenant.{TenantContext, is_owner, owner_role}
use jarvis_ai_coo.Database.{Env, Server, open_session}
use jarvis_ai_coo.Dependencies.Identity.{IsMember}
use jarvis_ai_coo.Requests.{Request, serve, serve_all}
use jarvis_ai_coo.Registry.Rows.{skill_at, skill_at-where}
use jarvis_ai_coo.Registry.Sound.{IsSound, serve_all-IsSound}
use jarvis_ai_coo.Registry.Isolation.{approvals_of, serve_all-SameFor}
use jarvis_ai_coo.Registry.Members.{SameStanding, SameStanding-trans, serve_all-SameStanding}
use jarvis_ai_coo.Registry.Evolution.{serve_all-Outlives}
use jarvis_ai_coo.Gateway.{Arrival, receive_all}
use jarvis_ai_coo.Gateway.Arrivals.{Admits, none_left, turned_away, admitted, receive_all-Admits}

-- a skill of the organization is found among its own
own_row_found :
    (org id : Text) (ks : List Skill) (k : Skill)
    → skill_at id ks ≡ some k
    → k.organization_id ≡ org
    → skill_at id (where_ (λ j. j.organization_id == org) ks) ≡ some k
unfolding find where_
own_row_found org id [] k h own = cc
own_row_found org id (j ∷ ks) k h own = ground (arith, own_row_found org id ks k)

-- What becomes of a skill of the organization: its standing stays, and the approvals of the
-- organization are what they were.
pub record Unmoved (org id : Text) (k : Skill) (db db' : Database) : Type 0 where
  pub row : Skill
  pub found : skill_at id db'.skills ≡ some row
  pub organization_id : row.organization_id ≡ org
  pub standing : SameStanding k row
  pub approvals : approvals_of org db' ≡ approvals_of org db

Unmoved-trans :
    (org id : Text) (k : Skill) (a b c : Database) (u : Unmoved org id k a b)
    → Unmoved org id u.row b c
    → Unmoved org id k a c
Unmoved-trans org id k a b c u v = record {
  row = v.row;
  found = v.found;
  organization_id = v.organization_id;
  standing = SameStanding-trans u.standing v.standing;
  approvals = v.approvals ∙ u.approvals;
}

-- a request of another organization, or of no owner
abbrev Elsewhere : Text → TenantContext → Type 0
Elsewhere org context = (context.organization_id ≢ org) ⊎ (is_owner context ≡ false)

module _ (env : Env) (org id : Text) where
  one_request :
      (context : TenantContext) (request : Request) (server : Server) (k : Skill)
      → IsSound env server.database
      → skill_at id server.database.skills ≡ some k
      → k.organization_id ≡ org
      → Elsewhere org context
      → Unmoved org id k server.database (serve_all env ((context, request) ∷ []) server).database
  one_request context request server k sound found own (inl other) =
      let same =
        serve_all-SameFor env org ((context, request) ∷ []) server sound.skill_ids (other, tt) in
      let later = serve_all-IsSound env ((context, request) ∷ []) server sound in
      record {
        row = k;
        found =
            skill_at-where (λ j. j.organization_id == org) id _ k later.skill_ids
              (ap (skill_at id) same.skills
                ∙ own_row_found org id server.database.skills k found own);
        organization_id = own;
        standing = record { status = refl; active_version_id = refl };
        approvals = same.approvals;
      }
  one_request context request server k sound found own (inr member) =
      let ((k', found', standing), approvals) =
        serve_all-SameStanding env ((context, request) ∷ []) server id k (member, tt)
          sound.skill_ids found in
      let (l, found_l, lives) =
        serve_all-Outlives env ((context, request) ∷ []) server id k sound.skill_ids found in
      let is : l ≡ k' = cc (found_l, found') in
      record {
        row = k';
        found = found';
        organization_id =
            ap (λ (j : Skill). j.organization_id) (sym is) ∙ (lives.organization_id ∙ own);
        standing = standing;
        approvals = ap (where_ (λ a. a.organization_id == org)) approvals;
      }

  whole_run :
      (requests : List (TenantContext × Request)) (server : Server) (k : Skill)
      → IsSound env server.database
      → skill_at id server.database.skills ≡ some k
      → k.organization_id ≡ org
      → All (λ (x : TenantContext × Request). Elsewhere org x.0) requests
      → Unmoved org id k server.database (serve_all env requests server).database
  unfolding serve_all
  whole_run [] server k sound found own e = record {
    row = k;
    found = found;
    organization_id = own;
    standing = record { status = refl; active_version_id = refl };
    approvals = refl;
  }
  whole_run ((context, request) ∷ rest) server k sound found own (elsewhere, e) =
      let next = (serve env context request server).1 in
      let first : Unmoved org id k server.database next.database =
        one_request context request server k sound found own elsewhere in
      Unmoved-trans org id k server.database next.database (serve_all env rest next).database first
        (whole_run rest next first.row
          (serve_all-IsSound env ((context, request) ∷ []) server sound) first.found
          first.organization_id e)

-- No membership row makes anyone an owner of the organization.
abbrev pub HasNoOwner : Text → Database → Type 0
HasNoOwner org db =
    All (λ (m : Membership). m.organization_id ≡ org → m.role ≢ owner_role) db.memberships

listed-Elsewhere :
    (org : Text) (server : Server) (context : TenantContext)
    → HasNoOwner org server.database
    → IsMember (open_session server) context
    → Elsewhere org context
unfolding is_owner open_session
listed-Elsewhere org server context ownerless m =
    elim (Bool-cases (context.organization_id == org)) [
      | inl there ↦
          let same : context.organization_id ≡ org = ground arith in
          let other : m.membership.role ≢ owner_role =
            All-In (λ (x : Membership). x.organization_id ≡ org → x.role ≢ owner_role) m.membership
              server.database.memberships ownerless m.listed (m.member_of ∙ same) in
          inr (unequal context.role (λ e. other (m.role ∙ e)))
      | inr not_there ↦ inl (ground arith)
    ]
  where
    unequal : (role : Text) → role ≢ owner_role → (role == owner_role) ≡ false
    unequal role n = ground arith

Admits-Elsewhere :
    (env : Env) (org : Text) (server : Server) (arrivals : List Arrival)
    (requests : List (TenantContext × Request))
    → HasNoOwner org server.database
    → Admits env server arrivals requests
    → All (λ (x : TenantContext × Request). Elsewhere org x.0) requests
Admits-Elsewhere env org server _ _ ownerless none_left = tt
Admits-Elsewhere env org server _ _ ownerless (turned_away a) =
    Admits-Elsewhere env org server _ _ ownerless a
Admits-Elsewhere env org server _ _ ownerless (admitted context request member body a) = (
  listed-Elsewhere org server context ownerless member,
  Admits-Elsewhere env org server _ _ ownerless a,
)

-- From sound tables in which no membership row makes anyone an owner of an organization: whatever
-- arrives, from anyone, owners of other organizations included, with whatever tokens, bodies and role
-- headers, no skill of the organization changes its status or its active version, and its tool
-- approvals are what they were.
pub receive_all-Unmoved :
    (env : Env) (arrivals : List Arrival) (server : Server) (org id : Text) (k : Skill)
    → IsSound env server.database
    → HasNoOwner org server.database
    → skill_at id server.database.skills ≡ some k
    → k.organization_id ≡ org
    → Unmoved org id k server.database (receive_all env arrivals server).database
receive_all-Unmoved env arrivals server org id k sound ownerless found own =
    let (requests, admits, is) = receive_all-Admits env arrivals server in
    subst (λ (s : Server). Unmoved org id k server.database s.database) (sym is)
      (whole_run env org id requests server k sound found own
        (Admits-Elsewhere env org server arrivals requests ownerless admits))
