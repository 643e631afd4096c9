-- ===== src/Registry/Complete.antt =====
-- No active skill is missing from the runtime payload.
use jarvis_ai_coo.Prelude.{
  ℕ, suc, ◌+◌, Text, ◌≡◌, ◌≢◌, refl, sym, ap, ◌∙◌, subst, Bool, true, false, ◌&&◌, ◌==◌, text_eq,
  nat_eq, Option, none, some, List, [], ◌∷◌, ◌++◌, find, where_, order_by, insert_by, length, In,
  All-In, inl, inr, arith, find-In, In-where, In-order_by,
}
use jarvis_ai_coo.Models.{active, Skill, SkillVersion, ToolApproval}
use jarvis_ai_coo.Tenant.{TenantContext}
use jarvis_ai_coo.Strings.{is_empty, strip}
use jarvis_ai_coo.Database.{
  Env, Session, ok, select_skills, select_versions, select_approvals, owned_by, sees_version,
  exists,
}
use jarvis_ai_coo.Schemas.Responses.{DepartmentSkillOut}
use jarvis_ai_coo.Lifecycle.{status_eq}
use jarvis_ai_coo.Skills.{
  Page, runs_in, active_version, department_skill, get_active_skills_for_department,
}
use jarvis_ai_coo.Skills.Runtime.{items_of, page_of, handler_page}
use jarvis_ai_coo.Registry.Sound.{IsSound, Points, PointsToVersion, version_at}

-- what is in a list is in what is kept of it, in any order
In-kept :
    {A : Type 0} (p : A → Bool) (x : A) (xs : List A) → In x xs → p x ≡ true → In x (where_ p xs)
unfolding where_
In-kept p x [] m h = m
In-kept p x (y ∷ ys) m h = ground (arith, In-kept p x ys)

In-inserted :
    {A : Type 0} (key : A → ℕ) (x y : A) (ys : List A) → In x (y ∷ ys) → In x (insert_by key y ys)
In-inserted key x y [] m = m
In-inserted key x y (z ∷ zs) m = ground (arith, In-inserted key x y zs)

In-ordered : {A : Type 0} (key : A → ℕ) (x : A) (xs : List A) → In x xs → In x (order_by key xs)
unfolding order_by
In-ordered key x [] m = m
In-ordered key x (y ∷ ys) (inl e) = In-inserted key x y (order_by key ys) (inl e)
In-ordered key x (y ∷ ys) (inr m) =
    In-inserted key x y (order_by key ys) (inr (In-ordered key x ys m))

find_some :
    {A : Type 0} (p : A → Bool) (x : A) (xs : List A) → In x xs → p x ≡ true → find p xs ≢ none
unfolding find
find_some p x [] m h = elim m [ ]
find_some p x (y ∷ ys) m h = ground (arith, find_some p x ys)

length-inserted :
    {A : Type 0} (key : A → ℕ) (y : A) (ys : List A) → length (insert_by key y ys) ≡ suc (length ys)
length-inserted key y [] = refl
length-inserted key y (z ∷ zs) = ground (arith, length-inserted key y zs)

length-order_by : {A : Type 0} (key : A → ℕ) (xs : List A) → length (order_by key xs) ≡ length xs
unfolding order_by
length-order_by key [] = refl
length-order_by key (y ∷ ys) =
    length-inserted key y (order_by key ys) ∙ ap suc (length-order_by key ys)

length-append : {A : Type 0} (xs ys : List A) → length (xs ++ ys) ≡ length xs + length ys
length-append [] ys = omega arith
length-append (x ∷ xs) ys = omega (arith, length-append xs ys)

-- the version that the loop looks for, among those of the skill that the tenant sees
versions_seen : Session → Skill → List SkillVersion
versions_seen s k =
    order_by (λ v. v.version_number) (where_ (λ v. v.skill_id == k.id) (select_versions s))

one_item :
    (approvals : List ToolApproval) (k : Skill) (o : Option SkillVersion)
    → o ≢ none
    → length (department_skill approvals k o) ≡ 1
unfolding department_skill
one_item approvals k none n = absurd (n refl)
one_item approvals k (some v) n = refl

exists_here :
    (context : TenantContext) (k : Skill) (ks : List Skill)
    → In k ks
    → k.organization_id ≡ context.organization_id
    → exists (λ j. j.id == k.id && j.organization_id == context.organization_id) ks ≡ true
unfolding exists find
exists_here context k [] m h = elim m [ ]
exists_here context k (j ∷ ks) m h = ground (arith, exists_here context k ks)

-- an id that names a version is not empty
not_empty :
    (vs : List SkillVersion) (w : SkillVersion)
    → version_at [] vs ≡ none
    → version_at w.id vs ≡ some w
    → is_empty w.id ≡ false
unfolding is_empty
not_empty vs w none_empty there = by_id w.id there
  where
    by_id : (id : Text) → version_at id vs ≡ some w → is_empty id ≡ false
    by_id [] h = cc (h, none_empty)
    by_id (c ∷ id) h = refl

seen :
    (context : TenantContext) (skills : List Skill) (k : Skill) (w : SkillVersion)
    → In k skills
    → k.organization_id ≡ context.organization_id
    → w.skill_id ≡ k.id
    → sees_version (some context) skills w ≡ true
unfolding sees_version
seen context skills k w m own of =
    subst
      (λ id. exists (λ j. j.id == id && j.organization_id == context.organization_id) skills ≡ true)
      (sym of) (exists_here context k skills m own)

-- the lookup of the loop, at the version that the id names
finds :
    (s : Session) (k : Skill) (id : Option Text) (w : SkillVersion)
    → id ≡ some w.id
    → is_empty w.id ≡ false
    → In w (versions_seen s k)
    → active_version id (versions_seen s k) ≢ none
unfolding active_version
finds s k id w named given there =
    subst (λ i. active_version i (versions_seen s k) ≢ none) (sym named)
      (rw given (find_some (λ v. v.id == w.id) w (versions_seen s k) there (ground arith)))

module _ (env : Env) (context : TenantContext) (s : Session) (tenant : s.tenant ≡ some context)
    (sound : IsSound env s.working)
    (no_empty_id : version_at [] s.working.skill_versions ≡ none) where
  -- an active skill that the tenant sees has its version there
  has_version :
      (k : Skill)
      → In k (select_skills s)
      → k.status ≡ active
      → active_version k.active_version_id (versions_seen s k) ≢ none
  unfolding versions_seen select_skills select_versions owned_by
  has_version k m is_active =
      let (there, own) = In-where (λ j. owned_by s.tenant j.organization_id) k s.working.skills m in
      let own' : k.organization_id ≡ context.organization_id =
        (ground (arith, subst (λ t. owned_by t k.organization_id ≡ true) tenant own)) in
      let (w, at_w, named, of) =
        subst (Points s.working.skill_versions k.id k.active_version_id) is_active (
          All-In (PointsToVersion s.working.skill_versions) k s.working.skills sound.pointers
            there) in
      let (in_w, _) = find-In (λ v. v.id == w.id) w s.working.skill_versions at_w in
      let is_seen : sees_version s.tenant s.working.skills w ≡ true =
        subst (λ t. sees_version t s.working.skills w ≡ true) (sym tenant)
          (seen context s.working.skills k w there own' of) in
      finds s k k.active_version_id w named (not_empty s.working.skill_versions w no_empty_id at_w)
        (In-ordered (λ v. v.version_number) w _
          (In-kept (λ v. v.skill_id == k.id) w _
            (In-kept (sees_version s.tenant s.working.skills) w s.working.skill_versions in_w
              is_seen)
            (ground arith)))

  items_count :
      (department : Text) (ks : List Skill)
      → ((k : Skill) → In k ks → In k (select_skills s) × (runs_in department k ≡ true))
      → length (items_of s ks) ≡ length ks
  unfolding items_of runs_in versions_seen
  items_count department [] good = refl
  items_count department (k ∷ ks) good =
      let (m, runs) = good k (inl refl) in
      let active_k : k.status ≡ active = ground arith in
      length-append _ (items_of s ks)
      ∙ omega (
        arith,
        items_count department ks (λ j n. good j (inr n)),
        one_item (select_approvals s) k (active_version k.active_version_id (versions_seen s k))
            (has_version k m active_k),
      )

  -- From sound tables in which no version has the empty id, the runtime payload of a department has an
  -- entry for each active skill of the department that the tenant sees, so that none is dropped for want
  -- of its version: the number in `X-Total-Count` is the number of those skills.
  pub get_active_skills_for_department_total :
      (t : Session) (department : Text) (limit offset : ℕ) (page : Page DepartmentSkillOut)
      → get_active_skills_for_department department limit offset s ≡ (ok page, t)
      → page.total ≡ length (where_ (runs_in (strip department)) (select_skills s))
  unfolding page_of
  get_active_skills_for_department_total t department limit offset page h =
      ap (λ (p : Page DepartmentSkillOut). p.total)
        (handler_page s t department limit offset page h)
      ∙ (items_count (strip department) _ (λ k m.
            In-where (runs_in (strip department)) k (select_skills s)
              (In-order_by (λ j. j.created_at) k _ m))
          ∙ length-order_by (λ k. k.created_at) _)
