-- ===== src/Skills/Runtime.antt =====
-- Runtime selection: what `get_active_skills_for_department` lets through.
use jarvis_ai_coo.Prelude.{
  ℕ, Text, ◌≡◌, refl, sym, ap, ◌∙◌, subst, Option, none, some, List, [], ◌∷◌, ◌++◌, true, ◌&&◌,
  ◌||◌, ◌==◌, text_eq, option_eq, contains, where_, order_by, In, length, take, drop, arith, inl,
  inr, Bool-cases, find-In, In-where, In-order_by, In-append, In-take, In-drop, contains-where,
}
use jarvis_ai_coo.Models.{active, Skill, SkillVersion, ToolApproval}
use jarvis_ai_coo.Lifecycle.{status_eq}
use jarvis_ai_coo.Strings.{strip, is_empty}
use jarvis_ai_coo.Database.{
  Session, ok, ◌>>=◌, select_skills, select_versions, select_approvals, versions_of,
}
use jarvis_ai_coo.Schemas.Responses.{DepartmentSkillOut, version_out}
use jarvis_ai_coo.Skills.Reads.{
  Page, check_limit, slice, active_version, approved_tools, insert_text, sorted_set, usable_tools,
  department_skill, department_payload, runs_in, get_active_skills_for_department,
}

contains-insert_text :
    (t u : Text) (ts : List Text) → contains (insert_text t ts) u ≡ (u == t || contains ts u)
unfolding insert_text
contains-insert_text t u [] = refl
contains-insert_text t u (s ∷ ts) = ground (arith, contains-insert_text t u ts)

contains-sorted_set : (u : Text) (ts : List Text) → contains (sorted_set ts) u ≡ contains ts u
unfolding sorted_set
contains-sorted_set u [] = refl
contains-sorted_set u (t ∷ ts) =
    contains-insert_text t u (sorted_set ts) ∙ ap (λ b. u == t || b) (contains-sorted_set u ts)

-- The tools of a payload are those that the version requests and an approval of the version names.
pub contains-usable_tools :
    (v : SkillVersion) (approvals : List ToolApproval) (tool : Text)
    → contains (usable_tools v approvals) tool
      ≡ (contains v.requested_tools tool && contains (approved_tools v approvals) tool)
unfolding usable_tools
contains-usable_tools v approvals tool =
    contains-sorted_set tool _
    ∙ contains-where (contains (approved_tools v approvals)) tool v.requested_tools

-- The payload of the loop, read off a session.
unfoldable pub items_of : Session → List Skill → List DepartmentSkillOut
items_of s [] = []
items_of s (k ∷ ks) =
    department_skill (select_approvals s) k (
      active_version k.active_version_id
        (order_by (λ v. v.version_number) (where_ (λ v. v.skill_id == k.id) (select_versions s))))
    ++ items_of s ks

department_payload-eq :
    (s : Session) (ks : List Skill) → department_payload ks s ≡ (ok (items_of s ks), s)
unfolding department_payload items_of versions_of ◌>>=◌
department_payload-eq s [] = refl
department_payload-eq s (k ∷ ks) = rw (department_payload-eq s ks)

-- An entry of the runtime payload for a department, in a tenant's session: it is an active skill of
-- the department that the tenant sees, with the version that the skill's `active_version_id` names, a
-- version of that skill that the tenant sees. Its tools are exactly those that the version requests
-- and an approval that the tenant sees grants for that version.
pub record IsRunnable (s : Session) (department : Text) (item : DepartmentSkillOut) : Type 0 where
  pub skill : Skill
  pub version : SkillVersion
  pub seen : In skill (select_skills s)
  pub is_active : skill.status ≡ active
  pub in_department : skill.department ≡ department
  pub skill_id : item.skill_id ≡ skill.id
  pub version_seen : In version (select_versions s)
  pub version_named : skill.active_version_id ≡ some version.id
  pub version_of_skill : version.skill_id ≡ skill.id
  pub payload : item.version ≡ version_out version
  pub tools :
      (tool : Text)
      → contains item.approved_tools tool ≡ (
          contains version.requested_tools tool
          && contains (approved_tools version (select_approvals s)) tool)

same_text : {a b : Text} → (a == b) ≡ true → a ≡ b
same_text h = ground arith

runs :
    (department : Text) (k : Skill)
    → runs_in department k ≡ true
    → (k.status ≡ active) × (k.department ≡ department)
unfolding runs_in
runs department k h = ground arith

active_version_found :
    (id : Option Text) (vs : List SkillVersion) (v : SkillVersion)
    → active_version id vs ≡ some v
    → In v vs × (id ≡ some v.id)
unfolding active_version
active_version_found none vs v h = cc
active_version_found (some id) vs v h = elim (Bool-cases (is_empty id)) [
  | inl blank ↦ cc (rw blank at h)
  | inr given ↦
      let (there, same) = find-In (λ w. w.id == id) v vs (rw given at h) in
      (there, ap some (sym (same_text same)))
]

department_skill-IsRunnable :
    (s : Session) (department : Text) (k : Skill) (found : Option SkillVersion)
    (item : DepartmentSkillOut)
    → In k (select_skills s)
    → runs_in department k ≡ true
    → active_version k.active_version_id
        (order_by (λ v. v.version_number) (where_ (λ v. v.skill_id == k.id) (select_versions s)))
      ≡ found
    → In item (department_skill (select_approvals s) k found)
    → IsRunnable s department item
unfolding department_skill
department_skill-IsRunnable s department k none item seen runs e m = elim m [ ]
department_skill-IsRunnable s department k (some v) item seen is_run e (inr m) = elim m [ ]
department_skill-IsRunnable s department k (some v) item seen is_run e (inl m) =
    let (found, named) = active_version_found k.active_version_id _ v e in
    let (of_skill, belongs) =
      In-where (λ w. w.skill_id == k.id) v _ (In-order_by (λ w. w.version_number) v _ found) in
    let (is_active, in_department) = runs department k is_run in
    record {
      skill = k;
      version = v;
      seen = seen;
      is_active = is_active;
      in_department = in_department;
      skill_id = ap (λ (d : DepartmentSkillOut). d.skill_id) m;
      version_seen = of_skill;
      version_named = named;
      version_of_skill = same_text belongs;
      payload = ap (λ (d : DepartmentSkillOut). d.version) m;
      tools = λ tool.
          ap (λ (d : DepartmentSkillOut). contains d.approved_tools tool) m
          ∙ contains-usable_tools v (select_approvals s) tool;
    }

items_of-IsRunnable :
    (s : Session) (department : Text) (ks : List Skill) (item : DepartmentSkillOut)
    → ((k : Skill) → In k ks → In k (select_skills s) × (runs_in department k ≡ true))
    → In item (items_of s ks)
    → IsRunnable s department item
unfolding items_of
items_of-IsRunnable s department [] item good m = elim m [ ]
items_of-IsRunnable s department (k ∷ ks) item good m = elim (In-append item _ (items_of s ks) m) [
  | inl here ↦
      department_skill-IsRunnable s department k _ item (good k (inl refl)).0 (good k (inl refl)).1
        refl here
  | inr there ↦ items_of-IsRunnable s department ks item (λ j mem. good j (inr mem)) there
]

-- the page that the handler returns, where its checks pass
unfoldable pub page_of : Session → Text → ℕ → ℕ → Page DepartmentSkillOut
unfolding items_of slice
page_of s department limit offset =
    let payload =
      items_of s (order_by (λ k. k.created_at) (where_ (runs_in department) (select_skills s))) in
    record { items = take limit (drop offset payload); total = length payload }

pub handler_page :
    (s t : Session) (department : Text) (limit offset : ℕ) (page : Page DepartmentSkillOut)
    → get_active_skills_for_department department limit offset s ≡ (ok page, t)
    → page ≡ page_of s (strip department) limit offset
unfolding get_active_skills_for_department check_limit page_of slice ◌>>=◌
handler_page s t department limit offset page h = ground (
  arith,
  department_payload-eq s
      (order_by (λ k. k.created_at) (where_ (runs_in (strip department)) (select_skills s))),
)

-- Every entry that `get_active_skills_for_department` returns is runnable (`IsRunnable`): no draft, no
-- disabled skill, no skill of another department or tenant, no version but the active one, and no
-- tool without an approval for that version; and every requested tool with an approval is there.
pub get_active_skills_for_department-IsRunnable :
    (s t : Session) (department : Text) (limit offset : ℕ) (page : Page DepartmentSkillOut)
    (item : DepartmentSkillOut)
    → get_active_skills_for_department department limit offset s ≡ (ok page, t)
    → In item page.items
    → IsRunnable s (strip department) item
unfolding page_of
get_active_skills_for_department-IsRunnable s t department limit offset page item h m =
    items_of-IsRunnable s (strip department) _ item
      (λ k mem.
        In-where (runs_in (strip department)) k (select_skills s)
          (In-order_by (λ j. j.created_at) k _ mem))
      (In-drop offset item _ (
        In-take limit item _ (
          subst (λ (p : Page DepartmentSkillOut). In item p.items)
            (handler_page s t department limit offset page h) m)))
