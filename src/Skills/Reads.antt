-- ===== src/Skills/Reads.antt =====
-- The handlers that only read: `list_skills`, `get_active_skills_for_department`, `get_skill` and
-- `get_skill_audit_trail`. A page comes with the number for `X-Total-Count`.
use jarvis_ai_coo.Prelude.{
  ℕ, Text, Option, none, some, List, [], ◌∷◌, ◌++◌, map, Bool, true, not, ◌&&◌, ◌==◌, text_eq,
  option_eq, contains, find, where_, order_by, length, take, drop, leb, if◌then◌else◌,
}
use jarvis_ai_coo.Models.{SkillStatus, active, Skill, SkillVersion, ToolApproval, AuditLog}
use jarvis_ai_coo.Lifecycle.{status_eq}
use jarvis_ai_coo.Errors.{validation_error, skill_not_found, empty_department, multiple_results}
use jarvis_ai_coo.Strings.{strip, is_empty, text_lt}
use jarvis_ai_coo.Database.{
  Action, pure, raise, raise_if, gets, ◌>>=◌, ◌>>◌, select_skills, select_approvals,
  select_audit_logs, versions_of,
}
use jarvis_ai_coo.Schemas.Responses.{
  SkillSummaryOut, summary_out, SkillDetailOut, DepartmentSkillOut, version_out, AuditLogOut,
  audit_out,
}
use jarvis_ai_coo.Skills.Common.{get_skill_or_404, skill_to_detail}

pub record Page (A : Type 0) : Type 0 where
  pub items : List A
  pub total : ℕ

-- `Query(ge=1, le=200)`; the offset is a natural number
unfoldable pub check_limit : ℕ → Action Unit
check_limit limit = raise_if (not (leb 1 limit && leb limit 200)) validation_error

unfoldable pub slice : {A : Type 0} → ℕ → ℕ → List A → List A
slice offset limit xs = take limit (drop offset xs)

-- `ORDER BY` a key, descending. Rows with equal keys keep the order of the table.
abbrev insert_desc : {A : Type 0} → (A → ℕ) → A → List A → List A
insert_desc key x [] = x ∷ []
insert_desc key x (y ∷ ys) = if leb (key y) (key x) then x ∷ y ∷ ys else y ∷ insert_desc key x ys

unfoldable pub order_by_desc : {A : Type 0} → (A → ℕ) → List A → List A
order_by_desc key [] = []
order_by_desc key (x ∷ xs) = insert_desc key x (order_by_desc key xs)

unfoldable pub has_status : Option SkillStatus → Skill → Bool
has_status none skill = true
has_status (some status) skill = skill.status == status

unfoldable pub list_skills : Option SkillStatus → ℕ → ℕ → Action (Page SkillSummaryOut)
unfolding check_limit
list_skills skill_status limit offset = do
  check_limit limit
  base ← gets (λ s. where_ (has_status skill_status) (select_skills s))
  pure (record {
    items = map summary_out (slice offset limit (order_by_desc (λ k. k.created_at) base));
    total = length base;
  })

-- `next((v for v in skill.versions if v.id == skill.active_version_id), None)`
unfoldable pub active_version : Option Text → List SkillVersion → Option SkillVersion
active_version none versions = none
active_version (some id) versions = if is_empty id then none else find (λ v. v.id == id) versions

-- The approved tools of a version: `approved_by_version.get(active.id, set())`.
unfoldable pub approved_tools : SkillVersion → List ToolApproval → List Text
approved_tools version approvals =
    map (λ a. a.tool) (where_ (λ a. a.version_id == version.id) approvals)

-- `sorted` of a set of texts: each once, by code point
unfoldable pub insert_text : Text → List Text → List Text
unfolding text_lt
insert_text t [] = t ∷ []
insert_text t (u ∷ us) =
    let rest = insert_text t us in
    if t == u then u ∷ us else if text_lt t u then t ∷ u ∷ us else u ∷ rest

unfoldable pub sorted_set : List Text → List Text
unfolding insert_text
sorted_set [] = []
sorted_set (t ∷ ts) = insert_text t (sorted_set ts)

-- `sorted(approved & requested)`
unfoldable pub usable_tools : SkillVersion → List ToolApproval → List Text
unfolding approved_tools
usable_tools version approvals =
    sorted_set (where_ (contains (approved_tools version approvals)) version.requested_tools)

-- One round of the loop that builds the payload.
unfoldable pub department_skill :
    List ToolApproval → Skill → Option SkillVersion → List DepartmentSkillOut
department_skill approvals skill none = []
department_skill approvals skill (some version) =
    record {
      skill_id = skill.id;
      name = skill.name;
      department = skill.department;
      version = version_out version;
      approved_tools = usable_tools version approvals;
    }
    ∷ []

-- The loop over the skills, each with its versions.
unfoldable pub department_payload : List Skill → Action (List DepartmentSkillOut)
unfolding active_version department_skill
department_payload [] = pure []
department_payload (skill ∷ skills) = do
  versions ← versions_of skill.id
  approvals ← gets select_approvals
  rest ← department_payload skills
  pure (department_skill approvals skill (active_version skill.active_version_id versions) ++ rest)

-- the `where` of the statement
unfoldable pub runs_in : Text → Skill → Bool
runs_in department skill = skill.status == active && skill.department == department

unfoldable pub get_active_skills_for_department : Text → ℕ → ℕ → Action (Page DepartmentSkillOut)
unfolding check_limit
get_active_skills_for_department department limit offset = do
  check_limit limit
  let cleaned_department = strip department
  raise_if (is_empty cleaned_department) empty_department
  skills ←
      gets
        (λ s. order_by (λ k. k.created_at) (where_ (runs_in cleaned_department) (select_skills s)))
  payload ← department_payload skills
  pure (record { items = slice offset limit payload; total = length payload })

-- `result.scalar_one_or_none()`, and the 404
unfoldable pub one_skill : List Skill → Action Skill
one_skill [] = raise skill_not_found
one_skill (skill ∷ []) = pure skill
one_skill (_ ∷ _ ∷ _) = raise multiple_results

unfoldable pub get_skill : Text → Action SkillDetailOut
unfolding one_skill
get_skill skill_id = do
  rows ← gets (λ s. where_ (λ k. k.id == skill_id) (select_skills s))
  skill ← one_skill rows
  skill_to_detail skill

-- `AuditLog.skill_id == skill_id`, which a null does not meet
unfoldable pub about_skill : Text → AuditLog → Bool
about_skill skill_id row = row.skill_id == some skill_id

unfoldable pub get_skill_audit_trail : Text → ℕ → ℕ → Action (Page AuditLogOut)
unfolding check_limit
get_skill_audit_trail skill_id limit offset = do
  check_limit limit
  skill ← get_skill_or_404 skill_id
  base ← gets (λ s. where_ (about_skill skill_id) (select_audit_logs s))
  pure (record {
    items = map audit_out (slice offset limit (order_by (λ a. a.created_at) base));
    total = length base;
  })
