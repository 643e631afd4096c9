-- ===== src/Reading/View.antt =====
-- What a session shows of the tables, and actions that depend on nothing else and change nothing.
use jarvis_ai_coo.Prelude.{
  ℕ, Text, ◌≡◌, refl, sym, ap, ◌∙◌, Bool, Option, none, some, List, [], ◌∷◌, where_, order_by, find,
  ◌==◌, text_eq,
}
use jarvis_ai_coo.Errors.{Error}
use jarvis_ai_coo.Models.{SkillStatus, Skill}
use jarvis_ai_coo.Strings.{strip}
use jarvis_ai_coo.Database.{
  Session, Result, ok, raised, Action, pure, raise, or_raise, raise_if, gets, resume, ◌>>=◌,
  select_skills, select_versions, select_approvals, select_audit_logs, versions_of, get_skill_row,
}
use jarvis_ai_coo.Skills.{
  check_limit, has_status, list_skills, department_payload, get_active_skills_for_department,
  runs_in, one_skill, get_skill, about_skill, get_skill_audit_trail, get_skill_or_404,
  skill_to_detail,
}
use jarvis_ai_coo.Reading.{Query, list, in_department, one, trail, look_up}

-- Two sessions show the same rows.
pub record SameView (s t : Session) : Type 0 where
  pub skills : select_skills t ≡ select_skills s
  pub versions : select_versions t ≡ select_versions s
  pub approvals : select_approvals t ≡ select_approvals s
  pub audit_logs : select_audit_logs t ≡ select_audit_logs s

pub record Reads {A : Type 0} (m : Action A) : Type 0 where
  pub still : (s : Session) → (m s).1 ≡ s
  pub same : (s t : Session) → SameView s t → (m t).0 ≡ (m s).0

Reads-pure : {A : Type 0} (a : A) → Reads (pure a)
unfolding pure
Reads-pure a = record { still = λ s. refl; same = λ s t v. refl }

Reads-raise : {A : Type 0} (e : Error) → Reads (raise {A = A} e)
unfolding raise
Reads-raise e = record { still = λ s. refl; same = λ s t v. refl }

Reads-or_raise : {A : Type 0} (o : Option A) (e : Error) → Reads (or_raise o e)
unfolding or_raise
Reads-or_raise none e = record { still = λ s. refl; same = λ s t v. refl }
Reads-or_raise (some a) e = record { still = λ s. refl; same = λ s t v. refl }

Reads-raise_if : (b : Bool) (e : Error) → Reads (raise_if b e)
unfolding raise_if
Reads-raise_if b e = record { still = λ s. refl; same = λ s t v. refl }

Reads-gets :
    {A : Type 0} (f : Session → A) → ((s t : Session) → SameView s t → f t ≡ f s) → Reads (gets f)
unfolding gets
Reads-gets f k = record { still = λ s. refl; same = λ s t v. ap ok (k s t v) }

module _ {A B : Type 0} (f : A → Action B) (kf : (a : A) → Reads (f a)) where
  resume_still : (r : Result A) (s : Session) → (resume r f s).1 ≡ s
  resume_still (ok a) s = (kf a).still s
  resume_still (raised e) s = refl

  resume_same : (r : Result A) (s t : Session) → SameView s t → (resume r f t).0 ≡ (resume r f s).0
  resume_same (ok a) s t v = (kf a).same s t v
  resume_same (raised e) s t v = refl

  Reads-bind : (m : Action A) → Reads m → Reads (m >>= f)
  unfolding ◌>>=◌
  Reads-bind m km = record {
    still = λ s. resume_still (m s).0 (m s).1 ∙ km.still s;
    same = λ s t v.
        ap (λ r. (resume r f (m t).1).0) (km.same s t v)
        ∙ (ap (λ u. (resume (m s).0 f u).0) (km.still t)
            ∙ (resume_same (m s).0 s t v ∙ ap (λ u. (resume (m s).0 f u).0) (sym (km.still s))));
  }

versions_of-Reads : (id : Text) → Reads (versions_of id)
unfolding versions_of
versions_of-Reads id = Reads-gets _ λ s t v.
    ap (λ vs. order_by (λ w. w.version_number) (where_ (λ w. w.skill_id == id) vs)) v.versions

skill_to_detail-Reads : (k : Skill) → Reads (skill_to_detail k)
unfolding skill_to_detail
skill_to_detail-Reads k = Reads-bind _ (λ vs. Reads-pure _) _ (versions_of-Reads k.id)

get_skill_or_404-Reads : (id : Text) → Reads (get_skill_or_404 id)
unfolding get_skill_or_404 get_skill_row
get_skill_or_404-Reads id =
    Reads-bind _ (λ row. Reads-or_raise row _) _
      (Reads-gets _ λ s t v. ap (find (λ k. k.id == id)) v.skills)

list_skills-Reads :
    (status : Option SkillStatus) (limit offset : ℕ) → Reads (list_skills status limit offset)
unfolding list_skills check_limit
list_skills-Reads status limit offset =
    Reads-bind _
      (λ _.
        Reads-bind _ (λ base. Reads-pure _) _
          (Reads-gets _ λ s t v. ap (where_ (has_status status)) v.skills))
      _ (Reads-raise_if _ _)

department_payload-Reads : (ks : List Skill) → Reads (department_payload ks)
unfolding department_payload
department_payload-Reads [] = Reads-pure _
department_payload-Reads (k ∷ ks) =
    Reads-bind _
      (λ vs.
        Reads-bind _
          (λ approvals. Reads-bind _ (λ rest. Reads-pure _) _ (department_payload-Reads ks)) _
          (Reads-gets select_approvals λ s t v. v.approvals))
      _ (versions_of-Reads k.id)

department-Reads :
    (department : Text) (limit offset : ℕ)
    → Reads (get_active_skills_for_department department limit offset)
unfolding get_active_skills_for_department check_limit
department-Reads department limit offset =
    Reads-bind _
      (λ _.
        Reads-bind _
          (λ _.
            Reads-bind _
              (λ ks. Reads-bind _ (λ payload. Reads-pure _) _ (department_payload-Reads ks)) _
              (Reads-gets _ λ s t v.
                ap (λ ks. order_by (λ k. k.created_at) (where_ (runs_in (strip department)) ks))
                  v.skills))
          _ (Reads-raise_if _ _))
      _ (Reads-raise_if _ _)

one_skill-Reads : (ks : List Skill) → Reads (one_skill ks)
unfolding one_skill
one_skill-Reads [] = Reads-raise _
one_skill-Reads (k ∷ []) = Reads-pure k
one_skill-Reads (_ ∷ _ ∷ _) = Reads-raise _

get_skill-Reads : (id : Text) → Reads (get_skill id)
unfolding get_skill
get_skill-Reads id =
    Reads-bind _ (λ rows. Reads-bind _ (λ k. skill_to_detail-Reads k) _ (one_skill-Reads rows)) _
      (Reads-gets _ λ s t v. ap (where_ (λ k. k.id == id)) v.skills)

trail-Reads : (id : Text) (limit offset : ℕ) → Reads (get_skill_audit_trail id limit offset)
unfolding get_skill_audit_trail check_limit
trail-Reads id limit offset =
    Reads-bind _
      (λ _.
        Reads-bind _
          (λ k.
            Reads-bind _ (λ base. Reads-pure _) _
              (Reads-gets _ λ s t v. ap (where_ (about_skill id)) v.audit_logs))
          _ (get_skill_or_404-Reads id))
      _ (Reads-raise_if _ _)

-- every route that reads
pub look_up-Reads : (q : Query) → Reads (look_up q)
unfolding look_up
look_up-Reads (list status limit offset) =
    Reads-bind _ (λ page. Reads-pure _) _ (list_skills-Reads status limit offset)
look_up-Reads (in_department department limit offset) =
    Reads-bind _ (λ page. Reads-pure _) _ (department-Reads department limit offset)
look_up-Reads (one id) = Reads-bind _ (λ out. Reads-pure _) _ (get_skill-Reads id)
look_up-Reads (trail id limit offset) =
    Reads-bind _ (λ page. Reads-pure _) _ (trail-Reads id limit offset)
