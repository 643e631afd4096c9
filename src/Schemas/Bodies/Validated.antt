-- ===== src/Schemas/Bodies/Validated.antt =====
-- What the validation of a body guarantees of the payload.
use jarvis_ai_coo.Prelude.{Text, true, false, text_eq, nat_eq, Option, none, some, List, []}
use jarvis_ai_coo.Database.{Env}
use jarvis_ai_coo.Schemas.Payloads.{SkillDraftCreateIn, SkillDraftUpdateIn, SkillVersionCreateIn}
use jarvis_ai_coo.Schemas.Bodies.{
  Given, absent, null, malformed, value, DefinitionBody, check_tools, required, defaulted, nullable,
  check_name, check_description, check_department, check_content, validate_create, validate_version,
  validate_update, ◌>>=◌,
}
use jarvis_ai_coo.Schemas.Bodies.Fields.{
  IsText, IsCatalogued, IsClean, Every, checked_text, checked_tools, no_tools, no_description,
}

module _ {A : Type 0} (P : A → Type 0) (check : A → Option A)
    (checked : (a : A) → Every P (check a)) where
  pub required-Every : (field : Given A) → Every P (required check field)
  required-Every absent = tt
  required-Every null = tt
  required-Every malformed = tt
  required-Every (value a) = checked a

  pub defaulted-Every :
      (default : A) → P default → (field : Given A) → Every P (defaulted default check field)
  defaulted-Every default h absent = h
  defaulted-Every default h null = tt
  defaulted-Every default h malformed = tt
  defaulted-Every default h (value a) = checked a

  pub nullable-Every : (field : Given A) → Every (Every P) (nullable check field)
  nullable-Every absent = tt
  nullable-Every null = tt
  nullable-Every malformed = tt
  nullable-Every (value a) = lifted (check a) (checked a)
    where
      lifted : (o : Option A) → Every P o → Every (Every P) (o >>= λ b. some (some b))
      lifted none h = tt
      lifted (some b) h = h

-- the chain: what holds of each field holds of the payload
bind-Every :
    {A B : Type 0} (P : A → Type 0) (Q : B → Type 0) (o : Option A) (f : A → Option B)
    → Every P o
    → ((a : A) → P a → Every Q (f a))
    → Every Q (o >>= f)
bind-Every P Q none f h k = tt
bind-Every P Q (some a) f h k = k a h

abbrev pub IsCleanDraft : Env → SkillDraftCreateIn → Type 0
IsCleanDraft env p = IsClean env p.name p.description p.department p.content p.requested_tools

abbrev pub IsCleanVersion : Env → SkillVersionCreateIn → Type 0
IsCleanVersion env p = IsClean env p.name p.description p.department p.content p.requested_tools

-- What is given is as it may be stored.
pub record IsCleanUpdate (env : Env) (p : SkillDraftUpdateIn) : Type 0 where
  pub name_text : Every (IsText env 1 255) p.name
  pub description_text : Every (IsText env 0 4000) p.description
  pub department_text : Every (IsText env 1 128) p.department
  pub content_text : Every (IsText env 1 50000) p.content
  pub catalogued : Every IsCatalogued p.requested_tools

module _ (env : Env) (body : DefinitionBody) where
  fields_of :
      {B : Type 0} (Q : B → Type 0) (f : Text → Text → Text → Text → List Text → Option B)
      → ((n d p c : Text) (ts : List Text) → IsClean env n d p c ts → Every Q (f n d p c ts))
      → Every Q (
          required (check_name env) body.name >>= λ n.
          defaulted [] (check_description env) body.description >>= λ d.
          required (check_department env) body.department >>= λ p.
          required (check_content env) body.content >>= λ c.
          defaulted [] (check_tools env) body.requested_tools >>= λ ts. f n d p c ts)
  unfolding check_name check_description check_department check_content
  fields_of Q f k =
      bind-Every _ Q _ _
        (required-Every (IsText env 1 255) _ (checked_text env false 1 255) body.name)
        λ n hn.
          bind-Every _ Q _ _
            (defaulted-Every (IsText env 0 4000) _ (checked_text env true 0 4000) []
              (no_description env) body.description)
            λ d hd.
              bind-Every _ Q _ _
                (required-Every (IsText env 1 128) _ (checked_text env false 1 128) body.department)
                λ p hp.
                  bind-Every _ Q _ _
                    (required-Every (IsText env 1 50000) _ (checked_text env false 1 50000)
                      body.content)
                    λ c hc.
                      bind-Every _ Q _ _
                        (defaulted-Every IsCatalogued _ (checked_tools env) [] no_tools
                          body.requested_tools)
                        λ ts ht. k n d p c ts (record {
                          name_text = hn;
                          description_text = hd;
                          department_text = hp;
                          content_text = hc;
                          catalogued = ht;
                        })

  pub validated_create : Every (IsCleanDraft env) (validate_create env body)
  unfolding validate_create
  validated_create = fields_of (IsCleanDraft env) _ (λ n d p c ts h. h)

  pub validated_version : Every (IsCleanVersion env) (validate_version env body)
  unfolding validate_version
  validated_version = fields_of (IsCleanVersion env) _ (λ n d p c ts h. h)

  pub validated_update : Every (IsCleanUpdate env) (validate_update env body)
  unfolding validate_update check_name check_description check_department check_content
  validated_update =
      bind-Every (Every (IsText env 1 255)) (IsCleanUpdate env) _ _
        (nullable-Every (IsText env 1 255) _ (checked_text env false 1 255) body.name)
        λ n hn.
          bind-Every (Every (IsText env 0 4000)) (IsCleanUpdate env) _ _
            (nullable-Every (IsText env 0 4000) _ (checked_text env true 0 4000) body.description)
            λ d hd.
              bind-Every (Every (IsText env 1 128)) (IsCleanUpdate env) _ _
                (nullable-Every (IsText env 1 128) _ (checked_text env false 1 128) body.department)
                λ p hp.
                  bind-Every (Every (IsText env 1 50000)) (IsCleanUpdate env) _ _
                    (nullable-Every (IsText env 1 50000) _ (checked_text env false 1 50000)
                      body.content)
                    λ c hc.
                      bind-Every (Every IsCatalogued) (IsCleanUpdate env) _ _
                        (nullable-Every IsCatalogued _ (checked_tools env) body.requested_tools)
                        λ ts ht. record {
                          name_text = hn;
                          description_text = hd;
                          department_text = hp;
                          content_text = hc;
                          catalogued = ht;
                        }
